-- ===== src/Audit/Batch/Whole.antt =====
-- `runAuditedBatch` and `runAuditedOperation` of packages/audit/src/writer.ts as a whole.
use sso_requests.Base.{
  ℕ, ◌≡◌, refl, Bool, false, List, [], ◌∷◌, ◌++◌, map, Option, none, some, String, arith, inl, inr,
  Bool-cases, sym, subst, ◌∙◌,
}
use sso_requests.Audit.Event.{AuditOperation}
use sso_requests.Audit.Writer.{
  World, Surroundings, with_operation_id, Item, Child, Result, run_audited_operation, rejected,
  insert_error, request_all,
}
use sso_requests.Audit.Writer.Tally.{Tally, on_id}
use sso_requests.Audit.Batch.{
  children_of, BatchOptions, BatchItemResult, run_under_parent, run_single, run_audited_batch,
}
use sso_requests.Audit.Batch.Requested.{with_operation_id-log, children_of-log, children_of-total}
use sso_requests.Audit.Batch.Growth.{append_nil}
use sso_requests.Audit.Batch.Parent.{result_id, operation_id_of, ResultsTally}
use sso_requests.Audit.Batch.Laws.{
  parent_operation, child_operations, child_operations_under, parent_operations, RequestedFirst,
  run_requested-RequestedFirst, run_requested-ids, run_requested-Tally, run_single-RequestedFirst,
  run_single-ids, run_single-Tally,
}

module _ {A : Type 0} (s : Surroundings) (parent : AuditOperation) (options : BatchOptions)
    (w : World) where
  own_children : List (Item A) → List (Child A) × World
  own_children items =
      children_of s (parent_operation s parent w).operation_id items
        (with_operation_id s parent none w).1

  same_log : (items : List (Item A)) → (own_children items).1.log ≡ w.log
  unfolding own_children
  same_log items =
      children_of-log s (parent_operation s parent w).operation_id items
        (with_operation_id s parent none w).1
      ∙ with_operation_id-log s parent none w

  run_under_parent-RequestedFirst :
      (items : List (Item A))
      → RequestedFirst
          (parent_operation s parent w ∷ child_operations_under s parent items w)
          w.log
          (run_under_parent s parent items options w)
  unfolding run_under_parent own_children
  run_under_parent-RequestedFirst items =
      let (children, w₂) = own_children items in
      subst
        (λ l.
          RequestedFirst (parent_operation s parent w ∷ child_operations_under s parent items w) l
            (run_under_parent s parent items options w))
        (same_log items)
        (run_requested-RequestedFirst s (parent_operation s parent w) options children w₂)

  run_under_parent-ids :
      (items : List (Item A)) (results : List (BatchItemResult A))
      → (run_under_parent s parent items options w).0 ≡ some results
      → map result_id results ≡ map operation_id_of (child_operations_under s parent items w)
  unfolding run_under_parent own_children
  run_under_parent-ids items results h =
      run_requested-ids s (parent_operation s parent w) options (own_children items).0
        (own_children items).1 results h

  run_under_parent-Tally :
      (items : List (Item A)) (p : String → Bool) (i j k : ℕ) (results : List (BatchItemResult A))
      → on_id p (parent_operation s parent w).operation_id ≡ false
      → Tally p w.log i j k
      → (run_under_parent s parent items options w).0 ≡ some results
      → ResultsTally p (run_under_parent s parent items options w).1.log results i j k
  unfolding run_under_parent own_children
  run_under_parent-Tally items p i j k results other t h =
      let (children, w₂) = own_children items in
      let (a, b, c) =
        children_of-total s (parent_operation s parent w).operation_id p items
          (with_operation_id s parent none w).1 in
      run_requested-Tally s (parent_operation s parent w) options p children w₂ i j k results other
        (ground (arith, same_log items)) h

module _ {A : Type 0} (s : Surroundings) (parent : AuditOperation) (options : BatchOptions)
    (w : World) where
  -- A batch stores the `requested` rows of its parent and of all its operations, in order, before
  -- anything else happens; or it throws, and nothing happens but at most the alert of such a row.
  pub run_audited_batch-RequestedFirst :
      (items : List (Item A))
      → RequestedFirst
          (parent_operations s parent items options w ++ child_operations s parent items options w)
          w.log
          (run_audited_batch s parent items options w)
  unfolding run_audited_batch
  run_audited_batch-RequestedFirst [] = elim (Bool-cases options.always) [
    | inl always ↦ rw always (run_under_parent-RequestedFirst s parent options w [])
    | inr multiple ↦ rw multiple (inl ([], [], [], refl, sym (append_nil _ ∙ append_nil w.log), tt))
  ]
  run_audited_batch-RequestedFirst (item ∷ []) = elim (Bool-cases options.always) [
    | inl always ↦ rw always (run_under_parent-RequestedFirst s parent options w (item ∷ []))
    | inr multiple ↦ rw multiple (run_single-RequestedFirst s item w)
  ]
  run_audited_batch-RequestedFirst (item ∷ item' ∷ items) =
      run_under_parent-RequestedFirst s parent options w (item ∷ item' ∷ items)

  -- A batch that returns has a result for every operation, in item order, whatever the concurrency and
  -- the interleaving.
  pub run_audited_batch-ids :
      (items : List (Item A)) (results : List (BatchItemResult A))
      → (run_audited_batch s parent items options w).0 ≡ some results
      → map result_id results ≡ map operation_id_of (child_operations s parent items options w)
  unfolding run_audited_batch
  run_audited_batch-ids [] results h = elim (Bool-cases options.always) [
    | inl always ↦ rw always (run_under_parent-ids s parent options w [] results (rw always at h))
    | inr multiple ↦ ground arith
  ]
  run_audited_batch-ids (item ∷ []) results h = elim (Bool-cases options.always) [
    | inl always ↦
        rw always (run_under_parent-ids s parent options w (item ∷ []) results (rw always at h))
    | inr multiple ↦ rw multiple (run_single-ids s item w results (rw multiple at h))
  ]
  run_audited_batch-ids (item ∷ item' ∷ items) results h =
      run_under_parent-ids s parent options w (item ∷ item' ∷ items) results h

  -- Where a batch returns, any set of operations without the parent has been called once for each of its
  -- results, has a `success` row with its mirror writes for each result that is fulfilled, and a
  -- `failure` row or the alert in place of it for each that is rejected, on top of what was there.
  pub run_audited_batch-Tally :
      (items : List (Item A)) (p : String → Bool) (i j k : ℕ) (results : List (BatchItemResult A))
      → on_id p (parent_operation s parent w).operation_id ≡ false
      → Tally p w.log i j k
      → (run_audited_batch s parent items options w).0 ≡ some results
      → ResultsTally p (run_audited_batch s parent items options w).1.log results i j k
  unfolding run_audited_batch
  run_audited_batch-Tally [] p i j k results other t h = elim (Bool-cases options.always) [
    | inl always ↦
        rw always
          (run_under_parent-Tally s parent options w [] p i j k results other t (rw always at h))
    | inr multiple ↦ ground arith
  ]
  run_audited_batch-Tally (item ∷ []) p i j k results other t h = elim (Bool-cases options.always) [
    | inl always ↦ rw always (
        run_under_parent-Tally s parent options w (item ∷ []) p i j k results other t
          (rw always at h))
    | inr multiple ↦ rw multiple (run_single-Tally s p item w i j k results t (rw multiple at h))
  ]
  run_audited_batch-Tally (item ∷ item' ∷ items) p i j k results other t h =
      run_under_parent-Tally s parent options w (item ∷ item' ∷ items) p i j k results other t h

-- What `runAuditedOperation` returns, as a batch of one item would list it.
abbrev pub Agrees : {A : Type 0} → Option (List (BatchItemResult A)) → Result A → Type 0
Agrees none r = r ≡ rejected insert_error
Agrees (some results) r = map (λ e. e.1) results ≡ r ∷ []

-- A batch of one item that need not write a parent does what the operation by itself does, and returns
-- its result, or none where the operation throws for its `requested` row.
pub run_audited_operation_lem :
    {A : Type 0} (s : Surroundings) (parent : AuditOperation) (options : BatchOptions)
    (item : Item A) (w : World)
    → options.always ≡ false
    → ((run_audited_batch s parent (item ∷ []) options w).1 ≡ (run_audited_operation s item w).1)
      × Agrees
          (run_audited_batch s parent (item ∷ []) options w).0
          (run_audited_operation s item w).0
unfolding run_audited_batch run_audited_operation
run_audited_operation_lem s parent options item w h =
    let (op, w₁) = with_operation_id s item.operation none w in
    elim (Bool-cases (request_all s (op ∷ []) [] w₁).0) [
      | inl kept ↦ (
        rw (h, kept, run_single, run_audited_operation) refl,
        rw (h, kept, run_single, run_audited_operation) refl,
      )
      | inr refused ↦ (
        rw (h, refused, run_single, run_audited_operation) refl,
        rw (h, refused, run_single, run_audited_operation) refl,
      )
    ]
