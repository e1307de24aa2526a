-- ===== src/Audit/Batch/Laws.antt =====
-- `runAuditedBatch` of packages/audit/src/writer.ts as a whole.
use sso_requests.Base.{
  ℕ, ◌≡◌, refl, Bool, true, false, List, [], ◌∷◌, ◌++◌, map, Option, none, some, String, arith, ◌⊎◌,
  inl, inr, Bool-cases, ap, subst, ◌∙◌, if◌then◌else◌,
}
use sso_requests.Audit.Event.{AuditOperation, AuditEventRow}
use sso_requests.Audit.Writer.{
  World, Surroundings, Happening, stored_all, request_all, with_operation_id, waiting, Child, Item,
  settle,
}
use sso_requests.Audit.Writer.Tally.{Tally, on_id}
use sso_requests.Audit.Writer.Settling.{settle-item}
use sso_requests.Audit.Batch.{
  children_of, operation_of, settle_children, run_requested, BatchOptions, BatchItemResult,
  item_result, run_single,
}
use sso_requests.Audit.Batch.Tally.{BatchTally}
use sso_requests.Audit.Batch.Requested.{
  RequestedRows, IsRefused, request_all-cases, request_all-Tally, with_operation_id-log,
}
use sso_requests.Audit.Batch.Growth.{settle-Extends}
use sso_requests.Audit.Batch.Parent.{
  result_id, operation_id_of, ResultsTally, settle-ResultsTally, parent_outcome, WritesOutcome,
  settle_children-Extends, settle_children-Tally, settle_children-ids,
  settle_children-WritesOutcome,
}

-- Whether a batch writes a parent.
abbrev pub uses_parent : {A : Type 0} → List (Item A) → BatchOptions → Bool
uses_parent [] options = options.always
uses_parent (item ∷ []) options = options.always
uses_parent (item ∷ item' ∷ items) options = true

-- The operations of a batch with their ids: the parent, and the children in item order.
abbrev pub parent_operation : Surroundings → AuditOperation → World → AuditOperation
parent_operation s parent w = (with_operation_id s parent none w).0

module _ {A : Type 0} (s : Surroundings) (parent : AuditOperation) where
  abbrev pub child_operations_under : List (Item A) → World → List AuditOperation
  child_operations_under items w =
      map operation_of
        (children_of s (parent_operation s parent w).operation_id items
          (with_operation_id s parent none w).1).0

  abbrev pub child_operations : List (Item A) → BatchOptions → World → List AuditOperation
  child_operations items options w =
      if uses_parent items options
      then child_operations_under items w
      else map operation_of (children_of s none items w).0

  abbrev pub parent_operations : List (Item A) → BatchOptions → World → List AuditOperation
  parent_operations items options w =
      if uses_parent items options then parent_operation s parent w ∷ [] else []

-- What a batch does with the `requested` rows of its operations: they are stored first, or it throws
-- and no more than an alert is written.
abbrev pub RequestedFirst :
    {A : Type 0}
    → List AuditOperation
    → List Happening
    → Option (List (BatchItemResult A)) × World
    → Type 0
RequestedFirst {A} ops log (result, w) =
    ((results : List (BatchItemResult A)) × (rows : List AuditEventRow) × (rest : List Happening)
      × (result ≡ some results)
      × (w.log ≡ (log ++ stored_all rows) ++ rest)
      × RequestedRows ops rows)
    ⊎ ((result ≡ none) × IsRefused log w.log)

module _ {A : Type 0} (s : Surroundings) (parent : AuditOperation) (options : BatchOptions) where
  pub run_requested-RequestedFirst :
      (children : List (Child A)) (w : World)
      → RequestedFirst
          (parent ∷ map operation_of children)
          w.log
          (run_requested s parent children options w)
  unfolding run_requested
  run_requested-RequestedFirst children w =
      let w₁ = (request_all s (parent ∷ map operation_of children) [] w).1 in
      elim (request_all-cases s (parent ∷ map operation_of children) [] w) [
        | inr (e, refused) ↦ inr (rw (e, run_requested) refl, rw (e, run_requested) refused)
        | inl (e, rows, l, rs) ↦
            let (rest, more) = settle_children-Extends s parent options children w₁ in
            inl (
              (settle_children s parent children options w₁).0,
              rows,
              rest,
              rw (e, run_requested) refl,
              rw (e, run_requested) (more ∙ ap (λ l'. l' ++ rest) l),
              rs,
            )
      ]

  pub run_requested-ids :
      (children : List (Child A)) (w : World) (results : List (BatchItemResult A))
      → (run_requested s parent children options w).0 ≡ some results
      → map result_id results ≡ map operation_id_of (map operation_of children)
  unfolding run_requested
  run_requested-ids children w results h = ground (
    arith,
    settle_children-ids s parent options children
        (request_all s (parent ∷ map operation_of children) [] w).1,
  )

  pub run_requested-Tally :
      (p : String → Bool) (children : List (Child A)) (w : World) (i j k : ℕ)
      (results : List (BatchItemResult A))
      → on_id p parent.operation_id ≡ false
      → BatchTally p w.log children i j k
      → (run_requested s parent children options w).0 ≡ some results
      → ResultsTally p (run_requested s parent children options w).1.log results i j k
  unfolding run_requested
  run_requested-Tally p children w i j k results other t h =
      elim (Bool-cases (request_all s (parent ∷ map operation_of children) [] w).0) [
        | inl kept ↦
            let w₁ = (request_all s (parent ∷ map operation_of children) [] w).1 in
            let e : (settle_children s parent children options w₁).0 ≡ results = ground arith in
            rw (kept, run_requested)
              (rw (← e) (
                settle_children-Tally s parent options p children w₁ i j k other
                  (request_all-Tally s p (parent ∷ map operation_of children) w _ _ _ t)))
        | inr refused ↦ absurd (ground arith)
      ]

  pub run_requested-WritesOutcome :
      (children : List (Child A)) (w : World) (results : List (BatchItemResult A))
      → (run_requested s parent children options w).0 ≡ some results
      → (before : World) × WritesOutcome s parent
          (parent_outcome results)
          before
          (run_requested s parent children options w).1.log
  unfolding run_requested
  run_requested-WritesOutcome children w results h =
      elim (Bool-cases (request_all s (parent ∷ map operation_of children) [] w).0) [
        | inl kept ↦
            let w₁ = (request_all s (parent ∷ map operation_of children) [] w).1 in
            let e : (settle_children s parent children options w₁).0 ≡ results = ground arith in
            rw (kept, run_requested)
              (rw (← e) (settle_children-WritesOutcome s parent options children w₁))
        | inr refused ↦ absurd (ground arith)
      ]

-- An item by itself.
module _ {A : Type 0} (s : Surroundings) where
  abbrev alone : AuditOperation → Item A → Child A
  alone op item = record { item = record item { operation = op }; phase = waiting }

  pub run_single-RequestedFirst :
      (item : Item A) (w : World)
      → RequestedFirst
          (map operation_of (children_of s none (item ∷ []) w).0)
          w.log
          (run_single s item w)
  unfolding run_single children_of
  run_single-RequestedFirst item w =
      let (op, w₁) = with_operation_id s item.operation none w in
      let w₂ = (request_all s (op ∷ []) [] w₁).1 in
      let l₁ = with_operation_id-log s item.operation none w in
      elim (request_all-cases s (op ∷ []) [] w₁) [
        | inr (e, refused) ↦ inr (
          rw (e, run_single) refl,
          rw (e, run_single) (subst (λ l. IsRefused l w₂.log) l₁ refused),
        )
        | inl (e, rows, l, rs) ↦
            let c = settle s (alone op item) w₂ in
            let (rest, more) = settle-Extends s (alone op item) w₂ in
            inl (
              item_result c.0 ∷ [],
              rows,
              rest,
              rw (e, run_single) refl,
              rw (e, run_single)
                  (more ∙ ap (λ l'. l' ++ rest) (l ∙ ap (λ l'. l' ++ stored_all rows) l₁)),
              rs,
            )
      ]

  pub run_single-ids :
      (item : Item A) (w : World) (results : List (BatchItemResult A))
      → (run_single s item w).0 ≡ some results
      → map result_id results
        ≡ map operation_id_of (map operation_of (children_of s none (item ∷ []) w).0)
  unfolding run_single children_of
  run_single-ids item w results h =
      let (op, w₁) = with_operation_id s item.operation none w in
      let w₂ = (request_all s (op ∷ []) [] w₁).1 in
      ground (arith, ap (λ i. i.operation.operation_id) (settle-item s (alone op item) w₂))

  pub run_single-Tally :
      (p : String → Bool) (item : Item A) (w : World) (i j k : ℕ)
      (results : List (BatchItemResult A))
      → Tally p w.log i j k
      → (run_single s item w).0 ≡ some results
      → ResultsTally p (run_single s item w).1.log results i j k
  unfolding run_single
  run_single-Tally p item w i j k results t h =
      let (op, w₁) = with_operation_id s item.operation none w in
      let req = request_all s (op ∷ []) [] w₁ in
      let c = settle s (alone op item) req.1 in
      let t₁ =
        request_all-Tally s p (op ∷ []) w₁ i j k
          (rw (with_operation_id-log s item.operation none w) t) in
      elim (Bool-cases req.0) [
        | inl kept ↦
            let e : item_result c.0 ∷ [] ≡ results = ground arith in
            rw (kept, run_single)
              (rw (← e) (settle-ResultsTally s p (record item { operation = op }) req.1 i j k t₁))
        | inr refused ↦ absurd (ground arith)
      ]
