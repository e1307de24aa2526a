-- ===== src/Audit/Batch/Parent.antt =====
-- The slices of a batch (packages/audit/src/writer.ts) with the outcome of its parent.
use sso_requests.Base.{
  ℕ, ◌+◌, ◌≡◌, refl, max, Bool, false, List, [], ◌∷◌, ◌++◌, map, Option, String, arith, ◌⊎◌, inl,
  inr, Bool-cases, ap, ◌∙◌, if◌then◌else◌, count, count-any, any-count, length, ltb, any,
}
use sso_requests.Workflow.Types.{Outcome}
use sso_requests.Audit.Event.{AuditOperation, AuditEvent, AuditEventRow}
use sso_requests.Audit.Writer.{
  World, Surroundings, Happening, stored, alerted, with_outcome, waiting, Child, Item, settle,
}
use sso_requests.Audit.Writer.Laws.{
  FailsToStore, try_create_event-FailsToStore, try_create_event-cases,
}
use sso_requests.Audit.Writer.Tally.{Tally, Tally-append, on_id}
use sso_requests.Audit.Writer.Settling.{settle-finished}
use sso_requests.Audit.Batch.{
  operation_of, run_slices, finish_parent, parent_event, settle_children, BatchOptions,
  BatchItemResult, item_result, is_rejected, finish_all,
}
use sso_requests.Audit.Batch.Tally.{BatchTally, run_slices-BatchTally, finish_all-BatchTally}
use sso_requests.Audit.Batch.Order.{
  is_result, is_fulfilled_result, is_rejected_result, count-item_result, map-run_slices,
  run_slices-IsFinished, item_of,
}
use sso_requests.Audit.Batch.Growth.{
  Extends, Extends-trans, run_slices-Extends, try_create_event-Extends,
}

abbrev pub result_id : {A : Type 0} → BatchItemResult A → Option String
result_id e = e.0

abbrev pub operation_id_of : AuditOperation → Option String
operation_id_of op = op.operation_id

-- On top of what was there, each tested operation was called once for its result, and succeeded or
-- failed once as the result says.
abbrev pub ResultsTally :
    {A : Type 0} → (String → Bool) → List Happening → List (BatchItemResult A) → ℕ → ℕ → ℕ → Type 0
ResultsTally p log results i j k =
    Tally p log (i + count (is_result p) results) (j + count (is_fulfilled_result p) results)
      (k + count (is_rejected_result p) results)

-- The outcome of the parent.
abbrev pub parent_outcome : {A : Type 0} → List (BatchItemResult A) → Outcome
parent_outcome results = if any is_rejected results then Outcome.failure else Outcome.success

-- The outcome of an operation is added to the log, as its row where that can be stored, and else as the alert in
-- its place.
abbrev pub WritesOutcome : Surroundings → AuditOperation → Outcome → World → List Happening → Type 0
WritesOutcome s op outcome before log' =
    ((row : AuditEventRow) × (log' ≡ before.log ++ stored row ∷ [])
      × (row.operation_id ≡ op.operation_id)
      × (row.outcome ≡ outcome))
    ⊎ ((event : AuditEvent) × (log' ≡ before.log ++ alerted event ∷ [])
        × (event.operation.operation_id ≡ op.operation_id)
        × (event.outcome ≡ outcome)
        × FailsToStore s event before)

parent_outcome-count :
    {A : Type 0} (results : List (BatchItemResult A))
    → (if ltb 0 (count is_rejected results) then Outcome.failure else Outcome.success)
      ≡ parent_outcome results
parent_outcome-count results = elim (Bool-cases (any is_rejected results)) [
  | inl some_failed ↦ ground (arith, count-any is_rejected results some_failed)
  | inr none_failed ↦ ground (arith, any-count is_rejected results none_failed)
]

-- The ids of the results, in item order.
ids_of-items :
    {A : Type 0} (settled children : List (Child A))
    → map item_of settled ≡ map item_of children
    → map result_id (map item_result settled) ≡ map operation_id_of (map operation_of children)
ids_of-items [] [] e = refl
ids_of-items [] (c ∷ cs) e = cc
ids_of-items (c ∷ cs) [] e = cc
ids_of-items (c ∷ cs) (d ∷ ds) e = ground (arith, ids_of-items cs ds (ground arith))

finish_parent-WritesOutcome :
    {A : Type 0} (s : Surroundings) (parent : AuditOperation) (results : List (BatchItemResult A))
    (w : World)
    → WritesOutcome s parent (parent_outcome results) w (finish_parent s parent results w).log
unfolding finish_parent parent_event with_outcome
finish_parent-WritesOutcome s parent results w =
    elim (try_create_event-cases s (parent_event parent results) w) [
      | inl (e, l) ↦ inr (
        parent_event parent results,
        l,
        refl,
        parent_outcome-count results,
        try_create_event-FailsToStore s (parent_event parent results) w e,
      )
      | inr (row, e, l, r) ↦
          inl (row, l, r.same_operation, r.same_outcome ∙ parent_outcome-count results)
    ]

finish_parent-Tally :
    {A : Type 0} (s : Surroundings) (p : String → Bool) (parent : AuditOperation)
    (results : List (BatchItemResult A)) (w : World) (i j k : ℕ)
    → on_id p parent.operation_id ≡ false
    → Tally p w.log i j k
    → Tally p (finish_parent s parent results w).log i j k
finish_parent-Tally s p parent results w i j k other t =
    elim (finish_parent-WritesOutcome s parent results w) [
      | inl (row, l, same, o) ↦ ground (
        arith,
        Tally-append p w.log _ (stored row ∷ []) i j k 0 0 0 l t
            (ground (arith, ap (on_id p) same)),
      )
      | inr (event, l, same, o, why) ↦ ground (
        arith,
        Tally-append p w.log _ (alerted event ∷ []) i j k 0 0 0 l t
            (ground (arith, ap (on_id p) same)),
      )
    ]

module _ {A : Type 0} (s : Surroundings) (parent : AuditOperation) (options : BatchOptions) where
  pub settle_children-Extends :
      (children : List (Child A)) (w : World)
      → Extends w.log (settle_children s parent children options w).1.log
  unfolding settle_children finish_parent
  settle_children-Extends children w =
      let width = max 1 options.concurrency in
      Extends-trans w.log
        (run_slices-Extends s (length children) width options.schedules children w)
        (try_create_event-Extends s
          (parent_event parent
            (map item_result (run_slices (length children) s width options.schedules children w).0))
          (run_slices (length children) s width options.schedules children w).1)

  -- The tally of some operations that are not the parent, by their results.
  pub settle_children-Tally :
      (p : String → Bool) (children : List (Child A)) (w : World) (i j k : ℕ)
      → on_id p parent.operation_id ≡ false
      → BatchTally p w.log children i j k
      → ResultsTally p
          (settle_children s parent children options w).1.log
          (settle_children s parent children options w).0
          i
          j
          k
  unfolding settle_children
  settle_children-Tally p children w i j k other t =
      let width = max 1 options.concurrency in
      let ran = run_slices (length children) s width options.schedules children w in
      let u =
        run_slices-BatchTally p s (length children) width options.schedules children w i j k
          (omega arith) (omega arith) t in
      let (a, b, c) =
        count-item_result p ran.0
          (run_slices-IsFinished s (length children) width options.schedules children w) in
      finish_parent-Tally s p parent (map item_result ran.0) ran.1 _ _ _ other
        (rw (← a, ← b, ← c) u)

  pub settle_children-ids :
      (children : List (Child A)) (w : World)
      → map result_id (settle_children s parent children options w).0
        ≡ map operation_id_of (map operation_of children)
  unfolding settle_children
  settle_children-ids children w =
      let width = max 1 options.concurrency in
      ids_of-items _ _ (
        map-run_slices s (length children) width options.schedules children w (omega arith)
          (omega arith))

  -- What the parent ends in is written last.
  pub settle_children-WritesOutcome :
      (children : List (Child A)) (w : World)
      → (before : World) × WritesOutcome s parent
          (parent_outcome (settle_children s parent children options w).0)
          before
          (settle_children s parent children options w).1.log
  unfolding settle_children
  settle_children-WritesOutcome children w =
      let ran =
        run_slices (length children) s (max 1 options.concurrency) options.schedules children w in
      (ran.1, finish_parent-WritesOutcome s parent (map item_result ran.0) ran.1)

-- An operation that runs by itself from its start.
pub settle-ResultsTally :
    {A : Type 0} (s : Surroundings) (p : String → Bool) (item : Item A) (w : World) (i j k : ℕ)
    → Tally p w.log i j k
    → ResultsTally p
        (settle s (record { item = item; phase = waiting }) w).1.log
        (item_result (settle s (record { item = item; phase = waiting }) w).0 ∷ [])
        i
        j
        k
unfolding finish_all
settle-ResultsTally {A} s p item w i j k t =
    let c : Child A = record { item = item; phase = waiting } in
    let u = finish_all-BatchTally p s (c ∷ []) w i j k (ground arith) in
    let (a, b, d) = count-item_result p ((settle s c w).0 ∷ []) (settle-finished s c w, tt) in
    rw (← a, ← b, ← d) u
