-- ===== src/Audit/Writer/Tally.antt =====
-- How often an operation (packages/audit/src/writer.ts) was called, succeeded and failed, by the log,
-- against how far its settling has come.
use sso_requests.Base.{
  ℕ, ◌+◌, ◌≡◌, refl, Bool, true, false, ◌&&◌, List, [], ◌∷◌, ◌++◌, Option, none, some, String,
  arith, inl, inr, count, count-append, ◌==◌,
}
use sso_requests.Workflow.Types.{Outcome, outcome_eq}
use sso_requests.Audit.Event.{Details, AuditOperation}
use sso_requests.Audit.Writer.{
  Happening, stored, alerted, called, mirrored, World, Surroundings, try_create_event, with_outcome,
  fulfilled, rejected, Item, SettlePhase, waiting, answered, unsynced, finished, settle_step,
  call_failed, sync_failed,
}
use sso_requests.Audit.Writer.Laws.{try_create_event-cases, sync-cases, success_of}

-- A test of an operation's id.
abbrev pub on_id : (String → Bool) → Option String → Bool
on_id p none = false
on_id p (some id) = p id

-- The call of a tested operation, its `success` row, its mirror writes, and its `failure` row or the
-- alert in place of it.
abbrev pub is_call : (String → Bool) → Happening → Bool
is_call p (called id) = on_id p id
is_call p _ = false

abbrev pub is_success : (String → Bool) → Happening → Bool
is_success p (stored row) = on_id p row.operation_id && row.outcome == Outcome.success
is_success p _ = false

abbrev pub is_mirrored : (String → Bool) → Happening → Bool
is_mirrored p (mirrored id) = on_id p id
is_mirrored p _ = false

abbrev pub is_failure : (String → Bool) → Happening → Bool
is_failure p (stored row) = on_id p row.operation_id && row.outcome == Outcome.failure
is_failure p (alerted event) =
    on_id p event.operation.operation_id && event.outcome == Outcome.failure
is_failure p _ = false

-- How often the tested operations were called, succeeded (with their mirror writes) and failed.
pub record Tally (p : String → Bool) (log : List Happening) (calls successes failures : ℕ)
    : Type 0 where
  pub called_so_often : count (is_call p) log ≡ calls
  pub succeeded_so_often : count (is_success p) log ≡ successes
  pub mirrored_so_often : count (is_mirrored p) log ≡ successes
  pub failed_so_often : count (is_failure p) log ≡ failures

-- How often an operation in a phase has been called, has succeeded and has failed.
abbrev pub calls_of : {A : Type 0} → SettlePhase A → ℕ
calls_of waiting = 0
calls_of _ = 1

abbrev pub successes_of : {A : Type 0} → SettlePhase A → ℕ
successes_of (finished (fulfilled a)) = 1
successes_of _ = 0

abbrev pub failures_of : {A : Type 0} → SettlePhase A → ℕ
failures_of (finished (rejected err)) = 1
failures_of _ = 0

-- The tally of an operation in a phase, on top of what was there.
abbrev pub PhaseTally :
    {A : Type 0} → (String → Bool) → List Happening → SettlePhase A → ℕ → ℕ → ℕ → Type 0
PhaseTally p log phase a b c =
    Tally p log (a + calls_of phase) (b + successes_of phase) (c + failures_of phase)

pub Tally-append :
    (p : String → Bool) (log log' more : List Happening) (a b c a' b' c' : ℕ)
    → log' ≡ log ++ more
    → Tally p log a b c
    → Tally p more a' b' c'
    → Tally p log' (a + a') (b + b') (c + c')
Tally-append p log log' more a b c a' b' c' e t u = ground (
  arith,
  count-append (is_call p) log more,
  count-append (is_success p) log more,
  count-append (is_mirrored p) log more,
  count-append (is_failure p) log more,
)

-- A failure that is written counts once, whether as its row or as the alert.
write_failure-Tally :
    (s : Surroundings) (p : String → Bool) (op : AuditOperation) (d : Details) (w : World)
    (a b c : ℕ)
    → on_id p op.operation_id ≡ true
    → Tally p w.log a b c
    → Tally p (try_create_event s (with_outcome op Outcome.failure d) w).1.log a b (c + 1)
unfolding with_outcome
write_failure-Tally s p op d w a b c h t =
    let event = with_outcome op Outcome.failure d in
    elim (try_create_event-cases s event w) [
      | inl (e, l) ↦
          ground (arith, Tally-append p w.log _ (alerted event ∷ []) a b c 0 0 1 l t (ground arith))
      | inr (row, e, l, r) ↦ ground (
        arith,
        Tally-append p w.log _ (stored row ∷ []) a b c 0 0 1 l t
            (ground (arith, r.same_operation, r.same_outcome)),
      )
    ]

-- A step of an operation takes its tally from one phase to the next.
pub settle_step-PhaseTally :
    {A : Type 0} (s : Surroundings) (p : String → Bool) (item : Item A) (phase : SettlePhase A)
    (w : World) (a b c : ℕ)
    → on_id p item.operation.operation_id ≡ true
    → PhaseTally p w.log phase a b c
    → PhaseTally p
        (settle_step s (record { item = item; phase = phase }) w).1.log
        (settle_step s (record { item = item; phase = phase }) w).0.phase
        a
        b
        c
unfolding settle_step with_outcome
settle_step-PhaseTally s p item waiting w a b c h t = ground (
  arith,
  Tally-append p w.log _ (called item.operation.operation_id ∷ []) (a + 0) (b + 0) (c + 0) 1 0 0
      refl t (ground arith),
)
settle_step-PhaseTally s p item (answered (rejected err)) w a b c h t =
    ground (
      arith,
      write_failure-Tally s p item.operation (call_failed err) w (a + 1) (b + 0) (c + 0) h t,
    )
settle_step-PhaseTally s p item (answered (fulfilled v)) w a b c h t =
    elim (sync-cases s item v w) [
      | inl (row, e, l, r) ↦ ground (
        arith,
        Tally-append p w.log _ (mirrored item.operation.operation_id ∷ stored row ∷ []) (a + 1)
            (b + 0) (c + 0) 0 1 0 l t (ground (arith, r.same_operation, r.same_outcome)),
      )
      | inr (err, e, inl l) ↦ ground arith
      | inr (err, e, inr l) ↦ ground (
        arith,
        Tally-append p w.log _ (alerted (success_of item v) ∷ []) (a + 1) (b + 0) (c + 0) 0 0 0 l t
            (ground arith),
      )
    ]
settle_step-PhaseTally s p item (unsynced err) w a b c h t =
    ground (
      arith,
      write_failure-Tally s p item.operation (sync_failed err) w (a + 1) (b + 0) (c + 0) h t,
    )
settle_step-PhaseTally s p item (finished r) w a b c h t = t

-- A step leaves the item as it is.
pub settle_step-item :
    {A : Type 0} (s : Surroundings) (item : Item A) (phase : SettlePhase A) (w : World)
    → (settle_step s (record { item = item; phase = phase }) w).0.item ≡ item
unfolding settle_step
settle_step-item s item waiting w = refl
settle_step-item s item (answered (rejected err)) w = refl
settle_step-item s item (answered (fulfilled a)) w = refl
settle_step-item s item (unsynced err) w = refl
settle_step-item s item (finished r) w = refl

-- What is written of one operation leaves the tally of the others alone.
write_failure-Tally_other :
    (s : Surroundings) (p : String → Bool) (op : AuditOperation) (d : Details) (w : World)
    (a b c : ℕ)
    → on_id p op.operation_id ≡ false
    → Tally p w.log a b c
    → Tally p (try_create_event s (with_outcome op Outcome.failure d) w).1.log a b c
unfolding with_outcome
write_failure-Tally_other s p op d w a b c h t =
    let event = with_outcome op Outcome.failure d in
    elim (try_create_event-cases s event w) [
      | inl (e, l) ↦
          ground (arith, Tally-append p w.log _ (alerted event ∷ []) a b c 0 0 0 l t (ground arith))
      | inr (row, e, l, r) ↦ ground (
        arith,
        Tally-append p w.log _ (stored row ∷ []) a b c 0 0 0 l t
            (ground (arith, r.same_operation, r.same_outcome)),
      )
    ]

pub settle_step-Tally_other :
    {A : Type 0} (s : Surroundings) (p : String → Bool) (item : Item A) (phase : SettlePhase A)
    (w : World) (a b c : ℕ)
    → on_id p item.operation.operation_id ≡ false
    → Tally p w.log a b c
    → Tally p (settle_step s (record { item = item; phase = phase }) w).1.log a b c
unfolding settle_step with_outcome
settle_step-Tally_other s p item waiting w a b c h t = ground (
  arith,
  Tally-append p w.log _ (called item.operation.operation_id ∷ []) a b c 0 0 0 refl t
      (ground arith),
)
settle_step-Tally_other s p item (answered (rejected err)) w a b c h t =
    write_failure-Tally_other s p item.operation (call_failed err) w a b c h t
settle_step-Tally_other s p item (answered (fulfilled v)) w a b c h t =
    elim (sync-cases s item v w) [
      | inl (row, e, l, r) ↦ ground (
        arith,
        Tally-append p w.log _ (mirrored item.operation.operation_id ∷ stored row ∷ []) a b c 0 0 0
            l t (ground (arith, r.same_operation, r.same_outcome)),
      )
      | inr (err, e, inl l) ↦ ground arith
      | inr (err, e, inr l) ↦ ground (
        arith,
        Tally-append p w.log _ (alerted (success_of item v) ∷ []) a b c 0 0 0 l t (ground arith),
      )
    ]
settle_step-Tally_other s p item (unsynced err) w a b c h t =
    write_failure-Tally_other s p item.operation (sync_failed err) w a b c h t
settle_step-Tally_other s p item (finished r) w a b c h t = t
