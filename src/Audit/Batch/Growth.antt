-- ===== src/Audit/Batch/Growth.antt =====
-- The log of packages/audit/src/writer.ts is only added to.
use sso_requests.Base.{ℕ, zero, suc, ◌≡◌, refl, List, [], ◌∷◌, ◌++◌, inl, inr, ap, sym, ◌∙◌, take}
use sso_requests.Workflow.Types.{Outcome}
use sso_requests.Audit.Event.{AuditEvent}
use sso_requests.Audit.Writer.{
  World, Surroundings, Happening, stored, alerted, called, mirrored, try_create_event, with_outcome,
  call_failed, sync_failed, Item, SettlePhase, Child, waiting, answered, fulfilled, rejected,
  unsynced, finished, settle_step, settle,
}
use sso_requests.Audit.Writer.Laws.{try_create_event-cases, sync-cases, success_of}
use sso_requests.Audit.Writer.Settling.{settle_keeps}
use sso_requests.Audit.Batch.{
  drop, schedule_now, schedule_later, step_at, run_schedule, finish_all, run_slice, run_slices,
}

abbrev pub Extends : List Happening → List Happening → Type 0
Extends log log' = (more : List Happening) × (log' ≡ log ++ more)

append_assoc {ℓ} : {A : Type ℓ} (xs ys zs : List A) → (xs ++ ys) ++ zs ≡ xs ++ (ys ++ zs)
append_assoc [] ys zs = refl
append_assoc (x ∷ xs) ys zs = ap (λ l. x ∷ l) (append_assoc xs ys zs)

pub append_nil {ℓ} : {A : Type ℓ} (xs : List A) → xs ++ [] ≡ xs
append_nil [] = refl
append_nil (x ∷ xs) = ap (λ l. x ∷ l) (append_nil xs)

pub Extends-refl : (log : List Happening) → Extends log log
Extends-refl log = ([], sym (append_nil log))

pub Extends-trans :
    (log : List Happening) {log' log'' : List Happening}
    → Extends log log'
    → Extends log' log''
    → Extends log log''
Extends-trans log (more, e) (more', e') =
    (more ++ more', e' ∙ ap (λ l. l ++ more') e ∙ append_assoc log more more')

pub try_create_event-Extends :
    (s : Surroundings) (event : AuditEvent) (w : World)
    → Extends w.log (try_create_event s event w).1.log
try_create_event-Extends s event w = elim (try_create_event-cases s event w) [
  | inl (e, l) ↦ (alerted event ∷ [], l)
  | inr (row, e, l, r) ↦ (stored row ∷ [], l)
]

step-Extends :
    {A : Type 0} (s : Surroundings) (item : Item A) (phase : SettlePhase A) (w : World)
    → Extends w.log (settle_step s (record { item = item; phase = phase }) w).1.log
unfolding settle_step
step-Extends s item waiting w = (called item.operation.operation_id ∷ [], refl)
step-Extends s item (answered (rejected err)) w =
    try_create_event-Extends s (with_outcome item.operation Outcome.failure (call_failed err)) w
step-Extends s item (answered (fulfilled a)) w = elim (sync-cases s item a w) [
  | inl (row, e, l, r) ↦ (mirrored item.operation.operation_id ∷ stored row ∷ [], l)
  | inr (err, e, inl l) ↦ ([], l ∙ sym (append_nil w.log))
  | inr (err, e, inr l) ↦ (alerted (success_of item a) ∷ [], l)
]
step-Extends s item (unsynced err) w =
    try_create_event-Extends s (with_outcome item.operation Outcome.failure (sync_failed err)) w
step-Extends s item (finished r) w = Extends-refl w.log

module _ {A : Type 0} (s : Surroundings) where
  settle_step-Extends : (c : Child A) (w : World) → Extends w.log (settle_step s c w).1.log
  settle_step-Extends c w = step-Extends s c.item c.phase w

  pub settle-Extends : (c : Child A) (w : World) → Extends w.log (settle s c w).1.log
  settle-Extends c w =
      settle_keeps s (λ c' w'. Extends w.log w'.log)
        (λ c' w' e. Extends-trans w.log e (settle_step-Extends c' w')) c w (Extends-refl w.log)

  step_at-Extends :
      (n : ℕ) (cs : List (Child A)) (w : World) → Extends w.log (step_at s n cs w).1.log
  unfolding step_at
  step_at-Extends n [] w = Extends-refl w.log
  step_at-Extends zero (c ∷ cs) w = settle_step-Extends c w
  step_at-Extends (suc n) (c ∷ cs) w = step_at-Extends n cs w

  run_schedule-Extends :
      (schedule : List ℕ) (cs : List (Child A)) (w : World)
      → Extends w.log (run_schedule s schedule cs w).1.log
  unfolding run_schedule
  run_schedule-Extends [] cs w = Extends-refl w.log
  run_schedule-Extends (n ∷ schedule) cs w =
      Extends-trans w.log (step_at-Extends n cs w)
        (run_schedule-Extends schedule (step_at s n cs w).0 (step_at s n cs w).1)

  finish_all-Extends : (cs : List (Child A)) (w : World) → Extends w.log (finish_all s cs w).1.log
  unfolding finish_all
  finish_all-Extends [] w = Extends-refl w.log
  finish_all-Extends (c ∷ cs) w =
      Extends-trans w.log (settle-Extends c w) (finish_all-Extends cs (settle s c w).1)

  run_slice-Extends :
      (schedule : List ℕ) (cs : List (Child A)) (w : World)
      → Extends w.log (run_slice s schedule cs w).1.log
  unfolding run_slice
  run_slice-Extends schedule cs w =
      Extends-trans w.log (run_schedule-Extends schedule cs w)
        (finish_all-Extends (run_schedule s schedule cs w).0 (run_schedule s schedule cs w).1)

  pub run_slices-Extends :
      (fuel width : ℕ) (schedules : List (List ℕ)) (cs : List (Child A)) (w : World)
      → Extends w.log (run_slices fuel s width schedules cs w).1.log
  unfolding run_slices
  run_slices-Extends zero width schedules cs w = Extends-refl w.log
  run_slices-Extends (suc fuel) width schedules [] w = Extends-refl w.log
  run_slices-Extends (suc fuel) width schedules (c ∷ cs) w =
      let ran = run_slice s (schedule_now schedules) (take width (c ∷ cs)) w in
      Extends-trans w.log (run_slice-Extends (schedule_now schedules) (take width (c ∷ cs)) w)
        (run_slices-Extends fuel width (schedule_later schedules) (drop width (c ∷ cs)) ran.1)
