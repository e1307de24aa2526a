-- ===== src/Workflow/Orchestrator/Termination.antt =====
-- The loop of `execute` and its iteration budget (app/workflow/orchestrator.ts).
use sso_requests.Base.{
  ℕ, zero, suc, ◌≡◌, refl, sym, ap, ◌∙◌, ◌≤◌, ◌<◌, ◌+◌, true, false, ◌||◌, List, Option, none, some,
  arith, count, count-le-length, update_where, count-update_where, find, filter, length,
  length-order_by, Bool-cases, Option-cases, ◌⊎◌, inl, inr, leb, nat_eq,
}
use sso_requests.Workflow.Types.{
  StepName, Workflow, WorkflowStep, StepResult, StepError, Thrown, returned, thrown, Db,
  is_claimable, RequestStatus, Outcome, RolesSnapshot, Environment,
}
use sso_requests.Workflow.Backoff.{Config}
use sso_requests.Workflow.Audit.{record_workflow_event, no_details}
use sso_requests.Workflow.Audit.Laws.{record_workflow_event-IsEventsOnly}
use sso_requests.Workflow.Store.Tables.{
  by_id, get_workflow_state, get_workflow_steps, update_workflows, update_step, of_workflow,
}
use sso_requests.Workflow.Steps.{
  Effects, WorkflowStepDefinition, definition_of, run_step, execute_step, with_timeout,
  set_request_status, execute_plan, execute_apply, execute_restore_roles, execute_finalize,
  execute_notify, restore_from, stored_snapshot,
}
use sso_requests.Workflow.Orchestrator.Alerts.{alert_ops-KeepsTables}
use sso_requests.Workflow.Orchestrator.{
  alert_ops, Phase, next, retry_scheduled, done, is_unfinished, set_step_running,
  set_step_completed, set_step_failed, set_step_skipped, settle_failure, attempt_step, abandon,
  run_found_step, run_next_step, iterate, drive,
}
use sso_requests.Workflow.Orchestrator.Budget.{
  own_steps, has_id, left_with, HaveUniqueIds, found_step_left, own_steps-update, count-still_left,
  count-finished,
}

-- While the step `j` of the workflow `i` runs: at most `n` of the workflow's steps are unfinished,
-- and `j` is one of them.
record IsRunning (i j n : ℕ) (d : Db) : Type 0 where
  unique : HaveUniqueIds (own_steps i d)
  few : count is_unfinished (own_steps i d) ≤ n
  left : 0 < count (left_with j) (own_steps i d)

-- What an iteration that goes on leaves: fewer than `n` unfinished steps.
record IsFurther (i n : ℕ) (d : Db) : Type 0 where
  unique : HaveUniqueIds (own_steps i d)
  fewer : count is_unfinished (own_steps i d) < n

module _ (i j n : ℕ) where
  IsRunning-same_steps :
      (d d' : Db) → own_steps i d' ≡ own_steps i d → IsRunning i j n d → IsRunning i j n d'
  IsRunning-same_steps d d' h r = record {
    unique = λ k. rw h (r.unique k);
    few = ground (arith, h, r.few);
    left = ground (arith, h, r.left);
  }

  module _ (f : WorkflowStep → WorkflowStep) (same_id : (s : WorkflowStep) → (f s).id ≡ s.id)
      (same_workflow : (s : WorkflowStep) → (f s).workflow_id ≡ s.workflow_id) where
    ids_kept :
        (k : ℕ) (steps : List WorkflowStep)
        → count (has_id k) (update_where (has_id j) f steps) ≡ count (has_id k) steps
    ids_kept k = count-update_where (has_id k) (has_id j) f (λ s h. rw (same_id s))

    IsRunning-update :
        ((s : WorkflowStep) → is_unfinished s ≡ true → is_unfinished (f s) ≡ true)
        → (d : Db) → IsRunning i j n d
        → IsRunning i j n (update_step j f d)
    unfolding update_step
    IsRunning-update open_still d r =
        let e = own_steps-update i (has_id j) f same_workflow d.steps in
        let (same_count, still) =
          count-still_left j f same_id open_still (own_steps i d) (r.unique j) r.left in
        record {
          unique = λ k. ground (arith, e, ids_kept k (own_steps i d), r.unique k);
          few = ground (arith, e, same_count, r.few);
          left = ground (arith, e, still);
        }

    IsFurther-update :
        ((s : WorkflowStep) → is_unfinished (f s) ≡ false)
        → (d : Db) → IsRunning i j n d
        → IsFurther i n (update_step j f d)
    unfolding update_step
    IsFurther-update finishes d r =
        let e = own_steps-update i (has_id j) f same_workflow d.steps in
        let fewer = count-finished j f finishes (own_steps i d) in
        record {
          unique = λ k. ground (arith, e, ids_kept k (own_steps i d), r.unique k);
          fewer = ground (arith, e, fewer, r.few, r.left);
        }

-- What runs while a step does leaves the steps of the workflow as they are: only the worker that
-- holds a workflow writes them.
abbrev pub LeavesSteps : Effects → ℕ → Type 0
LeavesSteps fx i = (d : Db) → own_steps i (fx.during d) ≡ own_steps i d

Thrown-cases :
    {A : Type 0}
    → (t : Thrown A) → ((e : StepError) × (t ≡ thrown e)) ⊎ ((a : A) × (t ≡ returned a))
Thrown-cases (thrown e) = inl (e, refl)
Thrown-cases (returned a) = inr (a, refl)

Phase-cases : (p : Phase) → (p ≡ next) ⊎ ((p ≡ retry_scheduled) ⊎ (p ≡ done))
Phase-cases next = inl refl
Phase-cases retry_scheduled = inr (inl refl)
Phase-cases done = inr (inr refl)

module _ (fx : Effects) (w : Workflow) where
  steps-execute_plan : (d : Db) → (execute_plan fx w d).1.steps ≡ d.steps
  unfolding execute_plan set_request_status
  steps-execute_plan d =
      let d' = set_request_status w.request_id RequestStatus.planned d in
      elim (Option-cases
        (record_workflow_event fx.audit_fails w true Outcome.success no_details d')) [
          | inl stopped ↦ ground (arith, stopped)
          | inr (d'', written) ↦
              let e =
                record_workflow_event-IsEventsOnly fx.audit_fails w true Outcome.success no_details
                  d' d'' written in
              ground (arith, written, e.steps)
        ]

  steps-execute_finalize : (d : Db) → (execute_finalize fx w d).1.steps ≡ d.steps
  unfolding execute_finalize set_request_status
  steps-execute_finalize d =
      elim (Option-cases
        (record_workflow_event fx.audit_fails w false Outcome.success no_details d)) [
          | inl stopped ↦ ground (arith, stopped)
          | inr (d', written) ↦
              let e =
                record_workflow_event-IsEventsOnly fx.audit_fails w false Outcome.success no_details
                  d d' written in
              ground (arith, written, e.steps)
        ]

  steps-execute_apply : (e : Environment) (d : Db) → (execute_apply fx w e d).1.steps ≡ d.steps
  unfolding execute_apply
  steps-execute_apply e d = ground arith

  steps-execute_notify : (d : Db) → (execute_notify fx w d).1.steps ≡ d.steps
  unfolding execute_notify
  steps-execute_notify d = ground arith

  steps-restore_from :
      (before : RolesSnapshot) (d : Db) → (restore_from fx w before d).1.steps ≡ d.steps
  unfolding restore_from
  steps-restore_from before d = ground arith

  module _ (i n : ℕ) (s : WorkflowStep) where
    same_steps : (d d' : Db) → d'.steps ≡ d.steps → IsRunning i s.id n d → IsRunning i s.id n d'
    same_steps d d' h = IsRunning-same_steps i s.id n d d' (ap (filter (of_workflow i)) h)

    restore_roles-IsRunning :
        (d : Db) → IsRunning i s.id n d → IsRunning i s.id n (execute_restore_roles fx w s d).1
    unfolding execute_restore_roles
    restore_roles-IsRunning d r = elim (Option-cases (stored_snapshot s.result)) [
      | inr (before, kept) ↦
          same_steps d (execute_restore_roles fx w s d).1
            (ground (arith, kept, steps-restore_from before d)) r
      | inl absent ↦ elim (Thrown-cases (fx.snapshot_roles d w.request_id)) [
        | inl (err, failed) ↦
            same_steps d (execute_restore_roles fx w s d).1 (ground (arith, absent, failed)) r
        | inr (before, taken) ↦
            let keep = λ (row : WorkflowStep). record row {
              result = some (StepResult.roles_before before);
            } in
            let d' = update_step s.id keep d in
            same_steps d' (execute_restore_roles fx w s d).1
              (ground (arith, absent, taken, steps-restore_from before d'))
              (IsRunning-update i s.id n keep (λ t. refl) (λ t. refl) (λ t h. h) d r)
      ]
    ]

    execute_step-IsRunning :
        (name : StepName) (d : Db)
        → IsRunning i s.id n d
        → IsRunning i s.id n (execute_step fx w s name d).1
    unfolding execute_step
    execute_step-IsRunning StepName.plan d =
        same_steps d (execute_plan fx w d).1 (steps-execute_plan d)
    execute_step-IsRunning (StepName.apply_environment e) d =
        same_steps d (execute_apply fx w e d).1 (steps-execute_apply e d)
    execute_step-IsRunning StepName.restore_roles d = restore_roles-IsRunning d
    execute_step-IsRunning StepName.finalize d =
        same_steps d (execute_finalize fx w d).1 (steps-execute_finalize d)
    execute_step-IsRunning StepName.notify d =
        same_steps d (execute_notify fx w d).1 (steps-execute_notify d)
    execute_step-IsRunning (StepName.unknown text) d = λ r. r

    run_step-IsRunning :
        (c : Config) (name : StepName) (d : Db)
        → LeavesSteps fx i
        → IsRunning i s.id n d
        → IsRunning i s.id n (run_step c fx w s name d).1
    unfolding run_step with_timeout
    run_step-IsRunning c name d quiet r =
        let r' =
          execute_step-IsRunning name (fx.during d)
            (IsRunning-same_steps i s.id n d (fx.during d) (quiet d) r) in
        let d' = (execute_step fx w s name (fx.during d)).1 in
        IsRunning-same_steps i s.id n d' (run_step c fx w s name d).1 (ground arith) r'

-- What an iteration leaves: if it goes on, the same workflow with fewer unfinished steps.
IsFurther-alert :
    (fx : Effects) (w : ℕ) (step : Option StepName) (i n : ℕ) (d : Db)
    → IsFurther i n d
    → IsFurther i n (alert_ops fx w step d)
IsFurther-alert fx w step i n d r =
    let k = alert_ops-KeepsTables fx w step d in
    record { unique = rw k.steps r.unique; fewer = rw k.steps r.fewer }

abbrev LeadsOn : ℕ → ℕ → Phase × Workflow × Db → Type 0
LeadsOn i n (phase, w, d) = phase ≡ next → (w.id ≡ i) × IsFurther i n d

module _ (c : Config) (fx : Effects) (i n : ℕ) (quiet : LeavesSteps fx i) where
  settle_failure-LeadsOn :
      (w : Workflow) (s : WorkflowStep) (definition : WorkflowStepDefinition) (err : StepError)
      (d : Db)
      → w.id ≡ i
      → IsRunning i s.id n d
      → LeadsOn i n (settle_failure c fx w s definition err d)
  unfolding settle_failure set_step_failed set_step_skipped
  settle_failure-LeadsOn w s definition err d same r =
      let d' = update_step s.id (set_step_failed err.message) d in
      let r' =
        IsRunning-update i s.id n (set_step_failed err.message) (λ t. refl) (λ t. refl)
          (λ t h. refl) d r in
      let r'' =
        IsFurther-update i s.id n (set_step_skipped d.now err.message) (λ t. refl) (λ t. refl)
          (λ t. refl) d' r' in
      elim (Bool-cases (err.permanent || leb c.max_step_attempts (s.attempts + 1))) [
        | inl settled ↦ elim (Bool-cases definition.optional) [
          | inl optional ↦
              rw (settled, optional)
                (λ goes_on. (
                  same,
                  IsFurther-alert fx w.id (some s.name) i n
                      (update_step s.id (set_step_skipped d.now err.message) d')
                      (record { unique = r''.unique; fewer = r''.fewer }),
                ))
          | inr required ↦ rw (settled, required) (λ ends. absurd (cc))
        ]
        | inr again ↦ rw again (λ ends. absurd (cc))
      ]

  attempt_step-LeadsOn :
      (w : Workflow) (s : WorkflowStep) (definition : WorkflowStepDefinition) (d : Db)
      → w.id ≡ i
      → IsRunning i s.id n d
      → LeadsOn i n (attempt_step c fx w s definition d)
  unfolding attempt_step set_step_running set_step_completed update_workflows
  attempt_step-LeadsOn w s definition d same r =
      let w' = record w { current_step = some s.name } in
      let d₁ = update_step s.id (set_step_running d.now) d in
      let d₂ =
        update_workflows (by_id w.id) (λ row. record row { current_step = some s.name }) d₁ in
      let r₁ =
        IsRunning-update i s.id n (set_step_running d.now) (λ t. refl) (λ t. refl) (λ t h. refl) d
          r in
      let r₂ = IsRunning-same_steps i s.id n d₁ d₂ refl r₁ in
      let r₃ = run_step-IsRunning fx w' i n s c definition.name d₂ quiet r₂ in
      let d₃ = (run_step c fx w' s definition.name d₂).1 in
      elim (Thrown-cases (run_step c fx w' s definition.name d₂).0) [
        | inl (err, failed) ↦
            let e = settle_failure-LeadsOn w' s definition err d₃ same r₃ in
            rw (failed, attempt_step) e
        | inr (result, went) ↦
            let e =
              IsFurther-update i s.id n (set_step_completed d₃.omit_null d₃.now result) (λ t. refl)
                (λ t. refl) (λ t. refl) d₃ r₃ in
            rw (went, attempt_step) (λ goes_on. (same, e))
      ]

  run_found_step-LeadsOn :
      (w : Workflow) (found : Option WorkflowStep) (d : Db)
      → w.id ≡ i
      → ((s : WorkflowStep) → found ≡ some s → IsRunning i s.id n d)
      → LeadsOn i n (run_found_step c fx w found d)
  unfolding run_found_step
  run_found_step-LeadsOn w none d same r = (λ ends. absurd (cc))
  run_found_step-LeadsOn w (some s) d same r =
      elim (Option-cases (definition_of w.type w.payload s.name)) [
        | inl unknown ↦ rw (unknown, run_found_step) (λ ends. absurd (cc))
        | inr (definition, planned) ↦
            rw (planned, run_found_step) (attempt_step-LeadsOn w s definition d same (r s refl))
      ]

  run_next_step-LeadsOn :
      (w : Workflow) (d : Db)
      → w.id ≡ i
      → HaveUniqueIds (own_steps i d)
      → count is_unfinished (own_steps i d) ≤ n
      → LeadsOn i n (run_next_step c fx w (get_workflow_steps w.id d) d)
  unfolding run_next_step abandon
  run_next_step-LeadsOn w d same unique few =
      let steps = get_workflow_steps w.id d in
      let r : (s : WorkflowStep) → find is_unfinished steps ≡ some s → IsRunning i s.id n d = λ s h.
        record {
          unique = unique;
          few = few;
          left =
              found_step_left i d
                (sym (ap (λ k. find is_unfinished (get_workflow_steps k d)) same) ∙ h);
        } in
      elim (Option-cases (get_workflow_state w.id d)) [
        | inl gone ↦ rw (gone, run_next_step) (λ ends. absurd (cc))
        | inr (live, seen) ↦ elim (Bool-cases (is_claimable live)) [
          | inl claimable ↦
              rw (seen, claimable, run_next_step)
                (run_found_step-LeadsOn w (find is_unfinished steps) d same r)
          | inr lost ↦ rw (seen, lost, run_next_step) (λ ends. absurd (cc))
        ]
      ]

-- With more iterations than unfinished steps, the loop ends of itself.
iterate_lem :
    (c : Config) (fx : Effects) (n : ℕ) (w : Workflow) (d : Db)
    → LeavesSteps fx w.id
    → HaveUniqueIds (own_steps w.id d)
    → count is_unfinished (own_steps w.id d) < n
    → (iterate c fx n w d).0 ≡ true
unfolding iterate
iterate_lem c fx zero w d quiet unique few = absurd (omega (arith, few))
iterate_lem c fx (suc n) w d quiet unique few =
    let r = run_next_step c fx w (get_workflow_steps w.id d) d in
    let step = run_next_step-LeadsOn c fx w.id n quiet w d refl unique (omega (arith, few)) in
    elim (Phase-cases r.0) [
      | inl goes_on ↦
          let (same, left) = step goes_on in
          let rest =
            iterate_lem c fx n r.1 r.2 (λ e. rw same (quiet e)) (λ k. rw same (left.unique k))
              (rw same left.fewer) in
          rw (goes_on, iterate) rest
      | inr (inl waits) ↦ rw (waits, iterate) refl
      | inr (inr ends) ↦ rw (ends, iterate) refl
    ]

-- `execute` never runs out of its budget, the number of stored steps and one more, whatever the steps
-- do: every iteration that goes on has finished a step. So the release after the loop is not
-- reached, and what the loop ends with is what `execute` returns. (The ids of the workflow's steps
-- are distinct, and no other process writes the steps of a workflow that this one drives.)
pub drive-iterate :
    (c : Config) (fx : Effects) (w : Workflow) (d : Db)
    → LeavesSteps fx w.id
    → HaveUniqueIds (own_steps w.id d)
    → let budget = length (get_workflow_steps w.id d) + 1 in
      ((iterate c fx budget w d).0 ≡ true)
      × (drive c fx w d ≡ ((iterate c fx budget w d).1.state, (iterate c fx budget w d).2))
unfolding drive get_workflow_steps
drive-iterate c fx w d quiet unique =
    let few = count-le-length is_unfinished (own_steps w.id d) in
    let all =
      length-order_by (λ (s t : WorkflowStep). leb s.sequence t.sequence) (own_steps w.id d) in
    let ends =
      iterate_lem c fx (length (get_workflow_steps w.id d) + 1) w d quiet unique
        (omega (arith, few, all)) in
    (ends, rw ends refl)
