-- ===== src/Workflow/Orchestrator.antt =====
-- app/workflow/orchestrator.ts: driving a claimed workflow. The in-memory `workflow` object, whose
-- state and current step the code assigns, is passed on beside the tables.
pub mod Budget
pub mod Termination
pub mod Settlement
pub mod Alerts
use sso_requests.Base.{
  ℕ, zero, suc, ◌+◌, Bool, true, false, ◌&&◌, ◌||◌, not, List, [], ◌∷◌, ◌++◌, Option, none, some,
  String, nat_eq, ◌==◌, if◌then◌else◌, find, leb, ltb, or_else, text_append, length, any,
}
use sso_requests.Workflow.Types.{
  over_null, Environment, WorkflowState, StepState, StepName, is_step, is_finished, is_claimable,
  is_pending, is_superseded, Workflow, WorkflowStep, StepResult, StepError, Thrown, returned,
  thrown, Outcome, RequestStatus, Db, Details,
}
use sso_requests.Workflow.Backoff.{Config, WorkflowExecutionMode, next_run_after}
use sso_requests.Workflow.Audit.{record_workflow_event, best_effort, no_details}
use sso_requests.Workflow.Store.Tables.{
  by_id, get_workflow_state, get_workflow_steps, update_workflows, update_step, record_failure,
  violates,
}
use sso_requests.Workflow.Store.Lease.{claim_workflow, release_workflow, release_workflow_if_active}
use sso_requests.Workflow.Store.Promote.{promote_queued_workflow, promote_orphaned_queued_workflows}
use sso_requests.Workflow.Steps.{
  Effects, WorkflowStepDefinition, definition_of, set_request_status, run_step,
}

abbrev pub is_background : WorkflowExecutionMode → Bool
is_background WorkflowExecutionMode.background = true
is_background _ = false

-- `runWorkflow(id)` started in the background, after a delay.
unfoldable pub kick_off : ℕ → ℕ → Db → Db
kick_off i delay d = record d { kickoffs = (i, delay) ∷ d.kickoffs }

-- `alertOps`, as the workflow and the step that it names. Without a webhook, or where the post fails, nothing
-- goes out and nothing is thrown.
unfoldable pub alert_ops : Effects → ℕ → Option StepName → Db → Db
alert_ops fx i step d = if fx.alert_sent d then record d { alerts = (i, step) ∷ d.alerts } else d

-- `scheduleInProcessRetry`.
unfoldable pub schedule_in_process_retry : Config → ℕ → ℕ → Db → Db
unfolding kick_off
schedule_in_process_retry c i delay d =
    if not (is_background c.mode) || ltb c.in_process_retry_ceiling_ms delay
    then d
    else kick_off i delay d

-- `startQueuedWorkflow`.
unfoldable pub start_queued_workflow : Config → Workflow → Db → Db
unfolding kick_off
start_queued_workflow c w d =
    let (promoted, d') = promote_queued_workflow w.request_id d in
    elim promoted [ none ↦ d' | some i ↦ if is_background c.mode then kick_off i 0 d' else d' ]

unfoldable pub set_completed : Bool → ℕ → Workflow → Workflow
set_completed omit now w = record w {
  state = WorkflowState.completed;
  current_step = over_null omit w.current_step;
  completed_at = some now;
  last_error = over_null omit w.last_error;
}

-- `completeWorkflow`.
unfoldable pub complete_workflow : Config → Workflow → Db → Workflow × Db
complete_workflow c w d =
    let (won, d') = release_workflow_if_active w.id (set_completed d.omit_null d.now) d in
    if won
    then (record w { state = WorkflowState.completed }, start_queued_workflow c w d')
    else (w, d')

unfoldable pub set_failed : ℕ → StepName → String → Workflow → Workflow
set_failed now step error w = record w {
  state = WorkflowState.failed;
  current_step = some step;
  completed_at = some now;
  last_error = some error;
}

abbrev pub failure_details : StepName → String → String → Details
failure_details step reason error = record no_details {
  failed_step = some step;
  reason = some reason;
  error = some error;
}

-- The events of a failure: the plan step's, where it is the one that failed, and the outcome.
unfoldable pub record_failure_events : Effects → Workflow → StepName → Details → Db → Db
record_failure_events fx w step details d =
    let d' =
      if is_step step StepName.plan
      then best_effort d (record_workflow_event fx.audit_fails w true Outcome.failure details d)
      else d in
    best_effort d' (record_workflow_event fx.audit_fails w false Outcome.failure details d')

-- What `failWorkflow` does once it has moved the row to FAILED.
unfoldable pub dead_letter : Config → Effects → Workflow → StepName → String → String → Db → Db
unfolding record_failure_events alert_ops
dead_letter c fx w step reason error d =
    let status =
      if is_step step StepName.plan
      then RequestStatus.plan_failed
      else RequestStatus.apply_failed in
    let d₁ = set_request_status w.request_id status d in
    let d₂ = record_failure_events fx w step (failure_details step reason error) d₁ in
    let d₃ = record_failure w (some step) reason error d₂ in
    start_queued_workflow c w (alert_ops fx w.id (some step) d₃)

-- `failWorkflow`.
unfoldable pub fail_workflow :
    Config → Effects → Workflow → StepName → String → String → Db → Workflow × Db
fail_workflow c fx w step reason error d =
    let (won, d') = release_workflow_if_active w.id (set_failed d.now step error) d in
    if won
    then (
      record w { state = WorkflowState.failed },
      dead_letter c fx (record w { state = WorkflowState.failed }) step reason error d',
    )
    else (
      w,
      best_effort d'
          (record_workflow_event fx.audit_fails w false Outcome.superseded no_details d'),
    )

-- `PhaseResult`; `next` is the empty one.
pub data Phase : Type 0 where
  next : Phase
  retry_scheduled : Phase
  done : Phase

unfoldable pub set_step_running : ℕ → WorkflowStep → WorkflowStep
set_step_running now s = record s {
  state = StepState.running;
  attempts = s.attempts + 1;
  started_at = some now;
}

unfoldable pub set_step_completed : Bool → ℕ → StepResult → WorkflowStep → WorkflowStep
set_step_completed omit now result s = record s {
  state = StepState.completed;
  result = some result;
  completed_at = some now;
  last_error = over_null omit s.last_error;
}

unfoldable pub set_step_failed : String → WorkflowStep → WorkflowStep
set_step_failed message s = record s { state = StepState.failed; last_error = some message }

unfoldable pub set_step_skipped : ℕ → String → WorkflowStep → WorkflowStep
set_step_skipped now message s = record s {
  state = StepState.skipped;
  last_error = some message;
  completed_at = some now;
}

abbrev environment_text : Environment → String
environment_text Environment.dev = "DEV"
environment_text Environment.test = "TEST"
environment_text Environment.prod = "PROD"

-- The text of a step's name.
abbrev pub step_text : StepName → String
step_text StepName.plan = "PLAN"
step_text (StepName.apply_environment e) = text_append "APPLY_" (environment_text e)
step_text StepName.restore_roles = "RESTORE_ROLES"
step_text StepName.notify = "NOTIFY"
step_text StepName.finalize = "FINALIZE"
step_text (StepName.unknown text) = text

abbrev pub failure_reason : Bool → StepName → String → String
failure_reason permanent step message = text_append "step " (
    text_append (step_text step)
      (text_append (if permanent then " failed permanently: " else " exhausted retries: ") message))

-- The `catch` of `runNextStep`.
unfoldable pub settle_failure :
    Config
    → Effects
    → Workflow
    → WorkflowStep
    → WorkflowStepDefinition
    → StepError
    → Db
    → Phase × Workflow × Db
unfolding alert_ops
settle_failure c fx w s definition err d =
    let attempt = s.attempts + 1 in
    let d' = update_step s.id (set_step_failed err.message) d in
    if err.permanent || leb c.max_step_attempts attempt
    then (if definition.optional
        then (
          next,
          w,
          alert_ops fx w.id (some s.name)
              (update_step s.id (set_step_skipped d.now err.message) d'),
        )
        else (let (w', d'') =
              fail_workflow c fx w s.name (failure_reason err.permanent s.name err.message)
                err.message d' in
            (done, w', d'')))
    else (let (run_after, delay) = next_run_after c (fx.random_int d) d.now attempt in
        (
          retry_scheduled,
          w,
          schedule_in_process_retry c w.id delay (
              release_workflow w.id
                (λ row. record row { run_after = run_after; last_error = some err.message }) d'),
        ))

-- Running the step that was found: the attempt is stored, the step runs, its outcome is stored.
unfoldable pub attempt_step :
    Config → Effects → Workflow → WorkflowStep → WorkflowStepDefinition → Db → Phase × Workflow × Db
unfolding settle_failure
attempt_step c fx w s definition d =
    let w' = record w { current_step = some s.name } in
    let d₁ = update_step s.id (set_step_running d.now) d in
    let d₂ = update_workflows (by_id w.id) (λ row. record row { current_step = some s.name }) d₁ in
    let (result, d₃) = run_step c fx w' s definition.name d₂ in
    elim result [
      | returned r ↦ (next, w', update_step s.id (set_step_completed d₃.omit_null d₃.now r) d₃)
      | thrown err ↦ settle_failure c fx w' s definition err d₃
    ]

-- A workflow that is no longer claimable is left to its new owner.
unfoldable pub abandon : Effects → Workflow → WorkflowState → Db → Phase × Workflow × Db
abandon fx w live d =
    let d' = release_workflow w.id (λ row. row) d in
    let w' = record w { state = live } in
    (
      done,
      w',
      if is_superseded live
          then best_effort d'
              (record_workflow_event fx.audit_fails w' false Outcome.superseded no_details d')
          else d',
    )

abbrev pub is_unfinished : WorkflowStep → Bool
is_unfinished s = not (is_finished s.state)

unfoldable pub run_found_step :
    Config → Effects → Workflow → Option WorkflowStep → Db → Phase × Workflow × Db
unfolding attempt_step
run_found_step c fx w none d = let (w', d') = complete_workflow c w d in (done, w', d')
run_found_step c fx w (some s) d = elim (definition_of w.type w.payload s.name) [
  | some definition ↦ attempt_step c fx w s definition d
  | none ↦
      let reason =
        text_append "unknown step \""
          (text_append (step_text s.name) "\" in persisted workflow plan") in
      let (w', d') = fail_workflow c fx w s.name reason reason d in (done, w', d')
]

-- `runNextStep`.
unfoldable pub run_next_step :
    Config → Effects → Workflow → List WorkflowStep → Db → Phase × Workflow × Db
unfolding abandon run_found_step
run_next_step c fx w steps d = elim (get_workflow_state w.id d) [
  | none ↦ abandon fx w WorkflowState.superseded d
  | some live ↦
      if is_claimable live
      then run_found_step c fx w (find is_unfinished steps) d
      else abandon fx w live d
]

-- The loop of `execute`: whether it ended before its iterations ran out, the workflow, the tables.
unfoldable pub iterate : Config → Effects → ℕ → Workflow → Db → Bool × Workflow × Db
iterate c fx zero w d = (false, w, d)
iterate c fx (suc n) w d =
    let (phase, w', d') = run_next_step c fx w (get_workflow_steps w.id d) d in
    elim phase [
      | next ↦ iterate c fx n w' d'
      | retry_scheduled ↦ (true, w', d')
      | done ↦ (true, w', d')
    ]

abbrev pub started_or : Option ℕ → ℕ → Option ℕ
started_or none now = some now
started_or (some t) now = some t

unfoldable pub set_running : ℕ → Workflow → Workflow → Workflow
set_running now w row = record row {
  state = WorkflowState.running;
  started_at = started_or w.started_at now;
}

-- The unguarded update of a workflow that was PENDING when it was read; `none` is the error of the
-- unique index.
unfoldable pub start_workflow : Workflow → Db → Option Db
start_workflow w d =
    let d' = update_workflows (by_id w.id) (set_running d.now w) d in
    if violates (record w { state = WorkflowState.running }) d'.workflows then none else some d'

-- `execute`, after the workflow has started.
unfoldable pub drive : Config → Effects → Workflow → Db → WorkflowState × Db
drive c fx w d =
    let (ended, w', d') = iterate c fx (length (get_workflow_steps w.id d) + 1) w d in
    if ended then (w'.state, d') else (w'.state, release_workflow w.id (λ row. row) d')

-- `execute`; `none` is an error that it throws.
unfoldable pub execute : Config → Effects → Workflow → Db → Option (WorkflowState × Db)
unfolding start_workflow drive
execute c fx w d =
    if is_pending w.state
    then (elim (start_workflow w d) [
      | none ↦ none
      | some d' ↦ some (drive c fx (record w { state = WorkflowState.running }) d')
    ])
    else some (drive c fx w d)

-- The `catch` around `execute`: the claim is dropped.
unfoldable pub execute_or_release : Config → Effects → Workflow → Db → Option WorkflowState × Db
execute_or_release c fx w d = elim (execute c fx w d) [
  | some (state, d') ↦ (some state, d')
  | none ↦ (none, release_workflow w.id (λ row. record row { last_error = some "unique index" }) d)
]

-- `runWorkflow`; `none` is the `null` of a workflow that cannot be claimed, or of an error.
unfoldable pub run_workflow : Config → Effects → ℕ → Db → Option WorkflowState × Db
unfolding execute_or_release
run_workflow c fx i d =
    let (claimed, d') = claim_workflow c (some i) d in
    elim claimed [ none ↦ (none, d') | some w ↦ execute_or_release c fx w d' ]

-- The loop of `drainClaimableWorkflows`: how many were processed.
unfoldable pub drain : Config → Effects → ℕ → ℕ → Db → ℕ × Db
unfolding execute_or_release
drain c fx zero processed d = (processed, d)
drain c fx (suc n) processed d =
    let (claimed, d') = claim_workflow c none d in
    elim claimed [
      | none ↦ (processed, d')
      | some w ↦ drain c fx n (processed + 1) (execute_or_release c fx w d').1
    ]

-- `drainWorkflows`.
unfoldable pub drain_workflows : Config → Effects → ℕ → Db → ℕ × Db
unfolding drain
drain_workflows c fx most d = drain c fx most 0 (promote_orphaned_queued_workflows most d).1
