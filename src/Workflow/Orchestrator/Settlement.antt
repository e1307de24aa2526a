-- ===== src/Workflow/Orchestrator/Settlement.antt =====
-- How a run ends (app/workflow/orchestrator.ts): completing and failing a workflow, and starting one,
-- where a delete may have superseded it.
use sso_requests.Base.{
  ℕ, ◌≡◌, refl, ap, ◌∙◌, ltb, ◌≤◌, ◌+◌, ◌&&◌, Bool, true, false, ◌<◌, List, [], ◌∷◌, none, some,
  arith, count, String, update_where, ◌==◌, nat_eq, if◌then◌else◌, Option-cases, inl, inr,
  Bool-cases,
}
use sso_requests.Workflow.Types.{
  WorkflowState, StepName, is_step, Workflow, Failure, RequestStatus, Db, Outcome, Details,
}
use sso_requests.Workflow.Backoff.{Config}
use sso_requests.Workflow.Audit.{record_workflow_event, best_effort, no_details}
use sso_requests.Workflow.Audit.Laws.{record_workflow_event-IsEventsOnly, IsEventsOnly}
use sso_requests.Workflow.Store.Tables.{by_id, claimable_of, update_workflows, record_failure}
use sso_requests.Workflow.Store.Promote.{promote_queued_workflow}
use sso_requests.Workflow.Store.Lease.{release_workflow_if_active, is_claimable_row}
use sso_requests.Workflow.Store.Lease.Laws.{release_workflow_if_active_lost}
use sso_requests.Workflow.Steps.{Effects, set_status, set_request_status}
use sso_requests.Workflow.Orchestrator.Alerts.{alert_ops-KeepsTables, alert_ops_lem}
use sso_requests.Workflow.Orchestrator.{
  set_completed, complete_workflow, set_failed, fail_workflow, dead_letter, record_failure_events,
  start_queued_workflow, kick_off, alert_ops, failure_details, start_workflow, set_running,
}

pub best_effort-IsEventsOnly :
    (fails : Db → Bool) (w : Workflow) (step : Bool) (o : Outcome) (x : Details) (d : Db)
    → IsEventsOnly d (best_effort d (record_workflow_event fails w step o x d))
best_effort-IsEventsOnly fails w step o x d =
    elim (Option-cases (record_workflow_event fails w step o x d)) [
      | inl stopped ↦ ground (arith, stopped)
      | inr (d', written) ↦
          let e = record_workflow_event-IsEventsOnly fails w step o x d d' written in
          ground (arith, written, e)
    ]

pub record_failure_events-IsEventsOnly :
    (fx : Effects) (w : Workflow) (step : StepName) (x : Details) (d : Db)
    → IsEventsOnly d (record_failure_events fx w step x d)
unfolding record_failure_events
record_failure_events-IsEventsOnly fx w step x d =
    let d₁ = best_effort d (record_workflow_event fx.audit_fails w true Outcome.failure x d) in
    let a = best_effort-IsEventsOnly fx.audit_fails w true Outcome.failure x d in
    let b = best_effort-IsEventsOnly fx.audit_fails w false Outcome.failure x d₁ in
    let b' = best_effort-IsEventsOnly fx.audit_fails w false Outcome.failure x d in
    ground (arith, a, b, b', Bool-cases (is_step step StepName.plan))

-- Promoting the next submission touches the workflows, and may start a run.
start_queued_workflow_keeps :
    (c : Config) (w : Workflow) (d : Db)
    → let d' = start_queued_workflow c w d in
      (d'.failures ≡ d.failures) × (d'.alerts ≡ d.alerts) × (d'.statuses ≡ d.statuses)
unfolding start_queued_workflow promote_queued_workflow update_workflows kick_off
start_queued_workflow_keeps c w d = ground arith

-- A worker whose workflow is no longer claimable (a delete has superseded it) cannot fail it: no
-- dead letter, no alert, no status, no promotion; the row stays superseded. The one thing left
-- behind, at most, is the operation's `superseded` event.
pub fail_workflow_lost :
    (c : Config) (fx : Effects) (w : Workflow) (step : StepName) (reason error : String) (d : Db)
    → count (is_claimable_row w.id) d.workflows ≡ 0
    → ((fail_workflow c fx w step reason error d).0 ≡ w)
      × IsEventsOnly d (fail_workflow c fx w step reason error d).1
unfolding fail_workflow
fail_workflow_lost c fx w step reason error d h =
    let lost = release_workflow_if_active_lost w.id (set_failed d.now step error) d h in
    rw lost (refl, best_effort-IsEventsOnly fx.audit_fails w false Outcome.superseded no_details d)

-- A worker whose workflow is no longer claimable cannot complete it: nothing at all changes.
pub complete_workflow_lost :
    (c : Config) (w : Workflow) (d : Db)
    → count (is_claimable_row w.id) d.workflows ≡ 0
    → complete_workflow c w d ≡ (w, d)
unfolding complete_workflow
complete_workflow_lost c w d h =
    let lost = release_workflow_if_active_lost w.id (set_completed d.omit_null d.now) d h in
    rw lost refl

-- The row of the dead-letter queue.
abbrev pub dead_letter_row : Workflow → StepName → String → String → Failure
dead_letter_row w step reason error = record {
  request_workflow_id = w.id;
  request_id = w.request_id;
  correlation_id = w.correlation_id;
  failed_step = some step;
  reason = reason;
  error = error;
  acknowledged = false;
}

-- The status that a failure writes: whether the plan or a later step failed.
abbrev pub status_after : StepName → RequestStatus
status_after step =
    if is_step step StepName.plan then RequestStatus.plan_failed else RequestStatus.apply_failed

-- What a dead letter leaves, with its alert where that is sent.
pub record IsDeadLettered (sent : Bool) (w : Workflow) (step : StepName) (reason error : String)
    (d d' : Db) : Type 0 where
  pub alerts : d'.alerts ≡ (if sent then (w.id, some step) ∷ d.alerts else d.alerts)
  pub failures : d'.failures ≡ dead_letter_row w step reason error ∷ d.failures
  pub statuses :
      d'.statuses
      ≡ update_where (λ row. row.0 == w.request_id) (set_status (status_after step)) d.statuses

dead_letter_lem :
    (c : Config) (fx : Effects) (sent : Bool) (w : Workflow) (step : StepName)
    (reason error : String) (d : Db)
    → ((e : Db) → fx.alert_sent e ≡ sent)
    → IsDeadLettered sent w step reason error d (dead_letter c fx w step reason error d)
unfolding dead_letter set_request_status record_failure
dead_letter_lem c fx sent w step reason error d posted =
    let d₁ = set_request_status w.request_id (status_after step) d in
    let d₂ = record_failure_events fx w step (failure_details step reason error) d₁ in
    let a = record_failure_events-IsEventsOnly fx w step (failure_details step reason error) d₁ in
    let lettered = record_failure w (some step) reason error d₂ in
    let d₃ = alert_ops fx w.id (some step) lettered in
    let k = alert_ops-KeepsTables fx w.id (some step) lettered in
    let alerted = alert_ops_lem fx w.id (some step) sent lettered (posted lettered) in
    let (failures, alerts, statuses) = start_queued_workflow_keeps c w d₃ in
    record {
      alerts =
          alerts
          ∙ (alerted ∙ ap (λ rest. if sent then (w.id, some step) ∷ rest else rest) a.alerts);
      failures =
          failures
          ∙ (k.failures ∙ ap (λ rest. dead_letter_row w step reason error ∷ rest) a.failures);
      statuses = statuses ∙ (k.statuses ∙ a.statuses);
    }

-- A worker that still has its workflow dead-letters it: the alert goes out, where the webhook is configured
-- and answers (`sent`, the same throughout the run), the dead-letter queue has in any case one more row, which names the request, the step and the error, and the integration's status says
-- whether the plan or a later step failed.
pub fail_workflow_won :
    (c : Config) (fx : Effects) (sent : Bool) (w : Workflow) (step : StepName)
    (reason error : String) (d : Db)
    → ((e : Db) → fx.alert_sent e ≡ sent)
    → 0 < count (is_claimable_row w.id) d.workflows
    → ((fail_workflow c fx w step reason error d).0.state ≡ WorkflowState.failed)
      × IsDeadLettered sent w step reason error d (fail_workflow c fx w step reason error d).1
unfolding fail_workflow release_workflow_if_active update_workflows
fail_workflow_won c fx sent w step reason error d posted h =
    let won : ltb 0 (count (is_claimable_row w.id) d.workflows) ≡ true = ground (arith, h) in
    let d' = (release_workflow_if_active w.id (set_failed d.now step error) d).1 in
    let e =
      dead_letter_lem c fx sent (record w { state = WorkflowState.failed }) step reason error d'
        posted in
    rw won (refl, record { alerts = e.alerts; failures = e.failures; statuses = e.statuses })

-- The row of a workflow and its request.
abbrev pub is_row_of : ℕ → ℕ → Workflow → Bool
is_row_of i r v = v.id == i && v.request_id == r

count-set_running :
    (i r now stamp : ℕ) (w : Workflow) (ws : List Workflow)
    → count (is_claimable_row i) ws ≡ 0
    → count (claimable_of r) ws + count (is_row_of i r) ws
      ≤ count
          (claimable_of r)
          (update_where (by_id i) (λ v. record (set_running now w v) { updated_at = stamp }) ws)
unfolding set_running
count-set_running i r now stamp w [] h = omega arith
count-set_running i r now stamp w (v ∷ ws) h =
    let rest : count (is_claimable_row i) ws ≡ 0 = ground (arith, h) in
    ground (arith, h, count-set_running i r now stamp w ws rest)

-- A worker that claimed a workflow as PENDING, and lost it to a delete before it started it, does not
-- revive it while the request has a claimable workflow: the worker's update of the row is unguarded, but the
-- unique index refuses it. (The row is stored, and is not claimable itself.)
pub start_workflow_superseded :
    (w : Workflow) (d : Db)
    → count (is_claimable_row w.id) d.workflows ≡ 0
    → 0 < count (is_row_of w.id w.request_id) d.workflows
    → 0 < count (claimable_of w.request_id) d.workflows
    → start_workflow w d ≡ none
unfolding start_workflow update_workflows
start_workflow_superseded w d lost stored rival =
    ground
      (arith, count-set_running w.id w.request_id d.now d.now w d.workflows lost, stored, rival)
