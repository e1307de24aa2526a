-- ===== src/Workflow/Lifecycle/Answers.antt =====
-- The audit record of the engine (app/workflow/audit.ts) along the steps of the pods.
use sso_requests.Base.{
  ◌++◌, count, count_mono, string_eq, [], ℕ, ◌≡◌, refl, Bool, true, false, List, [], ◌∷◌, Option,
  some, String, arith, Option-cases, Bool-cases, inl, inr, filter, find,
}
use sso_requests.Workflow.Types.{
  Event, EventCode, event_code_eq, Payload, WorkflowState, StepName, is_step, Workflow, Db, Outcome,
  Details,
}
use sso_requests.Workflow.Backoff.{Config}
use sso_requests.Workflow.Audit.{
  record_adopted_submission, truthy, record_superseded, record_workflow_event, superseded_by,
  best_effort, no_details,
}
use sso_requests.Workflow.Audit.Laws.{
  terminal_outcomes, count-append_one, IsAnsweredOnce, record_workflow_event-IsAnsweredOnce,
}
use sso_requests.Workflow.Store.Tables.{
  update_workflows, active_of, claimable_of, queued_of, get_active_workflow, record_failure,
}
use sso_requests.Workflow.Store.Create.{
  CreateWorkflowParams, CreateWorkflowResult, StoreError, Stored, stored, failed, unique_constraint,
  create_workflow, submit, insert_workflow, replace_queued, write_step_plan, set_superseded,
  supersede_active_workflows,
}
use sso_requests.Workflow.Store.Lease.{
  claim_workflow, claim_candidate, release_workflow, release_workflow_if_active, heartbeat_workflow,
}
use sso_requests.Workflow.Store.Promote.{promote_queued_workflow, promote_orphaned_queued_workflows}
use sso_requests.Workflow.Steps.{Effects, set_request_status}
use sso_requests.Workflow.Orchestrator.Alerts.{alert_ops-KeepsTables}
use sso_requests.Workflow.Orchestrator.{
  complete_workflow, set_completed, set_failed, fail_workflow, dead_letter, record_failure_events,
  failure_details, start_queued_workflow, start_workflow, kick_off, alert_ops,
}
use sso_requests.Workflow.Orchestrator.Settlement.{status_after}
use sso_requests.Workflow.Lifecycle.{
  closes, Step, submits, supersedes, claims, beats, starts, releases, notes, adopts, requests,
  completes, dead_letters, promotes, recovers, records, waits, Steps, stay, then_step,
}

record_superseded-IsAnsweredOnce :
    (fails : Db → Bool) (ws : List Workflow) (i : Option ℕ) (op : String) (d d' : Db)
    → IsAnsweredOnce d.events
    → record_superseded fails ws i op d ≡ some d'
    → IsAnsweredOnce d'.events
unfolding record_superseded
record_superseded-IsAnsweredOnce fails [] i op d d' once h =
    let same : d.events ≡ d'.events = ground (arith, h) in rw (← same) once
record_superseded-IsAnsweredOnce fails (w ∷ ws) i op d d' once h =
    elim (Option-cases
      (record_workflow_event fails w false Outcome.superseded (superseded_by i op) d)) [
        | inl stopped ↦ absurd (ground (arith, stopped))
        | inr (d₁, written) ↦
            record_superseded-IsAnsweredOnce fails ws i op d₁ d'
              (record_workflow_event-IsAnsweredOnce fails w false Outcome.superseded
                (superseded_by i op) d d₁ once written)
              (rw (written, record_superseded) at h)
      ]

best_effort-IsAnsweredOnce :
    (fails : Db → Bool) (w : Workflow) (step : Bool) (o : Outcome) (x : Details) (d : Db)
    → IsAnsweredOnce d.events
    → IsAnsweredOnce (best_effort d (record_workflow_event fails w step o x d)).events
best_effort-IsAnsweredOnce fails w step o x d once =
    elim (Option-cases (record_workflow_event fails w step o x d)) [
      | inl stopped ↦ rw stopped once
      | inr (d', written) ↦
          rw written (record_workflow_event-IsAnsweredOnce fails w step o x d d' once written)
    ]

supersede-IsAnsweredOnce :
    (fails : Db → Bool) (r : ℕ) (i : Option ℕ) (op : String) (n : ℕ) (d d' : Db)
    → supersede_active_workflows fails r i op d ≡ stored n d'
    → IsAnsweredOnce d.events
    → IsAnsweredOnce d'.events
unfolding supersede_active_workflows update_workflows
supersede-IsAnsweredOnce fails r i op n d d' h once =
    let d₁ = update_workflows (active_of r) (set_superseded d.omit_null d.now op) d in
    elim (Option-cases (record_superseded fails (filter (active_of r) d.workflows) i op d₁)) [
      | inl stopped ↦ absurd (ground (arith, stopped))
      | inr (d₂, written) ↦
          let same : d₂.events ≡ d'.events = ground (arith, written) in
          rw (← same) (
            record_superseded-IsAnsweredOnce fails (filter (active_of r) d.workflows) i op d₁ d₂
              once written)
    ]

replace_queued-IsAnsweredOnce :
    (fails : Db → Bool) (p : CreateWorkflowParams) (w : Workflow) (d d' : Db)
    (r : CreateWorkflowResult)
    → replace_queued fails p w d ≡ stored r d'
    → IsAnsweredOnce d.events
    → IsAnsweredOnce d'.events
unfolding replace_queued write_step_plan update_workflows
replace_queued-IsAnsweredOnce fails p w d d' r h once =
    elim (Option-cases (record_superseded fails (w ∷ []) (some w.id) p.correlation_id d)) [
      | inl stopped ↦ absurd (ground (arith, stopped))
      | inr (d₁, written) ↦
          let same : d₁.events ≡ d'.events = ground (arith, written) in
          rw (← same) (
            record_superseded-IsAnsweredOnce fails (w ∷ []) (some w.id) p.correlation_id d d₁ once
              written)
    ]

insert_workflow-IsAnsweredOnce :
    (p : CreateWorkflowParams) (s : WorkflowState) (q : Bool) (d d' : Db) (r : CreateWorkflowResult)
    → insert_workflow p s q d ≡ stored r d'
    → IsAnsweredOnce d.events
    → IsAnsweredOnce d'.events
unfolding insert_workflow write_step_plan
insert_workflow-IsAnsweredOnce p s q d d' r h once =
    let same : d.events ≡ d'.events = ground (arith, h) in rw (← same) once

submit-IsAnsweredOnce :
    (fails : Db → Bool) (seen : List Workflow) (p : CreateWorkflowParams) (d d' : Db)
    (r : CreateWorkflowResult)
    → submit fails seen p d ≡ stored r d'
    → IsAnsweredOnce d.events
    → IsAnsweredOnce d'.events
unfolding submit
submit-IsAnsweredOnce fails seen p d d' r h once =
    elim (Option-cases (find (claimable_of p.request_id) seen)) [
      | inl idle ↦
          insert_workflow-IsAnsweredOnce p WorkflowState.pending false d d' r (ground (arith, idle))
            once
      | inr (w, busy) ↦ elim (Option-cases (find (queued_of p.request_id) seen)) [
        | inl free ↦
            insert_workflow-IsAnsweredOnce p WorkflowState.queued true d d' r
              (ground (arith, busy, free)) once
        | inr (q, parked) ↦
            replace_queued-IsAnsweredOnce fails p q d d' r (ground (arith, busy, parked)) once
      ]
    ]

create_workflow-IsAnsweredOnce :
    (fails : Db → Bool) (seen : List Workflow) (p : CreateWorkflowParams) (d d' : Db)
    (r : CreateWorkflowResult)
    → create_workflow fails seen p d ≡ stored r d'
    → IsAnsweredOnce d.events
    → IsAnsweredOnce d'.events
unfolding create_workflow
create_workflow-IsAnsweredOnce fails seen p d d' r h once = settled (submit fails seen p d) refl
  where
    settled :
        (m : Stored CreateWorkflowResult) → submit fails seen p d ≡ m → IsAnsweredOnce d'.events
    settled (stored r₁ d₁) e = submit-IsAnsweredOnce fails seen p d d' r (ground (arith, e)) once
    settled (failed unique_constraint) e =
        elim (Option-cases (get_active_workflow p.request_id d)) [
          | inl nobody ↦ absurd (ground (arith, e, nobody))
          | inr (w, active) ↦ let same : d ≡ d' = ground (arith, e, active) in rw (← same) once
        ]
    settled (failed StoreError.audit_write) e = absurd (ground (arith, e))
    settled (failed StoreError.in_flight) e = absurd (ground (arith, e))

-- What moves a row, and no event.
start_queued_workflow_events :
    (c : Config) (w : Workflow) (d : Db) → (start_queued_workflow c w d).events ≡ d.events
unfolding start_queued_workflow promote_queued_workflow update_workflows kick_off
start_queued_workflow_events c w d = ground arith

complete_workflow_events :
    (c : Config) (w : Workflow) (d : Db) → (complete_workflow c w d).1.events ≡ d.events
unfolding complete_workflow release_workflow_if_active update_workflows
complete_workflow_events c w d = ground (
  arith,
  start_queued_workflow_events c w
      (release_workflow_if_active w.id (set_completed d.omit_null d.now) d).1,
)

claim_workflow_events :
    (c : Config) (target : Option ℕ) (d : Db) → (claim_workflow c target d).1.events ≡ d.events
unfolding claim_workflow update_workflows
claim_workflow_events c target d = ground (arith, Option-cases (claim_candidate c target d))

start_workflow_events :
    (w : Workflow) (d d' : Db) → start_workflow w d ≡ some d' → d'.events ≡ d.events
unfolding start_workflow update_workflows
start_workflow_events w d d' h = ground arith

promote_events : (r : ℕ) (d : Db) → (promote_queued_workflow r d).1.events ≡ d.events
unfolding promote_queued_workflow update_workflows
promote_events r d = ground arith

record_failure_events-IsAnsweredOnce :
    (fx : Effects) (w : Workflow) (step : StepName) (x : Details) (d : Db)
    → IsAnsweredOnce d.events
    → IsAnsweredOnce (record_failure_events fx w step x d).events
unfolding record_failure_events
record_failure_events-IsAnsweredOnce fx w step x d once =
    elim (Bool-cases (is_step step StepName.plan)) [
      | inl planning ↦
          rw (planning, record_failure_events)
            (best_effort-IsAnsweredOnce fx.audit_fails w false Outcome.failure x
              (best_effort d (record_workflow_event fx.audit_fails w true Outcome.failure x d))
              (best_effort-IsAnsweredOnce fx.audit_fails w true Outcome.failure x d once))
      | inr later ↦
          rw (later, record_failure_events)
            (best_effort-IsAnsweredOnce fx.audit_fails w false Outcome.failure x d once)
    ]

dead_letter-IsAnsweredOnce :
    (c : Config) (fx : Effects) (w : Workflow) (step : StepName) (reason error : String) (d : Db)
    → IsAnsweredOnce d.events
    → IsAnsweredOnce (dead_letter c fx w step reason error d).events
unfolding dead_letter record_failure set_request_status
dead_letter-IsAnsweredOnce c fx w step reason error d once =
    let d₁ = set_request_status w.request_id (status_after step) d in
    let d₂ = record_failure_events fx w step (failure_details step reason error) d₁ in
    let lettered = record_failure w (some step) reason error d₂ in
    rw
      (
        start_queued_workflow_events c w (alert_ops fx w.id (some step) lettered),
        (alert_ops-KeepsTables fx w.id (some step) lettered).events,
      )
      (record_failure_events-IsAnsweredOnce fx w step (failure_details step reason error) d₁ once)

fail_workflow-IsAnsweredOnce :
    (c : Config) (fx : Effects) (w : Workflow) (step : StepName) (reason error : String) (d : Db)
    → IsAnsweredOnce d.events
    → IsAnsweredOnce (fail_workflow c fx w step reason error d).1.events
unfolding fail_workflow release_workflow_if_active update_workflows
fail_workflow-IsAnsweredOnce c fx w step reason error d once =
    let r = release_workflow_if_active w.id (set_failed d.now step error) d in
    elim (Bool-cases r.0) [
      | inl won ↦
          rw (won, fail_workflow)
            (dead_letter-IsAnsweredOnce c fx (record w { state = WorkflowState.failed }) step reason
              error r.1 once)
      | inr lost ↦
          rw (lost, fail_workflow)
            (best_effort-IsAnsweredOnce fx.audit_fails w false Outcome.superseded no_details r.1
              once)
    ]

append-IsAnsweredOnce :
    (e : Event) (es : List Event)
    → IsAnsweredOnce es
    → ((op : String) (code : EventCode)
        → terminal_outcomes op code e ≡ true
        → count (terminal_outcomes op code) es ≡ 0)
    → IsAnsweredOnce (es ++ e ∷ [])
append-IsAnsweredOnce e es once first op code n =
    rw (count-append_one (terminal_outcomes op code) es e)
      (elim (Bool-cases (terminal_outcomes op code e)) [
        | inl hit ↦ rw hit (omega (arith, first op code hit))
        | inr miss ↦ rw miss (once op code n)
      ])

-- The event of a submission that lost a race is the first that closes its operation.
adopts-IsAnsweredOnce :
    (fails : Db → Bool) (op : String) (winner : ℕ) (winner_op : String) (code : EventCode)
    (p : Payload) (d d' : Db)
    → count (closes op) d.events ≡ 0
    → record_adopted_submission fails op winner winner_op code p d ≡ some d'
    → IsAnsweredOnce d.events
    → IsAnsweredOnce d'.events
unfolding record_adopted_submission
adopts-IsAnsweredOnce fails op winner winner_op code p d d' fresh h once =
    let e : Event = record {
      event_code = code;
      outcome = Outcome.superseded;
      operation_id = some op;
      workflow_id = some winner;
      request_id = some p.id;
      team_id = truthy p.team_id;
      organization_id = truthy p.organization_id;
      details = superseded_by (some winner) winner_op;
    } in
    let same : d.events ++ e ∷ [] ≡ d'.events = ground arith in
    rw (← same) (
      append-IsAnsweredOnce e d.events once (λ other code' hit.
        let own : op ≡ other = (string_eq.beq_iff op other).0 (ground arith) in
        let most =
          count_mono (terminal_outcomes other code') (closes other) (λ x q. ground arith)
            d.events in
        omega (arith, most, rw own at fresh)))

Step-IsAnsweredOnce : {d d' : Db} → Step d d' → IsAnsweredOnce d.events → IsAnsweredOnce d'.events
unfolding heartbeat_workflow release_workflow update_workflows promote_orphaned_queued_workflows
Step-IsAnsweredOnce {d} {d'} (submits fails seen p r view h) once =
    create_workflow-IsAnsweredOnce fails seen p d d' r h once
Step-IsAnsweredOnce {d} {d'} (supersedes fails r i op n h) once =
    supersede-IsAnsweredOnce fails r i op n d d' h once
Step-IsAnsweredOnce {d} (claims c target) once = rw (claim_workflow_events c target d) once
Step-IsAnsweredOnce (beats c i) once = once
Step-IsAnsweredOnce {d} {d'} (starts w view h) once = rw (start_workflow_events w d d' h) once
Step-IsAnsweredOnce (releases i values same kept) once = once
Step-IsAnsweredOnce (notes i step) once = once
Step-IsAnsweredOnce {d} {d'} (adopts fails op winner winner_op code p fresh h) once =
    adopts-IsAnsweredOnce fails op winner winner_op code p d d' fresh h once
Step-IsAnsweredOnce {d} (requests e pending) once =
    append-IsAnsweredOnce e d.events once (λ op code h. absurd (ground (arith, h, pending op)))
Step-IsAnsweredOnce {d} (completes c w) once = rw (complete_workflow_events c w d) once
Step-IsAnsweredOnce {d} (dead_letters c fx w step reason error) once =
    fail_workflow-IsAnsweredOnce c fx w step reason error d once
Step-IsAnsweredOnce {d} (promotes r) once = rw (promote_events r d) once
Step-IsAnsweredOnce (recovers limit own) once = once
Step-IsAnsweredOnce {d} {d'} (records fails w step o x h) once =
    record_workflow_event-IsAnsweredOnce fails w step o x d d' once h
Step-IsAnsweredOnce (waits later) once = once

-- Whatever steps the pods take (those of Steps-IsUnique), in whatever order: no operation ever has two
-- terminal outcomes under one action, if it had none to begin with. (The operation id of a submission that
-- lost a race is fresh: no event has closed it when its `superseded` event is written.)
pub Steps-IsAnsweredOnce :
    {d d' : Db} → Steps d d' → IsAnsweredOnce d.events → IsAnsweredOnce d'.events
Steps-IsAnsweredOnce stay once = once
Steps-IsAnsweredOnce (then_step steps s) once =
    Step-IsAnsweredOnce s (Steps-IsAnsweredOnce steps once)
