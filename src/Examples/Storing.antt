-- ===== src/Examples/Storing.antt =====
-- Submissions, claims and promotions at concrete inputs.
use sso_requests.Base.{◌≡◌, refl, true, false, [], ◌∷◌, none, some, arith, count, nat_eq}
use sso_requests.Workflow.Types.{
  WorkflowType, WorkflowState, Workflow, Db, Outcome, EventCode, Event,
}
use sso_requests.Workflow.Backoff.{default_config}
use sso_requests.Workflow.Audit.{
  record_workflow_event, no_details, event_of, workflow_action, audit_action_for, is_uuid,
  record_superseded, superseded_by,
}
use sso_requests.Workflow.Audit.Laws.{IsAnsweredOnce}
use sso_requests.Workflow.Store.Tables.{
  IsUnique, claimable_of, queued_of, active_of, update_workflows, get_workflow,
}
use sso_requests.Workflow.Store.Create.{
  stored, create_workflow, new_workflow, write_step_plan, submit, insert_workflow,
  supersede_active_workflows, set_superseded,
}
use sso_requests.Workflow.Store.Lease.{claim_workflow, claim_candidate, is_runnable, take_claim}
use sso_requests.Workflow.Store.Lease.Laws.{spares, claim_workflow_exclusive}
use sso_requests.Workflow.Store.Promote.{promote_queued_workflow}
use sso_requests.Workflow.Store.Promote.Laws.{others, promote_queued_workflow_lem}
use sso_requests.Workflow.Enqueue.{EnqueueResult, enqueue_request_workflow}
use sso_requests.Workflow.Enqueue.Laws.{
  IsWorkflowOf, supersede_active_workflows_lem, enqueue_request_workflow_delete,
}
use sso_requests.Workflow.Orchestrator.{complete_workflow}
use sso_requests.Workflow.Lifecycle.{stay, then_step, submits, completes, records, Steps-IsUnique}
use sso_requests.Workflow.Lifecycle.Answers.{Steps-IsAnsweredOnce}
use sso_requests.Examples.Fixtures.{workflow, tables, params, options, payload, operation}

-- One workflow of the request 7, which runs.
abbrev busy : Db
busy = tables (workflow 1 WorkflowState.running (some 150) ∷ [])

-- And a queued one behind a finished one.
abbrev parked : Db
parked =
    tables (workflow 3 WorkflowState.queued none ∷ workflow 1 WorkflowState.completed none ∷ [])

abbrev waiting : Db
waiting = tables (workflow 1 WorkflowState.pending none ∷ [])

busy-IsUnique : IsUnique busy.workflows
busy-IsUnique = record { claimable = λ r. ground arith; queued = λ r. ground arith }

parked-IsUnique : IsUnique parked.workflows
parked-IsUnique = record { claimable = λ r. ground arith; queued = λ r. ground arith }

-- A submission behind a running workflow is queued.
abbrev after_submission : Db
after_submission =
    write_step_plan 2 params.steps
      (record busy { workflows = new_workflow params WorkflowState.queued 200 ∷ busy.workflows })

create_workflow_queued :
    create_workflow (λ d. false) busy.workflows params busy
    ≡ stored
        (record {
          workflow = new_workflow params WorkflowState.queued 200;
          created = true;
          queued = true;
        })
        after_submission
unfolding create_workflow submit insert_workflow new_workflow
create_workflow_queued = refl

-- A delete while a workflow runs.
enqueue_request_workflow_delete_example :
    (r : EnqueueResult) × (d' : Db) × (enqueue_request_workflow
        (λ d. false)
        Db.workflows
        (record payload { archived = true })
        options
        busy
      ≡ stored r d')
    × (r.workflow_id ≡ 50)
    × (r.state ≡ WorkflowState.pending)
    × (r.created ≡ true)
    × (r.queued ≡ false)
    × (count (active_of 7) d'.workflows ≡ 1)
    × IsWorkflowOf WorkflowType.integration_delete
        (record payload { archived = true })
        operation
        r
        d'
enqueue_request_workflow_delete_example =
    enqueue_request_workflow_delete (λ d. false) (record payload { archived = true }) options busy
      (λ d. refl) refl

-- A worker claims a pending workflow, and another asks for it while the lease runs.
abbrev claimed : Workflow
claimed = record (workflow 1 WorkflowState.pending (some 200)) {
  claimed_by = some 4;
  updated_at = 200;
}

claim_workflow_first :
    claim_workflow (default_config 4) (some 1) waiting
    ≡ (some claimed, record waiting { workflows = claimed ∷ [] })
unfolding claim_workflow claim_candidate is_runnable take_claim update_workflows get_workflow
claim_workflow_first = refl

claim_workflow_exclusive_example :
    spares 1
      (claim_workflow
        (default_config 5)
        none
        (record waiting { workflows = claimed ∷ []; now = 1000200 })).0
    ≡ true
claim_workflow_exclusive_example =
    claim_workflow_exclusive (default_config 4) (default_config 5) (some 1) none waiting
      (record waiting { workflows = claimed ∷ [] }) claimed 1000200 refl claim_workflow_first
      (omega arith)

-- A running workflow whose worker has not been heard of since the time 150.
abbrev stale : Db
stale = record busy { now = 1000151 }

promote_queued_workflow_lem_example :
    (count (claimable_of 7) (promote_queued_workflow 7 parked).1.workflows ≡ 1)
    × (count (queued_of 7) (promote_queued_workflow 7 parked).1.workflows ≡ 0)
    × (others 7 (promote_queued_workflow 7 parked).1.workflows ≡ others 7 parked.workflows)
promote_queued_workflow_lem_example = promote_queued_workflow_lem 7 parked refl

-- Recording an outcome, and again.
abbrev success : Event
success =
    event_of (workflow 1 WorkflowState.running none) EventCode.request_create Outcome.success
      no_details

record_workflow_event-success :
    record_workflow_event
      (λ d. false)
      (workflow 1 WorkflowState.running none)
      false
      Outcome.success
      no_details
      busy
    ≡ some (record busy { events = success ∷ [] })
unfolding record_workflow_event is_uuid workflow_action audit_action_for
record_workflow_event-success = refl

-- Superseding the running workflow.
abbrev after_supersede : Db
after_supersede = record busy {
  workflows =
      record (set_superseded false 200 operation (workflow 1 WorkflowState.running (some 150))) {
        updated_at = 200;
      }
      ∷ [];
  events =
      event_of (workflow 1 WorkflowState.running (some 150)) EventCode.request_create
        Outcome.superseded (superseded_by (some 2) operation)
      ∷ [];
}

supersede_active_workflows_one :
    supersede_active_workflows (λ d. false) 7 (some 2) operation busy ≡ stored 1 after_supersede
unfolding supersede_active_workflows record_superseded record_workflow_event update_workflows
    set_superseded is_uuid workflow_action audit_action_for
supersede_active_workflows_one = refl

supersede_active_workflows_lem_example :
    (count (active_of 7) after_supersede.workflows ≡ 0)
    × (1 ≡ count (active_of 7) busy.workflows)
    × (after_supersede.steps ≡ busy.steps)
supersede_active_workflows_lem_example =
    supersede_active_workflows_lem (λ d. false) 7 (some 2) operation busy after_supersede 1
      supersede_active_workflows_one

-- A submission is queued behind a running workflow, which then completes.
Steps-IsUnique_example :
    IsUnique
      (complete_workflow
        (default_config 4)
        (workflow 1 WorkflowState.running (some 150))
        after_submission).1.workflows
Steps-IsUnique_example =
    Steps-IsUnique
      (then_step
        (then_step stay (
          submits (λ d. false) busy.workflows params
            (record {
              workflow = new_workflow params WorkflowState.queued 200;
              created = true;
              queued = true;
            })
            ((λ e. refl, tt), tt) create_workflow_queued))
        (completes (default_config 4) (workflow 1 WorkflowState.running (some 150))))
      busy-IsUnique

-- The outcome is recorded, and the workflow completes.
Steps-IsAnsweredOnce_example :
    IsAnsweredOnce
      (complete_workflow
        (default_config 4)
        (workflow 1 WorkflowState.running (some 150))
        (record busy { events = success ∷ [] })).1.events
Steps-IsAnsweredOnce_example =
    Steps-IsAnsweredOnce
      (then_step
        (then_step stay (
          records (λ d. false) (workflow 1 WorkflowState.running none) false Outcome.success
            no_details record_workflow_event-success))
        (completes (default_config 4) (workflow 1 WorkflowState.running (some 150))))
      (λ op code n. omega arith)
