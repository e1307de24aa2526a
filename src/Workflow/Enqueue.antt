-- ===== src/Workflow/Enqueue.antt =====
-- app/workflow/request-workflow.ts: turning a submission into a stored workflow, and running it.
pub mod Laws
pub mod Accepted
use sso_requests.Base.{
  ℕ, zero, suc, ◌+◌, ◌-◌, min, Bool, true, false, ◌&&◌, ◌||◌, not, List, [], ◌∷◌, map, Option, none,
  some, String, nat_eq, ◌==◌, if◌then◌else◌, find, ltb, or_else, is_some,
}
use sso_requests.Workflow.Types.{
  WorkflowState, StepState, WorkflowType, ActionType, StepName, is_active, is_terminal, is_delete,
  is_apply, Payload, WorkflowContext, Workflow, WorkflowStep, EventCode, Db,
}
use sso_requests.Workflow.Backoff.{Config, WorkflowExecutionMode}
use sso_requests.Workflow.Audit.{audit_action_for, count_apply_outcomes}
use sso_requests.Workflow.Store.Tables.{get_workflow, get_workflow_steps, get_latest_workflow}
use sso_requests.Workflow.Store.Create.{
  CreateWorkflowParams, CreateWorkflowResult, StoreError, Stored, stored, failed, in_flight,
  create_workflow, supersede_active_workflows,
}
use sso_requests.Workflow.Steps.{Effects, build_steps, step_plan}
use sso_requests.Workflow.Orchestrator.{is_background, kick_off, run_workflow}

-- `EnqueueOptions`; an absent correlation id is one that the caller generates.
pub record EnqueueOptions : Type 0 where
  pub restore : Bool
  pub existing_client_id : Option String
  pub adding_prod : Bool
  pub await_completion : Bool
  pub correlation_id : String

pub record EnqueueResult : Type 0 where
  pub workflow_id : ℕ
  pub correlation_id : String
  pub state : WorkflowState
  pub created : Bool
  pub queued : Bool
  pub audit_action : EventCode

-- `resolveWorkflowType`.
unfoldable pub resolve_workflow_type : Payload → Bool → WorkflowType
resolve_workflow_type p restore =
    if p.archived
    then WorkflowType.integration_delete
    else if restore
    then WorkflowType.integration_restore
    else WorkflowType.integration_apply

-- `resolveAction`.
unfoldable pub resolve_action : WorkflowType → Bool → ActionType
resolve_action type is_create =
    if is_delete type
    then ActionType.delete
    else if is_create
    then ActionType.create
    else ActionType.update

-- `hasBeenApplied`.
unfoldable pub has_been_applied : ℕ → Db → Bool
has_been_applied r d = ltb 0 (count_apply_outcomes r false d)

unfoldable pub is_create_of : Payload → EnqueueOptions → Db → Bool
unfolding resolve_workflow_type has_been_applied
is_create_of p options d =
    is_apply (resolve_workflow_type p options.restore)
    && (not options.restore && not (has_been_applied p.id d))

-- What `enqueueRequestWorkflow` passes to `createWorkflow`; the id is the next unused one.
unfoldable pub create_params : Payload → EnqueueOptions → Db → CreateWorkflowParams
unfolding is_create_of resolve_action
create_params p options d =
    let type = resolve_workflow_type p options.restore in
    record {
      id = d.next_id;
      correlation_id = options.correlation_id;
      request_id = p.id;
      type = type;
      action = resolve_action type (is_create_of p options d);
      payload = p;
      context = record {
        is_create = is_create_of p options d;
        restore = options.restore;
        adding_prod = options.adding_prod;
        existing_client_id = or_else options.existing_client_id "";
      };
      steps = step_plan (build_steps type p);
    }

-- What is returned of a stored submission, and the error of one that was to be awaited and is parked.
unfoldable pub enqueue_result :
    CreateWorkflowParams → EnqueueOptions → Stored CreateWorkflowResult → Stored EnqueueResult
enqueue_result params options (failed e) = failed e
enqueue_result params options (stored r d) =
    if r.queued && options.await_completion
    then failed in_flight
    else stored
        (record {
          workflow_id = r.workflow.id;
          correlation_id = r.workflow.correlation_id;
          state = r.workflow.state;
          created = r.created;
          queued = r.queued;
          audit_action = audit_action_for params.type params.action params.payload;
        })
        d

-- A delete first closes out whatever is in flight.
unfoldable pub supersede_for_delete : (Db → Bool) → CreateWorkflowParams → Db → Stored ℕ
supersede_for_delete fails params d =
    if is_delete params.type
    then supersede_active_workflows fails params.request_id (some params.id) params.correlation_id d
    else stored 0 d

unfoldable pub create_after :
    (Db → Bool)
    → (Db → List Workflow)
    → CreateWorkflowParams
    → EnqueueOptions
    → Stored ℕ
    → Stored EnqueueResult
unfolding enqueue_result
create_after fails seen params options (failed e) = failed e
create_after fails seen params options (stored superseded d) =
    enqueue_result params options (create_workflow fails (seen d) params d)

-- `enqueueRequestWorkflow`, in the caller's transaction: a failure leaves nothing behind. `seen` is
-- what the transaction's reads see of the table.
unfoldable pub enqueue_request_workflow :
    (Db → Bool) → (Db → List Workflow) → Payload → EnqueueOptions → Db → Stored EnqueueResult
unfolding create_params create_after supersede_for_delete
enqueue_request_workflow fails seen p options d =
    let params = create_params p options d in
    create_after fails seen params options
      (supersede_for_delete fails params (record d { next_id = suc d.next_id }))

abbrev pub max_synchronous_iterations : ℕ
max_synchronous_iterations = 30

abbrev pub synchronous_wait_ceiling_ms : ℕ
synchronous_wait_ceiling_ms = 5000

-- `sleep` until the next run, for at most the ceiling; a run that is due needs no sleep.
unfoldable pub wait_for : Workflow → Db → Db
wait_for w d = record d { now = d.now + min (w.run_after - d.now) synchronous_wait_ceiling_ms }

-- The loop of `runToCompletion`.
unfoldable pub run_to_completion : Config → Effects → ℕ → ℕ → Db → WorkflowState × Db
unfolding wait_for
run_to_completion c fx zero i d = (WorkflowState.running, d)
run_to_completion c fx (suc n) i d =
    let d' = (run_workflow c fx i d).1 in
    elim (get_workflow i d') [
      | none ↦ (WorkflowState.failed, d')
      | some w ↦
          let rest = run_to_completion c fx n i (wait_for w d') in
          if is_terminal w.state then (w.state, d') else rest
    ]

abbrev pub is_synchronous : WorkflowExecutionMode → Bool
is_synchronous WorkflowExecutionMode.synchronous = true
is_synchronous _ = false

-- `executeEnqueuedWorkflow`.
unfoldable pub execute_enqueued_workflow :
    Config → Effects → EnqueueResult → Bool → Db → EnqueueResult × Db
unfolding run_to_completion kick_off
execute_enqueued_workflow c fx r await_completion d =
    if r.queued || not r.created
    then (r, d)
    else if await_completion || is_synchronous c.mode
    then (let (state, d') = run_to_completion c fx max_synchronous_iterations r.workflow_id d in
        (record r { state = state }, d'))
    else if is_background c.mode
    then (r, kick_off r.workflow_id 0 d)
    else (r, d)

-- `RequestWorkflowProgress`, with the steps' projection.
pub record ProgressStep : Type 0 where
  pub name : StepName
  pub label : String
  pub state : StepState
  pub attempts : ℕ
  pub error : Option String
  pub started_at : Option ℕ
  pub completed_at : Option ℕ

pub record Progress : Type 0 where
  pub request_workflow_id : ℕ
  pub correlation_id : String
  pub request_id : ℕ
  pub type : WorkflowType
  pub action : ActionType
  pub state : WorkflowState
  pub active : Bool
  pub failed_step : Option StepName
  pub error : Option String
  pub started_at : Option ℕ
  pub completed_at : Option ℕ
  pub steps : List ProgressStep

abbrev pub is_failed_step : WorkflowStep → Bool
is_failed_step s = elim (WorkflowStep.state s) [ StepState.failed ↦ true | _ ↦ false ]

abbrev pub name_of : Option WorkflowStep → Option StepName
name_of none = none
name_of (some s) = some s.name

abbrev pub progress_step : WorkflowStep → ProgressStep
progress_step s = record {
  name = s.name;
  label = s.label;
  state = s.state;
  attempts = s.attempts;
  error = s.last_error;
  started_at = s.started_at;
  completed_at = s.completed_at;
}

unfoldable pub progress_of : Workflow → List WorkflowStep → Progress
progress_of w steps = record {
  request_workflow_id = w.id;
  correlation_id = w.correlation_id;
  request_id = w.request_id;
  type = w.type;
  action = w.action;
  state = w.state;
  active = is_active w.state;
  failed_step = name_of (find is_failed_step steps);
  error = w.last_error;
  started_at = w.started_at;
  completed_at = w.completed_at;
  steps = map progress_step steps;
}

-- `getIntegrationProgress`.
unfoldable pub get_integration_progress : ℕ → Db → Option Progress
unfolding progress_of
get_integration_progress r d = elim (get_latest_workflow r d) [
  | none ↦ none
  | some w ↦ some (progress_of w (get_workflow_steps w.id d))
]
