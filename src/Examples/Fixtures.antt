-- ===== src/Examples/Fixtures.antt =====
-- A small database, a payload and the surroundings of the engine.
use sso_requests.Base.{ℕ, ◌+◌, ◌-◌, true, false, List, [], ◌∷◌, Option, none, some, String}
use sso_requests.Workflow.Types.{
  Environment, WorkflowState, StepState, WorkflowType, ActionType, StepName, Payload,
  WorkflowContext, Workflow, WorkflowStep, returned, thrown, Db, RequestStatus,
}
use sso_requests.Workflow.Store.Create.{CreateWorkflowParams}
use sso_requests.Workflow.Steps.{Effects}
use sso_requests.Workflow.Enqueue.{EnqueueOptions}

abbrev pub payload : Payload
payload = record {
  id = 7;
  client_id = some "my-app-7";
  archived = false;
  api_service_account = false;
  environments = some Environment.test ∷ some Environment.dev ∷ [];
  team_id = some 3;
  organization_id = none;
}

abbrev pub context : WorkflowContext
context = record { is_create = true; restore = false; adding_prod = false; existing_client_id = "" }

abbrev pub operation : String
operation = "0f8fad5b-d9cb-469f-a165-70867728950e"

-- A workflow of the request 7, which was stored at the time 100.
abbrev pub workflow : ℕ → WorkflowState → Option ℕ → Workflow
workflow i state claimed_at = record {
  id = i;
  correlation_id = operation;
  request_id = 7;
  type = WorkflowType.integration_apply;
  action = ActionType.create;
  state = state;
  payload = payload;
  context = context;
  attempts = 0;
  current_step = none;
  last_error = none;
  claimed_by = none;
  claimed_at = claimed_at;
  run_after = 100;
  started_at = none;
  completed_at = none;
  created_at = 100;
  updated_at = 100;
}

abbrev pub step : ℕ → StepName → StepState → WorkflowStep
step i name state = record {
  id = i;
  workflow_id = 1;
  name = name;
  label = "a step";
  sequence = i;
  state = state;
  attempts = 0;
  last_error = none;
  result = none;
  started_at = none;
  completed_at = none;
}

abbrev pub tables : List Workflow → Db
tables workflows = record {
  workflows = workflows;
  steps =
      step 10 StepName.plan StepState.completed ∷ step 11 StepName.finalize StepState.pending ∷ [];
  failures = [];
  events = [];
  statuses = (7, RequestStatus.planned) ∷ [];
  now = 200;
  next_id = 50;
  omit_null = false;
  kickoffs = [];
  alerts = [];
}

abbrev pub params : CreateWorkflowParams
params = record {
  id = 2;
  correlation_id = operation;
  request_id = 7;
  type = WorkflowType.integration_apply;
  action = ActionType.update;
  payload = payload;
  context = context;
  steps = record { name = StepName.plan; label = "plan" } ∷ [];
}

abbrev pub options : EnqueueOptions
options = record {
  restore = false;
  existing_client_id = none;
  adding_prod = false;
  await_completion = false;
  correlation_id = operation;
}

-- Each step takes ten milliseconds, and Keycloak confirms what it is asked for.
abbrev pub effects : Effects
effects = record {
  during = λ d. record d { now = d.now + 10 };
  keycloak_client = λ d e p existing. returned true;
  snapshot_roles = λ d r. returned [];
  restore_roles = λ d w before. thrown (record { permanent = false; message = "no client" });
  notify = λ d w. thrown (record { permanent = false; message = "no mail" });
  expires = λ d name. false;
  audit_fails = λ d. false;
  alert_sent = λ d. true;
  random_int = λ d n. n - 1;
}
