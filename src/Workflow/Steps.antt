-- ===== src/Workflow/Steps.antt =====
-- app/workflow/steps/integration.ts: the plan of a workflow, and the execution of each step. What a
-- step calls outside the engine is an argument, `Effects`.
pub mod Laws
use sso_requests.Base.{
  ℕ, Bool, true, false, ◌&&◌, ◌||◌, List, [], ◌∷◌, ◌++◌, map, Option, none, some, String, nat_eq,
  ◌==◌, if◌then◌else◌, filter, any, find, update_where, ltb,
}
use sso_requests.Workflow.Types.{
  Environment, environment_eq, WorkflowType, StepName, is_step, is_delete, is_restore, Payload,
  Workflow, WorkflowStep, RolesSnapshot, StepResult, StepError, Thrown, returned, thrown, Outcome,
  RequestStatus, Db,
}
use sso_requests.Workflow.Backoff.{Config}
use sso_requests.Workflow.Audit.{record_workflow_event, no_details}
use sso_requests.Workflow.Store.Create.{StepPlan}
use sso_requests.Workflow.Store.Tables.{update_step}

-- What the steps call: Keycloak (app/keycloak), the role and mail effects (app/workflow/effects.ts),
-- the timer of `withTimeout`, the insert of an event, whether an alert is posted, `randomInt`. Each may depend on everything
-- stored, the clock included. `during` is what happens to the tables while a step runs: time passes,
-- the heartbeat beats, other pods work.
pub record Effects : Type 0 where
  pub during : Db → Db
  pub keycloak_client : Db → Environment → Payload → String → Thrown Bool
  pub snapshot_roles : Db → ℕ → Thrown RolesSnapshot
  pub restore_roles : Db → Workflow → RolesSnapshot → Thrown (Unit {0})
  pub notify : Db → Workflow → Thrown (Unit {0})
  pub expires : Db → StepName → Bool
  pub audit_fails : Db → Bool
  pub alert_sent : Db → Bool
  pub random_int : Db → ℕ → ℕ

-- `WorkflowStepDefinition`, but for `execute`, which is `execute_step` at the name.
pub record WorkflowStepDefinition : Type 0 where
  pub name : StepName
  pub label : String
  pub optional : Bool

abbrev pub environment_order : List Environment
environment_order = Environment.dev ∷ Environment.test ∷ Environment.prod ∷ []

abbrev pub has_environment : List (Option Environment) → Environment → Bool
has_environment [] e = false
has_environment (none ∷ es) e = has_environment es e
has_environment (some f ∷ es) e = f == e || has_environment es e

-- `orderedEnvironments`.
unfoldable pub ordered_environments : WorkflowType → Payload → List Environment
ordered_environments type p =
    if is_delete type
    then environment_order
    else filter (has_environment p.environments) environment_order

abbrev pub environment_label : Bool → Environment → String
environment_label true Environment.dev = "Removing Development environment"
environment_label true Environment.test = "Removing Test environment"
environment_label true Environment.prod = "Removing Production environment"
environment_label false Environment.dev = "Configuring Development environment"
environment_label false Environment.test = "Configuring Test environment"
environment_label false Environment.prod = "Configuring Production environment"

abbrev pub plan_step : WorkflowStepDefinition
plan_step = record {
  name = StepName.plan;
  label = "Request received and validated";
  optional = false;
}

abbrev pub apply_environment_step : WorkflowType → Environment → WorkflowStepDefinition
apply_environment_step type e = record {
  name = StepName.apply_environment e;
  label = environment_label (is_delete type) e;
  optional = false;
}

abbrev pub restore_roles_step : WorkflowStepDefinition
restore_roles_step = record {
  name = StepName.restore_roles;
  label = "Restoring roles";
  optional = false;
}

abbrev pub finalize_step : WorkflowStepDefinition
finalize_step = record {
  name = StepName.finalize;
  label = "Finalizing integration";
  optional = false;
}

abbrev pub notify_step : WorkflowStepDefinition
notify_step = record { name = StepName.notify; label = "Sending notifications"; optional = true }

-- `buildIntegrationWorkflowSteps`.
unfoldable pub build_steps : WorkflowType → Payload → List WorkflowStepDefinition
unfolding ordered_environments
build_steps type p =
    plan_step
    ∷ (map (apply_environment_step type) (ordered_environments type p)
        ++ ((if is_restore type then restore_roles_step ∷ [] else [])
            ++ (finalize_step ∷ notify_step ∷ [])))

-- The plan that `createWorkflow` stores: the names and labels.
abbrev pub step_plan : List WorkflowStepDefinition → List StepPlan
step_plan = map (λ s. record { name = s.name; label = s.label })

-- `definitions.get(name)` of `stepDefinitionsByName`: the first definition of that name.
unfoldable pub definition_of : WorkflowType → Payload → StepName → Option WorkflowStepDefinition
definition_of type p name = find (λ s. is_step name s.name) (build_steps type p)

abbrev pub set_status : RequestStatus → ℕ × RequestStatus → ℕ × RequestStatus
set_status status (r, old) = (r, status)

-- `setRequestStatus`: the row of the integration, if there is one.
unfoldable pub set_request_status : ℕ → RequestStatus → Db → Db
set_request_status r status d = record d {
  statuses = update_where (λ row. row.0 == r) (set_status status) d.statuses;
}

-- The error of an event that cannot be written, as a step's retry sees it.
abbrev pub audit_error : StepError
audit_error = record { permanent = false; message = "audit_event_write_failed" }

abbrev pub unconfirmed : StepError
unconfirmed = record {
  permanent = false;
  message = "Keycloak did not confirm the client configuration";
}

abbrev pub timed_out : StepError
timed_out = record { permanent = false; message = "step timed out" }

-- `planStep.execute`.
unfoldable pub execute_plan : Effects → Workflow → Db → Thrown StepResult × Db
unfolding set_request_status
execute_plan fx w d =
    let d' = set_request_status w.request_id RequestStatus.planned d in
    elim (record_workflow_event fx.audit_fails w true Outcome.success no_details d') [
      | none ↦ (thrown audit_error, d')
      | some d'' ↦ (returned StepResult.planned, d'')
    ]

-- `applyEnvironmentStep.execute`.
unfoldable pub execute_apply : Effects → Workflow → Environment → Db → Thrown StepResult × Db
execute_apply fx w e d = elim (fx.keycloak_client d e w.payload w.context.existing_client_id) [
  | thrown err ↦ (thrown err, d)
  | returned ok ↦ if ok then (returned (StepResult.applied e), d) else (thrown unconfirmed, d)
]

abbrev pub stored_snapshot : Option StepResult → Option RolesSnapshot
stored_snapshot (some (StepResult.roles_before snapshot)) = some snapshot
stored_snapshot _ = none

unfoldable pub restore_from : Effects → Workflow → RolesSnapshot → Db → Thrown StepResult × Db
restore_from fx w before d = elim (fx.restore_roles d w before) [
  | thrown err ↦ (thrown err, d)
  | returned done ↦ (returned StepResult.roles_restored, d)
]

-- `restoreRolesStep.execute`: the snapshot is taken once, and stored before anything changes.
unfoldable pub execute_restore_roles :
    Effects → Workflow → WorkflowStep → Db → Thrown StepResult × Db
unfolding restore_from
execute_restore_roles fx w s d = elim (stored_snapshot s.result) [
  | some before ↦ restore_from fx w before d
  | none ↦ elim (fx.snapshot_roles d w.request_id) [
    | thrown err ↦ (thrown err, d)
    | returned before ↦
        restore_from fx w before (
          update_step s.id (λ row. record row { result = some (StepResult.roles_before before) }) d)
  ]
]

-- `finalizeStep.execute`.
unfoldable pub execute_finalize : Effects → Workflow → Db → Thrown StepResult × Db
unfolding set_request_status
execute_finalize fx w d =
    elim (record_workflow_event fx.audit_fails w false Outcome.success no_details d) [
      | none ↦ (thrown audit_error, d)
      | some d' ↦
          (returned StepResult.finalized, set_request_status w.request_id RequestStatus.applied d')
    ]

-- `notifyStep.execute`.
unfoldable pub execute_notify : Effects → Workflow → Db → Thrown StepResult × Db
execute_notify fx w d = elim (fx.notify d w) [
  | thrown err ↦ (thrown err, d)
  | returned sent ↦ (returned StepResult.notified, d)
]

-- `definition.execute` at the name of a definition; no definition has an unknown name.
unfoldable pub execute_step :
    Effects → Workflow → WorkflowStep → StepName → Db → Thrown StepResult × Db
unfolding execute_plan execute_apply execute_restore_roles execute_finalize execute_notify
execute_step fx w s StepName.plan d = execute_plan fx w d
execute_step fx w s (StepName.apply_environment e) d = execute_apply fx w e d
execute_step fx w s StepName.restore_roles d = execute_restore_roles fx w s d
execute_step fx w s StepName.finalize d = execute_finalize fx w d
execute_step fx w s StepName.notify d = execute_notify fx w d
execute_step fx w s (StepName.unknown text) d = (thrown unconfirmed, d)

-- `withTimeout`: a step that takes too long counts as failed, and what it did stays done.
unfoldable pub with_timeout :
    Config → Effects → StepName → Thrown StepResult × Db → Thrown StepResult × Db
with_timeout c fx name (result, d) =
    if ltb 0 c.step_timeout_ms && fx.expires d name then (thrown timed_out, d) else (result, d)

-- A step as the orchestrator runs it, with everything that happens meanwhile.
unfoldable pub run_step :
    Config → Effects → Workflow → WorkflowStep → StepName → Db → Thrown StepResult × Db
unfolding execute_step with_timeout
run_step c fx w s name d = with_timeout c fx name (execute_step fx w s name (fx.during d))
