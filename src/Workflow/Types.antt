-- ===== src/Workflow/Types.antt =====
-- app/workflow/types.ts and the enumerations of packages/audit/src/vocabulary.ts that the engine uses.
-- `uuid` ids and points in time (milliseconds) are numbers. A step's name is one of `STEP_NAMES`, or
-- a text that the code does not know.
use sso_requests.Base.{
  if◌then◌else◌, none, ℕ, zero, suc, ◌≡◌, refl, ◌↔◌, Bool, true, false, List, Option, String,
  nat_beq, number_iff, Eq,
}

pub data WorkflowState : Type 0 where
  queued : WorkflowState
  pending : WorkflowState
  running : WorkflowState
  completed : WorkflowState
  failed : WorkflowState
  superseded : WorkflowState

-- `ACTIVE_WORKFLOW_STATES.includes(state)`, and the same of the two lists below it.
abbrev pub is_active : WorkflowState → Bool
is_active WorkflowState.queued = true
is_active WorkflowState.pending = true
is_active WorkflowState.running = true
is_active _ = false

abbrev pub is_claimable : WorkflowState → Bool
is_claimable WorkflowState.pending = true
is_claimable WorkflowState.running = true
is_claimable _ = false

abbrev pub is_terminal : WorkflowState → Bool
is_terminal WorkflowState.completed = true
is_terminal WorkflowState.failed = true
is_terminal WorkflowState.superseded = true
is_terminal _ = false

abbrev pub is_queued : WorkflowState → Bool
is_queued WorkflowState.queued = true
is_queued _ = false

abbrev pub is_pending : WorkflowState → Bool
is_pending WorkflowState.pending = true
is_pending _ = false

abbrev pub is_superseded : WorkflowState → Bool
is_superseded WorkflowState.superseded = true
is_superseded _ = false

pub data StepState : Type 0 where
  pending : StepState
  running : StepState
  completed : StepState
  failed : StepState
  skipped : StepState

-- `FINISHED_STEP_STATES.has(state)` (app/workflow/orchestrator.ts).
abbrev pub is_finished : StepState → Bool
is_finished StepState.completed = true
is_finished StepState.skipped = true
is_finished _ = false

pub data WorkflowType : Type 0 where
  integration_apply : WorkflowType
  integration_delete : WorkflowType
  integration_restore : WorkflowType

abbrev pub is_delete : WorkflowType → Bool
is_delete WorkflowType.integration_delete = true
is_delete _ = false

abbrev pub is_restore : WorkflowType → Bool
is_restore WorkflowType.integration_restore = true
is_restore _ = false

abbrev pub is_apply : WorkflowType → Bool
is_apply WorkflowType.integration_apply = true
is_apply _ = false

pub data Environment : Type 0 where
  dev : Environment
  test : Environment
  prod : Environment

abbrev pub environment_place : Environment → ℕ
environment_place Environment.dev = 0
environment_place Environment.test = 1
environment_place Environment.prod = 2

abbrev environment_at : ℕ → Environment
environment_at zero = Environment.dev
environment_at (suc zero) = Environment.test
environment_at _ = Environment.prod

environment_at-environment_place : (a : Environment) → environment_at (environment_place a) ≡ a
environment_at-environment_place Environment.dev = refl
environment_at-environment_place Environment.test = refl
environment_at-environment_place Environment.prod = refl

abbrev pub environment_beq : Environment → Environment → Bool
environment_beq a b = nat_beq (environment_place a) (environment_place b)

pub environment_beq_iff : (a b : Environment) → (environment_beq a b ≡ true) ↔ (a ≡ b)
environment_beq_iff a b =
    number_iff environment_place environment_at environment_at-environment_place a b

instance abbrev pub environment_eq : Eq Environment
environment_eq = record { beq = environment_beq; beq_iff = environment_beq_iff }

pub data StepName : Type 0 where
  plan : StepName
  apply_environment : Environment → StepName
  restore_roles : StepName
  notify : StepName
  finalize : StepName
  unknown : String → StepName

-- A number for each name of `STEP_NAMES`; none for the others.
abbrev name_place : StepName → ℕ
name_place StepName.plan = 1
name_place (StepName.apply_environment Environment.dev) = 2
name_place (StepName.apply_environment Environment.test) = 3
name_place (StepName.apply_environment Environment.prod) = 4
name_place StepName.restore_roles = 5
name_place StepName.notify = 6
name_place StepName.finalize = 7
name_place (StepName.unknown text) = 0

-- Equality with a name of `STEP_NAMES`, the second argument.
abbrev pub is_step : StepName → StepName → Bool
is_step a b = nat_beq (name_place a) (name_place b)

-- `ACTION_TYPES` (app/shared/enums.ts).
pub data ActionType : Type 0 where
  create : ActionType
  update : ActionType
  delete : ActionType

abbrev pub is_create : ActionType → Bool
is_create ActionType.create = true
is_create _ = false

-- The columns of the integration that the engine reads off the snapshot. An environment that the
-- code does not know is none of the three.
pub record Payload : Type 0 where
  pub id : ℕ
  pub client_id : Option String
  pub archived : Bool
  pub api_service_account : Bool
  pub environments : List (Option Environment)
  pub team_id : Option ℕ
  pub organization_id : Option ℕ

pub record WorkflowContext : Type 0 where
  pub is_create : Bool
  pub restore : Bool
  pub adding_prod : Bool
  pub existing_client_id : String

-- `WorkflowRecord`.
pub record Workflow : Type 0 where
  pub id : ℕ
  pub correlation_id : String
  pub request_id : ℕ
  pub type : WorkflowType
  pub action : ActionType
  pub state : WorkflowState
  pub payload : Payload
  pub context : WorkflowContext
  pub attempts : ℕ
  pub current_step : Option StepName
  pub last_error : Option String
  pub claimed_by : Option ℕ
  pub claimed_at : Option ℕ
  pub run_after : ℕ
  pub started_at : Option ℕ
  pub completed_at : Option ℕ
  pub created_at : ℕ
  pub updated_at : ℕ

-- The client roles before a restore: by environment, the composites of each role.
abbrev pub RolesSnapshot : Type 0
RolesSnapshot = List (Environment × List (String × List String))

-- What a step stores as its result.
pub data StepResult : Type 0 where
  planned : StepResult
  applied : Environment → StepResult
  roles_before : RolesSnapshot → StepResult
  roles_restored : StepResult
  finalized : StepResult
  notified : StepResult

-- `WorkflowStepRecord`.
pub record WorkflowStep : Type 0 where
  pub id : ℕ
  pub workflow_id : ℕ
  pub name : StepName
  pub label : String
  pub sequence : ℕ
  pub state : StepState
  pub attempts : ℕ
  pub last_error : Option String
  pub result : Option StepResult
  pub started_at : Option ℕ
  pub completed_at : Option ℕ

-- An error as the orchestrator reads it: its message, and whether `permanent` is `true` on it.
pub record StepError : Type 0 where
  pub permanent : Bool
  pub message : String

pub data Thrown (A : Type 0) : Type 0 where
  returned : A → Thrown A
  thrown : StepError → Thrown A

-- The action codes of the events that the engine writes and counts; `other` is any other code.
pub data EventCode : Type 0 where
  request_create : EventCode
  request_update : EventCode
  request_delete : EventCode
  request_restore : EventCode
  api_account_create : EventCode
  api_account_delete : EventCode
  api_account_restore : EventCode
  request_plan : EventCode
  request_apply : EventCode
  other : EventCode

abbrev pub event_code_place : EventCode → ℕ
event_code_place EventCode.request_create = 0
event_code_place EventCode.request_update = 1
event_code_place EventCode.request_delete = 2
event_code_place EventCode.request_restore = 3
event_code_place EventCode.api_account_create = 4
event_code_place EventCode.api_account_delete = 5
event_code_place EventCode.api_account_restore = 6
event_code_place EventCode.request_plan = 7
event_code_place EventCode.request_apply = 8
event_code_place EventCode.other = 9

abbrev event_code_at : ℕ → EventCode
event_code_at zero = EventCode.request_create
event_code_at (suc zero) = EventCode.request_update
event_code_at (suc (suc zero)) = EventCode.request_delete
event_code_at (suc (suc (suc zero))) = EventCode.request_restore
event_code_at (suc (suc (suc (suc zero)))) = EventCode.api_account_create
event_code_at (suc (suc (suc (suc (suc zero))))) = EventCode.api_account_delete
event_code_at (suc (suc (suc (suc (suc (suc zero)))))) = EventCode.api_account_restore
event_code_at (suc (suc (suc (suc (suc (suc (suc zero))))))) = EventCode.request_plan
event_code_at (suc (suc (suc (suc (suc (suc (suc (suc zero)))))))) = EventCode.request_apply
event_code_at _ = EventCode.other

event_code_at-event_code_place : (a : EventCode) → event_code_at (event_code_place a) ≡ a
event_code_at-event_code_place EventCode.request_create = refl
event_code_at-event_code_place EventCode.request_update = refl
event_code_at-event_code_place EventCode.request_delete = refl
event_code_at-event_code_place EventCode.request_restore = refl
event_code_at-event_code_place EventCode.api_account_create = refl
event_code_at-event_code_place EventCode.api_account_delete = refl
event_code_at-event_code_place EventCode.api_account_restore = refl
event_code_at-event_code_place EventCode.request_plan = refl
event_code_at-event_code_place EventCode.request_apply = refl
event_code_at-event_code_place EventCode.other = refl

abbrev pub event_code_beq : EventCode → EventCode → Bool
event_code_beq a b = nat_beq (event_code_place a) (event_code_place b)

pub event_code_beq_iff : (a b : EventCode) → (event_code_beq a b ≡ true) ↔ (a ≡ b)
event_code_beq_iff a b =
    number_iff event_code_place event_code_at event_code_at-event_code_place a b

instance abbrev pub event_code_eq : Eq EventCode
event_code_eq = record { beq = event_code_beq; beq_iff = event_code_beq_iff }

pub data Outcome : Type 0 where
  requested : Outcome
  success : Outcome
  failure : Outcome
  superseded : Outcome
  submitted : Outcome

abbrev pub outcome_place : Outcome → ℕ
outcome_place Outcome.requested = 0
outcome_place Outcome.success = 1
outcome_place Outcome.failure = 2
outcome_place Outcome.superseded = 3
outcome_place Outcome.submitted = 4

abbrev outcome_at : ℕ → Outcome
outcome_at zero = Outcome.requested
outcome_at (suc zero) = Outcome.success
outcome_at (suc (suc zero)) = Outcome.failure
outcome_at (suc (suc (suc zero))) = Outcome.superseded
outcome_at _ = Outcome.submitted

outcome_at-outcome_place : (a : Outcome) → outcome_at (outcome_place a) ≡ a
outcome_at-outcome_place Outcome.requested = refl
outcome_at-outcome_place Outcome.success = refl
outcome_at-outcome_place Outcome.failure = refl
outcome_at-outcome_place Outcome.superseded = refl
outcome_at-outcome_place Outcome.submitted = refl

abbrev pub outcome_beq : Outcome → Outcome → Bool
outcome_beq a b = nat_beq (outcome_place a) (outcome_place b)

pub outcome_beq_iff : (a b : Outcome) → (outcome_beq a b ≡ true) ↔ (a ≡ b)
outcome_beq_iff a b = number_iff outcome_place outcome_at outcome_at-outcome_place a b

instance abbrev pub outcome_eq : Eq Outcome
outcome_eq = record { beq = outcome_beq; beq_iff = outcome_beq_iff }

-- `TERMINAL_OUTCOMES` (app/workflow/audit.ts).
abbrev pub is_terminal_outcome : Outcome → Bool
is_terminal_outcome Outcome.success = true
is_terminal_outcome Outcome.failure = true
is_terminal_outcome Outcome.superseded = true
is_terminal_outcome _ = false

-- `OutcomeDetails` (packages/audit/src/details.ts), as far as the engine fills it in.
pub record Details : Type 0 where
  pub superseded_by_workflow_id : Option ℕ
  pub superseded_by_operation_id : Option String
  pub failed_step : Option StepName
  pub reason : Option String
  pub error : Option String

-- A row of the `events` table.
pub record Event : Type 0 where
  pub event_code : EventCode
  pub outcome : Outcome
  pub operation_id : Option String
  pub workflow_id : Option ℕ
  pub request_id : Option ℕ
  pub team_id : Option ℕ
  pub organization_id : Option ℕ
  pub details : Details

-- A row of `request_workflow_failures`: the dead letter.
pub record Failure : Type 0 where
  pub request_workflow_id : ℕ
  pub request_id : ℕ
  pub correlation_id : String
  pub failed_step : Option StepName
  pub reason : String
  pub error : String
  pub acknowledged : Bool

-- The statuses that the engine writes to an integration's row.
pub data RequestStatus : Type 0 where
  planned : RequestStatus
  applied : RequestStatus
  plan_failed : RequestStatus
  apply_failed : RequestStatus
  not_by_engine : RequestStatus

-- What an update that writes null leaves of a column.
abbrev pub over_null : {A : Type 0} → Bool → Option A → Option A
over_null omit old = if omit then old else none

-- What is stored: the tables, the clock, and the supply of ids that `randomUUID` has not used. Then what
-- the configuration of the connection says of nulls: under `omitNull` (app/shared/sequelize/config,
-- production) an update drops the nulls among its values. The last two fields record effects outside the database: the runs that were started in the background
-- with their delay, and the alerts that went out to the operators.
pub record Db : Type 0 where
  pub workflows : List Workflow
  pub steps : List WorkflowStep
  pub failures : List Failure
  pub events : List Event
  pub statuses : List (ℕ × RequestStatus)
  pub now : ℕ
  pub next_id : ℕ
  pub omit_null : Bool
  pub kickoffs : List (ℕ × ℕ)
  pub alerts : List (ℕ × Option StepName)
