-- ===== src/Requests.antt =====
-- app/controllers/requests.ts: the integrations, and handing one to the workflow engine. Mail, the
-- display name of the requester and the times of a row are left out.
pub mod Delete
pub mod Resubmit
pub mod Laws
pub mod Restore
use sso_requests.Base.{
  ℕ, suc, Bool, true, false, ◌&&◌, ◌||◌, not, List, [], ◌∷◌, ◌++◌, Option, none, some, String,
  nat_eq, ◌==◌, if◌then◌else◌, find, update_where, includes, map_get, ltb,
}
use sso_requests.Authz.Permissions
use sso_requests.Authz.Permissions.{Permission, permission_eq}
use sso_requests.Transitions.{Status, status_eq, Intent, Transition, delete_intent_for}
use sso_requests.Access.Integration.{
  Session, AccessScope, AccessResolvable, IntegrationAccess, resolve_access,
}
use sso_requests.Policy.Changes.{
  TransitionAnswer, transition, status_not_admitted, not_permitted, authorize_transition,
}
use sso_requests.Workflow.Types.{
  over_null, Environment, Payload, EventCode, Outcome, Details, Event, RequestStatus, Db, Workflow,
}
use sso_requests.Workflow.Backoff.{Config}
use sso_requests.Workflow.Audit.{
  no_details, truthy, count_apply_outcomes, record_adopted_submission,
}
use sso_requests.Workflow.Store.Create.{Stored, stored, failed, audit_write}
use sso_requests.Workflow.Steps.{Effects}
use sso_requests.Workflow.Enqueue.{
  EnqueueOptions, EnqueueResult, enqueue_request_workflow, execute_enqueued_workflow,
}

-- A row of `requests`, as far as these operations read it. The engine's own writes to the status stand in
-- `statuses` of the tables, on top of the one here.
pub record RequestRow : Type 0 where
  pub id : ℕ
  pub uses_team : Bool
  pub team_id : Option ℕ
  pub user_id : Option ℕ
  pub organization_id : Option ℕ
  pub dev_idps : List String
  pub client_id : Option String
  pub environments : List (Option Environment)
  pub status : Status
  pub archived : Bool
  pub api_service_account : Bool

pub record Store : Type 0 where
  pub rows : List RequestRow
  pub db : Db

-- What surrounds a request: the session with its memberships, the engine's configuration and effects,
-- which inserts of events fail, what a transaction's reads see, whether NODE_ENV is one under which
-- workflows exist, and the operation id that randomUUID makes.
pub record Request : Type 0 where
  pub session : Session
  pub scope : AccessScope
  pub config : Config
  pub effects : Effects
  pub fails : Db → Bool
  pub seen : Db → List Workflow
  pub enabled : Bool
  pub operation_id : String

-- The status of a row, with what the engine has written since.
abbrev pub written_status : Status → RequestStatus → Status
written_status s RequestStatus.planned = Status.planned
written_status s RequestStatus.applied = Status.applied
written_status s RequestStatus.plan_failed = Status.plan_failed
written_status s RequestStatus.apply_failed = Status.apply_failed
written_status s RequestStatus.not_by_engine = s

unfoldable pub status_of : RequestRow → Db → Status
status_of row d = elim (map_get row.id d.statuses) [
  | none ↦ row.status
  | some written ↦ written_status row.status written
]

abbrev pub resolvable : RequestRow → Status → AccessResolvable
resolvable row status = record {
  id = row.id;
  uses_team = row.uses_team;
  team_id = row.team_id;
  user_id = row.user_id;
  status = status;
  dev_idps = row.dev_idps;
}

-- `where`: the archived rows count unless `archived` is given.
abbrev pub is_wanted : ℕ → Option Bool → RequestRow → Bool
is_wanted id none row = row.id == id && not row.api_service_account
is_wanted id (some archived) row =
    (row.id == id && not row.api_service_account)
    && (if archived then row.archived else not row.archived)

-- `authorizeIntegration` (app/queries/integrationAccess.ts).
unfoldable pub authorize_integration :
    Request → ℕ → Permission → Option Bool → Store → Option (RequestRow × IntegrationAccess)
unfolding status_of
authorize_integration q id permission archived st = elim (find (is_wanted id archived) st.rows) [
  | none ↦ none
  | some row ↦
      let access = resolve_access q.session q.scope (resolvable row (status_of row st.db)) in
      if includes access.permissions permission then some (row, access) else none
]

-- `buildIntegrationPayload`, as far as the engine reads the payload.
unfoldable pub build_integration_payload : RequestRow → Payload
build_integration_payload row = record {
  id = row.id;
  client_id = row.client_id;
  archived = row.archived;
  api_service_account = row.api_service_account;
  environments = row.environments;
  team_id = row.team_id;
  organization_id = row.organization_id;
}

-- `checkIfRequestMerged`.
unfoldable pub check_if_request_merged : ℕ → Db → Bool
check_if_request_merged id d = ltb 0 (count_apply_outcomes id false d)

abbrev pub options_of : Request → Bool → EnqueueOptions
options_of q restore = record {
  restore = restore;
  existing_client_id = none;
  adding_prod = false;
  await_completion = false;
  correlation_id = q.operation_id;
}

abbrev pub submission_event : Request → Payload → EnqueueResult → Event
submission_event q p r = record {
  event_code = r.audit_action;
  outcome = Outcome.requested;
  operation_id = some q.operation_id;
  workflow_id = some r.workflow_id;
  request_id = some p.id;
  team_id = truthy p.team_id;
  organization_id = truthy p.organization_id;
  details = no_details;
}

-- `audit.createEvent` in a transaction: a failure takes the transaction with it.
unfoldable pub create_event : Request → Event → Db → Option Db
create_event q event d =
    if q.fails d then none else some (record d { events = d.events ++ (event ∷ []) })

abbrev pub adopted : Request → Payload → EnqueueResult → Db → Stored (Option EnqueueResult)
adopted q p r d =
    if r.created
    then stored (some r) d
    else elim (record_adopted_submission q.fails q.operation_id r.workflow_id r.correlation_id
        r.audit_action p d) [ none ↦ failed audit_write | some d' ↦ stored (some r) d' ]

-- `enqueueIntegrationWorkflow`; `none` is the `undefined` where workflows do not exist.
unfoldable pub enqueue_integration_workflow :
    Request → Bool → RequestRow → Db → Stored (Option EnqueueResult)
unfolding build_integration_payload create_event
enqueue_integration_workflow q restore row d =
    let p = build_integration_payload row in
    if not q.enabled
    then stored none d
    else elim (enqueue_request_workflow q.fails q.seen p (options_of q restore) d) [
      | failed e ↦ failed e
      | stored r d₁ ↦ elim (create_event q (submission_event q p r) d₁) [
        | none ↦ failed audit_write
        | some d₂ ↦ adopted q p r d₂
      ]
    ]

-- `runIntegrationWorkflow`.
unfoldable pub run_integration_workflow : Request → Option EnqueueResult → Db → Db
run_integration_workflow q none d = d
run_integration_workflow q (some r) d = (execute_enqueued_workflow q.config q.effects r false d).1

-- The column `teamId`, the one that a change may clear, where nulls are not written.
abbrev pub saved_over : Bool → RequestRow → RequestRow → RequestRow
saved_over omit row old = elim row.team_id [
  | none ↦ record row { team_id = over_null omit old.team_id }
  | some team ↦ row
]

-- `current.save()`: the row, and its status over what the engine wrote.
abbrev pub forget : ℕ × RequestStatus → ℕ × RequestStatus
forget entry = (entry.0, RequestStatus.not_by_engine)

unfoldable pub save_row : RequestRow → Store → Store
save_row row st = record {
  rows = update_where (λ r. r.id == row.id) (saved_over st.db.omit_null row) st.rows;
  db = record st.db { statuses = update_where (λ e. e.0 == row.id) forget st.db.statuses };
}

-- The answer: the new store, or the error. `unprocessable` is a transaction that was rolled back.
pub data Response : Type 0 where
  done : Store → Response
  not_found : Response
  bad_request : Response
  forbidden : Response
  unprocessable : Response

-- The transaction of a submission, and the run after it.
unfoldable pub submit_row : Request → Bool → RequestRow → Store → Response
unfolding save_row enqueue_integration_workflow run_integration_workflow
submit_row q restore row st =
    let saved = save_row row st in
    elim (enqueue_integration_workflow q restore row saved.db) [
      | failed e ↦ unprocessable
      | stored enqueued d ↦ done (record saved { db = run_integration_workflow q enqueued d })
    ]
