-- ===== src/Examples/Deleting.antt =====
-- Deleting and restoring an integration at a concrete row.
use sso_requests.Base.{arith, ◌⊎◌, ◌==◌, string_eq, ◌≡◌, refl, ap, none, true, false, [], ◌∷◌, some}
use sso_requests.Authz.Permissions.{permission_eq}
use sso_requests.Authz.Presets.{permissions_for_team_role}
use sso_requests.Authz.Sets.{union}
use sso_requests.Authz.Organization.{organization_permissions}
use sso_requests.Transitions.{Status, is_in_flight}
use sso_requests.Access.AppRoles.{
  common_permissions_for_app_roles, get_all_app_permissions, add_all, permissions_of_role,
  app_role_of, app_role_permissions, app_permission_grants,
}
use sso_requests.Access.Integration.{
  IntegrationAccess, resolve_access, is_owner, owning_team, approver_permissions, overlaps,
  allowed_idps_for_approver, link_permissions,
}
use sso_requests.Workflow.Types.{Environment, Db, WorkflowState}
use sso_requests.Workflow.Backoff.{default_config}
use sso_requests.Examples.Fixtures.{workflow, tables, effects, operation}
use sso_requests.Requests.{RequestRow, Store, Request, status_of, authorize_integration, resolvable}
use sso_requests.Requests.{done, check_if_request_merged}
use sso_requests.Requests.Restore.{Directory, restore_request}
use sso_requests.Requests.Restore.{owned_by, is_restorable}
use sso_requests.Requests.Restore.Submits.{IsSubmittedRestore, restore_request_submits}
use sso_requests.Authz.Permissions.{integrations_write}
use sso_requests.Requests.Restore.Laws.{IsRestored, restore_request_needs}
use sso_requests.Workflow.Types.{Event, EventCode, Outcome, RequestStatus}
use sso_requests.Workflow.Audit.{no_details, count_apply_outcomes}
use sso_requests.Requests.Delete.{is_draft}
use sso_requests.Requests.Laws.{IsAuthorizedDelete, delete_request_needs, delete_request_submits}

abbrev row : RequestRow
row = record {
  id = 7;
  uses_team = true;
  team_id = some 3;
  user_id = some 1;
  organization_id = none;
  dev_idps = "idir" ∷ [];
  client_id = some "client";
  environments = some Environment.dev ∷ [];
  status = Status.submitted;
  archived = false;
  api_service_account = false;
}

-- The row is planned while a workflow of it runs.
abbrev store : Store
store = record { rows = row ∷ []; db = tables (workflow 1 WorkflowState.running (some 150) ∷ []) }

-- An administrator asks.
abbrev request : Request
request = record {
  session = record { user_id = 9; client_roles = "sso-admin" ∷ [] };
  scope = record { user_id = 9; role_by_team = []; organization_teams = [] };
  config = default_config 4;
  effects = effects;
  fails = λ d. false;
  seen = Db.workflows;
  enabled = true;
  operation_id = operation;
}

abbrev access : IntegrationAccess
access = resolve_access request.session request.scope (resolvable row Status.planned)

row-IsAuthorizedDelete : IsAuthorizedDelete request 7 store row access
unfolding authorize_integration status_of resolve_access is_in_flight
    common_permissions_for_app_roles union get_all_app_permissions add_all permissions_of_role
    app_role_of app_role_permissions app_permission_grants is_owner owning_team approver_permissions
    overlaps allowed_idps_for_approver link_permissions organization_permissions
    permissions_for_team_role
row-IsAuthorizedDelete = record { found = refl; permitted = refl }

row_is_planned : status_of row store.db ≡ Status.planned
unfolding status_of
row_is_planned = refl

delete_request_needs_example :
    (found : RequestRow) × (held : IntegrationAccess) × IsAuthorizedDelete request 7 store found
      held
delete_request_needs_example =
    delete_request_needs request 7 store _
      (delete_request_submits request 7 store row access (λ d. refl) refl refl
        row-IsAuthorizedDelete (ap is_draft row_is_planned)).is_done

abbrev applied_event : Event
applied_event = record {
  event_code = EventCode.request_create;
  outcome = Outcome.success;
  operation_id = some operation;
  workflow_id = some 1;
  request_id = some 7;
  team_id = none;
  organization_id = none;
  details = no_details;
}

-- The row was applied once, then archived, and its team is gone; the address is a new user's.
abbrev archived_store : Store
archived_store = record {
  rows = record row { archived = true } ∷ [];
  db = record (tables []) { events = applied_event ∷ [] };
}

abbrev directory : Directory
directory = record {
  teams = 4 ∷ [];
  validate_idir_email = λ email. email == "a@gov.bc.ca";
  users = record { id = 1; idir_email = "b@gov.bc.ca" } ∷ [];
  next_user_id = 2;
}

-- Outside the environments in which workflows exist.
abbrev quiet_request : Request
quiet_request = record request { enabled = false }

abbrev restored_store : Store
restored_store = record {
  rows =
      record row { uses_team = false; team_id = none; user_id = some 2; status = Status.planned }
      ∷ [];
  db = record archived_store.db { statuses = (7, RequestStatus.not_by_engine) ∷ [] };
}

abbrev restored_directory : Directory
restored_directory = record directory {
  users =
      record { id = 2; idir_email = "a@gov.bc.ca" }
      ∷ record { id = 1; idir_email = "b@gov.bc.ca" }
      ∷ [];
  next_user_id = 3;
}

row_is_restored :
    restore_request quiet_request 7 (some "a@gov.bc.ca") archived_store directory
    ≡ (done restored_store, restored_directory)
unfolding restore_request count_apply_outcomes authorize_integration status_of resolve_access
    is_in_flight common_permissions_for_app_roles union get_all_app_permissions add_all
    permissions_of_role app_role_of app_role_permissions app_permission_grants is_owner owning_team
    approver_permissions overlaps allowed_idps_for_approver link_permissions
    organization_permissions permissions_for_team_role
row_is_restored = refl

restore_request_needs_example :
    ((check_if_request_merged 7 archived_store.db ≡ false)
      × (restored_store ≡ archived_store)
      × (restored_directory ≡ directory))
    ⊎ ((check_if_request_merged 7 archived_store.db ≡ true)
        × IsRestored quiet_request 7
            (some "a@gov.bc.ca")
            archived_store
            restored_store
            directory
            restored_directory)
restore_request_needs_example =
    restore_request_needs quiet_request 7 (some "a@gov.bc.ca") archived_store restored_store
      directory restored_directory row_is_restored

-- And where they exist: nothing of the row runs, and the address is given.
abbrev moved : RequestRow
moved = record row { uses_team = false; team_id = none; user_id = some 2; archived = true }

row_is_writable :
    authorize_integration request 7 integrations_write none archived_store
    ≡ some (record row { archived = true }, access)
unfolding count_apply_outcomes authorize_integration status_of resolve_access is_in_flight
    common_permissions_for_app_roles union get_all_app_permissions add_all permissions_of_role
    app_role_of app_role_permissions app_permission_grants is_owner owning_team approver_permissions
    overlaps allowed_idps_for_approver link_permissions organization_permissions
    permissions_for_team_role
row_is_writable = refl

row_was_applied : check_if_request_merged 7 archived_store.db ≡ true
unfolding check_if_request_merged count_apply_outcomes
row_was_applied = refl

row_is_moved :
    owned_by (record row { archived = true }) (some "a@gov.bc.ca") directory
    ≡ some (moved, restored_directory)
unfolding owned_by
row_is_moved = refl

row_is_archived :
    is_restorable
      (record row { archived = true })
      (status_of (record row { archived = true }) archived_store.db)
    ≡ true
unfolding status_of
row_is_archived = refl

restore_request_submits_example :
    IsSubmittedRestore request 7
      (some "a@gov.bc.ca")
      archived_store
      directory
      restored_directory
      (record moved {
        archived = false;
        status = status_of (record row { archived = true }) archived_store.db;
      })
restore_request_submits_example =
    restore_request_submits request 7 (some "a@gov.bc.ca") archived_store directory
      restored_directory (record row { archived = true }) moved access (λ d. refl) refl refl
      (record { claimable = λ r. omega arith; queued = λ r. omega arith }) (λ i. omega arith)
      row_was_applied row_is_writable row_is_archived row_is_moved
