-- ===== src/Requests/Delete.antt =====
-- deleteRequest of app/controllers/requests.ts.
use sso_requests.Base.{ℕ, Bool, true, false, Option, none, some, nat_eq, ◌==◌, if◌then◌else◌}
use sso_requests.Authz.Permissions
use sso_requests.Authz.Permissions.{Permission, permission_eq}
use sso_requests.Transitions.{Status, status_eq, delete_intent_for}
use sso_requests.Access.Integration.{IntegrationAccess}
use sso_requests.Policy.Changes.{
  TransitionAnswer, transition, status_not_admitted, not_permitted, authorize_transition,
}
use sso_requests.Workflow.Types.{EventCode, Outcome, Event}
use sso_requests.Workflow.Audit.{no_details}
use sso_requests.Requests.{
  RequestRow, Store, Request, status_of, authorize_integration, create_event, save_row, submit_row,
  Response, done, not_found, bad_request, forbidden, unprocessable,
}

-- The event of a deleted draft.
abbrev pub draft_deleted : RequestRow → Event
draft_deleted row = record {
  event_code = EventCode.request_delete;
  outcome = Outcome.success;
  operation_id = none;
  workflow_id = none;
  request_id = some row.id;
  team_id = none;
  organization_id = none;
  details = no_details;
}

unfoldable pub delete_draft_row : Request → RequestRow → Store → Response
unfolding save_row create_event
delete_draft_row q row st =
    let saved = save_row row st in
    elim (create_event q (draft_deleted row) saved.db) [
      | none ↦ unprocessable
      | some d ↦ done (record saved { db = d })
    ]

abbrev pub is_draft : Status → Bool
is_draft s = s == Status.draft

-- The transition, or its error, and then the change.
unfoldable pub delete_row : Request → RequestRow → Status → Store → TransitionAnswer → Response
unfolding submit_row delete_draft_row
delete_row q row status st (status_not_admitted s) = bad_request
delete_row q row status st not_permitted = forbidden
delete_row q row status st (transition t) =
    if is_draft status
    then delete_draft_row q (record row { archived = true; status = status }) st
    else submit_row q false (record row { archived = true; status = t.to }) st

unfoldable pub delete_found : Request → Store → Option (RequestRow × IntegrationAccess) → Response
unfolding delete_row
delete_found q st none = not_found
delete_found q st (some (row, access)) =
    let status = status_of row st.db in
    delete_row q row status st
      (authorize_transition (some status) (delete_intent_for (some status)) access.permissions)

-- `deleteRequest`.
unfoldable pub delete_request : Request → ℕ → Store → Response
unfolding authorize_integration delete_found
delete_request q id st =
    delete_found q st (authorize_integration q id Permissions.integrations_read (some false) st)
