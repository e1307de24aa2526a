-- ===== src/Requests/Resubmit.antt =====
-- resubmitRequest of app/controllers/requests.ts.
use sso_requests.Base.{ℕ, false, not, none, some, nat_eq, if◌then◌else◌}
use sso_requests.Authz.Permissions
use sso_requests.Authz.Permissions.{Permission, permission_eq}
use sso_requests.Transitions.{status_eq, Intent}
use sso_requests.Policy.Changes.{transition, authorize_transition}
use sso_requests.Requests.{
  Store, Request, status_of, authorize_integration, check_if_request_merged, submit_row, Response,
  done, unprocessable,
}

-- `resubmitRequest`; a row that was never applied is left alone. Every error of it is a 422.
unfoldable pub resubmit_request : Request → ℕ → Store → Response
unfolding authorize_integration submit_row check_if_request_merged
resubmit_request q id st =
    if not (check_if_request_merged id st.db)
    then done st
    else elim (authorize_integration q id Permissions.integrations_read (some false) st) [
      | none ↦ unprocessable
      | some found ↦
          let (row, access) = found in
          let status = status_of row st.db in
          elim (authorize_transition (some status) Intent.resubmit access.permissions) [
            | transition t ↦ submit_row q false (record row { status = status }) st
            | _ ↦ unprocessable
          ]
    ]
