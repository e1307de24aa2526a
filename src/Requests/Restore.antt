-- ===== src/Requests/Restore.antt =====
-- restoreRequest of app/controllers/requests.ts, with the owner that it sets.
pub mod Laws
pub mod Submits
use sso_requests.Base.{
  ℕ, suc, ◌≡◌, refl, ◌⊎◌, inl, inr, Bool, true, false, ◌&&◌, ◌||◌, not, List, [], ◌∷◌, Option, none,
  some, String, nat_eq, string_eq, ◌==◌, if◌then◌else◌, find, includes, find-eq-some_holds,
  Bool-cases, Option-cases, arith,
}
use sso_requests.Authz.Permissions
use sso_requests.Transitions.{Status, status_eq}
use sso_requests.Access.Integration.{IntegrationAccess}
use sso_requests.Requests.{
  RequestRow, Store, Request, Response, done, unprocessable, status_of, authorize_integration,
  check_if_request_merged, submit_row,
}

-- A row of `users`.
pub record User : Type 0 where
  pub id : ℕ
  pub idir_email : String

-- What a restore reads besides the requests: the ids of the teams, whether the directory knows an address,
-- the users, and the next unused id of one.
pub record Directory : Type 0 where
  pub teams : List ℕ
  pub validate_idir_email : String → Bool
  pub users : List User
  pub next_user_id : ℕ

-- `!email`.
abbrev pub is_given : String → Bool
is_given email = not (email == "")

abbrev pub has_email : String → User → Bool
has_email email u = u.idir_email == email

-- `models.user.findOne`, or else `models.user.create`.
unfoldable pub find_or_create_user : String → Directory → User × Directory
find_or_create_user email w = elim (find (has_email email) w.users) [
  | some u ↦ (u, w)
  | none ↦
      let u : User = record { id = w.next_user_id; idir_email = email } in
      (u, record w { users = u ∷ w.users; next_user_id = suc w.next_user_id })
]

-- `setIntegrationOwner`; `none` is a thrown error, which leaves no user behind.
unfoldable pub set_integration_owner :
    RequestRow → Option String → Directory → Option (RequestRow × Directory)
unfolding find_or_create_user
set_integration_owner row none w = none
set_integration_owner row (some email) w =
    if is_given email && w.validate_idir_email email
    then (let (u, w') = find_or_create_user email w in
        some (record row { uses_team = false; team_id = none; user_id = some u.id }, w'))
    else none

abbrev pub has_team : List ℕ → Option ℕ → Bool
has_team teams none = false
has_team teams (some team) = includes teams team

-- An integration of an existing team keeps it; any other one goes to the address.
unfoldable pub owned_by : RequestRow → Option String → Directory → Option (RequestRow × Directory)
unfolding set_integration_owner
owned_by row email w =
    if row.uses_team && has_team w.teams row.team_id
    then some (row, w)
    else set_integration_owner row email w

abbrev pub is_restorable : RequestRow → Status → Bool
is_restorable row status = status == Status.submitted || row.archived

unfoldable pub restore_row :
    Request → Store → Directory → Status → Option (RequestRow × Directory) → Response × Directory
unfolding submit_row
restore_row q st w status none = (unprocessable, w)
restore_row q st w status (some (row, w')) =
    (submit_row q true (record row { archived = false; status = status }) st, w')

unfoldable pub restore_found :
    Request
    → Option String
    → Store
    → Directory
    → Option (RequestRow × IntegrationAccess)
    → Response × Directory
unfolding owned_by restore_row
restore_found q email st w none = (unprocessable, w)
restore_found q email st w (some (row, access)) =
    let status = status_of row st.db in
    if is_restorable row status
    then restore_row q st w status (owned_by row email w)
    else (unprocessable, w)

-- `restoreRequest`: its answer, and the users that it leaves, those of a failed submission included. A row
-- that was never applied is left alone. Every error of it is a 422.
unfoldable pub restore_request :
    Request → ℕ → Option String → Store → Directory → Response × Directory
unfolding check_if_request_merged authorize_integration restore_found
restore_request q id email st w =
    if not (check_if_request_merged id st.db)
    then (done st, w)
    else restore_found q email st w
        (authorize_integration q id Permissions.integrations_write none st)
