-- ===== src/Access/Integration.antt =====
-- app/queries/integrationAccess.ts: the merged authority of one actor over one integration.
use sso_requests.Base.{
  ℕ, Bool, false, ◌&&◌, ◌||◌, not, List, [], ◌∷◌, ◌++◌, Option, none, some, String, string_eq,
  nat_eq, ◌==◌, includes, if◌then◌else◌, any, map_get, is_some,
}
use sso_requests.Authz.Permissions
use sso_requests.Authz.Permissions.{Permission}
use sso_requests.Authz.Sets.{union}
use sso_requests.Authz.Presets.{preset, team_admin, permissions_for_team_role}
use sso_requests.Authz.Organization.{OrganizationLink, organization_permissions}
use sso_requests.Transitions.{Status, status_eq, draft}
use sso_requests.Access.AppRoles
use sso_requests.Access.AppRoles.{
  AppPermission, app_permission_eq, get_all_app_permissions, common_permissions_for_app_roles,
}

-- `AccessResolvable`.
pub record AccessResolvable : Type 0 where
  pub id : ℕ
  pub uses_team : Bool
  pub team_id : Option ℕ
  pub user_id : Option ℕ
  pub status : Status
  pub dev_idps : List String

-- The parts of `Session` that the resolver reads: the user's id and the client roles.
pub record Session : Type 0 where
  pub user_id : ℕ
  pub client_roles : List String

-- `AccessScope` (app/queries/accessScope.ts).
pub record AccessScope : Type 0 where
  pub user_id : ℕ
  pub role_by_team : List (ℕ × String)
  pub organization_teams : List (ℕ × OrganizationLink)

pub record IntegrationAccess : Type 0 where
  pub user_team_role : Option String
  pub owner : Bool
  pub permissions : List Permission

-- `KC_ENTRA_IDP_REALM` (app/utils/constants.ts).
abbrev pub kc_entra_idp_realm : String
kc_entra_idp_realm = "bcgovidir"

-- `getAllowedIdpsForApprover` (app/utils/helpers.ts).
unfoldable pub allowed_idps_for_approver : List String → List String
allowed_idps_for_approver roles =
    let ps = get_all_app_permissions roles in
    (if includes ps AppRoles.approve_bceid
      then "bceidbasic" ∷ "bceidbusiness" ∷ "bceidboth" ∷ []
      else [])
    ++ (if includes ps AppRoles.approve_github then "githubbcgov" ∷ "githubpublic" ∷ [] else [])
    ++ (if includes ps AppRoles.approve_bc_services_card then "bcservicescard" ∷ [] else [])
    ++ (if includes ps AppRoles.approve_bcgovidir then kc_entra_idp_realm ∷ [] else [])
    ++ (if includes ps AppRoles.approve_social then "social" ∷ [] else [])
    ++ (if includes ps AppRoles.approve_otp then "otp" ∷ [] else [])

unfoldable pub overlaps : List String → List String → Bool
overlaps a b = any (includes b) a

-- `row.usesTeam && row.teamId ? … : …`: a team id of 0 is falsy.
unfoldable pub owning_team : AccessResolvable → Option ℕ
owning_team row = elim row.team_id [
  | none ↦ none
  | some t ↦ if row.uses_team && not (t == 0) then some t else none
]

-- `row.userId === userId`.
abbrev pub same_user : Option ℕ → ℕ → Bool
same_user none u = false
same_user (some v) u = v == u

unfoldable pub is_owner : AccessResolvable → ℕ → Bool
is_owner row u =
    same_user row.user_id u
    && (not row.uses_team || (not (is_some row.team_id) && row.status == draft))

-- `m.get(team)`, with no team finding nothing.
abbrev pub get_for_team : {A : Type 0} → Option ℕ → List (ℕ × A) → Option A
get_for_team none m = none
get_for_team (some t) m = map_get t m

unfoldable pub link_permissions : Option OrganizationLink → ℕ → List Permission
link_permissions none id = organization_permissions none none
link_permissions (some link) id = organization_permissions (some link) (map_get id link.overrides)

unfoldable pub approver_permissions : List String → AccessResolvable → List Permission
approver_permissions roles row =
    if overlaps (allowed_idps_for_approver roles) row.dev_idps
    then Permissions.integrations_read ∷ []
    else []

-- The body of the loop of `resolveAccessForIntegrations`, for one row. The two maps are the
-- scope's, or those that the queries for the row's team return.
unfoldable pub resolve_access : Session → AccessScope → AccessResolvable → IntegrationAccess
resolve_access session scope row =
    let role = get_for_team (owning_team row) scope.role_by_team in
    let link = get_for_team (owning_team row) scope.organization_teams in
    let owner = is_owner row session.user_id in
    record {
      user_team_role = role;
      owner = owner;
      permissions = union (
          (if owner then preset team_admin else [])
          ∷ permissions_for_team_role role
          ∷ link_permissions link row.id
          ∷ common_permissions_for_app_roles session.client_roles
          ∷ approver_permissions session.client_roles row
          ∷ []);
    }
