-- ===== src/Examples/Granting.antt =====
-- Permissions, access and status transitions at concrete inputs.
use sso_requests.Base.{
  ◌↔◌, none, ◌≡◌, refl, true, false, ◌&&◌, ◌||◌, [], ◌∷◌, some, arith, includes,
}
use sso_requests.Authz.Permissions.{
  Permission, permission_eq, integrations_read, integrations_reassign_team,
  org_consentable_permissions,
}
use sso_requests.Authz.Sets.{union, sort_permissions}
use sso_requests.Authz.Presets.{PresetName, preset, preset_for, is_preset}
use sso_requests.Authz.Organization.{
  OrganizationLink, organization_permissions, within, includes-organization_permissions,
}
use sso_requests.Transitions.Laws.{transition_refusal-deletion}
use sso_requests.Transitions.{Status, Intent, transition_refusal, delete_intent_for}
use sso_requests.Authz.Permissions.{integrations_delete_in_flight}
use sso_requests.Access.AppRoles.{
  app_permission_eq, get_all_app_permissions, common_permissions_for_app_roles, add_all,
  permissions_of_role, app_role_of, app_role_permissions, app_permission_grants,
}
use sso_requests.Access.AppRoles.Laws.{is_approval, common_permissions_approval}
use sso_requests.Access.Integration.{
  AccessResolvable, Session, AccessScope, resolve_access, approver_permissions,
}
use sso_requests.Access.Scope.{accessible_integrations_where, selected}
use sso_requests.Access.Scope.Laws.{IsScope, selected-resolve_access, reassign_team_drift}

-- A user who is in no team, and whose organization holds permissions over the team 3.
abbrev link : OrganizationLink
link = record { permissions = integrations_read ∷ integrations_reassign_team ∷ []; overrides = [] }

abbrev scope : AccessScope
scope = record {
  user_id = 9;
  role_by_team = (4, "admin") ∷ [];
  organization_teams = (3, link) ∷ [];
}

abbrev session : Session
session = record { user_id = 9; client_roles = "user" ∷ [] }

-- An integration of the team 3.
abbrev row : AccessResolvable
row = record {
  id = 7;
  uses_team = true;
  team_id = some 3;
  user_id = some 1;
  status = Status.applied;
  dev_idps = "idir" ∷ [];
}

scope-IsScope : IsScope scope
scope-IsScope = record { roles = (refl, tt); links = (refl, tt); overrides = (tt, tt) }

selected-resolve_access_example :
    includes (resolve_access session scope row).permissions integrations_read
    ≡ selected (accessible_integrations_where scope integrations_read) false row
      || (includes (common_permissions_for_app_roles ("user" ∷ [])) integrations_read
          || includes (approver_permissions ("user" ∷ []) row) integrations_read)
selected-resolve_access_example =
    selected-resolve_access session scope row integrations_read scope-IsScope refl
      (λ e. absurd (ground arith)) refl

reassign_team_drift_example :
    (selected (accessible_integrations_where scope integrations_reassign_team) false row ≡ true)
    × (includes (resolve_access session scope row).permissions integrations_reassign_team ≡ false)
unfolding common_permissions_for_app_roles union get_all_app_permissions add_all permissions_of_role
    app_role_of app_role_permissions app_permission_grants
reassign_team_drift_example =
    reassign_team_drift session scope row 3 link scope-IsScope refl refl
      (λ e. absurd (omega (arith, e))) refl refl refl refl refl

preset_for_viewer : preset_for (preset PresetName.viewer) ≡ some PresetName.viewer
unfolding preset_for preset is_preset sort_permissions
preset_for_viewer = refl

includes-organization_permissions_example :
    includes
      (organization_permissions (some link) (some (integrations_read ∷ [])))
      integrations_read
    ≡ (includes link.permissions integrations_read
        && within (some (integrations_read ∷ [])) integrations_read)
      && includes org_consentable_permissions integrations_read
includes-organization_permissions_example =
    includes-organization_permissions link (some (integrations_read ∷ [])) integrations_read

common_permissions_approval_example : is_approval Permission.integrations_approve_github ≡ true
unfolding common_permissions_for_app_roles union get_all_app_permissions add_all permissions_of_role
    app_role_of app_role_permissions app_permission_grants
common_permissions_approval_example =
    common_permissions_approval ("github-approver" ∷ []) Permission.integrations_approve_github refl
      refl

transition_refusal-deletion_example :
    (transition_refusal
        (some Status.planned)
        Intent.force_delete
        (integrations_delete_in_flight ∷ [])
      ≡ none)
    ↔ ((Intent.force_delete ≡ delete_intent_for (some Status.planned))
        × (includes (integrations_delete_in_flight ∷ []) integrations_delete_in_flight ≡ true))
transition_refusal-deletion_example =
    transition_refusal-deletion Status.planned Intent.force_delete
      (integrations_delete_in_flight ∷ []) refl
