-- ===== src/Access/AppRoles.antt =====
-- app/utils/authorize.ts: the application roles of a session, the permissions of the dashboard that
-- they carry, and what those are worth in the shared permission vocabulary. A role is a text of the
-- session; the keys of `appRolePermissionMap` are the constructors of `AppRole`.
pub mod Laws
use sso_requests.Base.{
  ℕ, zero, suc, ◌≡◌, refl, ◌↔◌, Bool, true, List, [], ◌∷◌, ◌++◌, map, String, Option, none, some,
  nat_beq, number_iff, Eq, string_eq, ◌==◌, includes, if◌then◌else◌, any,
}
use sso_requests.Authz.Permissions
use sso_requests.Authz.Permissions.{Permission}
use sso_requests.Authz.Sets.{union}

pub data AppPermission : Type 0 where
  view_teams : AppPermission
  add_restricted_idps : AppPermission
  update_request_additional_settings : AppPermission
  update_saml_request_client_id : AppPermission
  add_request_comment : AppPermission
  admin_dashboard_view_request : AppPermission
  admin_dashboard_view_all_requests : AppPermission
  admin_dashboard_update_request : AppPermission
  admin_dashboard_delete_request : AppPermission
  admin_dashboard_restore_request : AppPermission
  admin_dashboard_view_request_events : AppPermission
  admin_dashboard_view_request_idp_events : AppPermission
  admin_dashboard_view_idps_filter : AppPermission
  view_terms_and_conditions : AppPermission
  view_my_dashboard : AppPermission
  view_admin_dashboard : AppPermission
  admin_dashboard_view_request_roles : AppPermission
  admin_dashboard_view_roles_users : AppPermission
  download_admin_reports : AppPermission
  approve_bc_services_card : AppPermission
  approve_bcgovidir : AppPermission
  approve_otp : AppPermission
  approve_github : AppPermission
  approve_bceid : AppPermission
  approve_social : AppPermission
  manage_organizations : AppPermission

abbrev pub app_place : AppPermission → ℕ
app_place view_teams = 0
app_place add_restricted_idps = 1
app_place update_request_additional_settings = 2
app_place update_saml_request_client_id = 3
app_place add_request_comment = 4
app_place admin_dashboard_view_request = 5
app_place admin_dashboard_view_all_requests = 6
app_place admin_dashboard_update_request = 7
app_place admin_dashboard_delete_request = 8
app_place admin_dashboard_restore_request = 9
app_place admin_dashboard_view_request_events = 10
app_place admin_dashboard_view_request_idp_events = 11
app_place admin_dashboard_view_idps_filter = 12
app_place view_terms_and_conditions = 13
app_place view_my_dashboard = 14
app_place view_admin_dashboard = 15
app_place admin_dashboard_view_request_roles = 16
app_place admin_dashboard_view_roles_users = 17
app_place download_admin_reports = 18
app_place approve_bc_services_card = 19
app_place approve_bcgovidir = 20
app_place approve_otp = 21
app_place approve_github = 22
app_place approve_bceid = 23
app_place approve_social = 24
app_place manage_organizations = 25

abbrev app_permission_at : ℕ → AppPermission
app_permission_at zero = view_teams
app_permission_at (suc zero) = add_restricted_idps
app_permission_at (suc (suc zero)) = update_request_additional_settings
app_permission_at (suc (suc (suc zero))) = update_saml_request_client_id
app_permission_at (suc (suc (suc (suc zero)))) = add_request_comment
app_permission_at (suc (suc (suc (suc (suc zero))))) = admin_dashboard_view_request
app_permission_at (suc (suc (suc (suc (suc (suc zero)))))) = admin_dashboard_view_all_requests
app_permission_at (suc (suc (suc (suc (suc (suc (suc zero))))))) = admin_dashboard_update_request
app_permission_at (suc (suc (suc (suc (suc (suc (suc (suc zero)))))))) =
    admin_dashboard_delete_request
app_permission_at (suc (suc (suc (suc (suc (suc (suc (suc (suc zero))))))))) =
    admin_dashboard_restore_request
app_permission_at (suc (suc (suc (suc (suc (suc (suc (suc (suc (suc zero)))))))))) =
    admin_dashboard_view_request_events
app_permission_at (suc (suc (suc (suc (suc (suc (suc (suc (suc (suc (suc zero))))))))))) =
    admin_dashboard_view_request_idp_events
app_permission_at (suc (suc (suc (suc (suc (suc (suc (suc (suc (suc (suc (suc zero)))))))))))) =
    admin_dashboard_view_idps_filter
app_permission_at
      (suc (suc (suc (suc (suc (suc (suc (suc (suc (suc (suc (suc (suc zero))))))))))))) =
    view_terms_and_conditions
app_permission_at
      (suc (suc (suc (suc (suc (suc (suc (suc (suc (suc (suc (suc (suc (suc zero)))))))))))))) =
    view_my_dashboard
app_permission_at
      (suc
        (suc (suc (suc (suc (suc (suc (suc (suc (suc (suc (suc (suc (suc (suc zero))))))))))))))) =
    view_admin_dashboard
app_permission_at
      (suc (
        suc (
          suc
            (suc (suc (suc (suc (suc (suc (suc (suc (suc (suc (suc (suc (suc zero)))))))))))))))) =
    admin_dashboard_view_request_roles
app_permission_at
      (suc (
        suc (
          suc (
            suc (
              suc
                (suc (suc (suc (suc (suc (suc (suc (suc (suc (suc (suc (suc zero))))))))))))))))) =
    admin_dashboard_view_roles_users
app_permission_at
      (suc (
        suc (
          suc (
            suc (
              suc (
                suc (
                  suc
                    (suc (suc (suc (suc (suc (suc (suc (suc (suc (suc (suc zero)))))))))))))))))) =
    download_admin_reports
app_permission_at
      (suc (
        suc (
          suc (
            suc (
              suc (
                suc (
                  suc (
                    suc (
                      suc
                        (suc (suc (suc (suc (suc (suc (suc (suc (suc (suc zero))))))))))))))))))) =
    approve_bc_services_card
app_permission_at
      (suc (
        suc (
          suc (
            suc (
              suc (
                suc (
                  suc (
                    suc (
                      suc (
                        suc (
                          suc
                            (suc (suc (suc (suc (suc (suc (suc (suc (suc zero)))))))))))))))))))) =
    approve_bcgovidir
app_permission_at
      (suc (
        suc (
          suc (
            suc (
              suc (
                suc (
                  suc (
                    suc (
                      suc (
                        suc (
                          suc (
                            suc (
                              suc
                                (suc (suc (suc (suc (suc (suc (suc (suc zero))))))))))))))))))))) =
    approve_otp
app_permission_at
      (suc (
        suc (
          suc (
            suc (
              suc (
                suc (
                  suc (
                    suc (
                      suc (
                        suc (
                          suc (
                            suc (
                              suc (
                                suc (
                                  suc
                                    (suc (suc (suc (suc (suc (suc (suc zero)))))))))))))))))))))) =
    approve_github
app_permission_at
      (suc (
        suc (
          suc (
            suc (
              suc (
                suc (
                  suc (
                    suc (
                      suc (
                        suc (
                          suc (
                            suc (
                              suc (
                                suc (
                                  suc (
                                    suc (
                                      suc
                                        (suc (suc (suc (suc (suc (suc zero))))))))))))))))))))))) =
    approve_bceid
app_permission_at
      (suc (
        suc (
          suc (
            suc (
              suc (
                suc (
                  suc (
                    suc (
                      suc (
                        suc (
                          suc (
                            suc (
                              suc (
                                suc (
                                  suc (
                                    suc (
                                      suc (
                                        suc (
                                          suc
                                            (suc (suc (suc (suc (suc zero)))))))))))))))))))))))) =
    approve_social
app_permission_at _ = manage_organizations

app_permission_at-app_place : (a : AppPermission) → app_permission_at (app_place a) ≡ a
app_permission_at-app_place view_teams = refl
app_permission_at-app_place add_restricted_idps = refl
app_permission_at-app_place update_request_additional_settings = refl
app_permission_at-app_place update_saml_request_client_id = refl
app_permission_at-app_place add_request_comment = refl
app_permission_at-app_place admin_dashboard_view_request = refl
app_permission_at-app_place admin_dashboard_view_all_requests = refl
app_permission_at-app_place admin_dashboard_update_request = refl
app_permission_at-app_place admin_dashboard_delete_request = refl
app_permission_at-app_place admin_dashboard_restore_request = refl
app_permission_at-app_place admin_dashboard_view_request_events = refl
app_permission_at-app_place admin_dashboard_view_request_idp_events = refl
app_permission_at-app_place admin_dashboard_view_idps_filter = refl
app_permission_at-app_place view_terms_and_conditions = refl
app_permission_at-app_place view_my_dashboard = refl
app_permission_at-app_place view_admin_dashboard = refl
app_permission_at-app_place admin_dashboard_view_request_roles = refl
app_permission_at-app_place admin_dashboard_view_roles_users = refl
app_permission_at-app_place download_admin_reports = refl
app_permission_at-app_place approve_bc_services_card = refl
app_permission_at-app_place approve_bcgovidir = refl
app_permission_at-app_place approve_otp = refl
app_permission_at-app_place approve_github = refl
app_permission_at-app_place approve_bceid = refl
app_permission_at-app_place approve_social = refl
app_permission_at-app_place manage_organizations = refl

abbrev pub app_permission_beq : AppPermission → AppPermission → Bool
app_permission_beq a b = nat_beq (app_place a) (app_place b)

pub app_permission_beq_iff : (a b : AppPermission) → (app_permission_beq a b ≡ true) ↔ (a ≡ b)
app_permission_beq_iff a b = number_iff app_place app_permission_at app_permission_at-app_place a b

instance abbrev pub app_permission_eq : Eq AppPermission
app_permission_eq = record { beq = app_permission_beq; beq_iff = app_permission_beq_iff }

pub data AppRole : Type 0 where
  guest : AppRole
  user : AppRole
  sso_admin : AppRole
  bc_services_card_approver : AppRole
  bcgovidir_approver : AppRole
  bceid_approver : AppRole
  otp_approver : AppRole
  github_approver : AppRole
  social_approver : AppRole

-- The key of `appRolePermissionMap` that a role of the session spells.
unfoldable pub app_role_of : String → Option AppRole
app_role_of role =
    if role == "guest"
    then some guest
    else if role == "user"
    then some user
    else if role == "sso-admin"
    then some sso_admin
    else if role == "bc-services-card-approver"
    then some bc_services_card_approver
    else if role == "bcgovidir-approver"
    then some bcgovidir_approver
    else if role == "bceid-approver"
    then some bceid_approver
    else if role == "otp-approver"
    then some otp_approver
    else if role == "github-approver"
    then some github_approver
    else if role == "social-approver"
    then some social_approver
    else none

-- `appRolePermissionMap`.
unfoldable pub app_role_permissions : AppRole → List AppPermission
app_role_permissions guest = view_terms_and_conditions ∷ []
app_role_permissions user = view_my_dashboard ∷ []
app_role_permissions sso_admin =
    view_teams ∷ add_request_comment ∷ update_saml_request_client_id ∷ add_restricted_idps
    ∷ update_request_additional_settings ∷ admin_dashboard_view_request
    ∷ admin_dashboard_view_all_requests ∷ admin_dashboard_delete_request
    ∷ admin_dashboard_view_request_events ∷ admin_dashboard_view_request_roles
    ∷ admin_dashboard_view_roles_users ∷ admin_dashboard_restore_request
    ∷ admin_dashboard_update_request ∷ view_my_dashboard ∷ view_admin_dashboard
    ∷ download_admin_reports ∷ admin_dashboard_view_idps_filter ∷ manage_organizations
    ∷ approve_bc_services_card ∷ approve_bcgovidir ∷ approve_otp ∷ approve_github ∷ approve_bceid
    ∷ approve_social ∷ []
app_role_permissions bc_services_card_approver =
    admin_dashboard_view_request_idp_events ∷ view_my_dashboard ∷ view_admin_dashboard
    ∷ approve_bc_services_card ∷ []
app_role_permissions bcgovidir_approver =
    admin_dashboard_view_request_idp_events ∷ view_my_dashboard ∷ view_admin_dashboard
    ∷ approve_bcgovidir ∷ []
app_role_permissions bceid_approver =
    admin_dashboard_view_request_idp_events ∷ view_my_dashboard ∷ view_admin_dashboard
    ∷ approve_bceid ∷ []
app_role_permissions otp_approver =
    admin_dashboard_view_request_idp_events ∷ view_my_dashboard ∷ view_admin_dashboard ∷ approve_otp
    ∷ []
app_role_permissions github_approver =
    admin_dashboard_view_request_idp_events ∷ view_my_dashboard ∷ view_admin_dashboard
    ∷ approve_github ∷ []
app_role_permissions social_approver =
    admin_dashboard_view_request_idp_events ∷ view_my_dashboard ∷ view_admin_dashboard
    ∷ approve_social ∷ []

-- `appRolePermissionMap[role]`; no entry counts as an empty one.
unfoldable pub permissions_of_role : String → List AppPermission
permissions_of_role role = elim (app_role_of role) [ none ↦ [] | some r ↦ app_role_permissions r ]

-- `hasAppPermission`: the loop over the roles, with its early return.
unfoldable pub has_app_permission : List String → AppPermission → Bool
has_app_permission roles p = any (λ role. includes (permissions_of_role role) p) roles

-- `permissionsSet.add(…)` for each permission: a set keeps the first of equal values.
unfoldable pub add_all : List AppPermission → List AppPermission → List AppPermission
add_all set [] = set
add_all set (p ∷ ps) = add_all (if includes set p then set else set ++ (p ∷ [])) ps

abbrev add_roles : List AppPermission → List String → List AppPermission
add_roles set [] = set
add_roles set (role ∷ roles) = add_roles (add_all set (permissions_of_role role)) roles

unfoldable pub get_all_app_permissions : List String → List AppPermission
get_all_app_permissions roles = add_roles [] roles

-- `APP_PERMISSION_GRANTS`; no entry is an empty one.
unfoldable pub app_permission_grants : AppPermission → List Permission
app_permission_grants admin_dashboard_view_request = Permissions.integrations_read ∷ []
app_permission_grants admin_dashboard_update_request =
    Permissions.integrations_read ∷ Permissions.integrations_write
    ∷ Permissions.integrations_reassign_team ∷ []
app_permission_grants admin_dashboard_delete_request =
    Permissions.integrations_read ∷ Permissions.integrations_delete
    ∷ Permissions.integrations_delete_in_flight ∷ []
app_permission_grants admin_dashboard_view_request_roles = Permissions.roles_read ∷ []
app_permission_grants admin_dashboard_view_roles_users = Permissions.user_role_mappings_read ∷ []
app_permission_grants approve_bceid = Permissions.integrations_approve_bceid ∷ []
app_permission_grants approve_github = Permissions.integrations_approve_github ∷ []
app_permission_grants approve_bc_services_card = Permissions.integrations_approve_bcsc ∷ []
app_permission_grants approve_bcgovidir = Permissions.integrations_approve_bcgovidir ∷ []
app_permission_grants approve_social = Permissions.integrations_approve_social ∷ []
app_permission_grants approve_otp = Permissions.integrations_approve_otp ∷ []
app_permission_grants update_request_additional_settings =
    Permissions.integrations_write_lifespans ∷ []
app_permission_grants update_saml_request_client_id = Permissions.integrations_write_client_id ∷ []
app_permission_grants add_restricted_idps = Permissions.integrations_add_restricted_idps ∷ []
app_permission_grants _ = []

-- `commonPermissionsForAppRoles`.
unfoldable pub common_permissions_for_app_roles : List String → List Permission
common_permissions_for_app_roles roles =
    union (map app_permission_grants (get_all_app_permissions roles))
