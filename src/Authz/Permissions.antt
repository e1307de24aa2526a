-- ===== src/Authz/Permissions.antt =====
-- packages/authz/src/permissions.ts: the permission vocabulary. A permission `resource:action` is a
-- constructor `resource_action`.
use sso_requests.Base.{
  ℕ, zero, suc, ◌≡◌, refl, ◌↔◌, Bool, true, List, [], ◌∷◌, nat_beq, number_iff, Eq, filter, not,
  ◌==◌, includes,
}

pub data Permission : Type 0 where
  integrations_read : Permission
  integrations_write : Permission
  integrations_delete : Permission
  integrations_reassign_team : Permission
  roles_read : Permission
  roles_write : Permission
  user_role_mappings_read : Permission
  user_role_mappings_write : Permission
  idp_users_read : Permission
  integrations_approve_bceid : Permission
  integrations_approve_github : Permission
  integrations_approve_bcsc : Permission
  integrations_approve_bcgovidir : Permission
  integrations_approve_social : Permission
  integrations_approve_otp : Permission
  integrations_write_lifespans : Permission
  integrations_write_client_id : Permission
  integrations_add_restricted_idps : Permission
  integrations_delete_in_flight : Permission

-- The place of a permission in `PERMISSIONS`.
abbrev pub place : Permission → ℕ
place integrations_read = 0
place integrations_write = 1
place integrations_delete = 2
place integrations_reassign_team = 3
place roles_read = 4
place roles_write = 5
place user_role_mappings_read = 6
place user_role_mappings_write = 7
place idp_users_read = 8
place integrations_approve_bceid = 9
place integrations_approve_github = 10
place integrations_approve_bcsc = 11
place integrations_approve_bcgovidir = 12
place integrations_approve_social = 13
place integrations_approve_otp = 14
place integrations_write_lifespans = 15
place integrations_write_client_id = 16
place integrations_add_restricted_idps = 17
place integrations_delete_in_flight = 18

abbrev permission_at : ℕ → Permission
permission_at zero = integrations_read
permission_at (suc zero) = integrations_write
permission_at (suc (suc zero)) = integrations_delete
permission_at (suc (suc (suc zero))) = integrations_reassign_team
permission_at (suc (suc (suc (suc zero)))) = roles_read
permission_at (suc (suc (suc (suc (suc zero))))) = roles_write
permission_at (suc (suc (suc (suc (suc (suc zero)))))) = user_role_mappings_read
permission_at (suc (suc (suc (suc (suc (suc (suc zero))))))) = user_role_mappings_write
permission_at (suc (suc (suc (suc (suc (suc (suc (suc zero)))))))) = idp_users_read
permission_at (suc (suc (suc (suc (suc (suc (suc (suc (suc zero))))))))) =
    integrations_approve_bceid
permission_at (suc (suc (suc (suc (suc (suc (suc (suc (suc (suc zero)))))))))) =
    integrations_approve_github
permission_at (suc (suc (suc (suc (suc (suc (suc (suc (suc (suc (suc zero))))))))))) =
    integrations_approve_bcsc
permission_at (suc (suc (suc (suc (suc (suc (suc (suc (suc (suc (suc (suc zero)))))))))))) =
    integrations_approve_bcgovidir
permission_at (suc (suc (suc (suc (suc (suc (suc (suc (suc (suc (suc (suc (suc zero))))))))))))) =
    integrations_approve_social
permission_at
      (suc (suc (suc (suc (suc (suc (suc (suc (suc (suc (suc (suc (suc (suc zero)))))))))))))) =
    integrations_approve_otp
permission_at
      (suc
        (suc (suc (suc (suc (suc (suc (suc (suc (suc (suc (suc (suc (suc (suc zero))))))))))))))) =
    integrations_write_lifespans
permission_at
      (suc (
        suc (
          suc
            (suc (suc (suc (suc (suc (suc (suc (suc (suc (suc (suc (suc (suc zero)))))))))))))))) =
    integrations_write_client_id
permission_at
      (suc (
        suc (
          suc (
            suc (
              suc
                (suc (suc (suc (suc (suc (suc (suc (suc (suc (suc (suc (suc zero))))))))))))))))) =
    integrations_add_restricted_idps
permission_at _ = integrations_delete_in_flight

permission_at-place : (p : Permission) → permission_at (place p) ≡ p
permission_at-place integrations_read = refl
permission_at-place integrations_write = refl
permission_at-place integrations_delete = refl
permission_at-place integrations_reassign_team = refl
permission_at-place roles_read = refl
permission_at-place roles_write = refl
permission_at-place user_role_mappings_read = refl
permission_at-place user_role_mappings_write = refl
permission_at-place idp_users_read = refl
permission_at-place integrations_approve_bceid = refl
permission_at-place integrations_approve_github = refl
permission_at-place integrations_approve_bcsc = refl
permission_at-place integrations_approve_bcgovidir = refl
permission_at-place integrations_approve_social = refl
permission_at-place integrations_approve_otp = refl
permission_at-place integrations_write_lifespans = refl
permission_at-place integrations_write_client_id = refl
permission_at-place integrations_add_restricted_idps = refl
permission_at-place integrations_delete_in_flight = refl

abbrev pub permission_beq : Permission → Permission → Bool
permission_beq p q = nat_beq (place p) (place q)

pub permission_beq_iff : (p q : Permission) → (permission_beq p q ≡ true) ↔ (p ≡ q)
permission_beq_iff p q = number_iff place permission_at permission_at-place p q

instance abbrev pub permission_eq : Eq Permission
permission_eq = record { beq = permission_beq; beq_iff = permission_beq_iff }

-- `PERMISSIONS`, in its order.
abbrev pub permissions : List Permission
permissions =
    integrations_read ∷ integrations_write ∷ integrations_delete ∷ integrations_reassign_team
    ∷ roles_read ∷ roles_write ∷ user_role_mappings_read ∷ user_role_mappings_write ∷ idp_users_read
    ∷ integrations_approve_bceid ∷ integrations_approve_github ∷ integrations_approve_bcsc
    ∷ integrations_approve_bcgovidir ∷ integrations_approve_social ∷ integrations_approve_otp
    ∷ integrations_write_lifespans ∷ integrations_write_client_id ∷ integrations_add_restricted_idps
    ∷ integrations_delete_in_flight ∷ []

-- `TEAM_SCOPED_PERMISSIONS`.
abbrev pub team_scoped_permissions : List Permission
team_scoped_permissions =
    integrations_read ∷ integrations_write ∷ integrations_delete ∷ integrations_reassign_team
    ∷ roles_read ∷ roles_write ∷ user_role_mappings_read ∷ user_role_mappings_write ∷ idp_users_read
    ∷ []

-- `ORG_CONSENTABLE_PERMISSIONS`.
abbrev pub org_consentable_permissions : List Permission
org_consentable_permissions =
    filter (λ p. not (p == integrations_reassign_team)) team_scoped_permissions

pub includes-permissions : (p : Permission) → includes permissions p ≡ true
includes-permissions integrations_read = refl
includes-permissions integrations_write = refl
includes-permissions integrations_delete = refl
includes-permissions integrations_reassign_team = refl
includes-permissions roles_read = refl
includes-permissions roles_write = refl
includes-permissions user_role_mappings_read = refl
includes-permissions user_role_mappings_write = refl
includes-permissions idp_users_read = refl
includes-permissions integrations_approve_bceid = refl
includes-permissions integrations_approve_github = refl
includes-permissions integrations_approve_bcsc = refl
includes-permissions integrations_approve_bcgovidir = refl
includes-permissions integrations_approve_social = refl
includes-permissions integrations_approve_otp = refl
includes-permissions integrations_write_lifespans = refl
includes-permissions integrations_write_client_id = refl
includes-permissions integrations_add_restricted_idps = refl
includes-permissions integrations_delete_in_flight = refl
