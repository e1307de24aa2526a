-- ===== src/Policy/Outsiders.antt =====
-- The change policy (app/utils/requestPolicy.ts) behind the access resolver
-- (app/queries/integrationAccess.ts).
use sso_requests.Base.{
  ◌≡◌, ◌≢◌, if◌then◌else◌, ◌⊎◌, inl, inr, refl, sym, ap, ◌∙◌, Bool, true, false, List, [], ◌∷◌,
  Option, none, some, String, string_eq, arith, Bool-cases, includes,
}
use sso_requests.Authz.Permissions
use sso_requests.Authz.Permissions.{Permission, permission_eq}
use sso_requests.Authz.Sets.{union}
use sso_requests.Authz.Sets.Laws.{includes-union}
use sso_requests.Access.AppRoles.{common_permissions_for_app_roles}
use sso_requests.Access.AppRoles.Laws.{is_approval, has_admin, common_permissions_approval}
use sso_requests.Access.Integration.{
  Session, AccessScope, AccessResolvable, resolve_access, is_owner, get_for_team, owning_team,
  overlaps, allowed_idps_for_approver, link_permissions, approver_permissions,
}
use sso_requests.Authz.Presets.{permissions_for_team_role}
use sso_requests.Authz.Organization.{organization_permissions}
use sso_requests.Policy.Values.{Record}
use sso_requests.Policy.Authority.{field_authority}
use sso_requests.Policy.Changes.{Policy, allowed, authorize_changes}
use sso_requests.Policy.Safety.{authorize_changes_without_write}

-- No owner, no member of the row's team, no organization linked to that team, no `sso-admin`.
pub record IsOutsider (session : Session) (scope : AccessScope) (row : AccessResolvable)
    : Type 0 where
  pub no_owner : is_owner row session.user_id ≡ false
  pub no_member : get_for_team (owning_team row) scope.role_by_team ≡ none
  pub no_link : get_for_team (owning_team row) scope.organization_teams ≡ none
  pub no_admin : has_admin session.client_roles ≡ false

includes-union_last :
    (a b : List Permission) (p : Permission)
    → includes (union ([] ∷ [] ∷ [] ∷ a ∷ b ∷ [])) p ≡ true
    → (includes a p ≡ true) ⊎ (includes b p ≡ true)
includes-union_last a b p h = elim (Bool-cases (includes a p)) [
  | inl here ↦ inl here
  | inr later ↦ inr (ground (arith, includes-union ([] ∷ [] ∷ [] ∷ a ∷ b ∷ []) p))
]

includes-approver_permissions :
    (roles : List String) (row : AccessResolvable) (p : Permission)
    → includes (approver_permissions roles row) p ≡ true
    → p ≡ Permissions.integrations_read
unfolding approver_permissions
includes-approver_permissions roles row p h =
    elim (Bool-cases (overlaps (allowed_idps_for_approver roles) row.dev_idps)) [
      | inl may_approve ↦
          sym ((permission_eq.beq_iff Permissions.integrations_read p).0 (ground arith))
      | inr other ↦ absurd (ground arith)
    ]

resolve_access-IsOutsider :
    (session : Session) (scope : AccessScope) (row : AccessResolvable)
    → IsOutsider session scope row
    → (resolve_access session scope row).permissions
      ≡ union (
          []
          ∷ []
          ∷ []
          ∷ common_permissions_for_app_roles session.client_roles
          ∷ approver_permissions session.client_roles row
          ∷ [])
unfolding resolve_access link_permissions permissions_for_team_role organization_permissions
resolve_access-IsOutsider session scope row o = rw (o.no_owner, o.no_member, o.no_link) refl

resolve_access_outsider :
    (session : Session) (scope : AccessScope) (row : AccessResolvable) (p : Permission)
    → IsOutsider session scope row
    → includes (resolve_access session scope row).permissions p ≡ true
    → (is_approval p ≡ true) ⊎ (p ≡ Permissions.integrations_read)
resolve_access_outsider session scope row p o h =
    elim (includes-union_last (common_permissions_for_app_roles session.client_roles)
      (approver_permissions session.client_roles row) p
      (ap (λ ps. includes ps p) (sym (resolve_access-IsOutsider session scope row o)) ∙ h)) [
        | inl role ↦ inl (common_permissions_approval session.client_roles p o.no_admin role)
        | inr approver ↦ inr (includes-approver_permissions session.client_roles row p approver)
      ]

no_write :
    (held : List Permission)
    → ((p : Permission)
        → includes held p ≡ true
        → (is_approval p ≡ true) ⊎ (p ≡ Permissions.integrations_read))
    → includes held Permissions.integrations_write ≡ false
no_write held h = elim (Bool-cases (includes held Permissions.integrations_write)) [
  | inr missing ↦ missing
  | inl there ↦ elim (h Permissions.integrations_write there) [ inl approval ↦ cc | inr read ↦ cc ]
]

if_ne :
    (p : Permission) (b : Bool) (y : Option Permission)
    → p ≢ Permissions.integrations_read
    → y ≢ some Permissions.integrations_read
    → (if b then some p else y) ≢ some Permissions.integrations_read
if_ne p true y h k e = h (ground arith)
if_ne p false y h k e = k e

none-ne-some : (p : Permission) → none ≢ some p
none-ne-some p e = cc

-- No field is granted by the permission to read.
field_authority-ne-read :
    (field : String) → field_authority field ≢ some Permissions.integrations_read
unfolding field_authority
field_authority-ne-read field =
    if_ne Permissions.integrations_approve_bceid _ _ (λ e. cc)
      (if_ne Permissions.integrations_approve_github _ _ (λ e. cc)
        (if_ne Permissions.integrations_approve_bcsc _ _ (λ e. cc)
          (if_ne Permissions.integrations_approve_social _ _ (λ e. cc)
            (if_ne Permissions.integrations_approve_otp _ _ (λ e. cc)
              (if_ne Permissions.integrations_write_lifespans _ _ (λ e. cc)
                (if_ne Permissions.integrations_write_client_id _ _ (λ e. cc)
                  (if_ne Permissions.integrations_reassign_team _ _ (λ e. cc)
                    (none-ne-some Permissions.integrations_read))))))))

-- Whoever neither owns the row, nor is in its team, nor has an organization linked to that team, nor is
-- an administrator, can change only fields that an approval permission grants, under the permissions
-- that the resolver finds.
pub authorize_changes_outsider :
    (session : Session) (scope : AccessScope) (row : AccessResolvable) (policy : Policy)
    (original submitted : Record) (fields : List String) (field : String)
    → IsOutsider session scope row
    → policy.permissions ≡ (resolve_access session scope row).permissions
    → authorize_changes policy original submitted ≡ allowed fields
    → includes fields field ≡ true
    → (p : Permission) × (field_authority field ≡ some p) × (is_approval p ≡ true)
authorize_changes_outsider session scope row policy original submitted fields field o e h m =
    let held : (p : Permission)
        → includes policy.permissions p ≡ true
        → (is_approval p ≡ true) ⊎ (p ≡ Permissions.integrations_read) =
      λ p i. resolve_access_outsider session scope row p o (ap (λ ps. includes ps p) (sym e) ∙ i) in
    let (p, a, i) =
      authorize_changes_without_write policy original submitted fields field h
        (no_write policy.permissions held) m in
    elim (held p i) [
      | inl approval ↦ (p, a, approval)
      | inr read ↦ absurd (field_authority-ne-read field (a ∙ ap some read))
    ]
