-- ===== src/Access/AppRoles/Laws.antt =====
-- What the application roles of app/utils/authorize.ts confer.
use sso_requests.Base.{
  ◌≡◌, ◌≢◌, refl, ap, Bool, true, false, ◌||◌, List, [], ◌∷◌, ◌++◌, map, String, arith, any,
  includes, includes-append, Bool-cases, Option-cases, inl, inr, string_eq, ◌==◌,
}
use sso_requests.Authz.Permissions.{Permission, permission_eq}
use sso_requests.Authz.Sets.Laws.{includes-union}
use sso_requests.Access.AppRoles.{
  AppPermission, app_permission_eq, app_permission_beq_iff, AppRole, sso_admin, app_role_of,
  app_role_permissions, permissions_of_role, has_app_permission, add_all, add_roles,
  get_all_app_permissions, app_permission_grants, common_permissions_for_app_roles,
}

includes-add_all :
    (set ps : List AppPermission) (p : AppPermission)
    → includes (add_all set ps) p ≡ includes set p || includes ps p
unfolding add_all
includes-add_all set [] p = ground arith
includes-add_all set (q ∷ ps) p = elim (Bool-cases (includes set q)) [
  | inl old ↦ rw old (
      ground (arith, includes-add_all set ps p, app_permission_beq_iff q p, ap (includes set), old))
  | inr new ↦
      rw new
        (ground (arith, includes-add_all (set ++ (q ∷ [])) ps p, includes-append set (q ∷ []) p))
]

includes-add_roles :
    (set : List AppPermission) (roles : List String) (p : AppPermission)
    → includes (add_roles set roles) p ≡ includes set p || has_app_permission roles p
unfolding has_app_permission
includes-add_roles set [] p = ground arith
includes-add_roles set (role ∷ roles) p = ground (
  arith,
  includes-add_roles (add_all set (permissions_of_role role)) roles p,
  includes-add_all set (permissions_of_role role) p,
)

-- The set of all permissions of a session and the test of one permission agree, for every list of
-- role names, unknown ones included.
pub includes-get_all_app_permissions :
    (roles : List String) (p : AppPermission)
    → includes (get_all_app_permissions roles) p ≡ has_app_permission roles p
unfolding get_all_app_permissions
includes-get_all_app_permissions roles p = includes-add_roles [] roles p

any-map :
    (f : AppPermission → List Permission) (ps : List AppPermission) (p : Permission)
    → any (λ set. includes set p) (map f ps) ≡ any (λ a. includes (f a) p) ps
any-map f [] p = refl
any-map f (a ∷ ps) p = ap (λ b. includes (f a) p || b) (any-map f ps p)

-- A permission that some member of a list grants is granted by a member that the list includes.
any_witness :
    (q : AppPermission → Bool) (ps : List AppPermission)
    → any q ps ≡ true
    → (a : AppPermission) × (includes ps a ≡ true) × (q a ≡ true)
any_witness q [] h = cc
any_witness q (x ∷ xs) h = elim (Bool-cases (q x)) [
  | inl hit ↦ (x, ground (arith, (app_permission_beq_iff x x).1 refl), hit)
  | inr miss ↦ let (a, m, e) = any_witness q xs (ground (arith, miss)) in (a, ground (arith, m), e)
]

-- Some role of the list is the administrator's.
abbrev pub has_admin : List String → Bool
has_admin roles = any (λ role. role == "sso-admin") roles

abbrev pub is_approval : Permission → Bool
is_approval Permission.integrations_approve_bceid = true
is_approval Permission.integrations_approve_github = true
is_approval Permission.integrations_approve_bcsc = true
is_approval Permission.integrations_approve_bcgovidir = true
is_approval Permission.integrations_approve_social = true
is_approval Permission.integrations_approve_otp = true
is_approval _ = false

-- What a role other than the administrator's carries grants approvals alone.
grants_approval :
    (r : AppRole) (a : AppPermission) (p : Permission)
    → r ≢ sso_admin
    → includes (app_role_permissions r) a ≡ true
    → includes (app_permission_grants a) p ≡ true
    → is_approval p ≡ true
unfolding app_role_permissions app_permission_grants
grants_approval AppRole.guest a p n h g = ground arith
grants_approval AppRole.sso_admin a p n h g = absurd (n refl)
grants_approval _ a p n h g = ground arith

role_grants_approval :
    (role : String) (a : AppPermission) (p : Permission)
    → (role == "sso-admin") ≡ false
    → includes (permissions_of_role role) a ≡ true
    → includes (app_permission_grants a) p ≡ true
    → is_approval p ≡ true
unfolding permissions_of_role
role_grants_approval role a p n h g = elim (Option-cases (app_role_of role)) [
  | inl unknown ↦ ground (arith, unknown)
  | inr (r, known) ↦
      grants_approval r a p (λ e. unfold app_role_of in ground (arith, known, e))
        (ground (arith, known)) g
]

roles_grant_approval :
    (roles : List String) (a : AppPermission) (p : Permission)
    → has_admin roles ≡ false
    → has_app_permission roles a ≡ true
    → includes (app_permission_grants a) p ≡ true
    → is_approval p ≡ true
unfolding has_app_permission
roles_grant_approval [] a p n h g = cc
roles_grant_approval (role ∷ roles) a p n h g =
    elim (Bool-cases (includes (permissions_of_role role) a)) [
      | inl here ↦ role_grants_approval role a p (ground arith) here g
      | inr later ↦ roles_grant_approval roles a p (ground arith) (ground (arith, later)) g
    ]

-- No list of application roles without `sso-admin` confers anything over an integration but the
-- approval flags of the approver roles.
pub common_permissions_approval :
    (roles : List String) (p : Permission)
    → has_admin roles ≡ false
    → includes (common_permissions_for_app_roles roles) p ≡ true
    → is_approval p ≡ true
unfolding common_permissions_for_app_roles
common_permissions_approval roles p n h =
    let (a, m, g) =
      any_witness (λ a. includes (app_permission_grants a) p) (get_all_app_permissions roles)
        (cc (
          includes-union (map app_permission_grants (get_all_app_permissions roles)) p,
          any-map app_permission_grants (get_all_app_permissions roles) p,
        )) in
    roles_grant_approval roles a p n (cc (includes-get_all_app_permissions roles a)) g
