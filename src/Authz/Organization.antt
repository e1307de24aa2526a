-- ===== src/Authz/Organization.antt =====
-- packages/authz/src/organization.ts: what an organization may do to one integration.
use sso_requests.Base.{
  ◌≡◌, refl, Bool, ◌&&◌, List, [], Option, none, some, arith, includes, ℕ, true, false,
}
use sso_requests.Authz.Permissions.{
  Permission, permission_eq, integrations_reassign_team, org_consentable_permissions,
}
use sso_requests.Authz.Sets.{intersect}
use sso_requests.Authz.Sets.Laws.{includes-intersect}

-- `OrganizationLink`; the map of overrides is the list of its entries.
pub record OrganizationLink : Type 0 where
  pub permissions : List Permission
  pub overrides : List (ℕ × List Permission)

unfoldable pub organization_permissions :
    Option OrganizationLink → Option (List Permission) → List Permission
organization_permissions none override = []
organization_permissions (some link) none = intersect link.permissions org_consentable_permissions
organization_permissions (some link) (some caps) =
    intersect (intersect link.permissions caps) org_consentable_permissions

-- A permission that the override of the integration leaves standing; no override leaves all.
abbrev pub within : Option (List Permission) → Permission → Bool
within none p = true
within (some caps) p = includes caps p

-- An organization with a link holds exactly the permissions that the team consented to, that the
-- integration's override (where there is one) names too, and that an organization may hold at all.
pub includes-organization_permissions :
    (link : OrganizationLink) (override : Option (List Permission)) (p : Permission)
    → includes (organization_permissions (some link) override) p
      ≡ (includes link.permissions p && within override p) && includes org_consentable_permissions p
unfolding organization_permissions
includes-organization_permissions link none p =
    ground (arith, includes-intersect link.permissions org_consentable_permissions p)
includes-organization_permissions link (some caps) p = ground (
  arith,
  includes-intersect (intersect link.permissions caps) org_consentable_permissions p,
  includes-intersect link.permissions caps p,
)

-- Whatever is stored, an organization never holds `integrations:reassign-team`.
pub organization_permissions_reassign :
    (link : Option OrganizationLink) (override : Option (List Permission))
    → includes (organization_permissions link override) integrations_reassign_team ≡ false
organization_permissions_reassign none override = unfold organization_permissions in refl
organization_permissions_reassign (some link) override =
    ground (arith, includes-organization_permissions link override integrations_reassign_team)
