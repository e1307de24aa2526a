-- ===== src/Authz/Sets/Laws.antt =====
-- Membership in the sets of packages/authz/src/sets.ts, and the canonical order of a stored set.
use mathlib.Core.Path.{fun_ext}
use sso_requests.Base.{
  ◌≡◌, ◌↔◌, true, ◌&&◌, List, ap, ◌∙◌, filter, any, includes, includes-filter, all_iff,
}
use sso_requests.Authz.Permissions.{Permission, permission_eq, permissions, includes-permissions}
use sso_requests.Authz.Sets.{is_subset, intersect, union, sort_permissions}

pub includes-intersect :
    (a b : List Permission) (p : Permission)
    → includes (intersect a b) p ≡ includes a p && includes b p
unfolding intersect
includes-intersect a b p = includes-filter (includes b) a p

pub includes-union :
    (sets : List (List Permission)) (p : Permission)
    → includes (union sets) p ≡ any (λ set. includes set p) sets
unfolding union
includes-union sets p =
    includes-filter (λ q. any (λ set. includes set q) sets) permissions p
    ∙ ap (λ b. b && any (λ set. includes set p) sets) (includes-permissions p)

pub includes-sort_permissions :
    (ps : List Permission) (p : Permission) → includes (sort_permissions ps) p ≡ includes ps p
unfolding sort_permissions
includes-sort_permissions ps p =
    includes-filter (includes ps) permissions p
    ∙ ap (λ b. b && includes ps p) (includes-permissions p)

-- The order of a stored set and its repetitions do not matter: two lists with the same members have
-- one sorted form, and lists with the same sorted form have the same members.
pub sort_permissions-eq_iff :
    (a b : List Permission)
    → (sort_permissions a ≡ sort_permissions b) ↔ ((p : Permission) → includes a p ≡ includes b p)
sort_permissions-eq_iff a b = (
  λ e p.
      cc (includes-sort_permissions a p, includes-sort_permissions b p, ap (λ s. includes s p) e),
  λ h. unfold sort_permissions in ap (λ f. filter f permissions) (fun_ext h),
)

-- `isSubset` decides inclusion: every proposed permission is in the ceiling.
pub is_subset_iff :
    (proposed ceiling : List Permission)
    → (is_subset proposed ceiling ≡ true)
      ↔ ((p : Permission) → includes proposed p ≡ true → includes ceiling p ≡ true)
unfolding is_subset
is_subset_iff proposed ceiling = all_iff (includes ceiling) proposed
