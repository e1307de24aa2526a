-- ===== src/Authz/Sets.antt =====
-- packages/authz/src/sets.ts: the operations on permission sets. `permits` compares the text
-- `resource:action`, which is the name of the permission.
pub mod Laws
use sso_requests.Base.{Bool, List, filter, any, all, includes}
use sso_requests.Authz.Permissions.{Permission, permission_eq, permissions}

unfoldable pub permits : List Permission → Permission → Bool
permits ps p = includes ps p

unfoldable pub is_subset : List Permission → List Permission → Bool
is_subset proposed ceiling = all (includes ceiling) proposed

unfoldable pub intersect : List Permission → List Permission → List Permission
intersect a b = filter (includes b) a

unfoldable pub union : List (List Permission) → List Permission
union sets = filter (λ p. any (λ set. includes set p) sets) permissions

unfoldable pub sort_permissions : List Permission → List Permission
sort_permissions ps = filter (includes ps) permissions
