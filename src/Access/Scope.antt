-- ===== src/Access/Scope.antt =====
-- app/queries/accessScope.ts: the `where` clause of a list query, derived from the scope, and what
-- the database makes of it.
pub mod Laws
use sso_requests.Base.{
  ℕ, Bool, true, false, ◌&&◌, ◌||◌, not, List, [], ◌∷◌, ◌++◌, map, Option, none, some, String,
  nat_eq, ◌==◌, includes, if◌then◌else◌, any, filter, length, ltb, is_some,
}
use sso_requests.Authz.Permissions.{Permission, permission_eq}
use sso_requests.Authz.Presets.{preset, team_admin, permissions_for_team_role}
use sso_requests.Authz.Organization.{OrganizationLink}
use sso_requests.Transitions.{status_eq, draft}
use sso_requests.Access.Integration.{AccessResolvable, AccessScope, same_user}

-- The clauses that `accessibleIntegrationsWhere` pushes.
pub data Clause : Type 0 where
  in_teams : List ℕ → Clause
  personal : ℕ → Clause
  teamless_draft : ℕ → Clause
  of_team : ℕ → Clause
  of_team_except : ℕ → List ℕ → Clause

abbrev pub role_confers : Permission → String → Bool
role_confers p role = includes (permissions_for_team_role (some role)) p

unfoldable pub member_team_ids : AccessScope → Permission → List ℕ
member_team_ids scope p = map (λ e. e.0) (filter (λ e. role_confers p e.1) scope.role_by_team)

-- The integrations that an override excludes.
abbrev pub capped_ids : OrganizationLink → Permission → List ℕ
capped_ids link p = map (λ e. e.0) (filter (λ e. not (includes e.1 p)) link.overrides)

-- `capped.length > 0 ? … : …`.
unfoldable pub reach_clause : ℕ → List ℕ → Clause
reach_clause t capped = if ltb 0 (length capped) then of_team_except t capped else of_team t

-- The loop over the organizations' links, with its two early returns.
unfoldable pub organization_clauses :
    List ℕ → Permission → List (ℕ × OrganizationLink) → List Clause
organization_clauses members p [] = []
organization_clauses members p ((t, link) ∷ m) =
    if includes members t || not (includes link.permissions p)
    then organization_clauses members p m
    else reach_clause t (capped_ids link p) ∷ organization_clauses members p m

-- The clause for the teams whose role confers the permission, where there are any.
unfoldable pub member_clauses : List ℕ → List Clause
member_clauses ids = if ltb 0 (length ids) then in_teams ids ∷ [] else []

-- The clauses for what the user owns, where ownership confers the permission.
unfoldable pub own_clauses : Bool → ℕ → List Clause
own_clauses confers user = if confers then personal user ∷ teamless_draft user ∷ [] else []

unfoldable pub clauses_for : AccessScope → Permission → List Clause
clauses_for scope p =
    member_clauses (member_team_ids scope p)
    ++ (own_clauses (includes (preset team_admin) p) scope.user_id
        ++ organization_clauses (member_team_ids scope p) p scope.organization_teams)

-- `accessibleIntegrationsWhere`; `none` is its `null`.
unfoldable pub accessible_integrations_where : AccessScope → Permission → Option (List Clause)
accessible_integrations_where scope p =
    if ltb 0 (length (clauses_for scope p)) then some (clauses_for scope p) else none

abbrev pub in_list : Option ℕ → List ℕ → Bool
in_list none ids = false
in_list (some t) ids = includes ids t

-- What a clause selects: `team_id IN (…)` and the like are false of a null.
unfoldable pub clause_matches : AccessResolvable → Clause → Bool
clause_matches row (in_teams ids) = row.uses_team && in_list row.team_id ids
clause_matches row (personal u) = not row.uses_team && same_user row.user_id u
clause_matches row (teamless_draft u) =
    row.uses_team && (not (is_some row.team_id) && (row.status == draft && same_user row.user_id u))
clause_matches row (of_team t) = row.uses_team && same_user row.team_id t
clause_matches row (of_team_except t ids) =
    row.uses_team && (same_user row.team_id t && not (includes ids row.id))

-- The rows of a list query: no clause selects an API account, and no query selects nothing.
unfoldable pub selected : Option (List Clause) → Bool → AccessResolvable → Bool
selected none api_account row = false
selected (some clauses) api_account row = not api_account && any (clause_matches row) clauses
