-- ===== src/Access/Scope/Laws.antt =====
-- The list query of app/queries/accessScope.ts beside the per-row resolver of
-- app/queries/integrationAccess.ts.
use sso_requests.Base.{
  ℕ, ◌≡◌, ◌≢◌, refl, ap, sym, ◌∙◌, Bool, true, false, ◌&&◌, ◌||◌, not, List, [], ◌∷◌, ◌++◌, Option,
  none, some, arith, nat_eq, nat_beq, nat_beq_iff, includes, any, HasUniqueKeys, holds, map_get,
  any-map_get, includes-keys, String, Bool-cases, Option-cases, inl, inr, ◌⊎◌, if◌then◌else◌, ltb,
  length,
}
use sso_requests.Authz.Permissions.{
  Permission, permission_eq, org_consentable_permissions, integrations_reassign_team,
}
use sso_requests.Authz.Sets.Laws.{includes-union}
use sso_requests.Authz.Presets.{preset, team_admin, permissions_for_team_role}
use sso_requests.Authz.Organization.{
  OrganizationLink, organization_permissions, includes-organization_permissions, within,
  organization_permissions_reassign,
}
use sso_requests.Access.AppRoles.{common_permissions_for_app_roles}
use sso_requests.Access.Integration.{
  AccessResolvable, AccessScope, Session, owning_team, is_owner, get_for_team, link_permissions,
  approver_permissions, resolve_access,
}
use sso_requests.Access.Scope.{
  Clause, role_confers, member_team_ids, capped_ids, organization_clauses, reach_clause,
  member_clauses, own_clauses, clauses_for, accessible_integrations_where, clause_matches, selected,
}

any-append : {A : Type 0} (q : A → Bool) (xs ys : List A) → any q (xs ++ ys) ≡ any q xs || any q ys
any-append q [] ys = refl
any-append q (x ∷ xs) ys = ground (arith, any-append q xs ys)

-- An override leaves a permission standing exactly when it does not cap the integration.
within-capped :
    (link : OrganizationLink) (p : Permission) (id : ℕ)
    → HasUniqueKeys link.overrides
    → within (map_get id link.overrides) p ≡ not (includes (capped_ids link p) id)
within-capped link p id u = ground (
  arith,
  includes-keys (λ caps. not (includes caps p)) id link.overrides,
  any-map_get (λ caps. not (includes caps p)) id link.overrides u,
)

-- An organization's link admits the row: it is not skipped, confers `p`, and does not cap the row.
abbrev admits : List ℕ → Permission → ℕ → ℕ → OrganizationLink → Bool
admits members p t id link =
    not (includes members t)
    && (includes link.permissions p && not (includes (capped_ids link p) id))

clause_matches-reach_clause :
    (row : AccessResolvable) (t j : ℕ) (capped : List ℕ)
    → row.uses_team ≡ true
    → row.team_id ≡ some t
    → clause_matches row (reach_clause j capped) ≡ nat_beq t j && not (includes capped row.id)
unfolding clause_matches reach_clause
clause_matches-reach_clause row t j [] h k = ground arith
clause_matches-reach_clause row t j (id ∷ ids) h k = ground arith

any-organization_clauses :
    (row : AccessResolvable) (t : ℕ) (members : List ℕ) (p : Permission)
    (m : List (ℕ × OrganizationLink))
    → row.uses_team ≡ true
    → row.team_id ≡ some t
    → any (clause_matches row) (organization_clauses members p m)
      ≡ any (λ e. nat_beq e.0 t && admits members p t row.id e.1) m
unfolding organization_clauses
any-organization_clauses row t members p [] h k = refl
any-organization_clauses row t members p ((j, link) ∷ m) h k = ground (
  arith,
  any-organization_clauses row t members p m h k,
  clause_matches-reach_clause row t j (capped_ids link p) h k,
  nat_beq_iff j t,
  nat_beq_iff t j,
  λ (e : j ≡ t). ap (includes members) e,
)

-- A row that no team owns is in no organization's clause.
no_organization_clauses :
    (row : AccessResolvable) (members : List ℕ) (p : Permission) (m : List (ℕ × OrganizationLink))
    → (row.uses_team ≡ false) ⊎ (row.team_id ≡ none)
    → any (clause_matches row) (organization_clauses members p m) ≡ false
unfolding organization_clauses clause_matches reach_clause
no_organization_clauses row members p [] h = refl
no_organization_clauses row members p ((j, link) ∷ m) h =
    ground (arith, no_organization_clauses row members p m h)

-- The maps of a scope hold each key once, the overrides of each link too.
abbrev pub HaveUniqueOverrides : List (ℕ × OrganizationLink) → Type 0
HaveUniqueOverrides [] = Unit
HaveUniqueOverrides ((t, link) ∷ m) = HasUniqueKeys link.overrides × HaveUniqueOverrides m

pub record IsScope (scope : AccessScope) : Type 0 where
  pub roles : HasUniqueKeys scope.role_by_team
  pub links : HasUniqueKeys scope.organization_teams
  pub overrides : HaveUniqueOverrides scope.organization_teams

unique_overrides_of :
    (t : ℕ) (m : List (ℕ × OrganizationLink)) (link : OrganizationLink)
    → HaveUniqueOverrides m
    → map_get t m ≡ some link
    → HasUniqueKeys link.overrides
unique_overrides_of t [] link h e = cc
unique_overrides_of t ((j, l) ∷ m) link h e = elim (Bool-cases (nat_beq j t)) [
  | inl same ↦ let q : l ≡ link = ground (arith, same) in rw (← q) h.0
  | inr other ↦ unique_overrides_of t m link h.1 (ground (arith, other))
]

-- What the team's role confers, and what the organization's link to the team does.
team_role_confers :
    (p : Permission) (role : Option String)
    → includes (permissions_for_team_role role) p ≡ holds (role_confers p) role
unfolding permissions_for_team_role
team_role_confers p none = refl
team_role_confers p (some r) = refl

link_confers :
    (scope : AccessScope) (p : Permission) (t id : ℕ) (members : List ℕ)
    → IsScope scope
    → includes org_consentable_permissions p ≡ true
    → includes members t || includes (link_permissions (map_get t scope.organization_teams) id) p
      ≡ includes members t
        || any (λ e. nat_beq e.0 t && admits members p t id e.1) scope.organization_teams
unfolding link_permissions
link_confers scope p t id members ok c =
    rw (any-map_get (admits members p t id) t scope.organization_teams ok.links)
      (elim (Option-cases (map_get t scope.organization_teams)) [
        | inl missing ↦ rw missing (unfold organization_permissions in refl)
        | inr (link, found) ↦ rw found (
            ground (
              arith,
              includes-organization_permissions link (map_get id link.overrides) p,
              within-capped link p id (unique_overrides_of t _ link ok.overrides found),
            ))
      ])

-- The query's clause for the user's own teams.
member_clause :
    (scope : AccessScope) (p : Permission) (t : ℕ)
    → IsScope scope
    → includes (member_team_ids scope p) t
      ≡ includes (permissions_for_team_role (map_get t scope.role_by_team)) p
unfolding member_team_ids
member_clause scope p t ok =
    includes-keys (role_confers p) t scope.role_by_team
    ∙ (any-map_get (role_confers p) t scope.role_by_team ok.roles
        ∙ sym (team_role_confers p (map_get t scope.role_by_team)))

-- No clauses select nothing, as a `null` query does.
selected_clauses :
    (scope : AccessScope) (p : Permission) (row : AccessResolvable)
    → selected (accessible_integrations_where scope p) false row
      ≡ any (clause_matches row) (clauses_for scope p)
unfolding selected accessible_integrations_where
selected_clauses scope p row = go (clauses_for scope p)
  where
    go :
        (cs : List Clause)
        → selected (if ltb 0 (length cs) then some cs else none) false row
          ≡ any (clause_matches row) cs
    go [] = refl
    go (c ∷ cs) = ground arith

-- The row-level part of the resolver: ownership, the team's role and the organization's link.
unfoldable pub row_confers : ℕ → AccessScope → AccessResolvable → Permission → Bool
row_confers user scope row p =
    (is_owner row user && includes (preset team_admin) p)
    || (includes (permissions_for_team_role (get_for_team (owning_team row) scope.role_by_team)) p
        || includes
            (link_permissions (get_for_team (owning_team row) scope.organization_teams) row.id) p)

abbrev resolve_sets :
    Session → AccessScope → AccessResolvable → List Permission → List (List Permission)
resolve_sets session scope row own =
    own
    ∷ permissions_for_team_role (get_for_team (owning_team row) scope.role_by_team)
    ∷ link_permissions (get_for_team (owning_team row) scope.organization_teams) row.id
    ∷ common_permissions_for_app_roles session.client_roles
    ∷ approver_permissions session.client_roles row
    ∷ []

includes-resolve_access :
    (session : Session) (scope : AccessScope) (row : AccessResolvable) (p : Permission)
    → includes (resolve_access session scope row).permissions p
      ≡ row_confers session.user_id scope row p
        || (includes (common_permissions_for_app_roles session.client_roles) p
            || includes (approver_permissions session.client_roles row) p)
unfolding resolve_access row_confers
includes-resolve_access session scope row p = elim (Bool-cases (is_owner row session.user_id)) [
  | inl own ↦
      rw own (ground (arith, includes-union (resolve_sets session scope row (preset team_admin)) p))
  | inr not_own ↦ rw not_own (ground (arith, includes-union (resolve_sets session scope row []) p))
]

any-member_clauses :
    (row : AccessResolvable) (ids : List ℕ)
    → any (clause_matches row) (member_clauses ids) ≡ clause_matches row (Clause.in_teams ids)
unfolding member_clauses clause_matches
any-member_clauses row [] = ground arith
any-member_clauses row (i ∷ ids) = ground arith

any-own_clauses :
    (row : AccessResolvable) (confers : Bool) (user : ℕ)
    → any (clause_matches row) (own_clauses confers user)
      ≡ confers
        && (clause_matches row (Clause.personal user)
            || clause_matches row (Clause.teamless_draft user))
unfolding own_clauses
any-own_clauses row confers user = ground arith

any-clauses_for :
    (scope : AccessScope) (p : Permission) (row : AccessResolvable)
    → any (clause_matches row) (clauses_for scope p) ≡ (
        clause_matches row (Clause.in_teams (member_team_ids scope p))
        || ((includes (preset team_admin) p
              && (clause_matches row (Clause.personal scope.user_id)
                  || clause_matches row (Clause.teamless_draft scope.user_id)))
            || any
                (clause_matches row)
                (organization_clauses (member_team_ids scope p) p scope.organization_teams)))
unfolding clauses_for
any-clauses_for scope p row = simp (any-append, any-member_clauses, any-own_clauses)

-- The query selects a row exactly when its row-level part confers the permission: a row that no
-- team owns yet, or that is personal.
clauses_for-personal :
    (scope : AccessScope) (p : Permission) (row : AccessResolvable)
    → (row.uses_team ≡ false) ⊎ (row.team_id ≡ none)
    → any (clause_matches row) (clauses_for scope p) ≡ row_confers scope.user_id scope row p
unfolding clause_matches row_confers owning_team is_owner link_permissions organization_permissions
clauses_for-personal scope p row h = ground (
  arith,
  any-clauses_for scope p row,
  no_organization_clauses row (member_team_ids scope p) p scope.organization_teams h,
  team_role_confers p none,
)

clauses_for-team :
    (scope : AccessScope) (p : Permission) (row : AccessResolvable) (t : ℕ)
    → IsScope scope
    → includes org_consentable_permissions p ≡ true
    → row.uses_team ≡ true
    → row.team_id ≡ some t
    → t ≢ 0
    → any (clause_matches row) (clauses_for scope p) ≡ row_confers scope.user_id scope row p
unfolding clause_matches row_confers owning_team is_owner
clauses_for-team scope p row t ok c h k n = ground (
  arith,
  any-clauses_for scope p row,
  any-organization_clauses row t (member_team_ids scope p) p scope.organization_teams h k,
  member_clause scope p t ok,
  link_confers scope p t row.id (member_team_ids scope p) ok c,
)

-- The list query and the per-row resolver agree. For a permission that an organization may hold,
-- and a scope whose maps hold each key once, a list query selects an integration exactly when the
-- resolver, given the same scope, confers the permission on that integration by ownership, team or
-- organization; what else the resolver confers comes from the session's application roles. (The
-- session is the scope's user's, the integration is no API account, and no team has the id 0.)
pub selected-resolve_access :
    (session : Session) (scope : AccessScope) (row : AccessResolvable) (p : Permission)
    → IsScope scope
    → session.user_id ≡ scope.user_id
    → row.team_id ≢ some 0
    → includes org_consentable_permissions p ≡ true
    → includes (resolve_access session scope row).permissions p
      ≡ selected (accessible_integrations_where scope p) false row
        || (includes (common_permissions_for_app_roles session.client_roles) p
            || includes (approver_permissions session.client_roles row) p)
selected-resolve_access session scope row p ok same n c = cc (
  selected_clauses scope p row,
  row_level row.uses_team row.team_id refl refl,
  includes-resolve_access session scope row p,
  same,
)
  where
    row_level :
        (b : Bool) (o : Option ℕ)
        → row.uses_team ≡ b
        → row.team_id ≡ o
        → any (clause_matches row) (clauses_for scope p) ≡ row_confers scope.user_id scope row p
    row_level false o h k = clauses_for-personal scope p row (inl h)
    row_level true none h k = clauses_for-personal scope p row (inr k)
    row_level true (some t) h k = clauses_for-team scope p row t ok c h k (λ e. n (k ∙ ap some e))

-- The clause of an organization does not ask whether an organization may hold the permission at
-- all: a stored link without overrides that names `integrations:reassign-team` makes the query
-- select the integrations of its team for it, while the resolver denies it to a user who has no
-- role in the team and no application role that confers it.
pub reassign_team_drift :
    (session : Session) (scope : AccessScope) (row : AccessResolvable) (t : ℕ)
    (link : OrganizationLink)
    → IsScope scope
    → row.uses_team ≡ true
    → row.team_id ≡ some t
    → t ≢ 0
    → map_get t scope.organization_teams ≡ some link
    → map_get t scope.role_by_team ≡ none
    → includes link.permissions integrations_reassign_team ≡ true
    → link.overrides ≡ []
    → includes (common_permissions_for_app_roles session.client_roles) integrations_reassign_team
      ≡ false
    → (selected (accessible_integrations_where scope integrations_reassign_team) false row ≡ true)
      × (includes (resolve_access session scope row).permissions integrations_reassign_team ≡ false)
unfolding row_confers owning_team is_owner link_permissions approver_permissions
reassign_team_drift session scope row t link ok h k n l r g o c = (
  rw (selected_clauses scope integrations_reassign_team row) (
      ground (
        arith,
        any-clauses_for scope integrations_reassign_team row,
        any-organization_clauses row t (member_team_ids scope integrations_reassign_team)
            integrations_reassign_team scope.organization_teams h k,
        any-map_get
            (admits (member_team_ids scope integrations_reassign_team) integrations_reassign_team t
              row.id)
            t scope.organization_teams ok.links,
        member_clause scope integrations_reassign_team t ok,
        team_role_confers integrations_reassign_team none,
      )),
  ground (
    arith,
    includes-resolve_access session scope row integrations_reassign_team,
    organization_permissions_reassign (some link) (map_get row.id link.overrides),
    team_role_confers integrations_reassign_team none,
  ),
)
