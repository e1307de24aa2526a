-- ===== src/Examples/Deciding.antt =====
-- The change policy at concrete payloads.
use sso_requests.Base.{
  none, ◌≡◌, ◌⊎◌, ◌↔◌, refl, Bool, true, false, List, [], ◌∷◌, some, String, string_eq, ◌==◌,
  includes, all, any, arith, All, Bool-cases, inl, inr, subst, if◌then◌else◌, ◌&&◌, not,
}
use sso_requests.Authz.Permissions.{Permission, permission_eq}
use sso_requests.Authz.Sets.{union}
use sso_requests.Authz.Presets.{permissions_for_team_role}
use sso_requests.Authz.Organization.{organization_permissions}
use sso_requests.Transitions.{Status}
use sso_requests.Access.AppRoles.{
  common_permissions_for_app_roles, get_all_app_permissions, add_all, permissions_of_role,
  app_role_of, app_role_permissions, app_permission_grants,
}
use sso_requests.Access.AppRoles.Laws.{is_approval}
use sso_requests.Access.Integration.{
  Session, AccessScope, AccessResolvable, resolve_access, is_owner, owning_team,
  approver_permissions, overlaps, allowed_idps_for_approver, link_permissions,
}
use sso_requests.Policy.Values.{
  Value, Values, Fields, Lodash, Record, normalize, elements, value_of, same_value,
}
use sso_requests.Policy.Fields.{keys, environments}
use sso_requests.Policy.Authority.{permission_for, field_authority, dev_idps_authority, among}
use sso_requests.Policy.Changes.{Policy, allowed, forbidden, type_error, authorize_changes}
use sso_requests.Policy.Laws.{
  changes, IsAuthorized, authorize_changes_iff, authorize_changes_refused,
}
use sso_requests.Policy.Safety.{authorize_changes_environments, authorize_changes_resubmitted}
use sso_requests.Policy.Outsiders.{authorize_changes_outsider}

-- Structural equality of the values, with the fields in order; nothing is sorted.
mutual
  value_beq : Value → Value → Bool
  value_beq Value.null Value.null = true
  value_beq (Value.text s) (Value.text t) = s == t
  value_beq (Value.number s) (Value.number t) = s == t
  value_beq (Value.flag b) (Value.flag c) = if b then c else not c
  value_beq (Value.array xs) (Value.array ys) = values_beq xs ys
  value_beq (Value.object xs) (Value.object ys) = fields_beq xs ys
  value_beq _ _ = false

  values_beq : Values → Values → Bool
  values_beq Values.nil Values.nil = true
  values_beq (Values.cons v vs) (Values.cons w ws) = value_beq v w && values_beq vs ws
  values_beq _ _ = false

  fields_beq : Fields → Fields → Bool
  fields_beq Fields.end Fields.end = true
  fields_beq (Fields.entry k v vs) (Fields.entry l w ws) =
      k == l && (value_beq v w && fields_beq vs ws)
  fields_beq _ _ = false

mutual
  unfolding value_beq

  value_beq_refl : (v : Value) → value_beq v v ≡ true
  value_beq_refl Value.null = refl
  value_beq_refl (Value.text s) = (string_eq.beq_iff s s).1 refl
  value_beq_refl (Value.number s) = (string_eq.beq_iff s s).1 refl
  value_beq_refl (Value.flag true) = refl
  value_beq_refl (Value.flag false) = refl
  value_beq_refl (Value.array xs) = values_beq_refl xs
  value_beq_refl (Value.object xs) = fields_beq_refl xs

  values_beq_refl : (vs : Values) → values_beq vs vs ≡ true
  values_beq_refl Values.nil = refl
  values_beq_refl (Values.cons v vs) = ground (arith, value_beq_refl v, values_beq_refl vs)

  fields_beq_refl : (fs : Fields) → fields_beq fs fs ≡ true
  fields_beq_refl Fields.end = refl
  fields_beq_refl (Fields.entry k v fs) =
      ground (arith, (string_eq.beq_iff k k).1 refl, value_beq_refl v, fields_beq_refl fs)

abbrev lodash : Lodash
lodash = record { sort_by = λ vs. vs; is_equal = value_beq }

abbrev has_column : String → Bool
has_column field = true

abbrev policy : List Permission → Bool → Policy
policy permissions merged = record {
  lodash = lodash;
  has_column = has_column;
  include_azureidir = false;
  permissions = permissions;
  merged = merged;
}

abbrev row : Record
row =
    ("githubApproved", Value.flag false)
    ∷ ("projectName", Value.text "old")
    ∷ ("environments", Value.array (Values.cons (Value.text "dev") Values.nil))
    ∷ []

abbrev approval : Record
approval =
    ("githubApproved", Value.flag true)
    ∷ ("projectName", Value.text "old")
    ∷ ("status", Value.text "draft")
    ∷ []

abbrev approver : List Permission
approver = Permission.integrations_approve_github ∷ []

authorize_changes_iff_example :
    (authorize_changes (policy approver true) row approval ≡ allowed ("githubApproved" ∷ [])) ↔ (
      ("githubApproved" ∷ [] ≡ changes (policy approver true) row approval)
      × All
          (IsAuthorized (policy approver true) row approval)
          (changes (policy approver true) row approval))
authorize_changes_iff_example =
    authorize_changes_iff (policy approver true) row approval ("githubApproved" ∷ [])

approval_is_allowed :
    authorize_changes (policy approver true) row approval ≡ allowed ("githubApproved" ∷ [])
unfolding authorize_changes value_beq field_authority dev_idps_authority
approval_is_allowed = refl

abbrev renaming : Record
renaming = ("projectName", Value.text "new") ∷ []

authorize_changes_refused_example :
    ((authorize_changes (policy approver true) row renaming ≡ type_error)
      × ((f : String) × (includes (changes (policy approver true) row renaming) f ≡ true)
          × (permission_for false f row renaming ≡ none)))
    ⊎ ((denied : List String) × (authorize_changes (policy approver true) row renaming
          ≡ forbidden denied)
        × (includes denied "projectName" ≡ true))
unfolding authorize_changes value_beq field_authority dev_idps_authority
authorize_changes_refused_example =
    authorize_changes_refused (policy approver true) row renaming
      (Permission.integrations_write ∷ []) "projectName" refl refl refl

-- An applied integration gets a second environment.
abbrev extension : Record
extension =
    (
      "environments",
      Value.array (Values.cons (Value.text "dev") (Values.cons (Value.text "test") Values.nil)),
    )
    ∷ []

authorize_changes_environments_example :
    (proposed : List Value) × (current : List Value) × (elements (value_of extension "environments")
      ≡ some proposed)
    × (elements (value_of row "environments") ≡ some current)
    × (all (among environments) proposed ≡ true)
    × (all (λ env. any (λ v. same_value v env) proposed) current ≡ true)
unfolding authorize_changes value_beq field_authority dev_idps_authority
authorize_changes_environments_example =
    authorize_changes_environments (policy (Permission.integrations_write ∷ []) true) row extension
      ("environments" ∷ []) refl refl refl

-- The row as the form sends it, with blanks for what is empty.
abbrev nobody : Policy
nobody = policy [] true

abbrev resubmission : Record
resubmission = ("githubApproved", Value.text "") ∷ []

normalize-resubmission :
    (field : String)
    → includes (keys resubmission) field ≡ true
    → normalize lodash (value_of row field) ≡ normalize lodash (value_of resubmission field)
unfolding normalize
normalize-resubmission field m = elim (Bool-cases ("githubApproved" == field)) [
  | inl same ↦
      subst (λ f. normalize lodash (value_of row f) ≡ normalize lodash (value_of resubmission f))
        ((string_eq.beq_iff "githubApproved" field).0 same) refl
  | inr other ↦ absurd (ground arith)
]

authorize_changes_resubmitted_example : authorize_changes nobody row resubmission ≡ allowed []
authorize_changes_resubmitted_example =
    authorize_changes_resubmitted nobody row resubmission value_beq_refl normalize-resubmission

-- An approver of GitHub who has nothing else to do with the row.
abbrev session : Session
session = record { user_id = 5; client_roles = "github-approver" ∷ [] }

abbrev scope : AccessScope
scope = record { user_id = 5; role_by_team = []; organization_teams = [] }

abbrev github_row : AccessResolvable
github_row = record {
  id = 1;
  uses_team = true;
  team_id = some 3;
  user_id = some 9;
  status = Status.applied;
  dev_idps = "githubpublic" ∷ [];
}

authorize_changes_outsider_example :
    (p : Permission) × (field_authority "githubApproved" ≡ some p) × (is_approval p ≡ true)
unfolding authorize_changes value_beq field_authority dev_idps_authority resolve_access union
    link_permissions get_all_app_permissions add_all permissions_of_role app_role_of
    app_role_permissions app_permission_grants common_permissions_for_app_roles approver_permissions
    is_owner owning_team permissions_for_team_role organization_permissions overlaps
    allowed_idps_for_approver
authorize_changes_outsider_example =
    authorize_changes_outsider session scope github_row
      (policy (resolve_access session scope github_row).permissions true) row approval
      ("githubApproved" ∷ []) "githubApproved"
      (record { no_owner = refl; no_member = refl; no_link = refl; no_admin = refl }) refl refl refl
