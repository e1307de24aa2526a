-- ===== src/Policy/Authority.antt =====
-- app/utils/requestPolicy.ts: the permissions that a change needs, and what may not happen to a field
-- once the row has a history. `none` on the outside is a TypeError: the columns that hold lists are
-- arrays or null, and a payload may be anything.
use sso_requests.Base.{
  Bool, true, false, ◌&&◌, ◌||◌, not, List, [], ◌∷◌, Option, none, some, String, string_eq, ◌==◌,
  if◌then◌else◌, includes, filter, any,
}
use sso_requests.Authz.Permissions
use sso_requests.Authz.Permissions.{Permission}
use sso_requests.Policy.Values.{Value, text, Record, value_of, is_falsy, same_value, elements}
use sso_requests.Policy.Fields.{env_fields, lifespan_fields, environments}

abbrev bceid_fields : List String
bceid_fields = "bceidApproved" ∷ "devBceidApproved" ∷ "testBceidApproved" ∷ []

abbrev team_fields : List String
team_fields = "usesTeam" ∷ "teamId" ∷ []

-- `FIELD_AUTHORITY`.
unfoldable pub field_authority : String → Option Permission
field_authority field =
    if includes bceid_fields field
    then some Permissions.integrations_approve_bceid
    else if field == "githubApproved"
    then some Permissions.integrations_approve_github
    else if field == "bcServicesCardApproved"
    then some Permissions.integrations_approve_bcsc
    else if field == "socialApproved"
    then some Permissions.integrations_approve_social
    else if field == "otpApproved"
    then some Permissions.integrations_approve_otp
    else if includes (env_fields lifespan_fields) field
    then some Permissions.integrations_write_lifespans
    else if field == "clientId"
    then some Permissions.integrations_write_client_id
    else if includes team_fields field
    then some Permissions.integrations_reassign_team
    else none

abbrev pub restricted_idps : List String
restricted_idps = "githubpublic" ∷ "otp" ∷ []

abbrev pub discontinued_idps : List String
discontinued_idps = "idir" ∷ "azureidir" ∷ []

abbrev pub among : List String → Value → Bool
among names (text s) = includes names s
among names _ = false

-- `restrictedIdpsAdded` (app/utils/helpers.ts); whether azureidir is included is a setting.
unfoldable pub restricted_idps_added : Bool → List Value → List Value → List Value
restricted_idps_added include_azureidir current updated =
    filter
      (λ idp.
        not (any (λ v. same_value v idp) current)
        && (not (include_azureidir && same_value idp (text "azureidir"))
            && (among restricted_idps idp || among discontinued_idps idp)))
      updated

abbrev pub is_empty {ℓ} : {A : Type ℓ} → List A → Bool
is_empty [] = true
is_empty (x ∷ xs) = false

-- `VALUE_AUTHORITY.devIdps`.
unfoldable pub dev_idps_authority : Bool → Value → Value → Option (Option Permission)
unfolding restricted_idps_added
dev_idps_authority azure original submitted = elim (elements original) [
  | none ↦ none
  | some current ↦ elim (elements submitted) [
    | none ↦ none
    | some updated ↦ some (
        if is_empty (restricted_idps_added azure current updated)
        then none
        else some Permissions.integrations_add_restricted_idps)
  ]
]

abbrev with_value_authority : Permission → Option Permission → List Permission
with_value_authority p none = p ∷ []
with_value_authority p (some q) = p ∷ q ∷ []

abbrev pub or_write : Option Permission → Permission
or_write none = Permissions.integrations_write
or_write (some p) = p

-- `permissionFor`.
unfoldable pub permission_for : Bool → String → Record → Record → Option (List Permission)
permission_for azure field original submitted =
    let needed = or_write (field_authority field) in
    if field == "devIdps"
    then (elim (dev_idps_authority azure (value_of original field) (value_of submitted field)) [
      | none ↦ none
      | some by_value ↦ some (with_value_authority needed by_value)
    ])
    else some (needed ∷ [])

-- The messages, as data.
pub data Violation : Type 0 where
  invalid_environments : List Value → Violation
  removed_environments : List Value → Violation
  single_person : Violation
  approved_bcsc : String → Violation

-- `FIELD_CONSTRAINTS.environments`.
unfoldable pub environments_constraint : Bool → Record → Record → Option (Option Violation)
environments_constraint merged original submitted =
    elim (elements (value_of submitted "environments")) [
      | none ↦ none
      | some proposed ↦
          let invalid = filter (λ env. not (among environments env)) proposed in
          if not (is_empty invalid)
          then some (some (invalid_environments invalid))
          else if not merged
          then some none
          else elim (elements (value_of original "environments")) [
            | none ↦ none
            | some current ↦
                let removed = filter (λ env. not (any (λ v. same_value v env) proposed)) current in
                some (if is_empty removed then none else some (removed_environments removed))
          ]
    ]

-- `FIELD_CONSTRAINTS`, but for its environments.
unfoldable pub other_constraint : Bool → String → Record → Record → Option Violation
other_constraint merged field original submitted =
    if field == "usesTeam"
    then (if merged
          && (not (is_falsy (value_of original field)) && is_falsy (value_of submitted field))
        then some single_person
        else none)
    else if field == "bcscAttributes" || field == "bcscPrivacyZone"
    then (if not (is_falsy (value_of original "bcServicesCardApproved"))
        then some (approved_bcsc field)
        else none)
    else none

-- `FIELD_CONSTRAINTS[field]?.(…)`.
unfoldable pub constraint_of : Bool → String → Record → Record → Option (Option Violation)
unfolding environments_constraint other_constraint
constraint_of merged field original submitted =
    if field == "environments"
    then environments_constraint merged original submitted
    else some (other_constraint merged field original submitted)
