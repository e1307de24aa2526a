-- ===== src/Policy/Changes.antt =====
-- app/utils/requestPolicy.ts: `authorizeChanges` and `authorizeTransition`.
use sso_requests.Base.{
  Bool, not, List, [], ◌∷◌, Option, none, some, String, if◌then◌else◌, includes, any,
}
use sso_requests.Authz.Permissions.{Permission, permission_eq}
use sso_requests.Transitions.{
  Status, Intent, Transition, transition_of, status_refusal, permission_refusal, transition_refusal,
}
use sso_requests.Policy.Values.{Lodash, Record}
use sso_requests.Policy.Fields.{changed_fields}
use sso_requests.Policy.Authority.{permission_for, Violation, constraint_of, is_empty}

-- What the authorization reads besides the row and the payload: lodash, the columns, the setting of
-- azureidir, the actor's permissions and whether the row has been applied.
pub record Policy : Type 0 where
  pub lodash : Lodash
  pub has_column : String → Bool
  pub include_azureidir : Bool
  pub permissions : List Permission
  pub merged : Bool

-- The result, or the error that is thrown.
pub data Authorized {ℓ} (A : Type ℓ) : Type ℓ where
  allowed : A → Authorized A
  forbidden : List String → Authorized A
  bad_request : List Violation → Authorized A
  type_error : Authorized A

abbrev pub lacks : List Permission → List Permission → Bool
lacks held needed = any (λ permission. not (includes held permission)) needed

-- The changed fields that need a permission which is not held.
unfoldable pub denied_fields : Policy → Record → Record → List String → Option (List String)
unfolding permission_for
denied_fields policy original submitted [] = some []
denied_fields policy original submitted (field ∷ fields) =
    let rest = denied_fields policy original submitted fields in
    elim (permission_for policy.include_azureidir field original submitted) [
      | none ↦ none
      | some needed ↦ elim rest [
        | none ↦ none
        | some denied ↦ some (if lacks policy.permissions needed then field ∷ denied else denied)
      ]
    ]

-- The violations of the changed fields.
unfoldable pub violations_of : Policy → Record → Record → List String → Option (List Violation)
unfolding constraint_of
violations_of policy original submitted [] = some []
violations_of policy original submitted (field ∷ fields) =
    let rest = violations_of policy original submitted fields in
    elim (constraint_of policy.merged field original submitted) [
      | none ↦ none
      | some message ↦ elim rest [
        | none ↦ none
        | some violations ↦ some (elim message [ none ↦ violations | some v ↦ v ∷ violations ])
      ]
    ]

-- `authorizeChanges`.
unfoldable pub authorize_changes : Policy → Record → Record → Authorized (List String)
unfolding changed_fields denied_fields violations_of
authorize_changes policy original submitted =
    let changed = changed_fields policy.lodash policy.has_column original submitted in
    elim (denied_fields policy original submitted changed) [
      | none ↦ type_error
      | some denied ↦
          if not (is_empty denied)
          then forbidden denied
          else elim (violations_of policy original submitted changed) [
            | none ↦ type_error
            | some violations ↦
                if not (is_empty violations) then bad_request violations else allowed changed
          ]
    ]

-- `authorizeTransition`: the transition, or the 400 of the status, or the 403.
pub data TransitionAnswer : Type 0 where
  transition : Transition → TransitionAnswer
  status_not_admitted : Option Status → TransitionAnswer
  not_permitted : TransitionAnswer

unfoldable pub authorize_transition : Option Status → Intent → List Permission → TransitionAnswer
unfolding transition_refusal
authorize_transition s intent permissions = elim (transition_refusal s intent permissions) [
  | none ↦ transition (transition_of intent)
  | some refusal ↦ elim refusal [
    | status_refusal from ↦ status_not_admitted from
    | permission_refusal needed ↦ not_permitted
  ]
]
