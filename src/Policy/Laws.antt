-- ===== src/Policy/Laws.antt =====
-- What `authorizeChanges` of app/utils/requestPolicy.ts lets through and what it refuses.
use sso_requests.Base.{
  ◌≡◌, ◌↔◌, ◌⊎◌, inl, inr, refl, sym, ap, subst, ◌∙◌, true, false, List, [], ◌∷◌, Option, none,
  some, String, string_eq, ◌==◌, arith, Bool-cases, Option-cases, includes, any, All,
}
use sso_requests.Authz.Permissions.{Permission, permission_eq}
use sso_requests.Transitions.{Status, Intent, transition_of, has_status}
use sso_requests.Policy.Values.{Record}
use sso_requests.Policy.Fields.{changed_fields}
use sso_requests.Policy.Authority.{permission_for, constraint_of}
use sso_requests.Policy.Changes.{
  authorize_transition, transition, status_not_admitted, not_permitted, Policy, allowed, forbidden,
  type_error, lacks, denied_fields, violations_of, authorize_changes,
}

abbrev pub changes : Policy → Record → Record → List String
changes policy original submitted =
    changed_fields policy.lodash policy.has_column original submitted

-- The actor holds what a change to the field needs.
abbrev pub IsPermitted : Policy → Record → Record → String → Type 0
IsPermitted policy original submitted field =
    (needed : List Permission) × (permission_for policy.include_azureidir field original submitted
      ≡ some needed)
    × (lacks policy.permissions needed ≡ false)

abbrev pub IsRefused : Policy → Record → Record → String → Type 0
IsRefused policy original submitted field =
    (needed : List Permission) × (permission_for policy.include_azureidir field original submitted
      ≡ some needed)
    × (lacks policy.permissions needed ≡ true)

-- The row's history does not stand against a change to the field.
abbrev pub IsUnconstrained : Policy → Record → Record → String → Type 0
IsUnconstrained policy original submitted field =
    constraint_of policy.merged field original submitted ≡ some none

abbrev pub IsAuthorized : Policy → Record → Record → String → Type 0
IsAuthorized policy original submitted field =
    IsPermitted policy original submitted field × IsUnconstrained policy original submitted field

All-includes :
    (P : String → Type 0) (xs : List String)
    → ((x : String) → includes xs x ≡ true → P x)
    → All P xs
All-includes P [] h = tt
All-includes P (x ∷ xs) h = (
  h x (ground (arith, (string_eq.beq_iff x x).1 refl)),
  All-includes P xs (λ y m. h y (ground arith)),
)

pub includes-All :
    (P : String → Type 0) (xs : List String) → All P xs → (x : String) → includes xs x ≡ true → P x
includes-All P [] h x m = absurd (ground arith)
includes-All P (y ∷ ys) h x m = elim (Bool-cases (y == x)) [
  | inl same ↦ subst P ((string_eq.beq_iff y x).0 same) h.0
  | inr other ↦ includes-All P ys h.1 x (ground (arith, other))
]

module _ (policy : Policy) (original submitted : Record) where
  denied_fields-IsPermitted :
      (fields : List String)
      → denied_fields policy original submitted fields ≡ some []
      → (field : String) → includes fields field ≡ true
      → IsPermitted policy original submitted field
  unfolding denied_fields
  denied_fields-IsPermitted [] h field m = cc
  denied_fields-IsPermitted (f ∷ fields) h field m =
      elim (Option-cases (permission_for policy.include_azureidir f original submitted)) [
        | inl crash ↦ ground arith
        | inr (needed, e) ↦ elim (Option-cases (denied_fields policy original submitted fields)) [
          | inl crash ↦ ground arith
          | inr (denied, e') ↦ elim (Bool-cases (lacks policy.permissions needed)) [
            | inl lack ↦ ground arith
            | inr holds ↦ elim (Bool-cases (f == field)) [
              | inl same ↦
                  subst (IsPermitted policy original submitted) ((string_eq.beq_iff f field).0 same)
                    (needed, e, holds)
              | inr other ↦ denied_fields-IsPermitted fields (ground arith) field (ground arith)
            ]
          ]
        ]
      ]

  IsPermitted-denied_fields :
      (fields : List String)
      → ((field : String)
          → includes fields field ≡ true
          → IsPermitted policy original submitted field)
      → denied_fields policy original submitted fields ≡ some []
  unfolding denied_fields
  IsPermitted-denied_fields [] h = refl
  IsPermitted-denied_fields (f ∷ fields) h =
      let (needed, e, holds) = h f (ground (arith, (string_eq.beq_iff f f).1 refl)) in
      ground (arith, IsPermitted-denied_fields fields (λ field m. h field (ground arith)))

  violations_of-IsUnconstrained :
      (fields : List String)
      → violations_of policy original submitted fields ≡ some []
      → (field : String) → includes fields field ≡ true
      → IsUnconstrained policy original submitted field
  unfolding violations_of
  violations_of-IsUnconstrained [] h field m = cc
  violations_of-IsUnconstrained (f ∷ fields) h field m =
      elim (Option-cases (constraint_of policy.merged f original submitted)) [
        | inl crash ↦ ground arith
        | inr (message, e) ↦ elim (Option-cases (violations_of policy original submitted fields)) [
          | inl crash ↦ ground arith
          | inr (violations, e') ↦ elim (Option-cases message) [
            | inr (v, said) ↦ ground arith
            | inl silent ↦ elim (Bool-cases (f == field)) [
              | inl same ↦
                  subst (IsUnconstrained policy original submitted)
                    ((string_eq.beq_iff f field).0 same) (ground arith)
              | inr other ↦ violations_of-IsUnconstrained fields (ground arith) field (ground arith)
            ]
          ]
        ]
      ]

  IsUnconstrained-violations_of :
      (fields : List String)
      → ((field : String)
          → includes fields field ≡ true
          → IsUnconstrained policy original submitted field)
      → violations_of policy original submitted fields ≡ some []
  unfolding violations_of
  IsUnconstrained-violations_of [] h = refl
  IsUnconstrained-violations_of (f ∷ fields) h = ground (
    arith,
    h f (ground (arith, (string_eq.beq_iff f f).1 refl)),
    IsUnconstrained-violations_of fields (λ field m. h field (ground arith)),
  )

  -- The two stages, over the changed fields.
  allowed-cases :
      (fields : List String)
      → authorize_changes policy original submitted ≡ allowed fields
      → (fields ≡ changes policy original submitted)
        × (denied_fields policy original submitted (changes policy original submitted) ≡ some [])
        × (violations_of policy original submitted (changes policy original submitted) ≡ some [])
  unfolding authorize_changes
  allowed-cases fields h =
      let changed = changes policy original submitted in
      elim (Option-cases (denied_fields policy original submitted changed)) [
        | inl crash ↦ absurd (ground arith)
        | inr (d ∷ denied, e) ↦ absurd (ground arith)
        | inr ([], e) ↦ elim (Option-cases (violations_of policy original submitted changed)) [
          | inl crash ↦ absurd (ground arith)
          | inr (v ∷ violations, e') ↦ absurd (ground arith)
          | inr ([], e') ↦ (ground arith, e, e')
        ]
      ]

  cases-allowed :
      denied_fields policy original submitted (changes policy original submitted) ≡ some []
      → violations_of policy original submitted (changes policy original submitted) ≡ some []
      → authorize_changes policy original submitted ≡ allowed (changes policy original submitted)
  unfolding authorize_changes
  cases-allowed e e' = ground arith

  -- A payload is authorized exactly when the actor holds what every changed field needs and the row's
  -- history stands against none of them; the result is then the changed fields.
  pub authorize_changes_iff :
      (fields : List String)
      → (authorize_changes policy original submitted ≡ allowed fields) ↔ (
          (fields ≡ changes policy original submitted)
          × All (IsAuthorized policy original submitted) (changes policy original submitted))
  authorize_changes_iff fields =
      let changed = changes policy original submitted in
      (
        λ h.
            let (same, d, v) = allowed-cases fields h in
            (
              same,
              All-includes (IsAuthorized policy original submitted) changed (λ field m. (
                denied_fields-IsPermitted changed d field m,
                violations_of-IsUnconstrained changed v field m,
              )),
            ),
        λ (same, h).
            let each = includes-All (IsAuthorized policy original submitted) changed h in
            cases-allowed (IsPermitted-denied_fields changed (λ field m. (each field m).0))
              (IsUnconstrained-violations_of changed (λ field m. (each field m).1))
            ∙ ap allowed (sym same),
      )

  -- The refusals are exactly the changed fields that lack a permission.
  denied_fields-IsRefused :
      (fields : List String) (needed : List Permission) (field : String)
      → includes fields field ≡ true
      → permission_for policy.include_azureidir field original submitted ≡ some needed
      → lacks policy.permissions needed ≡ true
      → (denied : List String) → denied_fields policy original submitted fields ≡ some denied
      → includes denied field ≡ true
  unfolding denied_fields
  denied_fields-IsRefused [] needed field m e l denied h = cc
  denied_fields-IsRefused (f ∷ fields) needed field m e l denied h =
      elim (Option-cases (permission_for policy.include_azureidir f original submitted)) [
        | inl crash ↦ absurd (ground arith)
        | inr (needed', e') ↦ elim (Option-cases (denied_fields policy original submitted fields)) [
          | inl crash ↦ absurd (ground arith)
          | inr (denied', k) ↦ elim (Bool-cases (f == field)) [
            | inl same ↦
                let s : f ≡ field = (string_eq.beq_iff f field).0 same in
                let n : some needed' ≡ some needed =
                  sym e'
                  ∙ ap (λ x. permission_for policy.include_azureidir x original submitted) s
                  ∙ e in
                ground (arith, n)
            | inr other ↦
                ground
                  (arith, denied_fields-IsRefused fields needed field (ground arith) e l denied' k)
          ]
        ]
      ]

  -- Where no answer is found, the permission of a changed field cannot be read.
  denied_fields-unreadable :
      (fields : List String)
      → denied_fields policy original submitted fields ≡ none
      → (f : String) × (includes fields f ≡ true)
        × (permission_for policy.include_azureidir f original submitted ≡ none)
  unfolding denied_fields
  denied_fields-unreadable [] h = absurd (ground (arith, h))
  denied_fields-unreadable (g ∷ fields) h =
      elim (Option-cases (permission_for policy.include_azureidir g original submitted)) [
        | inl unreadable ↦ (g, ground (arith, (string_eq.beq_iff g g).1 refl), unreadable)
        | inr (needed, e) ↦
            let rest : denied_fields policy original submitted fields ≡ none =
              elim (Option-cases (denied_fields policy original submitted fields)) [
                | inl crash ↦ crash
                | inr (denied, k) ↦ absurd (ground (arith, h, e, k))
              ] in
            let (f, m, k) = denied_fields-unreadable fields rest in (f, ground (arith, m), k)
      ]

  -- A changed field that needs a permission which the actor lacks refuses the payload with a 403 that
  -- names the field, whatever the row's history says. Only where the permission of a changed field cannot be
  -- read from the payload (`devIdps` is no list that the code can iterate) is the refusal a TypeError.
  pub authorize_changes_refused :
      (needed : List Permission) (field : String)
      → includes (changes policy original submitted) field ≡ true
      → permission_for policy.include_azureidir field original submitted ≡ some needed
      → lacks policy.permissions needed ≡ true
      → ((authorize_changes policy original submitted ≡ type_error)
          × ((f : String) × (includes (changes policy original submitted) f ≡ true)
              × (permission_for policy.include_azureidir f original submitted ≡ none)))
        ⊎ ((denied : List String) × (authorize_changes policy original submitted ≡ forbidden denied)
            × (includes denied field ≡ true))
  unfolding authorize_changes
  authorize_changes_refused needed field m e l =
      let changed = changes policy original submitted in
      elim (Option-cases (denied_fields policy original submitted changed)) [
        | inl crash ↦ inl (ground arith, denied_fields-unreadable changed crash)
        | inr ([], k) ↦
            absurd (ground (arith, denied_fields-IsRefused changed needed field m e l [] k))
        | inr (d ∷ denied, k) ↦ inr (
          d ∷ denied,
          ground arith,
          denied_fields-IsRefused changed needed field m e l (d ∷ denied) k,
        )
      ]

-- A transition is answered with the transition exactly from an admitted status with one of the
-- permissions, with a 400 exactly from a status that is not admitted, and with a 403 otherwise.
pub authorize_transition_iff :
    (s : Option Status) (intent : Intent) (permissions : List Permission)
    → let t = transition_of intent in
      ((authorize_transition s intent permissions ≡ transition t)
        ↔ ((has_status t.from s ≡ true) × (any (λ p. includes permissions p) t.any_of ≡ true)))
      × ((authorize_transition s intent permissions ≡ status_not_admitted s)
          ↔ (has_status t.from s ≡ false))
      × ((authorize_transition s intent permissions ≡ not_permitted)
          ↔ ((has_status t.from s ≡ true) × (any (λ p. includes permissions p) t.any_of ≡ false)))
unfolding authorize_transition
authorize_transition_iff s intent permissions = ground arith
