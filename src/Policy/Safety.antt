-- ===== src/Policy/Safety.antt =====
-- What no payload can do under `authorizeChanges` of app/utils/requestPolicy.ts, and what every actor
-- can send.
use sso_requests.Base.{
  ◌≡◌, inl, inr, refl, sym, ap, subst, ◌∙◌, Bool, true, false, ◌&&◌, not, List, [], ◌∷◌, Option,
  none, some, String, string_eq, ◌==◌, arith, Bool-cases, Option-cases, includes, any, filter, all,
  All, includes-filter,
}
use sso_requests.Authz.Permissions
use sso_requests.Authz.Permissions.{Permission, permission_eq}
use sso_requests.Policy.Values.{Record, value_of, normalize, same_value, elements, Value}
use sso_requests.Policy.Fields.{
  system_fields, is_actor_field, changed_fields, keys, differs, actor_payload, environments,
}
use sso_requests.Policy.Authority.{
  permission_for, or_write, dev_idps_authority, environments_constraint, field_authority,
  constraint_of, is_empty, among,
}
use sso_requests.Policy.Changes.{Policy, allowed, lacks, authorize_changes}
use sso_requests.Policy.Laws.{changes, IsAuthorized, includes-All, authorize_changes_iff}

keys-filter :
    (p : String → Bool) (fields : Record)
    → keys (filter (λ e. p e.0) fields) ≡ filter p (keys fields)
keys-filter p [] = refl
keys-filter p ((k, v) ∷ fields) = ground (arith, keys-filter p fields)

is_actor_field-system_fields :
    (has_column : String → Bool) (field : String)
    → includes system_fields field ≡ true
    → is_actor_field has_column field ≡ false
unfolding is_actor_field
is_actor_field-system_fields has_column field h = rw h refl

-- Whoever may change a field holds the permission of the field.
permission_for-lacks :
    (azure : Bool) (field : String) (original submitted : Record) (held needed : List Permission)
    → permission_for azure field original submitted ≡ some needed
    → lacks held needed ≡ false
    → includes held (or_write (field_authority field)) ≡ true
unfolding permission_for
permission_for-lacks azure field original submitted held needed e l =
    elim (Bool-cases (field == "devIdps")) [
      | inr other ↦ ground arith
      | inl idps ↦
          elim (Option-cases
            (dev_idps_authority azure (value_of original field) (value_of submitted field))) [
              | inl crash ↦ absurd (ground arith)
              | inr (none, k) ↦ ground arith
              | inr (some extra, k) ↦ ground arith
            ]
    ]

is_empty-filter :
    {A : Type 0} (p : A → Bool) (xs : List A)
    → is_empty (filter (λ x. not (p x)) xs) ≡ true
    → all p xs ≡ true
is_empty-filter p [] h = refl
is_empty-filter p (x ∷ xs) h = elim (Bool-cases (p x)) [
  | inl good ↦ ground (arith, is_empty-filter p xs (ground arith))
  | inr bad ↦ absurd (ground arith)
]

-- What the constraint lets through.
environments_constraint-eq_none :
    (merged : Bool) (original submitted : Record)
    → environments_constraint merged original submitted ≡ some none
    → (proposed : List Value) × (elements (value_of submitted "environments") ≡ some proposed)
      × (all (among environments) proposed ≡ true)
      × (merged ≡ true
          → (current : List Value) × (elements (value_of original "environments") ≡ some current)
            × (all (λ env. any (λ v. same_value v env) proposed) current ≡ true))
unfolding environments_constraint
environments_constraint-eq_none merged original submitted h =
    elim (Option-cases (elements (value_of submitted "environments"))) [
      | inl crash ↦ absurd (ground arith)
      | inr (proposed, e) ↦
          elim (Bool-cases (is_empty (filter (λ env. not (among environments env)) proposed))) [
            | inr invalid ↦ absurd (ground arith)
            | inl valid ↦ (
              proposed,
              e,
              is_empty-filter (among environments) proposed valid,
              λ applied. elim (Option-cases (elements (value_of original "environments"))) [
                | inl crash ↦ absurd (ground arith)
                | inr (current, e') ↦ (
                  current,
                  e',
                  is_empty-filter (λ env. any (λ v. same_value v env) proposed) current
                      (ground arith),
                )
              ],
            )
          ]
    ]

filter_none :
    (p : String → Bool) (xs : List String)
    → ((x : String) → includes xs x ≡ true → p x ≡ false)
    → filter p xs ≡ []
filter_none p [] h = refl
filter_none p (x ∷ xs) h = ground (
  arith,
  h x (ground (arith, (string_eq.beq_iff x x).1 refl)),
  filter_none p xs (λ y m. h y (ground arith)),
)

and_not-eq_false : (a b : Bool) → b ≡ true → a && not b ≡ false
and_not-eq_false a b h = ground arith

module _ (policy : Policy) (original submitted : Record) where
  -- A system field is never changed by a payload, nor part of what is applied of it.
  pub changed_fields-system_fields :
      (field : String)
      → includes system_fields field ≡ true
      → (includes (changes policy original submitted) field ≡ false)
        × (includes (keys (actor_payload policy.has_column submitted)) field ≡ false)
  unfolding changed_fields actor_payload
  changed_fields-system_fields field h =
      let p = is_actor_field policy.has_column in
      let e = is_actor_field-system_fields policy.has_column field h in
      (
        includes-filter (λ f. p f && differs policy.lodash original submitted f) (keys submitted)
              field
            ∙ ground (arith, e),
        ap (λ ks. includes ks field) (keys-filter p submitted)
            ∙ (includes-filter p (keys submitted) field ∙ ground (arith, e)),
      )

  held_or_write :
      (authority : Option Permission)
      → includes policy.permissions Permissions.integrations_write ≡ false
      → includes policy.permissions (or_write authority) ≡ true
      → (permission : Permission) × (authority ≡ some permission)
        × (includes policy.permissions permission ≡ true)
  held_or_write none w h = absurd (ground arith)
  held_or_write (some permission) w h = (permission, refl, h)

  -- An actor without the permission to write changes only fields that another permission grants, and
  -- holds that one.
  pub authorize_changes_without_write :
      (fields : List String) (field : String)
      → authorize_changes policy original submitted ≡ allowed fields
      → includes policy.permissions Permissions.integrations_write ≡ false
      → includes fields field ≡ true
      → (permission : Permission) × (field_authority field ≡ some permission)
        × (includes policy.permissions permission ≡ true)
  authorize_changes_without_write fields field h w m =
      let (same, each) = (authorize_changes_iff policy original submitted fields).0 h in
      let ((needed, e, l), c) =
        includes-All (IsAuthorized policy original submitted) (changes policy original submitted)
          each field (subst (λ fs. includes fs field ≡ true) same m) in
      held_or_write (field_authority field) w (
        permission_for-lacks policy.include_azureidir field original submitted policy.permissions
          needed e l)

  -- Where a change of the environments of an applied integration is authorized, the environments are
  -- valid ones, and no environment of the row is missing among them.
  pub authorize_changes_environments :
      (fields : List String)
      → authorize_changes policy original submitted ≡ allowed fields
      → includes fields "environments" ≡ true
      → policy.merged ≡ true
      → (proposed : List Value) × (current : List Value) × (elements
            (value_of submitted "environments")
          ≡ some proposed)
        × (elements (value_of original "environments") ≡ some current)
        × (all (among environments) proposed ≡ true)
        × (all (λ env. any (λ v. same_value v env) proposed) current ≡ true)
  unfolding constraint_of
  authorize_changes_environments fields h m applied =
      let (same, each) = (authorize_changes_iff policy original submitted fields).0 h in
      let (permitted, c) =
        includes-All (IsAuthorized policy original submitted) (changes policy original submitted)
          each "environments" (subst (λ fs. includes fs "environments" ≡ true) same m) in
      let (proposed, e, valid, kept) =
        environments_constraint-eq_none policy.merged original submitted c in
      let (current, e', none_removed) = kept applied in
      (proposed, current, e, e', valid, none_removed)

  -- A payload whose fields all normalize to what the row holds is authorized for every actor, and changes
  -- nothing, where lodash finds every value equal to itself.
  pub authorize_changes_resubmitted :
      ((v : Value) → policy.lodash.is_equal v v ≡ true)
      → ((field : String)
          → includes (keys submitted) field ≡ true
          → normalize policy.lodash (value_of original field)
            ≡ normalize policy.lodash (value_of submitted field))
      → authorize_changes policy original submitted ≡ allowed []
  unfolding changed_fields
  authorize_changes_resubmitted refl_equal same =
      let nothing : changes policy original submitted ≡ [] =
        filter_none
          (λ f. is_actor_field policy.has_column f && differs policy.lodash original submitted f)
          (keys submitted)
          (λ f m. and_not-eq_false (is_actor_field policy.has_column f) _ (
            ap (λ v. policy.lodash.is_equal v (normalize policy.lodash (value_of submitted f)))
              (same f m)
            ∙ refl_equal (normalize policy.lodash (value_of submitted f)))) in
      (authorize_changes_iff policy original submitted []).1
        (sym nothing, subst (All (IsAuthorized policy original submitted)) (sym nothing) tt)
