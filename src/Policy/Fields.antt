-- ===== src/Policy/Fields.antt =====
-- app/utils/requestPolicy.ts: the fields that an actor may set, and those that a payload changes. The
-- columns of the request model are an argument.
use sso_requests.Base.{
  Bool, ◌&&◌, ◌||◌, not, List, [], ◌∷◌, ◌++◌, map, String, string_eq, includes, filter, text_append,
}
use sso_requests.Policy.Values.{Lodash, normalize, Record, value_of}

abbrev pub system_fields : List String
system_fields =
    "id" ∷ "userId" ∷ "idirUserid" ∷ "idirUserDisplayName" ∷ "status" ∷ "archived" ∷ "serviceType"
    ∷ "requester" ∷ "lastChanges" ∷ "createdAt" ∷ "updatedAt" ∷ "actionNumber" ∷ "prNumber"
    ∷ "apiServiceAccount" ∷ "provisioned" ∷ "provisionedAt" ∷ "hasUnreadNotifications"
    ∷ "browserFlowOverride" ∷ "userTeamRole" ∷ "permissions" ∷ []

abbrev pub actor_extras : List String
actor_extras = "sdxServices" ∷ []

-- `environments` of app/utils/constants.ts.
abbrev pub environments : List String
environments = "dev" ∷ "test" ∷ "prod" ∷ []

-- The additional fields of app/schemas/index.ts.
abbrev pub oidc_duration_additional_fields : List String
oidc_duration_additional_fields =
    "AccessTokenLifespan" ∷ "OfflineSessionIdleTimeout" ∷ "OfflineSessionMaxLifespan"
    ∷ "SessionIdleTimeout" ∷ "SessionMaxLifespan" ∷ []

abbrev pub saml_duration_additional_fields : List String
saml_duration_additional_fields = "AssertionLifespan" ∷ []

abbrev pub lifespan_fields : List String
lifespan_fields =
    oidc_duration_additional_fields
    ++ saml_duration_additional_fields
    ++ "OfflineAccessEnabled" ∷ []

abbrev prefixed : List String → List String → List String
prefixed [] fields = []
prefixed (env ∷ envs) fields = map (text_append env) fields ++ prefixed envs fields

-- `envFields`.
abbrev pub env_fields : List String → List String
env_fields fields = prefixed environments fields

-- `isActorField`; `has_column` stands for `field in models.request.rawAttributes`.
unfoldable pub is_actor_field : (String → Bool) → String → Bool
is_actor_field has_column field =
    not (includes system_fields field) && (has_column field || includes actor_extras field)

abbrev pub keys : Record → List String
keys [] = []
keys ((k, v) ∷ fields) = k ∷ keys fields

abbrev pub differs : Lodash → Record → Record → String → Bool
differs l original submitted field =
    not
      (l.is_equal (normalize l (value_of original field)) (normalize l (value_of submitted field)))

-- `changedFields`.
unfoldable pub changed_fields : Lodash → (String → Bool) → Record → Record → List String
unfolding is_actor_field normalize
changed_fields l has_column original submitted =
    filter (λ field. is_actor_field has_column field && differs l original submitted field)
      (keys submitted)

-- `actorPayload`.
unfoldable pub actor_payload : (String → Bool) → Record → Record
unfolding is_actor_field
actor_payload has_column submitted = filter (λ e. is_actor_field has_column e.0) submitted
