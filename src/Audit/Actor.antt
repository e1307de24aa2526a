-- ===== src/Audit/Actor.antt =====
-- packages/audit/src/actor.ts and context.ts: who an event is attributed to, and the context that
-- carries it. `none` is an error that is thrown.
use sso_requests.Base.{
  ℕ, Bool, true, false, List, [], ◌∷◌, Option, none, some, String, string_eq, ◌==◌, if◌then◌else◌,
  includes,
}

abbrev pub system_actor_ids : List String
system_actor_ids =
    "stale-user-cleanup" ∷ "user-record-deduplication" ∷ "sdx-callback" ∷ "workflow-engine" ∷ []

pub data Actor : Type 0 where
  user : String → String → Actor
  service_account : String → Option ℕ → Actor
  system : String → Actor

unfoldable pub user_actor : String → String → Option Actor
user_actor id display_name = if id == "" then none else some (Actor.user id display_name)

unfoldable pub service_account_actor : String → Option ℕ → Option Actor
service_account_actor client_id team_id =
    if client_id == "" then none else some (Actor.service_account client_id team_id)

unfoldable pub system_actor : String → Option Actor
system_actor id = if includes system_actor_ids id then some (Actor.system id) else none

-- `AuditContext`.
pub record AuditContext : Type 0 where
  pub actor : Option Actor
  pub req_id : Option String

-- A field that is present wins over the older one.
abbrev pub spread {ℓ} : {A : Type ℓ} → Option A → Option A → Option A
spread old none = old
spread old (some a) = some a

abbrev no_context : AuditContext
no_context = record { actor = none; req_id = none }

abbrev context_or_empty : Option AuditContext → AuditContext
context_or_empty none = no_context
context_or_empty (some c) = c

-- The store of `withAuditContext` while its function runs.
unfoldable pub with_audit_context : AuditContext → Option AuditContext → Option AuditContext
with_audit_context context outer =
    let old = context_or_empty outer in
    some
      (record { actor = spread old.actor context.actor; req_id = spread old.req_id context.req_id })

-- `withActor`.
unfoldable pub with_actor : Actor → Option AuditContext → Option AuditContext
unfolding with_audit_context
with_actor actor = with_audit_context (record { actor = some actor; req_id = none })

-- `setCurrentActor`: whether a context is in scope, and the context.
unfoldable pub set_current_actor : Actor → Option AuditContext → Bool × Option AuditContext
set_current_actor actor none = (false, none)
set_current_actor actor (some c) = (true, some (record c { actor = some actor }))

-- `currentActor`; `none` is the `MissingAuditActorError`.
unfoldable pub current_actor : Option AuditContext → Option Actor
current_actor none = none
current_actor (some c) = c.actor

unfoldable pub current_req_id : Option AuditContext → Option String
current_req_id none = none
current_req_id (some c) = c.req_id
