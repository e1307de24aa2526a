-- ===== src/Chat/Token.antt =====
-- app/utils/rag-token.ts: the service account's token, its cache and the one fetch that is in flight.
-- Times are milliseconds. What Keycloak answers, and when, are events.
pub mod Laws
use sso_requests.Base.{
  ℕ, suc, ◌+◌, ◌-◌, ◌*◌, ◌/◌, max, Bool, true, false, ◌&&◌, List, [], ◌∷◌, ◌++◌, map, Option, none,
  some, String, string_eq, ◌==◌, if◌then◌else◌, ltb,
}

abbrev pub expiry_margin_ms : ℕ
expiry_margin_ms = 30000

abbrev pub default_lifetime_seconds : ℕ
default_lifetime_seconds = 60

pub record CachedToken : Type 0 where
  pub token : String
  pub expires_at : ℕ

-- The answer of the token endpoint: refused (or not reached), or a body with its `access_token`, if
-- that is a text, and its `expires_in`, if that is a number.
pub data TokenResponse : Type 0 where
  refused : TokenResponse
  body : Option String → Option ℕ → TokenResponse

-- `cached`, and `inFlight` with the calls that wait for it; `fetches` counts the requests and `answers`
-- holds what each call got, where `none` is an error.
pub record TokenState : Type 0 where
  pub cached : Option CachedToken
  pub in_flight : Option (List ℕ)
  pub fetches : ℕ
  pub answers : List (ℕ × Option String)

abbrev pub initial : TokenState
initial = record { cached = none; in_flight = none; fetches = 0; answers = [] }

-- The lifetime in milliseconds.
unfoldable pub lifetime_ms : Option ℕ → ℕ
lifetime_ms none = default_lifetime_seconds * 1000
lifetime_ms (some seconds) = (if ltb 0 seconds then seconds else default_lifetime_seconds) * 1000

unfoldable pub reuse_ms : Option ℕ → ℕ
unfolding lifetime_ms
reuse_ms expires_in =
    let lifetime = lifetime_ms expires_in in max (lifetime - expiry_margin_ms) (lifetime / 2)

-- `requestToken`, once the response is there: the token, if there is one, and the cache.
unfoldable pub request_token :
    TokenResponse → ℕ → Option CachedToken → Option String × Option CachedToken
unfolding reuse_ms
request_token refused now cached = (none, cached)
request_token (body none expires_in) now cached = (none, cached)
request_token (body (some token) expires_in) now cached =
    if token == ""
    then (none, cached)
    else (some token, some (record { token = token; expires_at = now + reuse_ms expires_in }))

abbrev pub valid_token : Option CachedToken → ℕ → Option String
valid_token none now = none
valid_token (some c) now = if ltb now c.expires_at then some c.token else none

-- `getRagAccessToken`, up to the point where it waits.
unfoldable pub get_rag_access_token : ℕ → ℕ → TokenState → TokenState
get_rag_access_token caller now s = elim (valid_token s.cached now) [
  | some token ↦ record s { answers = (caller, some token) ∷ s.answers }
  | none ↦ elim s.in_flight [
    | none ↦ record s { in_flight = some (caller ∷ []); fetches = suc s.fetches }
    | some waiting ↦ record s { in_flight = some (caller ∷ waiting) }
  ]
]

abbrev pub answer_all : Option String → List ℕ → List (ℕ × Option String) → List (ℕ × Option String)
answer_all token [] answers = answers
answer_all token (caller ∷ waiting) answers = (caller, token) ∷ answer_all token waiting answers

-- The response of the fetch in flight: every call that waits gets the token or the error.
unfoldable pub finish_request : TokenResponse → ℕ → TokenState → TokenState
unfolding request_token
finish_request response now s = elim s.in_flight [
  | none ↦ s
  | some waiting ↦
      let (token, cached) = request_token response now s.cached in
      record s { cached = cached; in_flight = none; answers = answer_all token waiting s.answers }
]

-- `invalidateRagAccessToken`; an empty token is none.
unfoldable pub invalidate_rag_access_token : Option String → TokenState → TokenState
invalidate_rag_access_token none s = record s { cached = none }
invalidate_rag_access_token (some token) s =
    if token == "" then record s { cached = none } else record s {
      cached = elim s.cached [ none ↦ none | some c ↦ if c.token == token then none else some c ];
    }

-- What happens, in the order of the event loop.
pub data TokenEvent : Type 0 where
  call : ℕ → ℕ → TokenEvent
  respond : TokenResponse → ℕ → TokenEvent
  invalidate : Option String → TokenEvent

unfoldable pub token_step : TokenEvent → TokenState → TokenState
unfolding get_rag_access_token finish_request invalidate_rag_access_token
token_step (call caller now) s = get_rag_access_token caller now s
token_step (respond response now) s = finish_request response now s
token_step (invalidate token) s = invalidate_rag_access_token token s

-- A history, the latest event first.
pub data Run : List TokenEvent → TokenState → Type 0 where
  start : Run [] initial
  next :
      {events : List TokenEvent} {s : TokenState} (e : TokenEvent)
      → Run events s
      → Run (e ∷ events) (token_step e s)
