-- ===== src/Chat/Token/Laws.antt =====
-- Histories of the token cache of app/utils/rag-token.ts.
use sso_requests.Base.{
  ℕ, ◌+◌, ◌≡◌, ◌<◌, ◌≤◌, ◌⊎◌, refl, ap, sym, ◌∙◌, Bool, true, false, List, [], ◌∷◌, Option, none,
  some, String, string_eq, ◌==◌, if◌then◌else◌, nat_beq, arith, count, Bool-cases, Option-cases,
  inl, inr, is_some,
}
use sso_requests.Chat.Token.{
  TokenResponse, refused, body, TokenState, lifetime_ms, reuse_ms, request_token, valid_token,
  answer_all, get_rag_access_token, finish_request, invalidate_rag_access_token, TokenEvent, call,
  respond, invalidate, token_step, Run, start, next,
}

abbrev pub is_call_of : ℕ → TokenEvent → Bool
is_call_of caller (call c now) = nat_beq c caller
is_call_of caller _ = false

abbrev pub is_respond : TokenEvent → Bool
is_respond (respond r now) = true
is_respond _ = false

abbrev pub is_answer_of : ℕ → ℕ × Option String → Bool
is_answer_of caller answer = nat_beq answer.0 caller

abbrev pub waiting_of : Option (List ℕ) → List ℕ
waiting_of none = []
waiting_of (some waiting) = waiting

count-answer_all :
    (caller : ℕ) (token : Option String) (waiting : List ℕ) (answers : List (ℕ × Option String))
    → count (is_answer_of caller) (answer_all token waiting answers)
      ≡ count (λ c. nat_beq c caller) waiting + count (is_answer_of caller) answers
count-answer_all caller token [] answers = omega arith
count-answer_all caller token (c ∷ waiting) answers =
    ground (arith, count-answer_all caller token waiting answers)

-- The calls of a caller that are answered or wait.
abbrev pub served : ℕ → TokenState → ℕ
served caller s =
    count (is_answer_of caller) s.answers + count (λ c. nat_beq c caller) (waiting_of s.in_flight)

token_step-served :
    (caller : ℕ) (e : TokenEvent) (s : TokenState)
    → served caller (token_step e s) ≡ served caller s + (if is_call_of caller e then 1 else 0)
unfolding token_step
token_step-served caller (call c now) s = elim (Option-cases (valid_token s.cached now)) [
  | inl stale ↦ ground (arith, Option-cases s.in_flight)
  | inr (token, fresh) ↦ ground arith
]
token_step-served caller (respond r now) s = elim (Option-cases s.in_flight) [
  | inl idle ↦ ground arith
  | inr (waiting, e) ↦
      ground (arith, count-answer_all caller (request_token r now s.cached).0 waiting s.answers)
]
token_step-served caller (invalidate none) s = omega arith
token_step-served caller (invalidate (some token)) s = ground arith

-- Every call is answered once or waits once: none is lost, whoever starts the fetch.
pub Run-served :
    (caller : ℕ) {events : List TokenEvent} {s : TokenState}
    → Run events s
    → served caller s ≡ count (is_call_of caller) events
Run-served caller start = refl
Run-served caller (next {events} {s} e run) =
    ground (arith, token_step-served caller e s, Run-served caller run)

token_step-fetches :
    (e : TokenEvent) (s : TokenState) (n : ℕ)
    → s.fetches ≤ n + (if is_some s.in_flight then 1 else 0)
    → (token_step e s).fetches
      ≤ n + (if is_respond e then 1 else 0) + (if is_some (token_step e s).in_flight then 1 else 0)
unfolding token_step
token_step-fetches (call c now) s n h = elim (Option-cases (valid_token s.cached now)) [
  | inl stale ↦ ground (arith, Option-cases s.in_flight)
  | inr (token, fresh) ↦ ground arith
]
token_step-fetches (respond r now) s n h = elim (Option-cases s.in_flight) [
  | inl idle ↦ ground arith
  | inr (waiting, e) ↦ ground arith
]
token_step-fetches (invalidate none) s n h = ground arith
token_step-fetches (invalidate (some token)) s n h = ground arith

-- There is at most one more fetch than there were responses, and none where no fetch is in flight.
pub Run-fetches :
    {events : List TokenEvent} {s : TokenState}
    → Run events s
    → s.fetches ≤ count is_respond events + (if is_some s.in_flight then 1 else 0)
Run-fetches start = omega arith
Run-fetches (next {events} {s} e run) =
    ground (arith, token_step-fetches e s (count is_respond events) (Run-fetches run))

-- A token was issued, and at `now` its lifetime has not run out.
abbrev pub IsAlive : ℕ → String → List TokenEvent → Type 0
IsAlive now token [] = ⊥
IsAlive now token (respond (body (some issued) expires_in) at ∷ events) =
    ((issued ≡ token) × (now < at + lifetime_ms expires_in)) ⊎ IsAlive now token events
IsAlive now token (_ ∷ events) = IsAlive now token events

reuse_ms-lt-lifetime_ms : (expires_in : Option ℕ) → reuse_ms expires_in < lifetime_ms expires_in
unfolding reuse_ms
reuse_ms-lt-lifetime_ms none = omega arith
reuse_ms-lt-lifetime_ms (some seconds) = ground arith

get_rag_access_token-cached :
    (caller now : ℕ) (s : TokenState) → (get_rag_access_token caller now s).cached ≡ s.cached
unfolding get_rag_access_token
get_rag_access_token-cached caller now s = elim (Option-cases (valid_token s.cached now)) [
  | inl stale ↦ ground (arith, Option-cases s.in_flight)
  | inr (token, fresh) ↦ ground arith
]

-- A response leaves the cache or is kept in it.
finish_request-cached :
    (response : TokenResponse) (now : ℕ) (s : TokenState)
    → ((finish_request response now s).cached ≡ s.cached)
      ⊎ ((finish_request response now s).cached ≡ (request_token response now s.cached).1)
unfolding finish_request
finish_request-cached response now s = elim (Option-cases s.in_flight) [
  | inl idle ↦ inl (ground arith)
  | inr (waiting, e) ↦ inr (ground arith)
]

valid_token-invalidate :
    (x : Option String) (now : ℕ) (s : TokenState) (token : String)
    → valid_token (invalidate_rag_access_token x s).cached now ≡ some token
    → valid_token s.cached now ≡ some token
unfolding invalidate_rag_access_token
valid_token-invalidate none now s token h = cc
valid_token-invalidate (some x) now s token h = elim (Option-cases s.cached) [
  | inl empty ↦ ground arith
  | inr (c, e) ↦ ground arith
]

issued_now :
    (now at : ℕ) (token issued : String) (expires_in : Option ℕ)
    → valid_token (some (record { token = issued; expires_at = at + reuse_ms expires_in })) now
      ≡ some token
    → (issued ≡ token) × (now < at + lifetime_ms expires_in)
issued_now now at token issued expires_in h =
    (ground arith, ground (arith, reuse_ms-lt-lifetime_ms expires_in))

-- A token that the cache gives out was issued, and its lifetime has not run out.
pub Run-IsAlive :
    (now : ℕ) (token : String) {events : List TokenEvent} {s : TokenState}
    → Run events s
    → valid_token s.cached now ≡ some token
    → IsAlive now token events
unfolding token_step
Run-IsAlive now token start h = cc
Run-IsAlive now token (next {events} {s} (call c t) run) h =
    Run-IsAlive now token run
      (ap (λ k. valid_token k now) (sym (get_rag_access_token-cached c t s)) ∙ h)
Run-IsAlive now token (next {events} {s} (respond refused t) run) h =
    elim (finish_request-cached refused t s) [
      | inl kept ↦ Run-IsAlive now token run (ap (λ k. valid_token k now) (sym kept) ∙ h)
      | inr kept ↦ Run-IsAlive now token run (ap (λ k. valid_token k now) (sym kept) ∙ h)
    ]
Run-IsAlive now token (next {events} {s} (respond (body none e) t) run) h =
    elim (finish_request-cached (body none e) t s) [
      | inl kept ↦ Run-IsAlive now token run (ap (λ k. valid_token k now) (sym kept) ∙ h)
      | inr kept ↦ Run-IsAlive now token run (ap (λ k. valid_token k now) (sym kept) ∙ h)
    ]
Run-IsAlive now token (next {events} {s} (respond (body (some issued) e) t) run) h =
    elim (finish_request-cached (body (some issued) e) t s) [
      | inl kept ↦ inr (Run-IsAlive now token run (ap (λ k. valid_token k now) (sym kept) ∙ h))
      | inr changed ↦ elim (Bool-cases (issued == "")) [
        | inl empty ↦ inr (Run-IsAlive now token run (ground arith))
        | inr new ↦ inl (issued_now now t token issued e (ground arith))
      ]
    ]
Run-IsAlive now token (next {events} {s} (invalidate x) run) h =
    Run-IsAlive now token run (valid_token-invalidate x now s token h)
