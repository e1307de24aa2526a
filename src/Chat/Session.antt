-- ===== src/Chat/Session.antt =====
-- app/utils/chat-proxy.ts: the cookie that holds the upstream session id, tagged with its user, the
-- configured number and the call of the assistant with its one retry. The hash of `ownerTag` is an
-- argument, and so are the cookies that the upstream answer sets, as `parseUpstreamSessionCookie`
-- returns them.
pub mod Laws
use sso_requests.Base.{
  ℕ, suc, ◌+◌, ◌-◌, ◌*◌, Bool, true, false, ◌&&◌, ◌||◌, not, List, [], ◌∷◌, ◌++◌, Option, none,
  some, String, if◌then◌else◌, nat_beq, leb, ltb, all, length, or_else,
}
use sso_requests.Chat.Sse.{Text, text_beq, trim_start, trim_end}

abbrev pub is_digit : ℕ → Bool
is_digit c = leb 48 c && leb c 57

-- `[\w-]`.
abbrev pub is_word : ℕ → Bool
is_word c =
    is_digit c
    || ((leb 65 c && leb c 90) || ((leb 97 c && leb c 122) || (nat_beq c 95 || nat_beq c 45)))

-- `SESSION_VALUE_PATTERN`.
unfoldable pub is_session_value : Text → Bool
is_session_value value = all is_word value && (leb 1 (length value) && leb (length value) 128)

abbrev pub dot : ℕ
dot = 46

-- The text before and after the first dot.
unfoldable pub split_dot : Text → Option (Text × Text)
split_dot [] = none
split_dot (c ∷ s) =
    let rest = split_dot s in
    if nat_beq c dot
    then some ([], s)
    else elim rest [ none ↦ none | some parts ↦ some (c ∷ parts.0, parts.1) ]

-- `ownedSessionId`, for the tag of the user.
unfoldable pub owned_session_id : Text → Text → Option Text
unfolding is_session_value split_dot
owned_session_id tag cookie = elim (split_dot cookie) [
  | none ↦ none
  | some parts ↦
      if not (text_beq parts.0 tag)
      then none
      else if is_session_value parts.1
      then some parts.1
      else none
]

-- What `parseUpstreamSessionCookie` returns.
pub record UpstreamCookie : Type 0 where
  pub value : Text
  pub max_age : Option ℕ
  pub expired : Bool

-- The value and the age of the cookie that is set; an empty value deletes it.
pub record SetCookie : Type 0 where
  pub value : Text
  pub max_age : ℕ

abbrev pub day_seconds : ℕ
day_seconds = 86400

-- `applyUpstreamSessionCookie`: each header replaces the one before.
unfoldable pub apply_upstream_session_cookie :
    Text → List UpstreamCookie → Option SetCookie → Option SetCookie
unfolding is_session_value
apply_upstream_session_cookie tag [] header = header
apply_upstream_session_cookie tag (cookie ∷ cookies) header =
    apply_upstream_session_cookie tag cookies (
      if cookie.expired
      then some (record { value = []; max_age = 0 })
      else if is_session_value cookie.value
      then some (record {
        value = tag ++ dot ∷ cookie.value;
        max_age = or_else cookie.max_age day_seconds;
      })
      else header)

abbrev pub digits_value : ℕ → Text → ℕ
digits_value n [] = n
digits_value n (c ∷ s) = digits_value (n * 10 + (c - 48)) s

abbrev pub max_safe_integer : ℕ
max_safe_integer = 9007199254740991

abbrev pub is_number : Text → Bool
is_number [] = false
is_number (c ∷ s) = all is_digit (c ∷ s)

-- `positiveInt`. A number past the safe integers stays past them when it is rounded.
unfoldable pub positive_int : Option Text → ℕ → ℕ
unfolding trim_start trim_end
positive_int value fallback =
    let trimmed = trim_end (trim_start (or_else value [])) in
    let parsed = digits_value 0 trimmed in
    if not (is_number trimmed)
    then fallback
    else if leb parsed max_safe_integer && ltb 0 parsed
    then parsed
    else fallback

-- The parts that `fetchUpstream` calls: the token, its invalidation, and the fetch, which answers with a
-- status. `none` is an error that is thrown.
pub record Upstream (S : Type 0) : Type 0 where
  pub get_token : S → Option String × S
  pub invalidate : String → S → S
  pub fetch : String → S → Option ℕ × S

-- One `send`: the status and the token.
unfoldable pub send : {S : Type 0} → Upstream S → S → Option (ℕ × String) × S
send u s =
    let (token, s₁) = u.get_token s in
    elim token [
      | none ↦ (none, s₁)
      | some t ↦
          let (status, s₂) = u.fetch t s₁ in
          (elim status [ none ↦ none | some code ↦ some (code, t) ], s₂)
    ]

-- `fetchUpstream`.
unfoldable pub fetch_upstream : {S : Type 0} → Upstream S → S → Option ℕ × S
unfolding send
fetch_upstream u s =
    let (first, s₁) = send u s in
    elim first [
      | none ↦ (none, s₁)
      | some answer ↦
          if not (nat_beq answer.0 401)
          then (some answer.0, s₁)
          else (let (second, s₂) = send u (u.invalidate answer.1 s₁) in
              (elim second [ none ↦ none | some again ↦ some again.0 ], s₂))
    ]
