-- ===== src/Chat/Session/Laws.antt =====
-- The session cookie of app/utils/chat-proxy.ts and its users.
use sso_requests.Base.{
  ℕ, ◌≡◌, ◌≢◌, ◌<◌, ◌≤◌, ◌⊎◌, refl, sym, true, not, List, [], ◌∷◌, ◌++◌, Option, none, some,
  nat_beq, arith, all, Bool-cases, Option-cases, inl, inr,
}
use sso_requests.Chat.Sse.{Text, text_beq}
use sso_requests.Chat.Session.{
  is_session_value, dot, split_dot, owned_session_id, UpstreamCookie, SetCookie,
  apply_upstream_session_cookie, positive_int, max_safe_integer,
}

-- A tag, which is made of hexadecimal digits, has no dot.
abbrev pub HasNoDot : Text → Type 0
HasNoDot tag = all (λ c. not (nat_beq c dot)) tag ≡ true

text_beq_refl : (s : Text) → text_beq s s ≡ true
text_beq_refl [] = refl
text_beq_refl (c ∷ s) = ground (arith, text_beq_refl s)

text_beq-eq : (s t : Text) → text_beq s t ≡ true → s ≡ t
text_beq-eq [] [] h = refl
text_beq-eq [] (c ∷ t) h = cc
text_beq-eq (c ∷ s) [] h = cc
text_beq-eq (c ∷ s) (d ∷ t) h = ground (arith, text_beq-eq s t)

split_dot-append :
    (tag value : Text) → HasNoDot tag → split_dot (tag ++ dot ∷ value) ≡ some (tag, value)
unfolding split_dot
split_dot-append [] value h = refl
split_dot-append (c ∷ tag) value h = ground (arith, split_dot-append tag value)

owned_session_id-own :
    (tag value : Text)
    → HasNoDot tag
    → is_session_value value ≡ true
    → owned_session_id tag (tag ++ dot ∷ value) ≡ some value
unfolding owned_session_id
owned_session_id-own tag value h v = ground (arith, split_dot-append tag value h, text_beq_refl tag)

-- The session id that a cookie holds is read back for the user whose tag it carries, and for no user
-- with another tag, where the tag has no dot.
pub owned_session_id-append :
    (tag other value : Text)
    → HasNoDot tag
    → is_session_value value ≡ true
    → other ≢ tag
    → (owned_session_id tag (tag ++ dot ∷ value) ≡ some value)
      × (owned_session_id other (tag ++ dot ∷ value) ≡ none)
unfolding owned_session_id
owned_session_id-append tag other value h v differs = (
  owned_session_id-own tag value h v,
  elim (Bool-cases (text_beq tag other)) [
    | inl same ↦ absurd (differs (sym (text_beq-eq tag other same)))
    | inr apart ↦ ground (arith, split_dot-append tag value h)
  ],
)

-- Only a session id of word characters is ever read from a cookie.
pub owned_session_id-is_session_value :
    (tag cookie value : Text)
    → owned_session_id tag cookie ≡ some value
    → is_session_value value ≡ true
unfolding owned_session_id
owned_session_id-is_session_value tag cookie value h = elim (Option-cases (split_dot cookie)) [
  | inl missing ↦ absurd (ground arith)
  | inr ((before, after), e) ↦ elim (Bool-cases (text_beq before tag)) [
    | inr other ↦ absurd (ground arith)
    | inl own ↦ elim (Bool-cases (is_session_value after)) [
      | inr bad ↦ absurd (ground arith)
      | inl good ↦ let same : some after ≡ some value = ground arith in ground (arith, same)
    ]
  ]
]

-- What a browser is told to keep is the user's own and readable again, or a deletion.
abbrev pub IsReadable : Text → Option SetCookie → Type 0
IsReadable tag none = Unit
IsReadable tag (some cookie) =
    ((cookie.value ≡ []) × (cookie.max_age ≡ 0))
    ⊎ ((value : Text) × (is_session_value value ≡ true)
        × (owned_session_id tag cookie.value ≡ some value))

-- Whatever cookies the upstream answer sets, what the browser is told to keep is a deletion, or a
-- session id that is read back for the same user, where the tag has no dot.
pub apply_upstream_session_cookie-IsReadable :
    (tag : Text) (cookies : List UpstreamCookie) (header : Option SetCookie)
    → HasNoDot tag
    → IsReadable tag header
    → IsReadable tag (apply_upstream_session_cookie tag cookies header)
unfolding apply_upstream_session_cookie
apply_upstream_session_cookie-IsReadable tag [] header h r = r
apply_upstream_session_cookie-IsReadable tag (cookie ∷ cookies) header h r =
    elim (Bool-cases cookie.expired) [
      | inl gone ↦
          rw gone (apply_upstream_session_cookie-IsReadable tag cookies _ h (inl (refl, refl)))
      | inr live ↦ elim (Bool-cases (is_session_value cookie.value)) [
        | inl good ↦
            rw (live, good)
              (apply_upstream_session_cookie-IsReadable tag cookies _ h
                (inr (cookie.value, good, owned_session_id-own tag cookie.value h good)))
        | inr bad ↦ rw (live, bad) (apply_upstream_session_cookie-IsReadable tag cookies header h r)
      ]
    ]

-- The configured number is a positive safe integer, where the fallback is one.
pub positive_int_bounds :
    (value : Option Text) (fallback : ℕ)
    → 0 < fallback
    → fallback ≤ max_safe_integer
    → (0 < positive_int value fallback) × (positive_int value fallback ≤ max_safe_integer)
unfolding positive_int
positive_int_bounds value fallback h k = (ground arith, ground arith)
