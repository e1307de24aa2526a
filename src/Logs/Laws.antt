-- ===== src/Logs/Laws.antt =====
-- The time ranges and the escaped texts of packages/logs-query/src/index.ts.
use sso_requests.Base.{
  ℕ, ◌+◌, ◌-◌, ◌*◌, ◌/◌, ◌≤◌, ◌≡◌, refl, ap, ◌∙◌, false, ◌&&◌, List, [], ◌∷◌, map, Option, none,
  some, arith, if◌then◌else◌, leb, nat_beq, count, Bool-cases, inl, inr,
}
use sso_requests.Logs.{
  live_schema_cutoff_hours, live_schema_retention_days, hour_ms, day_ms, LogSchemas,
  get_live_schema_boundary, ranges_at, get_log_source_ranges, selects, Text, backslash, percent,
  underscore, quote, is_special, escape_wildcards, double_quotes, escape_like_literal,
}

ranges_at-selects :
    (boundary start end t : ℕ) (schemas : LogSchemas)
    → count (selects t) (ranges_at boundary start end schemas)
      ≡ (if leb start t && leb t end then 1 else 0)
unfolding ranges_at selects
ranges_at-selects boundary start end t schemas = ground arith

-- A time of the requested interval is selected from exactly one of the ranges, and any other time from
-- none.
pub get_log_source_ranges-selects :
    (start end now t : ℕ) (schemas : LogSchemas)
    → count (selects t) (get_log_source_ranges start end now schemas)
      ≡ (if leb start t && leb t end then 1 else 0)
unfolding get_log_source_ranges
get_log_source_ranges-selects start end now t schemas =
    ranges_at-selects (get_live_schema_boundary now) start end t schemas

-- The boundary is at least 24 hours and less than 25 hours old, and no older than the data of the live
-- schema.
pub get_live_schema_boundary_bounds :
    (now : ℕ)
    → (get_live_schema_boundary now ≤ now - live_schema_cutoff_hours * hour_ms)
      × (now - (live_schema_cutoff_hours + 1) * hour_ms ≤ get_live_schema_boundary now)
      × (now / day_ms * day_ms - live_schema_retention_days * day_ms ≤ get_live_schema_boundary now)
unfolding get_live_schema_boundary
get_live_schema_boundary_bounds now = (omega arith, omega arith, omega arith)

-- A character of a `LIKE` pattern with `ESCAPE '\'`.
pub data LikeToken : Type 0 where
  any_run : LikeToken
  any_one : LikeToken
  literal : ℕ → LikeToken

abbrev put_token : LikeToken → Option (List LikeToken) → Option (List LikeToken)
put_token t none = none
put_token t (some ts) = some (t ∷ ts)

-- How the database reads a pattern; an escape that escapes nothing is an error.
abbrev pub like_tokens : Text → Option (List LikeToken)
like_tokens [] = some []
like_tokens (c ∷ []) =
    if nat_beq c backslash
    then none
    else some (
        (if nat_beq c percent then any_run else if nat_beq c underscore then any_one else literal c)
        ∷ [])
like_tokens (c ∷ d ∷ pattern) =
    let escaped = like_tokens pattern in
    let plain = like_tokens (d ∷ pattern) in
    if nat_beq c backslash
    then (if is_special d then put_token (literal d) escaped else none)
    else put_token
        (if nat_beq c percent then any_run else if nat_beq c underscore then any_one else literal c)
        plain

abbrev put_code : ℕ → Option Text → Option Text
put_code c none = none
put_code c (some value) = some (c ∷ value)

-- How the database reads the inside of a quoted literal; a lone quote ends it early, which is an
-- error here.
abbrev pub unquote : Text → Option Text
unquote [] = some []
unquote (c ∷ []) = if nat_beq c quote then none else some (c ∷ [])
unquote (c ∷ d ∷ value) =
    let rest = unquote value in
    let rest' = unquote (d ∷ value) in
    if nat_beq c quote
    then (if nat_beq d quote then put_code quote rest else none)
    else put_code c rest'

-- A character that is not special stands for itself.
unquote-plain :
    (c : ℕ) (rest : Text) → nat_beq c quote ≡ false → unquote (c ∷ rest) ≡ put_code c (unquote rest)
unquote-plain c [] h = ground arith
unquote-plain c (d ∷ rest) h = ground arith

like_tokens-plain :
    (c : ℕ) (rest : Text)
    → is_special c ≡ false
    → like_tokens (c ∷ rest) ≡ put_token (literal c) (like_tokens rest)
like_tokens-plain c [] h = ground arith
like_tokens-plain c (d ∷ rest) h = ground arith

unquote-double_quotes : (value : Text) → unquote (double_quotes value) ≡ some value
unfolding double_quotes
unquote-double_quotes [] = refl
unquote-double_quotes (c ∷ value) = elim (Bool-cases (nat_beq c quote)) [
  | inl quoted ↦ ground (arith, unquote-double_quotes value)
  | inr plain ↦
      rw plain (
        unquote-plain c (double_quotes value) plain ∙ ap (put_code c) (unquote-double_quotes value))
]

like_tokens-escape_wildcards :
    (value : Text) → like_tokens (escape_wildcards value) ≡ some (map literal value)
unfolding escape_wildcards
like_tokens-escape_wildcards [] = refl
like_tokens-escape_wildcards (c ∷ value) = elim (Bool-cases (is_special c)) [
  | inl special ↦ rw special (ground (arith, like_tokens-escape_wildcards value))
  | inr plain ↦ rw plain (
      like_tokens-plain c (escape_wildcards value) plain
      ∙ ap (put_token (literal c)) (like_tokens-escape_wildcards value))
]

abbrev pub read_like : Option Text → Option (List LikeToken)
read_like none = none
read_like (some pattern) = like_tokens pattern

-- An escaped text is read back by the database as the text itself: neither a quote nor a wildcard of it
-- takes effect.
pub read_like-escape_like_literal :
    (value : Text) → read_like (unquote (escape_like_literal value)) ≡ some (map literal value)
unfolding escape_like_literal
read_like-escape_like_literal value =
    ap read_like (unquote-double_quotes (escape_wildcards value))
    ∙ like_tokens-escape_wildcards value
