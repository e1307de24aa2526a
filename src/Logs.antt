-- ===== src/Logs.antt =====
-- packages/logs-query/src/index.ts: from which schema the logs of a time range are read. Times are
-- milliseconds since 1970, and a boundary before that is 0: no time lies before either. A text is the
-- list of its code units.
pub mod Laws
use sso_requests.Base.{
  ℕ, ◌+◌, ◌-◌, ◌*◌, ◌/◌, max, Bool, true, false, ◌&&◌, ◌||◌, List, [], ◌∷◌, String, if◌then◌else◌,
  ltb, leb, nat_beq,
}

abbrev pub live_schema_cutoff_hours : ℕ
live_schema_cutoff_hours = 24

abbrev pub live_schema_retention_days : ℕ
live_schema_retention_days = 7

abbrev pub hour_ms : ℕ
hour_ms = 3600000

abbrev pub day_ms : ℕ
day_ms = 86400000

pub record LogSchemas : Type 0 where
  pub retention : String
  pub live : String

pub record LogSourceRange : Type 0 where
  pub table : String
  pub from : ℕ
  pub to : ℕ
  pub inclusive_end : Bool

-- `getLiveSchemaBoundary`.
unfoldable pub get_live_schema_boundary : ℕ → ℕ
get_live_schema_boundary now =
    let cutoff = (now - live_schema_cutoff_hours * hour_ms) / hour_ms * hour_ms in
    let retention_floor = now / day_ms * day_ms - live_schema_retention_days * day_ms in
    max cutoff retention_floor

-- `getLogSourceRanges`, at a boundary.
unfoldable pub ranges_at : ℕ → ℕ → ℕ → LogSchemas → List LogSourceRange
ranges_at boundary start end schemas =
    if ltb end boundary
    then record { table = schemas.retention; from = start; to = end; inclusive_end = true } ∷ []
    else if leb boundary start
    then record { table = schemas.live; from = start; to = end; inclusive_end = true } ∷ []
    else (record { table = schemas.retention; from = start; to = boundary; inclusive_end = false }
        ∷ record { table = schemas.live; from = boundary; to = end; inclusive_end = true }
        ∷ [])

-- `getLogSourceRanges`.
unfoldable pub get_log_source_ranges : ℕ → ℕ → ℕ → LogSchemas → List LogSourceRange
unfolding ranges_at
get_log_source_ranges start end now schemas =
    ranges_at (get_live_schema_boundary now) start end schemas

-- The condition of a range's `SELECT` on the time of a line (buildLogsQuery).
unfoldable pub selects : ℕ → LogSourceRange → Bool
selects t range =
    leb range.from t && (if range.inclusive_end then leb t range.to else ltb t range.to)

abbrev pub Text : Type 0
Text = List ℕ

abbrev pub backslash : ℕ
backslash = 92

abbrev pub percent : ℕ
percent = 37

abbrev pub underscore : ℕ
underscore = 95

abbrev pub quote : ℕ
quote = 39

abbrev pub is_special : ℕ → Bool
is_special c = nat_beq c backslash || (nat_beq c percent || nat_beq c underscore)

-- `value.replace(/[\\%_]/g, '\\$&')`.
unfoldable pub escape_wildcards : Text → Text
escape_wildcards [] = []
escape_wildcards (c ∷ value) =
    if is_special c then backslash ∷ c ∷ escape_wildcards value else c ∷ escape_wildcards value

-- `.replace(/'/g, "''")`.
unfoldable pub double_quotes : Text → Text
double_quotes [] = []
double_quotes (c ∷ value) =
    if nat_beq c quote then quote ∷ quote ∷ double_quotes value else c ∷ double_quotes value

-- `escapeLikeLiteral`.
unfoldable pub escape_like_literal : Text → Text
unfolding escape_wildcards double_quotes
escape_like_literal value = double_quotes (escape_wildcards value)
