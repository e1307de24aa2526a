-- ===== src/Chat/Sse.antt =====
-- app/utils/chat/sse.ts: the lines of a server-sent stream. A text is the list of its code units; what
-- JSON.parse returns of a line's data is an argument.
use sso_requests.Base.{
  ℕ, Bool, true, false, ◌&&◌, ◌||◌, List, [], ◌∷◌, Option, none, some, if◌then◌else◌, nat_beq, leb,
  all,
}

abbrev pub Text : Type 0
Text = List ℕ

abbrev pub newline : ℕ
newline = 10

abbrev pub text_beq : Text → Text → Bool
text_beq [] [] = true
text_beq (a ∷ s) (b ∷ t) = nat_beq a b && text_beq s t
text_beq _ _ = false

-- The white space that `trim` and `\s` know.
abbrev pub is_space : ℕ → Bool
is_space c =
    (leb 9 c && leb c 13)
    || (nat_beq c 32
        || (nat_beq c 160
            || (nat_beq c 5760
                || ((leb 8192 c && leb c 8202)
                    || (nat_beq c 8232
                        || (nat_beq c 8233
                            || (nat_beq c 8239
                                || (nat_beq c 8287 || (nat_beq c 12288 || nat_beq c 65279)))))))))

unfoldable pub trim_start : Text → Text
trim_start [] = []
trim_start (c ∷ s) = if is_space c then trim_start s else c ∷ s

-- `trimEnd`: white space stays where something else follows.
unfoldable pub trim_end : Text → Text
trim_end [] = []
trim_end (c ∷ s) = if is_space c && all is_space s then [] else c ∷ trim_end s

-- What follows a prefix, if the text starts with it.
abbrev pub after_prefix : Text → Text → Option Text
after_prefix [] s = some s
after_prefix (a ∷ p) [] = none
after_prefix (a ∷ p) (b ∷ s) = if nat_beq a b then after_prefix p s else none

-- `data:`
abbrev pub data_prefix : Text
data_prefix = 100 ∷ 97 ∷ 116 ∷ 97 ∷ 58 ∷ []

-- The last data of a stream, in its brackets.
abbrev pub done_sentinel : Text
done_sentinel = 91 ∷ 68 ∷ 79 ∷ 78 ∷ 69 ∷ 93 ∷ []

-- The first of `choices`.
pub record Choice : Type 0 where
  pub finish_stop : Bool
  pub content : Option Text
  pub citations : List Text
  pub status : Option Text
  pub grounding_status : Option Text

-- What JSON.parse and the tests on its result tell: an `error`, an array of `choices` with its first
-- element, or something else.
pub data Parsed : Type 0 where
  error_value : Text → Parsed
  choices_value : Option Choice → Parsed
  other_value : Parsed

pub data SseEvent : Type 0 where
  done_event : SseEvent
  chunk_event : Option Choice → SseEvent
  error_event : Text → SseEvent

abbrev event_of_parsed : Parsed → Option SseEvent
event_of_parsed (error_value message) = some (error_event message)
event_of_parsed (choices_value choice) = some (chunk_event choice)
event_of_parsed other_value = none

-- `parseSseLine`; `parse` is `none` where JSON.parse throws.
unfoldable pub parse_sse_line : (Text → Option Parsed) → Text → Option SseEvent
unfolding trim_start trim_end
parse_sse_line parse line = elim (after_prefix data_prefix (trim_end (trim_start line))) [
  | none ↦ none
  | some rest ↦
      let data' = trim_start rest in
      if text_beq data' done_sentinel
      then some done_event
      else if text_beq data' []
      then none
      else elim (parse data') [ none ↦ none | some parsed ↦ event_of_parsed parsed ]
]

abbrev pub with_head : ℕ → List Text × Text → List Text × Text
with_head c ([], rest) = ([], c ∷ rest)
with_head c (line ∷ lines, rest) = ((c ∷ line) ∷ lines, rest)

-- `splitSseBuffer`: the complete lines and the tail.
unfoldable pub split_sse_buffer : Text → List Text × Text
split_sse_buffer [] = ([], [])
split_sse_buffer (c ∷ buffer) =
    let (lines, rest) = split_sse_buffer buffer in
    if nat_beq c newline then ([] ∷ lines, rest) else with_head c (lines, rest)
