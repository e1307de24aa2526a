-- ===== src/Chat/Stream.antt =====
-- The read loop of app/components/ChatWidget/useChat.ts, over the chunks that the decoder gives.
pub mod Laws
use sso_requests.Base.{ℕ, Bool, true, false, List, [], ◌∷◌, ◌++◌, Option, none, some, if◌then◌else◌}
use sso_requests.Chat.Sse.{
  Text, Choice, Parsed, SseEvent, done_event, chunk_event, error_event, parse_sse_line,
  split_sse_buffer,
}

-- The answer so far: its status, what the typewriter was given, its citations and its grounding.
pub record Answer : Type 0 where
  pub status : Option Text
  pub content : Text
  pub citations : List Text
  pub grounding : Option Text

-- Where the loop stands: it reads on, it has ended by itself, or it has thrown.
pub data Reading : Type 0 where
  reading : Answer → Reading
  ended : Answer → Reading
  failed : Text → Answer → Reading

-- An empty text is falsy.
abbrev pub non_empty : Option Text → Option Text → Option Text
non_empty old none = old
non_empty old (some []) = old
non_empty old (some (c ∷ s)) = some (c ∷ s)

abbrev pub text_or_empty : Option Text → Text
text_or_empty none = []
text_or_empty (some s) = s

unfoldable pub take_choice : Choice → Answer → Answer
take_choice choice a = record {
  status = non_empty a.status choice.status;
  content = a.content ++ text_or_empty choice.content;
  citations = a.citations ++ choice.citations;
  grounding = non_empty a.grounding choice.grounding_status;
}

-- The body of the loop over the lines, for one event.
unfoldable pub take_event : SseEvent → Answer → Reading
unfolding take_choice
take_event done_event a = ended a
take_event (error_event message) a = failed message a
take_event (chunk_event none) a = reading a
take_event (chunk_event (some choice)) a =
    if choice.finish_stop then ended a else reading (take_choice choice a)

abbrev take_line : (Text → Option Parsed) → Text → Answer → Reading
take_line parse line a = elim (parse_sse_line parse line) [
  | none ↦ reading a
  | some event ↦ take_event event a
]

-- `for (const line of split.lines)`: a `break` or an error leaves the other lines.
unfoldable pub take_lines : (Text → Option Parsed) → List Text → Reading → Reading
unfolding take_event parse_sse_line
take_lines parse [] r = r
take_lines parse (line ∷ lines) (reading a) = take_lines parse lines (take_line parse line a)
take_lines parse (line ∷ lines) r = r

-- The `while` loop: it stops at the end of the stream, or once it has ended.
unfoldable pub read_chunks : (Text → Option Parsed) → List Text → Text → Reading → Reading
unfolding take_lines split_sse_buffer
read_chunks parse [] buffer r = r
read_chunks parse (chunk ∷ chunks) buffer (reading a) =
    let (lines, rest) = split_sse_buffer (buffer ++ chunk) in
    read_chunks parse chunks rest (take_lines parse lines (reading a))
read_chunks parse (chunk ∷ chunks) buffer r = r
