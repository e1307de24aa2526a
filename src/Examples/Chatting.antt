-- ===== src/Examples/Chatting.antt =====
-- Log queries and the chat at concrete inputs.
use sso_requests.Base.{◌≡◌, ◌≢◌, refl, List, [], ◌∷◌, Option, none, some, arith, count}
use sso_requests.Logs.{get_log_source_ranges, selects, escape_like_literal}
use sso_requests.Logs.Laws.{
  get_log_source_ranges-selects, read_like-escape_like_literal, unquote, read_like, literal,
}
use sso_requests.Chat.Sse.{Text, Parsed, split_sse_buffer}
use sso_requests.Chat.Stream.{Answer, reading, take_lines, read_chunks}
use sso_requests.Chat.Stream.Laws.{read_chunks_lem}
use sso_requests.Chat.Session.{owned_session_id, dot, is_session_value}
use sso_requests.Chat.Session.Laws.{owned_session_id-append}
use sso_requests.Chat.Token.{TokenResponse, TokenEvent, token_step, Run, initial, call, respond}
use sso_requests.Chat.Token.Laws.{Run-served, Run-IsAlive, IsAlive, served}

-- Two days of logs on the tenth day, and a line of the ninth.
get_log_source_ranges-selects_example :
    count (selects 777600000) (
      get_log_source_ranges 691200000 864000000 864000000
        (record { retention = "retention"; live = "live" }))
    ≡ 1
get_log_source_ranges-selects_example =
    get_log_source_ranges-selects 691200000 864000000 864000000 777600000
      (record { retention = "retention"; live = "live" })

-- `a_'`.
read_like-escape_like_literal_example :
    read_like (unquote (escape_like_literal (97 ∷ 95 ∷ 39 ∷ [])))
    ≡ some (literal 97 ∷ literal 95 ∷ literal 39 ∷ [])
read_like-escape_like_literal_example = read_like-escape_like_literal (97 ∷ 95 ∷ 39 ∷ [])

abbrev no_answer : Answer
no_answer = record { status = none; content = []; citations = []; grounding = none }

-- `data:e` and a newline, in two chunks; the data are an error.
abbrev parse : Text → Option Parsed
parse s = some (Parsed.error_value s)

abbrev chunks : List Text
chunks = (100 ∷ 97 ∷ 116 ∷ []) ∷ (97 ∷ 58 ∷ 101 ∷ 10 ∷ 100 ∷ []) ∷ []

read_chunks_lem_example :
    read_chunks parse chunks [] (reading no_answer)
    ≡ take_lines parse ((100 ∷ 97 ∷ 116 ∷ 97 ∷ 58 ∷ 101 ∷ []) ∷ []) (reading no_answer)
unfolding split_sse_buffer
read_chunks_lem_example = read_chunks_lem parse chunks (reading no_answer)

-- The tags `a1` and `b2`, and the session `s-1`.
abbrev own_tag : Text
own_tag = 97 ∷ 49 ∷ []

abbrev other_tag : Text
other_tag = 98 ∷ 50 ∷ []

abbrev session_id : Text
session_id = 115 ∷ 45 ∷ 49 ∷ []

tags_differ : other_tag ≢ own_tag
tags_differ e = absurd (ground arith)

owned_session_id-append_example :
    (owned_session_id own_tag (97 ∷ 49 ∷ dot ∷ 115 ∷ 45 ∷ 49 ∷ []) ≡ some session_id)
    × (owned_session_id other_tag (97 ∷ 49 ∷ dot ∷ 115 ∷ 45 ∷ 49 ∷ []) ≡ none)
unfolding is_session_value
owned_session_id-append_example =
    owned_session_id-append own_tag other_tag session_id refl refl tags_differ

-- Two calls share a fetch.
abbrev history : List TokenEvent
history = respond (TokenResponse.body (some "t") (some 300)) 1000 ∷ call 2 500 ∷ call 1 0 ∷ []

abbrev shared_run : Run history (
    token_step
      (respond (TokenResponse.body (some "t") (some 300)) 1000)
      (token_step (call 2 500) (token_step (call 1 0) initial)))
shared_run = Run.next _ (Run.next _ (Run.next _ Run.start))

Run-served_example :
    served 2 (
      token_step
        (respond (TokenResponse.body (some "t") (some 300)) 1000)
        (token_step (call 2 500) (token_step (call 1 0) initial)))
    ≡ 1
Run-served_example = Run-served 2 shared_run

Run-IsAlive_example : IsAlive 2000 "t" history
unfolding token_step
Run-IsAlive_example = Run-IsAlive 2000 "t" shared_run refl
