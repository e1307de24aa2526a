-- ===== src/Chat/Stream/Laws.antt =====
-- The read loop of app/components/ChatWidget/useChat.ts against the text of the stream as a whole.
use sso_requests.Base.{
  ◌≡◌, refl, ap, sym, ◌∙◌, List, [], ◌∷◌, ◌++◌, Option, nat_beq, arith, Bool-cases, inl, inr, ◌⊎◌,
}
use sso_requests.Chat.Sse.{Text, newline, Parsed, split_sse_buffer}
use sso_requests.Chat.Stream.{Answer, Reading, reading, ended, failed, take_lines, read_chunks}

-- The text of the chunks.
abbrev pub joined : List Text → Text
joined [] = []
joined (chunk ∷ chunks) = chunk ++ joined chunks

List-cases {ℓ} : {A : Type ℓ} (xs : List A) → (xs ≡ []) ⊎ ((x : A) × (ys : List A) × (xs ≡ x ∷ ys))
List-cases [] = inl refl
List-cases (x ∷ xs) = inr (x, xs, refl)

-- Splitting in two goes: the tail of the first stands in front of the second.
split_sse_buffer-append :
    (s t : Text)
    → split_sse_buffer (s ++ t) ≡ (
      (split_sse_buffer s).0 ++ (split_sse_buffer ((split_sse_buffer s).1 ++ t)).0,
      (split_sse_buffer ((split_sse_buffer s).1 ++ t)).1,
    )
unfolding split_sse_buffer
split_sse_buffer-append [] t = refl
split_sse_buffer-append (c ∷ s) t = elim (Bool-cases (nat_beq c newline)) [
  | inl here ↦ ground (arith, split_sse_buffer-append s t)
  | inr other ↦ elim (List-cases (split_sse_buffer s).0) [
    | inl none_yet ↦ ground (arith, split_sse_buffer-append s t)
    | inr (line, lines, e) ↦ ground (arith, split_sse_buffer-append s t)
  ]
]

-- The loop over some lines and then others.
take_lines-append :
    (parse : Text → Option Parsed) (xs ys : List Text) (r : Reading)
    → take_lines parse (xs ++ ys) r ≡ take_lines parse ys (take_lines parse xs r)
unfolding take_lines
take_lines-append parse [] ys r = refl
take_lines-append parse (x ∷ xs) [] (reading a) = take_lines-append parse xs [] _
take_lines-append parse (x ∷ xs) (y ∷ ys) (reading a) = take_lines-append parse xs (y ∷ ys) _
take_lines-append parse (x ∷ xs) [] (ended a) = refl
take_lines-append parse (x ∷ xs) (y ∷ ys) (ended a) = refl
take_lines-append parse (x ∷ xs) [] (failed m a) = refl
take_lines-append parse (x ∷ xs) (y ∷ ys) (failed m a) = refl

take_lines-ended :
    (parse : Text → Option Parsed) (xs : List Text) (a : Answer)
    → take_lines parse xs (ended a) ≡ ended a
unfolding take_lines
take_lines-ended parse [] a = refl
take_lines-ended parse (x ∷ xs) a = refl

take_lines-failed :
    (parse : Text → Option Parsed) (xs : List Text) (m : Text) (a : Answer)
    → take_lines parse xs (failed m a) ≡ failed m a
unfolding take_lines
take_lines-failed parse [] m a = refl
take_lines-failed parse (x ∷ xs) m a = refl

append_assoc : (xs ys zs : Text) → (xs ++ ys) ++ zs ≡ xs ++ (ys ++ zs)
append_assoc [] ys zs = refl
append_assoc (x ∷ xs) ys zs = ap (λ l. x ∷ l) (append_assoc xs ys zs)

append_nil : (xs : Text) → xs ++ [] ≡ xs
append_nil [] = refl
append_nil (x ∷ xs) = ap (λ l. x ∷ l) (append_nil xs)

-- The tail holds no complete line.
split_sse_buffer-rest :
    (s : Text) → split_sse_buffer (split_sse_buffer s).1 ≡ ([], (split_sse_buffer s).1)
unfolding split_sse_buffer
split_sse_buffer-rest [] = refl
split_sse_buffer-rest (c ∷ s) = elim (Bool-cases (nat_beq c newline)) [
  | inl here ↦ ground (arith, split_sse_buffer-rest s)
  | inr other ↦ elim (List-cases (split_sse_buffer s).0) [
    | inl none_yet ↦ ground (arith, split_sse_buffer-rest s)
    | inr (line, lines, e) ↦ ground (arith, split_sse_buffer-rest s)
  ]
]

read_chunks_from :
    (parse : Text → Option Parsed) (chunks : List Text) (buffer : Text) (r : Reading)
    → split_sse_buffer buffer ≡ ([], buffer)
    → read_chunks parse chunks buffer r
      ≡ take_lines parse (split_sse_buffer (buffer ++ joined chunks)).0 r
unfolding read_chunks
read_chunks_from parse [] buffer r h = sym (
    ap (λ s. take_lines parse s r)
      (ap (λ b. (split_sse_buffer b).0) (append_nil buffer) ∙ ap (λ s. s.0) h)
    ∙ unfold take_lines in refl)
read_chunks_from parse (chunk ∷ chunks) buffer (reading a) h =
    let split = split_sse_buffer (buffer ++ chunk) in
    read_chunks_from parse chunks split.1 (take_lines parse split.0 (reading a))
      (split_sse_buffer-rest (buffer ++ chunk))
    ∙ (sym (
          take_lines-append parse split.0 (split_sse_buffer (split.1 ++ joined chunks)).0
            (reading a))
        ∙ ap (λ lines. take_lines parse lines (reading a))
            (sym (
              ap (λ s. (split_sse_buffer s).0) (sym (append_assoc buffer chunk (joined chunks)))
              ∙ ap (λ s. s.0) (split_sse_buffer-append (buffer ++ chunk) (joined chunks)))))
read_chunks_from parse (chunk ∷ chunks) buffer (ended a) h = sym (take_lines-ended parse _ a)
read_chunks_from parse (chunk ∷ chunks) buffer (failed m a) h = sym (take_lines-failed parse _ m a)

-- However the stream is cut into chunks, the read loop does what the complete lines of its whole text
-- do one after another.
pub read_chunks_lem :
    (parse : Text → Option Parsed) (chunks : List Text) (r : Reading)
    → read_chunks parse chunks [] r ≡ take_lines parse (split_sse_buffer (joined chunks)).0 r
unfolding split_sse_buffer
read_chunks_lem parse chunks r = read_chunks_from parse chunks [] r refl
