-- ===== src/Api/Mcp/Streams.antt =====
-- A server-sent event stream as a server writes it, and what `_parse_sse` reads from it.
use quest_test.Prelude.{
  ℕ, ◌≡◌, refl, sym, ap, ◌∙◌, Bool, true, false, not, ◌&&◌, ◌||◌, Option, some, Text, chars, ◌==◌,
  List, [], ◌∷◌, ◌++◌, append_assoc, append-nil, map, join, all, arith, and_true, false≢true,
}
use quest_test.Effect.{returned}
use quest_test.Json.{Value, obj, Fields}
use quest_test.Api.Mcp.{
  normalize_from, split_lines, data_line, add_line, as_event, flush_event, parse_lines, parse_split,
  some_event, parse_sse, Mcp, then_do,
}

-- The three line ends of the format.
pub data LineEnd : Type 0 where
  lf cr crlf : LineEnd

abbrev pub end_chars : LineEnd → Text
end_chars lf = 10 ∷ []
end_chars cr = 13 ∷ []
end_chars crlf = 13 ∷ 10 ∷ []

-- An event has at least one line of data.
pub record SseEvent : Type 0 where
  pub first : Text
  pub more : List Text

abbrev pub lines_of : SseEvent → List Text
lines_of e = e.first ∷ e.more

abbrev pub write_line : Text → Text
write_line l = chars "data: " ++ l

-- Every line followed by its end, and the event by a blank line.
abbrev pub write_lines : Text → List Text → Text
write_lines end [] = end
write_lines end (l ∷ ls) = write_line l ++ (end ++ write_lines end ls)

abbrev pub write_stream : Text → List SseEvent → Text
write_stream end [] = []
write_stream end (e ∷ es) = write_lines end (lines_of e) ++ write_stream end es

-- No character of the text ends a line.
abbrev pub one_line : Text → Bool
one_line [] = true
one_line (c ∷ s) = not (c == 10 || c == 13) && one_line s

-- The data of each event are one JSON object, and its lines hold no line end.
abbrev pub Carries : (Text → Option Value) → List SseEvent → List Fields → Type 0
Carries decode [] [] = Unit {0}
Carries decode (e ∷ es) (f ∷ fs) =
    (all one_line (lines_of e) ≡ true)
    × (decode (join (10 ∷ []) (lines_of e)) ≡ some (obj f))
    × Carries decode es fs
Carries decode _ _ = ⊥

-- Whether a carriage return has just been read.
abbrev returns : LineEnd → Bool
returns cr = true
returns _ = false

returns_again : (d : LineEnd) → (returns d && returns d) ≡ returns d
returns_again lf = refl
returns_again cr = refl
returns_again crlf = refl

normalize-one_line :
    (s rest : Text)
    → one_line s ≡ true
    → normalize_from false (s ++ rest) ≡ s ++ normalize_from false rest
unfolding normalize_from
normalize-one_line [] rest h = refl
normalize-one_line (c ∷ s) rest h =
    let newline : (c == 10) ≡ false = ground arith in
    let carriage : (c == 13) ≡ false = ground arith in
    let later : one_line s ≡ true = ground arith in
    rw (carriage, newline) (ap (λ t. c ∷ t) (normalize-one_line s rest later))

normalize-write_line :
    (b : Bool) (l rest : Text)
    → one_line l ≡ true
    → normalize_from b (write_line l ++ rest) ≡ write_line l ++ normalize_from false rest
unfolding normalize_from
normalize-write_line b l rest h = ap (λ t. chars "data: " ++ t) (normalize-one_line l rest h)

normalize-end :
    (e : LineEnd) (rest : Text) (b : Bool)
    → (b && returns e) ≡ b
    → normalize_from b (end_chars e ++ rest) ≡ 10 ∷ normalize_from (returns e) rest
unfolding normalize_from
normalize-end lf rest true h = absurd (false≢true h)
normalize-end lf rest false h = refl
normalize-end cr rest true h = refl
normalize-end cr rest false h = refl
normalize-end crlf rest true h = absurd (false≢true h)
normalize-end crlf rest false h = refl

normalize-write_lines :
    (e : LineEnd) (ls : List Text) (rest : Text) (b : Bool)
    → all one_line ls ≡ true
    → (b && returns e) ≡ b
    → normalize_from b (write_lines (end_chars e) ls ++ rest)
      ≡ write_lines (10 ∷ []) ls ++ normalize_from (returns e) rest
normalize-write_lines e [] rest b clean h = normalize-end e rest b h
normalize-write_lines e (l ∷ ls) rest b clean h =
    let (here, later) = and_true (one_line l) (all one_line ls) clean in
    ap (normalize_from b) (regroup (end_chars e))
    ∙ normalize-write_line b l (end_chars e ++ (write_lines (end_chars e) ls ++ rest)) here
    ∙ ap (λ t. write_line l ++ t)
        (normalize-end e (write_lines (end_chars e) ls ++ rest) false refl
          ∙ ap (λ t. 10 ∷ t) (normalize-write_lines e ls rest (returns e) later (returns_again e)))
    ∙ sym (append_assoc (write_line l) _ _)
  where
    regroup :
        (end : Text)
        → (write_line l ++ (end ++ write_lines end ls)) ++ rest
          ≡ write_line l ++ (end ++ (write_lines end ls ++ rest))
    regroup end =
        append_assoc (write_line l) (end ++ write_lines end ls) rest
        ∙ ap (λ t. write_line l ++ t) (append_assoc end (write_lines end ls) rest)

normalize-write_stream :
    (decode : Text → Option Value) (e : LineEnd) (events : List SseEvent) (fs : List Fields)
    (b : Bool)
    → Carries decode events fs
    → (b && returns e) ≡ b
    → normalize_from b (write_stream (end_chars e) events) ≡ write_stream (10 ∷ []) events
unfolding normalize_from
normalize-write_stream decode e [] fs b carries h = refl
normalize-write_stream decode e (event ∷ events) [] b carries h = absurd carries
normalize-write_stream decode e (event ∷ events) (f ∷ fs) b (clean, _, later) h =
    normalize-write_lines e (lines_of event) (write_stream (end_chars e) events) b clean h
    ∙ ap (λ t. write_lines (10 ∷ []) (lines_of event) ++ t)
        (normalize-write_stream decode e events fs (returns e) later (returns_again e))

-- All the lines of a text.
abbrev all_lines : Text × List Text → List Text
all_lines (line, lines) = line ∷ lines

prepend : ℕ → List Text → List Text
prepend c [] = []
prepend c (line ∷ lines) = (c ∷ line) ∷ lines

split-one_line :
    (s rest : Text)
    → one_line s ≡ true
    → all_lines (split_lines (s ++ (10 ∷ rest))) ≡ s ∷ all_lines (split_lines rest)
unfolding split_lines prepend
split-one_line [] rest h = refl
split-one_line (c ∷ s) rest h =
    let newline : (c == 10) ≡ false = ground arith in
    let later : one_line s ≡ true = ground arith in
    rw newline (ap (prepend c) (split-one_line s rest later))

abbrev stream_lines : List SseEvent → List Text
stream_lines [] = [] ∷ []
stream_lines (e ∷ es) = map write_line (lines_of e) ++ ([] ∷ stream_lines es)

split-write_lines :
    (ls : List Text) (rest : Text)
    → all one_line ls ≡ true
    → all_lines (split_lines (write_lines (10 ∷ []) ls ++ rest))
      ≡ map write_line ls ++ ([] ∷ all_lines (split_lines rest))
unfolding split_lines
split-write_lines [] rest clean = refl
split-write_lines (l ∷ ls) rest clean =
    let (here, later) = and_true (one_line l) (all one_line ls) clean in
    ap (λ t. all_lines (split_lines t))
      (append_assoc (write_line l) (10 ∷ write_lines (10 ∷ []) ls) rest)
    ∙ split-one_line (write_line l) (write_lines (10 ∷ []) ls ++ rest) here
    ∙ ap (λ t. write_line l ∷ t) (split-write_lines ls rest later)

split-write_stream :
    (decode : Text → Option Value) (events : List SseEvent) (fs : List Fields)
    → Carries decode events fs
    → all_lines (split_lines (write_stream (10 ∷ []) events)) ≡ stream_lines events
unfolding split_lines
split-write_stream decode [] fs carries = refl
split-write_stream decode (event ∷ events) [] carries = absurd carries
split-write_stream decode (event ∷ events) (f ∷ fs) (clean, _, later) =
    split-write_lines (lines_of event) (write_stream (10 ∷ []) events) clean
    ∙ ap (λ t. map write_line (lines_of event) ++ ([] ∷ t))
        (split-write_stream decode events fs later)

module _ (decode : Text → Option Value) where
  parse-data_lines :
      (ls rest held : List Text) (read : List Fields)
      → parse_lines decode (map write_line ls ++ rest) held read
        ≡ parse_lines decode rest (held ++ ls) read
  unfolding parse_lines data_line quest_test.Api.Mcp.partition
  parse-data_lines [] rest held read =
      ap (λ d. parse_lines decode rest d read) (sym (append-nil held))
  parse-data_lines (l ∷ ls) rest held read =
      parse-data_lines ls rest (held ++ (l ∷ [])) read
      ∙ ap (λ d. parse_lines decode rest d read) (append_assoc held (l ∷ []) ls)

  parse-stream_lines :
      (events : List SseEvent) (fs read : List Fields)
      → Carries decode events fs
      → parse_lines decode (stream_lines events) [] read ≡ returned (read ++ fs)
  unfolding parse_lines flush_event
  parse-stream_lines [] [] read carries = ap returned (sym (append-nil read))
  parse-stream_lines [] (f ∷ fs) read carries = absurd carries
  parse-stream_lines (e ∷ es) [] read carries = absurd carries
  parse-stream_lines (e ∷ es) (f ∷ fs) read (_, decoded, later) =
      parse-data_lines (lines_of e) ([] ∷ stream_lines es) [] read
      ∙ ap
          (λ o.
            then_do (then_do (as_event o) (λ event. returned (read ++ (event ∷ []))))
              (λ flushed. parse_lines decode (stream_lines es) [] flushed))
          decoded
      ∙ parse-stream_lines es fs (read ++ (f ∷ [])) later
      ∙ ap returned (append_assoc read (f ∷ []) fs)

-- A stream of one or more events, each written as `data: ` lines and a blank line with any one of
-- the three line ends, and each with a JSON object as its joined data, is read back as these objects,
-- in their order.
pub parse_sse-write_stream :
    (decode : Text → Option Value) (end : LineEnd) (events : List SseEvent) (f : Fields)
    (fs : List Fields)
    → Carries decode events (f ∷ fs)
    → parse_sse decode (write_stream (end_chars end) events) ≡ returned (f ∷ fs)
unfolding parse_sse
parse_sse-write_stream decode end events f fs carries =
    ap (λ t. then_do (parse_lines decode (all_lines (split_lines t)) [] []) (some_event decode))
      (normalize-write_stream decode end events (f ∷ fs) false carries refl)
    ∙ ap (λ l. then_do (parse_lines decode l [] []) (some_event decode))
        (split-write_stream decode events (f ∷ fs) carries)
    ∙ ap (λ r. then_do r (some_event decode)) (parse-stream_lines decode events (f ∷ fs) [] carries)
