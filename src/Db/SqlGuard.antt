-- ===== src/Db/SqlGuard.antt =====
-- db/client.py, `_SQL_PARTS` and `_require_read_only_sql`: the lexer of the read-only guard and its
-- checks. A text is its list of code points. The regular expression's alternatives are tried in
-- their order, with the backtracking that its repetitions allow.
pub mod Lexing
pub mod Reading
pub mod Wholes
pub mod Comments
pub mod Queries
pub mod Accepting
pub mod Refusals
mod Examples
use quest_test.Prelude.{
  ℕ, zero, suc, List, [], ◌∷◌, Option, none, some, Bool, true, false, not, ◌&&◌, ◌||◌, leb, ◌==◌,
  if◌then◌else◌, length, or_else, any, Text, chars, one_of, is_space, upper, starts_with, contains,
  join,
}
use mathlib.Core.List.{map}

-- A part that `findall` returns, as the loop over the parts tells them apart.
pub data Part : Type 0 where
  blank comment executable quoted : Part
  word : Text → Part

pub data Refusal : Type 0 where
  executable_comment one_statement non_query modifying : Refusal

pub data Checked {ℓ} (A : Type ℓ) : Type ℓ where
  ok : A → Checked A
  refused : Refusal → Checked A

-- `return` with no exception.
abbrev pub accepted : Checked (Unit {0})
accepted = ok tt

unfoldable pub is_word_start : ℕ → Bool
is_word_start c = leb b'A' c && leb c b'Z' || leb b'a' c && leb c b'z' || c == b'_'

unfoldable pub is_word_char : ℕ → Bool
unfolding is_word_start
is_word_char c = is_word_start c || leb b'0' c && leb c b'9'

-- `'(?:''|\\.|[^'\\])*'` after its first quote: what stands behind the part, if there is a match.
-- In backticks (`escapes` false) a backslash is a character like the others.
unfoldable pub after_quoted : Bool → ℕ → Text → Option Text
after_quoted escapes q [] = none
after_quoted escapes q (c ∷ []) = if c == q then some [] else none
after_quoted escapes q (c ∷ d ∷ s) =
    let doubled = or_else (after_quoted escapes q s) (some (d ∷ s)) in
    let escaped = after_quoted escapes q s in
    let longer = after_quoted escapes q (d ∷ s) in
    if c == q
    then (if d == q then doubled else some (d ∷ s))
    else if escapes && c == 0x5c
    then escaped
    else longer

-- `/\*.*?\*/` behind its first two characters.
unfoldable pub after_block : Text → Option Text
after_block [] = none
after_block (c ∷ []) = none
after_block (c ∷ d ∷ s) = if c == b'*' && d == b'/' then some s else after_block (d ∷ s)

-- What `[^\n]*` leaves.
unfoldable pub after_line : Text → Text
after_line [] = []
after_line (c ∷ s) = if c == 10 then c ∷ s else after_line s

unfoldable pub word_head : Text → Text
word_head [] = []
word_head (c ∷ s) = if is_word_char c then c ∷ word_head s else []

unfoldable pub word_tail : Text → Text
word_tail [] = []
word_tail (c ∷ s) = if is_word_char c then word_tail s else c ∷ s

-- A quote with no end is matched by `[^\s]`, and counts as quoted too.
unfoldable pub next_quoted : Bool → ℕ → Text → Part × Text
unfolding after_quoted
next_quoted escapes q s = elim (after_quoted escapes q s) [
  | none ↦ (quoted, s)
  | some rest ↦ (quoted, rest)
]

next_block : Text → Part × Text
unfolding after_block
next_block s = elim (after_block s) [
  | none ↦ (word (b'/' ∷ []), b'*' ∷ s)
  | some rest ↦ (
    if any (λ mark. starts_with mark s) (chars "!" ∷ chars "M!" ∷ chars "m!" ∷ [])
        then executable
        else comment,
    rest,
  )
]

-- `(?=\s|$)`
at_space : Text → Bool
at_space [] = true
at_space (c ∷ s) = is_space c

next_slash : Text → Part × Text
unfolding next_block
next_slash [] = (word (b'/' ∷ []), [])
next_slash (c ∷ s) = if c == b'*' then next_block s else (word (b'/' ∷ []), c ∷ s)

next_dash : Text → Part × Text
unfolding at_space after_line
next_dash [] = (word (b'-' ∷ []), [])
next_dash (c ∷ s) =
    if c == b'-' && at_space s then (comment, after_line s) else (word (b'-' ∷ []), c ∷ s)

-- One match at `c ∷ s`, or `blank` where nothing matches, and the text behind it.
unfoldable pub next_part : ℕ → Text → Part × Text
unfolding next_quoted next_slash next_dash after_line is_word_start is_word_char word_head word_tail
next_part c s =
    if c == 0x27 || c == 0x22
    then next_quoted true c s
    else if c == 0x60
    then next_quoted false c s
    else if c == b'/'
    then next_slash s
    else if c == b'-'
    then next_dash s
    else if c == b'#'
    then (comment, after_line s)
    else if is_word_start c
    then (word (c ∷ word_head s), word_tail s)
    else if is_space c
    then (blank, s)
    else (word (c ∷ []), s)

-- `_SQL_PARTS.findall(query)` on fuel.
unfoldable pub find_parts : ℕ → Text → List Part
unfolding next_part
find_parts zero s = []
find_parts (suc fuel) [] = []
find_parts (suc fuel) (c ∷ s) = let (p, rest) = next_part c s in p ∷ find_parts fuel rest

abbrev pub add_token : Text → Checked (List Text) → Checked (List Text)
add_token t (ok ts) = ok (t ∷ ts)
add_token t (refused r) = refused r

-- The loop over the parts.
unfoldable pub collect : List Part → Checked (List Text)
collect [] = ok []
collect (blank ∷ ps) = collect ps
collect (comment ∷ ps) = collect ps
collect (executable ∷ ps) = refused executable_comment
collect (quoted ∷ ps) = add_token (chars "<quoted>") (collect ps)
collect (word w ∷ ps) = add_token (upper w) (collect ps)

-- A part is at least one character long, so as many rounds as characters are enough.
unfoldable pub tokens_of : Text → Checked (List Text)
unfolding find_parts collect
tokens_of query = collect (find_parts (length query) query)

-- `if tokens and tokens[-1] == ";": tokens.pop()`
unfoldable pub drop_semicolon : List Text → List Text
drop_semicolon [] = []
drop_semicolon (t ∷ []) = if one_of (chars ";" ∷ []) t then [] else t ∷ []
drop_semicolon (t ∷ u ∷ ts) = t ∷ drop_semicolon (u ∷ ts)

abbrev pub read_only_controls : List Text
read_only_controls =
    chars "SET TRANSACTION ISOLATION LEVEL REPEATABLE READ"
    ∷ chars "SET TRANSACTION READ ONLY"
    ∷ chars "START TRANSACTION WITH CONSISTENT SNAPSHOT"
    ∷ chars "START TRANSACTION WITH CONSISTENT SNAPSHOT , READ ONLY"
    ∷ chars "START TRANSACTION READ ONLY"
    ∷ chars "ROLLBACK"
    ∷ []

abbrev pub query_verbs : List Text
query_verbs = map chars ("SELECT" ∷ "WITH" ∷ "SHOW" ∷ "DESCRIBE" ∷ "DESC" ∷ [])

abbrev pub prohibited : List Text
prohibited = map chars (
    "INSERT" ∷ "UPDATE" ∷ "DELETE" ∷ "REPLACE" ∷ "CREATE" ∷ "ALTER" ∷ "DROP" ∷ "TRUNCATE" ∷ "GRANT"
    ∷ "REVOKE" ∷ "CALL" ∷ "INTO" ∷ "OUTFILE" ∷ "DUMPFILE" ∷ "GET_LOCK" ∷ "RELEASE_LOCK"
    ∷ "RELEASE_ALL_LOCKS" ∷ [])

abbrev pub locking_phrases : List Text
locking_phrases = map chars ("FOR SHARE" ∷ "LOCK IN SHARE MODE" ∷ ": =" ∷ [])

abbrev pub head_in : List Text → List Text → Bool
head_in options [] = false
head_in options (t ∷ ts) = one_of options t

-- The checks on the tokens, with `normalized` as the joined text.
unfoldable pub check_normalized : Text → List Text → Checked (Unit {0})
check_normalized normalized ts =
    if one_of read_only_controls normalized
    then ok tt
    else if not (head_in query_verbs ts)
    then refused non_query
    else if any (one_of prohibited) ts || any (λ phrase. contains phrase normalized) locking_phrases
    then refused modifying
    else ok tt

abbrev pub is_nil : List Text → Bool
is_nil [] = true
is_nil (t ∷ ts) = false

unfoldable pub check_tokens : List Text → Checked (Unit {0})
unfolding check_normalized
check_tokens ts =
    if is_nil ts || one_of ts (chars ";")
    then refused one_statement
    else check_normalized (join (chars " ") ts) ts

abbrev pub and_check : Checked (List Text) → Checked (Unit {0})
and_check (ok ts) = check_tokens (drop_semicolon ts)
and_check (refused r) = refused r

unfoldable pub require_read_only_sql : Text → Checked (Unit {0})
unfolding tokens_of drop_semicolon check_tokens
require_read_only_sql query = and_check (tokens_of query)
