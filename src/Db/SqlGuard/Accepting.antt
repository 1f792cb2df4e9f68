-- ===== src/Db/SqlGuard/Accepting.antt =====
-- Queries that the read-only guard accepts.
use mathlib.Core.List.{map, Memᴰ}
use quest_test.Prelude.{
  ap, ◌++◌, ℕ, ◌==◌, ◌&&◌, and_true, upper_char, ◌∙◌, ◌≡◌, refl, List, [], ◌∷◌, Bool, true, false,
  not, ◌||◌, arith, if◌then◌else◌, any, all, Text, chars, text_eq, one_of, contains, join, upper,
}
use quest_test.Db.SqlGuard.{
  accepted, non_query, modifying, ok, refused, one_statement, drop_semicolon, read_only_controls,
  query_verbs, prohibited, locking_phrases, head_in, check_tokens, tokens_of, require_read_only_sql,
  is_nil, and_check, is_word_start, is_word_char,
}
use quest_test.Db.SqlGuard.Reading.{is_identifier}
use mathlib.Core.List.{append-nil}
use quest_test.Db.SqlGuard.Reading.{tokens_of-join}
use quest_test.Db.SqlGuard.Queries.{semicolon_tokens}
use quest_test.Db.SqlGuard.Refusals.{changing, one_of_mem}

-- The guard's conditions for acceptance, as variables.
query_accepted :
    (empty control verb banned phrase : Bool)
    → empty ≡ false
    → verb ≡ true
    → (banned || phrase) ≡ false
    → (if empty
        then refused one_statement
        else if control
        then accepted
        else if not verb
        then refused non_query
        else if banned || phrase
        then refused modifying
        else accepted)
      ≡ accepted
query_accepted empty control verb banned phrase h k l = ground arith

-- What begins a query.
abbrev pub verbs : List Text
verbs = chars "SELECT" ∷ chars "WITH" ∷ chars "SHOW" ∷ chars "DESCRIBE" ∷ chars "DESC" ∷ []

-- Nothing, or a semicolon and blanks or comments.
pub data Ending : Text → Type 0 where
  no_end : Ending []
  semicolon_end : (rest : Text) → tokens_of rest ≡ ok [] → Ending (b';' ∷ rest)

-- Only characters that hold for the test.
abbrev Only : (ℕ → Bool) → Text → Type 0
Only test s = all test s ≡ true

abbrev is_no_mark : ℕ → Bool
is_no_mark c = not (c == b';' || c == b':')

upper_char_no_mark : (c : ℕ) → is_word_char c ≡ true → is_no_mark (upper_char c) ≡ true
unfolding is_word_char is_word_start
upper_char_no_mark c h = ground arith

upper_no_mark : (w : Text) → all is_word_char w ≡ true → Only is_no_mark (upper w)
upper_no_mark [] h = refl
upper_no_mark (c ∷ w) h =
    let (first, later) = and_true _ _ h in rw (upper_char_no_mark c first, upper_no_mark w later)

identifier_no_mark : (w : Text) → is_identifier w ≡ true → Only is_no_mark (upper w)
identifier_no_mark [] h = refl
identifier_no_mark (c ∷ w) h =
    let (first, later) = and_true (is_word_start c) _ h in
    upper_no_mark (c ∷ w) (rw later (start_is_char c first))
  where
    start_is_char : (c : ℕ) → is_word_start c ≡ true → (is_word_char c && true) ≡ true
    start_is_char c h = unfold is_word_char in ground (arith, h)

Only-append : (test : ℕ → Bool) (s t : Text) → Only test s → Only test t → Only test (s ++ t)
Only-append test [] t h k = k
Only-append test (c ∷ s) t h k =
    let (first, later) = and_true (test c) (all test s) h in
    rw (first, Only-append test s t later k)

words_no_mark :
    (ws : List Text)
    → all is_identifier ws ≡ true
    → Only is_no_mark (join (chars " ") (map upper ws))
words_no_mark [] h = refl
words_no_mark (w ∷ []) h = identifier_no_mark w (and_true _ _ h).0
words_no_mark (w ∷ v ∷ ws) h =
    let (first, later) = and_true (is_identifier w) _ h in
    Only-append is_no_mark (upper w) _ (identifier_no_mark w first) (words_no_mark (v ∷ ws) later)

-- A text of other characters does not contain what begins with a colon.
no_colon : (p s : Text) → Only is_no_mark s → contains (b':' ∷ p) s ≡ false
no_colon p [] h = refl
no_colon p (c ∷ s) h =
    let (first, later) = and_true (is_no_mark c) _ h in
    let other : (c == b':') ≡ false = ground (arith, first) in rw (other, no_colon p s later)

-- A capitalised identifier is no semicolon.
no_semicolon_word :
    (w : Text)
    → is_identifier w ≡ true
    → (text_eq (upper w) (chars ";") ≡ false) × (text_eq (chars ";") (upper w) ≡ false)
no_semicolon_word [] h = ground arith
no_semicolon_word (c ∷ w) h =
    let (first, later) = and_true (is_no_mark (upper_char c)) _ (identifier_no_mark (c ∷ w) h) in
    apart (upper_char c) (upper w) first
  where
    apart :
        (d : ℕ) (t : Text)
        → is_no_mark d ≡ true
        → (text_eq (d ∷ t) (chars ";") ≡ false) × (text_eq (chars ";") (d ∷ t) ≡ false)
    apart d t h = (ground (arith, h), ground (arith, h))

no_semicolon :
    (ws : List Text) → all is_identifier ws ≡ true → one_of (map upper ws) (chars ";") ≡ false
no_semicolon [] h = refl
no_semicolon (w ∷ ws) h =
    let (first, later) = and_true (is_identifier w) _ h in
    rw ((no_semicolon_word w first).1, no_semicolon ws later)

-- Dropping a last semicolon leaves words as they are.
drop_semicolon-words :
    (ws : List Text) → all is_identifier ws ≡ true → drop_semicolon (map upper ws) ≡ map upper ws
unfolding drop_semicolon
drop_semicolon-words [] h = refl
drop_semicolon-words (w ∷ []) h = rw (no_semicolon_word w (and_true _ _ h).0).0
drop_semicolon-words (w ∷ v ∷ ws) h =
    ap (λ ts. upper w ∷ ts) (drop_semicolon-words (v ∷ ws) (and_true _ _ h).1)

drop_semicolon-last : (ts : List Text) → drop_semicolon (ts ++ (chars ";" ∷ [])) ≡ ts
unfolding drop_semicolon
drop_semicolon-last [] = refl
drop_semicolon-last (t ∷ []) = refl
drop_semicolon-last (t ∷ u ∷ ts) = ap (λ more. t ∷ more) (drop_semicolon-last (u ∷ ts))

-- The check of words, with an ending or none.
checked_words :
    (ws : List Text) (ending : Text)
    → all is_identifier ws ≡ true
    → Ending ending
    → require_read_only_sql (join (chars " ") ws ++ ending) ≡ check_tokens (map upper ws)
unfolding require_read_only_sql
checked_words ws ending words no_end =
    ap and_check (ap tokens_of (append-nil (join (chars " ") ws)) ∙ tokens_of-join ws words)
    ∙ ap check_tokens (drop_semicolon-words ws words)
checked_words ws ending words (semicolon_end rest blank_rest) =
    ap and_check (semicolon_tokens ws rest [] words blank_rest)
    ∙ ap check_tokens (drop_semicolon-last (map upper ws))

-- A query of words that single spaces separate, the first one SELECT, WITH, SHOW, DESCRIBE or DESC in
-- any mix of cases, is accepted, also with a semicolon behind it and blanks or comments behind that,
-- if in capitals no word of it is one that changes data and it does not hold `FOR SHARE` or
-- `LOCK IN SHARE MODE`.
pub require_read_only_sql-query :
    (verb : Text) (ws : List Text) (ending : Text)
    → all is_identifier (verb ∷ ws) ≡ true
    → Ending ending
    → Memᴰ (upper verb) verbs
    → any (one_of changing) (map upper (verb ∷ ws)) ≡ false
    → contains (chars "FOR SHARE") (join (chars " ") (map upper (verb ∷ ws))) ≡ false
    → contains (chars "LOCK IN SHARE MODE") (join (chars " ") (map upper (verb ∷ ws))) ≡ false
    → require_read_only_sql (join (chars " ") (verb ∷ ws) ++ ending) ≡ accepted
unfolding check_tokens
require_read_only_sql-query verb ws ending words end first clean share lock =
    let ts = map upper (verb ∷ ws) in
    let colon : contains (chars ": =") (join (chars " ") (map upper (verb ∷ ws))) ≡ false =
      no_colon (chars " =") (join (chars " ") (map upper (verb ∷ ws)))
        (words_no_mark (verb ∷ ws) words) in
    checked_words (verb ∷ ws) ending words end
    ∙ query_accepted (is_nil ts || one_of ts (chars ";"))
        (one_of read_only_controls (join (chars " ") ts)) (head_in query_verbs ts)
        (any (one_of prohibited) ts)
        (any (λ phrase. contains phrase (join (chars " ") ts)) locking_phrases)
        (no_semicolon (verb ∷ ws) words) (one_of_mem (upper verb) verbs first)
        (rw (clean, share, lock, colon))
