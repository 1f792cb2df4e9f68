-- ===== src/Db/SqlGuard/Comments.antt =====
-- What the lexer of the read-only guard makes of comments.
use quest_test.Prelude.{
  ℕ, is_space, or_false, not-true, ◌≡◌, refl, ap, ◌∙◌, List, [], ◌∷◌, ◌++◌, append_assoc, some,
  true, false, not, ◌&&◌, arith, ◌==◌, all, any, Text, chars, and_true, starts_with,
  starts_with-append, contains, Bool-cases, inl, inr, one_of, text_eq, text_eq_sound,
}
use quest_test.Db.SqlGuard.{
  comment, executable, Checked, refused, executable_comment, next_part, next_slash, next_block,
  next_dash, at_space, after_block, after_line, collect, tokens_of,
}
use quest_test.Db.SqlGuard.Reading.{tokens-step, behind}

-- A block comment has an end where the text holds one.
after_block-ends :
    (body rest : Text) → (left : Text) × (after_block (body ++ (b'*' ∷ b'/' ∷ rest)) ≡ some left)
unfolding after_block
after_block-ends [] rest = (rest, refl)
after_block-ends (c ∷ []) rest = elim (Bool-cases (c == b'*' && b'*' == b'/')) [
  | inl e ↦ (b'/' ∷ rest, rw e)
  | inr e ↦ (rest, rw e)
]
after_block-ends (c ∷ d ∷ body) rest = elim (Bool-cases (c == b'*' && d == b'/')) [
  | inl e ↦ (body ++ (b'*' ∷ b'/' ∷ rest), rw e)
  | inr e ↦ let (left, found) = after_block-ends (d ∷ body) rest in (left, rw e found)
]

-- The marks of a comment that the server runs.
abbrev pub marks : List Text
marks = chars "!" ∷ chars "M!" ∷ chars "m!" ∷ []

starts_with-any :
    (options : List Text) (mark s : Text)
    → one_of options mark ≡ true
    → any (λ m. starts_with m (mark ++ s)) options ≡ true
starts_with-any [] mark s h = h
starts_with-any (o ∷ options) mark s h = elim (Bool-cases (text_eq mark o)) [
  | inl same ↦ rw (← text_eq_sound mark o same, starts_with-append mark s)
  | inr other ↦ ground (arith, starts_with-any options mark s (rw other at h))
]

next_block-executable :
    (mark body rest : Text)
    → one_of marks mark ≡ true
    → (next_block (mark ++ (body ++ (b'*' ∷ b'/' ∷ rest)))).0 ≡ executable
unfolding next_block
next_block-executable mark body rest known =
    let behind_mark = body ++ (b'*' ∷ b'/' ∷ rest) in
    let (left, ends) = after_block-ends (mark ++ body) rest in
    let found : after_block (mark ++ behind_mark) ≡ some left =
      rw (append_assoc mark body (b'*' ∷ b'/' ∷ rest)) at ends in
    rw (next_block, found, starts_with-any marks mark behind_mark known)

executable_refused : (r : Checked (List Text)) → behind executable r ≡ refused executable_comment
unfolding collect
executable_refused r = refl

-- A comment that the server runs is refused, whatever it holds and whatever follows it.
pub tokens_of-executable :
    (mark body rest : Text)
    → one_of marks mark ≡ true
    → tokens_of (b'/' ∷ (b'*' ∷ (mark ++ (body ++ (b'*' ∷ b'/' ∷ rest)))))
      ≡ refused executable_comment
tokens_of-executable mark body rest known =
    let inner = mark ++ (body ++ (b'*' ∷ b'/' ∷ rest)) in
    let first : (next_part b'/' (b'*' ∷ inner)).0 ≡ executable =
      (unfold next_part next_slash in next_block-executable mark body rest known) in
    tokens-step b'/' (b'*' ∷ inner)
    ∙ ap (λ p. behind p (tokens_of (next_part b'/' (b'*' ∷ inner)).1)) first
    ∙ executable_refused (tokens_of (next_part b'/' (b'*' ∷ inner)).1)

after_block-plain :
    (body rest : Text)
    → contains (chars "*/") body ≡ false
    → after_block (body ++ (b'*' ∷ b'/' ∷ rest)) ≡ some rest
unfolding after_block
after_block-plain [] rest h = refl
after_block-plain (c ∷ []) rest h = ground arith
after_block-plain (c ∷ d ∷ body) rest h =
    let (apart, later) =
      or_false (starts_with (chars "*/") (c ∷ d ∷ body)) (contains (chars "*/") (d ∷ body)) h in
    let here : (c == b'*' && d == b'/') ≡ false = ground (arith, apart) in
    rw (here, after_block-plain (d ∷ body) rest later)

unmarked :
    (body rest : Text)
    → any (λ m. starts_with m body) marks ≡ false
    → any (λ m. starts_with m (body ++ (b'*' ∷ b'/' ∷ rest))) marks ≡ false
unmarked [] rest h = refl
unmarked (c ∷ []) rest h = ground (arith, h)
unmarked (c ∷ d ∷ body) rest h = h

tokens_of-block :
    (body rest : Text)
    → contains (chars "*/") body ≡ false
    → any (λ m. starts_with m body) marks ≡ false
    → tokens_of (b'/' ∷ (b'*' ∷ (body ++ (b'*' ∷ b'/' ∷ rest)))) ≡ tokens_of rest
tokens_of-block body rest whole plain =
    tokens-step b'/' (b'*' ∷ (body ++ (b'*' ∷ b'/' ∷ rest)))
    ∙ (unfold next_part next_slash in
        rw (next_block, after_block-plain body rest whole, unmarked body rest plain))

after_line-plain :
    (line rest : Text)
    → all (λ c. not (c == 10)) line ≡ true
    → after_line (line ++ (10 ∷ rest)) ≡ 10 ∷ rest
unfolding after_line
after_line-plain [] rest h = refl
after_line-plain (c ∷ line) rest h =
    let (other, later) = and_true (not (c == 10)) _ h in
    rw (not-true (c == 10) other, after_line-plain line rest later)

tokens_of-newline : (rest : Text) → tokens_of (10 ∷ rest) ≡ tokens_of rest
tokens_of-newline rest = tokens-step 10 rest ∙ (unfold next_part in refl)

next_part-hash : (s : Text) → next_part b'#' s ≡ (comment, after_line s)
unfolding next_part
next_part-hash s = refl

-- The rest of a line that a comment leaves.
tokens_of-line :
    (c : ℕ) (s line rest : Text)
    → next_part c s ≡ (comment, after_line (line ++ (10 ∷ rest)))
    → all (λ d. not (d == 10)) line ≡ true
    → tokens_of (c ∷ s) ≡ tokens_of rest
tokens_of-line c s line rest reads h =
    tokens-step c s
    ∙ ap (λ x. behind x.0 (tokens_of x.1)) reads
    ∙ ap tokens_of (after_line-plain line rest h)
    ∙ tokens_of-newline rest

next_part-dash :
    (c : ℕ) (s : Text)
    → is_space c ≡ true
    → next_part b'-' (b'-' ∷ (c ∷ s)) ≡ (comment, after_line (c ∷ s))
next_part-dash c s h = unfold next_part next_dash at_space in rw h

-- A comment with its end: a block that is not marked to be run by the server, or a line that `#`
-- or `--` and a space begin.
pub data Comment : Text → Type 0 where
  block_comment :
      (body : Text)
      → contains (chars "*/") body ≡ false
      → any (λ m. starts_with m body) marks ≡ false
      → Comment (chars "/*" ++ (body ++ chars "*/"))
  hash_comment :
      (line : Text)
      → all (λ c. not (c == 10)) line ≡ true
      → Comment (chars "#" ++ (line ++ (10 ∷ [])))
  dash_comment :
      (c : ℕ) (line : Text)
      → is_space c ≡ true
      → all (λ d. not (d == 10)) (c ∷ line) ≡ true
      → Comment (chars "--" ++ ((c ∷ line) ++ (10 ∷ [])))

-- A comment is no token and hides none: with its end taken from the front of a text, it leaves the
-- tokens of the text as they are, whatever it holds.
pub tokens_of-Comment :
    (text rest : Text) → Comment text → tokens_of (text ++ rest) ≡ tokens_of rest
tokens_of-Comment text rest (block_comment body whole plain) =
    rw (append_assoc body (chars "*/") rest) (tokens_of-block body rest whole plain)
tokens_of-Comment text rest (hash_comment line h) =
    rw (append_assoc line (10 ∷ []) rest)
      (tokens_of-line b'#' (line ++ (10 ∷ rest)) line rest (next_part-hash _) h)
tokens_of-Comment text rest (dash_comment c line space h) = rw (append_assoc line (10 ∷ []) rest) (
    tokens_of-line b'-' (b'-' ∷ (c ∷ (line ++ (10 ∷ rest)))) (c ∷ line) rest
      (next_part-dash c (line ++ (10 ∷ rest)) space) h)
