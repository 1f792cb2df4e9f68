-- ===== src/Db/SqlGuard/Reading.antt =====
-- What the lexer of the read-only guard reads: quoted parts and lists of words.
use mathlib.Core.List.{append-nil}
use quest_test.Prelude.{
  ℕ, ◌≡◌, refl, ap, ◌∙◌, List, [], ◌∷◌, ◌++◌, map, some, Bool, true, false, not, ◌&&◌, ◌||◌, arith,
  ◌==◌, length, all, Text, chars, upper, join, and_true, not-true, ==_refl,
}
use quest_test.Db.SqlGuard.{
  Part, blank, comment, executable, quoted, word, Checked, ok, is_word_start, is_word_char,
  after_quoted, word_head, word_tail, next_quoted, next_part, find_parts, add_token, collect,
  tokens_of,
}
use quest_test.Db.SqlGuard.Lexing.{next_part-IsLeft, find_parts_fuel}

-- The tokens behind one part.
abbrev pub behind : Part → Checked (List Text) → Checked (List Text)
behind p r = elim p [
  | blank ↦ r
  | comment ↦ r
  | executable ↦ collect (executable ∷ [])
  | quoted ↦ add_token (chars "<quoted>") r
  | word w ↦ add_token (upper w) r
]

collect-cons : (p : Part) (ps : List Part) → collect (p ∷ ps) ≡ behind p (collect ps)
unfolding collect
collect-cons blank ps = refl
collect-cons comment ps = refl
collect-cons executable ps = refl
collect-cons quoted ps = refl
collect-cons (word w) ps = refl

-- The parts of a text are its first part and the parts of what is behind it.
pub tokens-step :
    (c : ℕ) (s : Text) → tokens_of (c ∷ s) ≡ behind (next_part c s).0 (tokens_of (next_part c s).1)
unfolding tokens_of find_parts
tokens-step c s =
    let (p, rest) = next_part c s in
    let shorter = next_part-IsLeft c s in
    collect-cons p (find_parts (length s) rest)
    ∙ ap (λ ps. behind p (collect ps))
        (find_parts_fuel (length s) (length rest) rest (omega arith) (omega arith))

-- A character that neither ends a quoted part nor escapes the next one.
abbrev pub is_plain : Bool → ℕ → ℕ → Bool
is_plain escapes q c = not (c == q) && not (escapes && c == 0x5c)

-- The text does not go on with the character.
abbrev pub goes_on_with : ℕ → Text → Bool
goes_on_with q [] = false
goes_on_with q (c ∷ s) = c == q

after_quoted-step :
    (e : Bool) (q c d : ℕ) (s : Text)
    → is_plain e q c ≡ true
    → after_quoted e q (c ∷ d ∷ s) ≡ after_quoted e q (d ∷ s)
unfolding after_quoted
after_quoted-step e q c d s h =
    let (other, unescaped) = and_true (not (c == q)) (not (e && c == 0x5c)) h in
    rw (not-true (c == q) other, not-true (e && c == 0x5c) unescaped)

after_quoted-end :
    (e : Bool) (q : ℕ) (rest : Text)
    → goes_on_with q rest ≡ false
    → after_quoted e q (q ∷ rest) ≡ some rest
unfolding after_quoted
after_quoted-end e q [] h = rw (==_refl q)
after_quoted-end e q (d ∷ s) h = rw (==_refl q, h)

after_quoted-plain :
    (e : Bool) (q : ℕ) (body rest : Text)
    → all (is_plain e q) body ≡ true
    → goes_on_with q rest ≡ false
    → after_quoted e q (body ++ (q ∷ rest)) ≡ some rest
after_quoted-plain e q [] rest h g = after_quoted-end e q rest g
after_quoted-plain e q (c ∷ []) rest h g =
    after_quoted-step e q c q rest (and_true _ _ h).0 ∙ after_quoted-end e q rest g
after_quoted-plain e q (c ∷ d ∷ body) rest h g =
    after_quoted-step e q c d (body ++ (q ∷ rest)) (and_true _ _ h).0
    ∙ after_quoted-plain e q (d ∷ body) rest (and_true _ _ h).1 g

-- A text between single quotes is one opaque token, whatever words, comments or semicolons stand
-- in it, as long as it holds no quote and no backslash and no quote follows it.
pub tokens_of-quoted :
    (body rest : Text)
    → all (is_plain true 0x27) body ≡ true
    → goes_on_with 0x27 rest ≡ false
    → tokens_of (0x27 ∷ (body ++ (0x27 ∷ rest))) ≡ add_token (chars "<quoted>") (tokens_of rest)
tokens_of-quoted body rest h g =
    tokens-step 0x27 (body ++ (0x27 ∷ rest))
    ∙ (unfold next_part in rw (after_quoted-plain true 0x27 body rest h g, next_quoted))

abbrev pub is_identifier : Text → Bool
is_identifier [] = false
is_identifier (c ∷ s) = is_word_start c && all is_word_char s

-- No word goes on at the start of the text.
abbrev pub IsBreak : Text → Type 0
IsBreak s = (word_head s ≡ []) × (word_tail s ≡ s)

IsBreak-nil : IsBreak []
unfolding word_head word_tail
IsBreak-nil = (refl, refl)

pub IsBreak-space : (s : Text) → IsBreak (32 ∷ s)
unfolding word_head word_tail is_word_char
IsBreak-space s = (refl, refl)

word_head-append :
    (w r : Text)
    → all is_word_char w ≡ true
    → IsBreak r
    → (word_head (w ++ r) ≡ w) × (word_tail (w ++ r) ≡ r)
unfolding word_head word_tail
word_head-append [] r h b = b
word_head-append (c ∷ w) r h b =
    let (start, more) = and_true (is_word_char c) (all is_word_char w) h in
    let (same, rest) = word_head-append w r more b in (rw (start, same), rw (start, rest))

word_start-ne :
    (c : ℕ)
    → is_word_start c ≡ true
    → ((c == 0x27 || c == 0x22) ≡ false)
      × ((c == 0x60) ≡ false)
      × ((c == b'/') ≡ false)
      × ((c == b'-') ≡ false)
      × ((c == b'#') ≡ false)
unfolding is_word_start
word_start-ne c h = (ground arith, ground arith, ground arith, ground arith, ground arith)

next_part-word :
    (c : ℕ) (s : Text)
    → is_word_start c ≡ true
    → next_part c s ≡ (word (c ∷ word_head s), word_tail s)
next_part-word c s h =
    let (quotes, backtick, slash, dash, hash) = word_start-ne c h in
    unfold next_part in rw (quotes, backtick, slash, dash, hash, h)

next_part-space : (s : Text) → next_part 32 s ≡ (blank, s)
unfolding next_part
next_part-space s = refl

pub tokens_of-space : (s : Text) → tokens_of (32 ∷ s) ≡ tokens_of s
tokens_of-space s = tokens-step 32 s ∙ rw (next_part-space s)

pub tokens_of-identifier :
    (w r : Text)
    → is_identifier w ≡ true
    → IsBreak r
    → tokens_of (w ++ r) ≡ add_token (upper w) (tokens_of r)
tokens_of-identifier [] r h b = ground arith
tokens_of-identifier (c ∷ w) r h b =
    let (start, more) = and_true (is_word_start c) (all is_word_char w) h in
    let (same, rest) = word_head-append w r more b in
    tokens-step c (w ++ r) ∙ rw (next_part-word c (w ++ r) start, same, rest)

-- Identifiers and keywords that single spaces separate are read as they stand, in capitals.
pub tokens_of-join :
    (ws : List Text)
    → all is_identifier ws ≡ true
    → tokens_of (join (chars " ") ws) ≡ ok (map upper ws)
tokens_of-join [] h = unfold tokens_of in refl
tokens_of-join (w ∷ []) h =
    let (first, _) = and_true (is_identifier w) true h in
    rw (append-nil w) at (tokens_of-identifier w [] first IsBreak-nil) ∙ (unfold tokens_of in refl)
tokens_of-join (w ∷ v ∷ ws) h =
    let (first, others) = and_true (is_identifier w) (all is_identifier (v ∷ ws)) h in
    tokens_of-identifier w (32 ∷ join (chars " ") (v ∷ ws)) first (IsBreak-space _)
    ∙ ap (add_token (upper w))
        (tokens_of-space (join (chars " ") (v ∷ ws)) ∙ tokens_of-join (v ∷ ws) others)
