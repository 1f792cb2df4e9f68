-- ===== src/Db/SqlGuard/Lexing.antt =====
-- The lexer of the read-only guard: every part is consumed within the fuel, and what it reads.
use quest_test.Prelude.{
  ℕ, zero, suc, ◌≤◌, ◌≡◌, refl, ap, [], ◌∷◌, Option, none, some, Bool, true, false, ◌&&◌, ◌||◌,
  arith, ◌==◌, length, if_ind, or_else, Text, is_space,
}
use quest_test.Db.SqlGuard.{
  Part, quoted, is_word_start, after_quoted, after_block, after_line, word_tail, next_quoted,
  next_slash, next_dash, next_part, find_parts,
}

-- What is left has at most `n` characters.
abbrev LeavesAtMost : ℕ → Option Text → Type 0
LeavesAtMost n none = Unit
LeavesAtMost n (some s) = length s ≤ n

or_else-LeavesAtMost :
    (n : ℕ) (o p : Option Text) → LeavesAtMost n o → LeavesAtMost n p → LeavesAtMost n (or_else o p)
or_else-LeavesAtMost n none p ho hp = hp
or_else-LeavesAtMost n (some s) p ho hp = ho

after_quoted-LeavesAtMost :
    (e : Bool) (q n : ℕ) (s : Text) → length s ≤ n → LeavesAtMost n (after_quoted e q s)
unfolding after_quoted
after_quoted-LeavesAtMost e q n [] h = tt
after_quoted-LeavesAtMost e q n (c ∷ []) h = ground arith
after_quoted-LeavesAtMost e q n (c ∷ d ∷ s) h =
    if_ind (LeavesAtMost n) (c == q)
      (λ _.
        if_ind (LeavesAtMost n) (d == q)
          (λ _.
            or_else-LeavesAtMost n (after_quoted e q s) _
              (after_quoted-LeavesAtMost e q n s (omega arith)) (omega arith))
          (λ _. omega arith))
      (λ _.
        if_ind (LeavesAtMost n) (e && c == 0x5c)
          (λ _. after_quoted-LeavesAtMost e q n s (omega arith))
          (λ _. after_quoted-LeavesAtMost e q n (d ∷ s) (omega arith)))

after_block-LeavesAtMost : (n : ℕ) (s : Text) → length s ≤ n → LeavesAtMost n (after_block s)
unfolding after_block
after_block-LeavesAtMost n [] h = tt
after_block-LeavesAtMost n (c ∷ []) h = tt
after_block-LeavesAtMost n (c ∷ d ∷ s) h =
    ground (arith, after_block-LeavesAtMost n (d ∷ s) (omega arith))

after_line-le : (s : Text) → length (after_line s) ≤ length s
unfolding after_line
after_line-le [] = omega arith
after_line-le (c ∷ s) = ground (arith, after_line-le s)

word_tail-le : (s : Text) → length (word_tail s) ≤ length s
unfolding word_tail
word_tail-le [] = omega arith
word_tail-le (c ∷ s) = ground (arith, word_tail-le s)

abbrev pub IsLeft : ℕ → Part × Text → Type 0
IsLeft n r = length r.1 ≤ n

next_quoted-IsLeft : (e : Bool) (q : ℕ) (s : Text) → IsLeft (length s) (next_quoted e q s)
unfolding next_quoted
next_quoted-IsLeft e q s =
    split (after_quoted e q s) (after_quoted-LeavesAtMost e q _ s (omega arith))
  where
    split :
        (o : Option Text)
        → LeavesAtMost (length s) o
        → IsLeft (length s) (elim o [ none ↦ (quoted, s) | some rest ↦ (quoted, rest) ])
    split none h = omega arith
    split (some rest) h = h

next_slash-le : (s : Text) → length (next_slash s).1 ≤ length s
unfolding next_slash
next_slash-le [] = omega arith
next_slash-le (c ∷ s) = ground (arith, after_block-LeavesAtMost (length s) s (omega arith))

next_dash-le : (s : Text) → length (next_dash s).1 ≤ length s
unfolding next_dash
next_dash-le [] = omega arith
next_dash-le (c ∷ s) = ground (arith, after_line-le s)

pub next_part-IsLeft : (c : ℕ) (s : Text) → IsLeft (length s) (next_part c s)
unfolding next_part
next_part-IsLeft c s =
    if_ind P (c == 0x27 || c == 0x22) (λ _. next_quoted-IsLeft true c s)
      λ _.
        if_ind P (c == 0x60) (λ _. next_quoted-IsLeft false c s)
          λ _.
            if_ind P (c == b'/') (λ _. next_slash-le s)
              λ _.
                if_ind P (c == b'-') (λ _. next_dash-le s)
                  λ _.
                    if_ind P (c == b'#') (λ _. after_line-le s)
                      λ _.
                        if_ind P (is_word_start c) (λ _. word_tail-le s)
                          λ _. if_ind P (is_space c) (λ _. omega arith) (λ _. omega arith)
  where
    P : Part × Text → Type 0
    P = IsLeft (length s)

-- Any fuel that reaches the length of the text gives the same parts.
pub find_parts_fuel :
    (f g : ℕ) (s : Text) → length s ≤ f → length s ≤ g → find_parts f s ≡ find_parts g s
unfolding find_parts
find_parts_fuel zero zero [] hf hg = refl
find_parts_fuel zero (suc g) [] hf hg = refl
find_parts_fuel (suc f) zero [] hf hg = refl
find_parts_fuel (suc f) (suc g) [] hf hg = refl
find_parts_fuel zero g (c ∷ s) hf hg = absurd (omega arith)
find_parts_fuel (suc f) zero (c ∷ s) hf hg = absurd (omega arith)
find_parts_fuel (suc f) (suc g) (c ∷ s) hf hg =
    let shorter = next_part-IsLeft c s in
    ap (λ ps. (next_part c s).0 ∷ ps)
      (find_parts_fuel f g (next_part c s).1 (omega arith) (omega arith))
