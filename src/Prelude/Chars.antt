-- ===== src/Prelude/Chars.antt =====
-- Text that the program walks: a list of code points. Python's `str` methods that the code calls,
-- on the characters that it tests for; letters outside ASCII keep their case.
use Prim.Native.Nat.{ℕ, ◌+◌, ◌-◌}
use Prim.Native.Char.{code}
use Prim.Native.String.{String}
use mathlib.Core.Path.{◌≡◌, refl}
use mathlib.Core.Logic.{inl, inr}
use mathlib.Core.Option.{Option, none, some}
use mathlib.Core.Bool.{Bool, true, false, ◌&&◌, ◌||◌}
use mathlib.Core.List.{List, [], ◌∷◌, ◌++◌, map, reverse, append-nil}
use native.Mathlib.Omega.{arith}
use quest_test.Prelude.Tests.{leb, ◌==◌, if◌then◌else◌, ==_iff, Bool-cases}
use quest_test.Prelude.Lists.{any}

abbrev pub Text : Type 0
Text = List ℕ

abbrev pub chars : String → Text
chars String.[] = []
chars (String.◌∷◌ c s) = code c ∷ chars s

abbrev pub text_eq : Text → Text → Bool
text_eq [] [] = true
text_eq [] (d ∷ t) = false
text_eq (c ∷ s) [] = false
text_eq (c ∷ s) (d ∷ t) = c == d && text_eq s t

pub text_eq_sound : (s t : Text) → text_eq s t ≡ true → s ≡ t
text_eq_sound [] [] h = refl
text_eq_sound [] (d ∷ t) h = ground arith
text_eq_sound (c ∷ s) [] h = ground arith
text_eq_sound (c ∷ s) (d ∷ t) h = ground (arith, ==_iff c d, text_eq_sound s t)

pub text_eq_refl : (s : Text) → text_eq s s ≡ true
text_eq_refl [] = refl
text_eq_refl (c ∷ s) = ground (arith, text_eq_refl s)

-- `s.replace("-", "_").replace(" ", "_")`, at one character
abbrev pub replace_char : ℕ → ℕ
replace_char c = if c == b'-' || c == 32 then b'_' else c

-- `s in {...}`
abbrev pub one_of : List Text → Text → Bool
one_of options s = any (λ option. text_eq s option) options

abbrev pub or_else : Option Text → Option Text → Option Text
or_else none o = o
or_else (some s) o = some s

-- `str.isspace` of one character.
abbrev pub is_space : ℕ → Bool
is_space c =
    leb 9 c && leb c 13
    || leb 28 c && leb c 32
    || any (λ d. c == d) (133 ∷ 160 ∷ 5760 ∷ 8232 ∷ 8233 ∷ 8239 ∷ 8287 ∷ 12288 ∷ [])
    || leb 8192 c && leb c 8202

abbrev pub upper_char : ℕ → ℕ
upper_char c = if leb b'a' c && leb c b'z' then c - 32 else c

abbrev pub lower_char : ℕ → ℕ
lower_char c = if leb b'A' c && leb c b'Z' then c + 32 else c

abbrev pub upper : Text → Text
upper = map upper_char

abbrev pub lower : Text → Text
lower = map lower_char

abbrev pub strip_left : (ℕ → Bool) → Text → Text
strip_left drops [] = []
strip_left drops (c ∷ s) = if drops c then strip_left drops s else c ∷ s

-- `s.rstrip(...)`
abbrev pub strip_right : (ℕ → Bool) → Text → Text
strip_right drops s = reverse (strip_left drops (reverse s))

-- `s.strip()`
abbrev pub strip : Text → Text
strip s = strip_right is_space (strip_left is_space s)

-- `s.startswith(p)`
abbrev pub starts_with : Text → Text → Bool
starts_with [] s = true
starts_with (d ∷ p) [] = false
starts_with (d ∷ p) (c ∷ s) = c == d && starts_with p s

-- `p in s`
abbrev pub contains : Text → Text → Bool
contains p [] = starts_with p []
contains p (c ∷ s) = starts_with p (c ∷ s) || contains p s

-- `separator.join(parts)`
abbrev pub join : Text → List Text → Text
join separator [] = []
join separator (p ∷ []) = p
join separator (p ∷ q ∷ rest) = p ++ (separator ++ join separator (q ∷ rest))

pub starts_with-append : (p s : Text) → starts_with p (p ++ s) ≡ true
starts_with-append [] s = refl
starts_with-append (c ∷ p) s = ground (arith, starts_with-append p s)

pub contains_of_prefix : (p s : Text) → starts_with p s ≡ true → contains p s ≡ true
contains_of_prefix p [] h = h
contains_of_prefix p (c ∷ s) h = ground arith

pub contains-append : (p a s : Text) → contains p s ≡ true → contains p (a ++ s) ≡ true
contains-append p [] s h = h
contains-append p (c ∷ a) s h = ground (arith, contains-append p a s h)

-- A part of a joined text occurs in it.
pub contains-join :
    (p separator : Text) (parts : List Text)
    → one_of parts p ≡ true
    → contains p (join separator parts) ≡ true
contains-join p separator [] h = ground arith
contains-join p separator (q ∷ []) h =
    let e : p ≡ q = text_eq_sound p q (ground arith) in
    rw (← e) (contains_of_prefix p p (rw (append-nil p) at (starts_with-append p [])))
contains-join p separator (q ∷ r ∷ rest) h = elim (Bool-cases (text_eq p q)) [
  | inl same ↦
      rw (← text_eq_sound p q same)
        (contains_of_prefix p _ (starts_with-append p (separator ++ join separator (r ∷ rest))))
  | inr other ↦
      contains-append p q _
        (contains-append p separator _ (contains-join p separator (r ∷ rest) (rw other at h)))
]
