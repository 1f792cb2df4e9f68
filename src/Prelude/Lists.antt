-- ===== src/Prelude/Lists.antt =====
-- Lists measured by native numbers, and predicates on lists by recursion.
use Prim.Native.Nat.{ℕ, suc, ◌+◌}
use mathlib.Core.Path.{◌≡◌, refl, sym, ◌∙◌}
use mathlib.Core.Bool.{Bool, true, false, ◌&&◌, ◌||◌, false≢true}
use mathlib.Core.Logic.{inl, inr}
use mathlib.Core.List.{List, [], ◌∷◌, ◌++◌, Memᴰ}
use quest_test.Prelude.Tests.{Bool-cases}
use native.Mathlib.Omega.{arith}

module _ {ℓ} {A : Type ℓ} where
  abbrev pub length : List A → ℕ
  length [] = 0
  length (x ∷ xs) = suc (length xs)

  pub length-append : (xs ys : List A) → length (xs ++ ys) ≡ length xs + length ys
  length-append [] ys = omega arith
  length-append (x ∷ xs) ys = omega (arith, length-append xs ys)

  -- `any(test(x) for x in xs)`
  abbrev pub any : (A → Bool) → List A → Bool
  any test [] = false
  any test (x ∷ xs) = test x || any test xs

  -- `all(test(x) for x in xs)`
  abbrev pub all : (A → Bool) → List A → Bool
  all test [] = true
  all test (x ∷ xs) = test x && all test xs

  abbrev pub All {κ} : (A → Type κ) → List A → Type κ
  All P [] = Unit
  All P (x ∷ xs) = P x × All P xs

  pub All-append {κ} :
      (Q : A → Type κ) (front back : List A) → All Q front → All Q back → All Q (front ++ back)
  All-append Q [] back h k = k
  All-append Q (a ∷ front) back (here, h) k = (here, All-append Q front back h k)

  -- `any` by a member and back.
  pub mem_of_any :
      (test : A → Bool) (xs : List A) → any test xs ≡ true → (x : A) × Memᴰ x xs × (test x ≡ true)
  mem_of_any test [] h = ground arith
  mem_of_any test (x ∷ xs) h = elim (Bool-cases (test x)) [
    | inl here ↦ (x, Memᴰ.head refl, here)
    | inr later ↦ let (y, m, found) = mem_of_any test xs (rw later at h) in (y, Memᴰ.tail m, found)
  ]

  pub any_of_mem :
      (test : A → Bool) (x : A) (xs : List A) → Memᴰ x xs → test x ≡ true → any test xs ≡ true
  any_of_mem test x [] m h = elim m [ ]
  any_of_mem test x (y ∷ xs) (Memᴰ.head e) h = let found : test y ≡ true = rw e at h in ground arith
  any_of_mem test x (y ∷ xs) (Memᴰ.tail m) h = ground (arith, any_of_mem test x xs m h)

  pub false_of_any :
      (test : A → Bool) (x : A) (xs : List A) → Memᴰ x xs → any test xs ≡ false → test x ≡ false
  false_of_any test x xs m h = elim (Bool-cases (test x)) [
    | inl found ↦ absurd (false≢true (sym h ∙ any_of_mem test x xs m found))
    | inr fails ↦ fails
  ]
