-- ===== src/Service/Oracles/Sorting.antt =====
-- The sorted list: ascending, with each number as often as before.
use quest_test.Prelude.{
  ℕ, ◌+◌, ◌≤◌, ◌≡◌, refl, Bool, true, false, if_ind, leb, leb→le, ◌==◌, List, [], ◌∷◌, ◌++◌, arith,
}
use quest_test.Service.Oracles.{insert, sort}

-- The numbers go up from `last`.
abbrev pub Ascending : ℕ → List ℕ → Type 0
Ascending last [] = Unit {0}
Ascending last (t ∷ ts) = (last ≤ t) × Ascending t ts

abbrev pub Sorted : List ℕ → Type 0
Sorted [] = Unit {0}
Sorted (t ∷ ts) = Ascending t ts

-- How often a number occurs.
abbrev pub one_if : Bool → ℕ
one_if true = 1
one_if false = 0

abbrev pub occurrences : ℕ → List ℕ → ℕ
occurrences n [] = 0
occurrences n (t ∷ ts) = one_if (t == n) + occurrences n ts

pub occurrences-++ :
    (n : ℕ) (xs ys : List ℕ) → occurrences n (xs ++ ys) ≡ occurrences n xs + occurrences n ys
occurrences-++ n [] ys = omega arith
occurrences-++ n (x ∷ xs) ys = omega (arith, occurrences-++ n xs ys)

above : (a b : ℕ) → leb a b ≡ false → b ≤ a
above a b h = ground arith

insert-Ascending :
    (last t : ℕ) (us : List ℕ) → last ≤ t → Ascending last us → Ascending last (insert t us)
unfolding insert
insert-Ascending last t [] h up = (h, tt)
insert-Ascending last t (u ∷ us) h (here, later) =
    if_ind (Ascending last) (leb t u) (λ le. (h, (leb→le t u le, later)))
      (λ gt. (here, insert-Ascending u t us (above t u gt) later))

insert-Sorted : (t : ℕ) (us : List ℕ) → Sorted us → Sorted (insert t us)
unfolding insert
insert-Sorted t [] up = tt
insert-Sorted t (u ∷ us) up =
    if_ind Sorted (leb t u) (λ le. (leb→le t u le, up))
      (λ gt. insert-Ascending u t us (above t u gt) up)

pub sort-Sorted : (ts : List ℕ) → Sorted (sort ts)
unfolding sort
sort-Sorted [] = tt
sort-Sorted (t ∷ ts) = insert-Sorted t (sort ts) (sort-Sorted ts)

occurrences-insert :
    (n t : ℕ) (us : List ℕ) → occurrences n (insert t us) ≡ one_if (t == n) + occurrences n us
unfolding insert
occurrences-insert n t [] = refl
occurrences-insert n t (u ∷ us) =
    if_ind (λ l. occurrences n l ≡ one_if (t == n) + (one_if (u == n) + occurrences n us)) (leb t u)
      (λ _. refl) (λ _. omega (arith, occurrences-insert n t us))

pub occurrences-sort : (n : ℕ) (ts : List ℕ) → occurrences n (sort ts) ≡ occurrences n ts
unfolding sort
occurrences-sort n [] = refl
occurrences-sort n (t ∷ ts) = omega (arith, occurrences-insert n t (sort ts), occurrences-sort n ts)
