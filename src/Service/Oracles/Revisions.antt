-- ===== src/Service/Oracles/Revisions.antt =====
-- `visible_revision` against the greatest visible revision.
use quest_test.Prelude.{
  ℕ, zero, suc, ◌≤◌, ◌≡◌, refl, sym, ap, ◌∙◌, subst, ◌↔◌, Bool, true, false, if_ind, leb, leb→le,
  false≢true, Option, none, some, List, [], ◌∷◌, arith, ℤ, pos, negsuc, max_zero, All,
}
use mathlib.Core.List.{Memᴰ}
use quest_test.Effect.{returned, raised, raised-returned}
use quest_test.Service.Oracles.{
  Timestamp, Oracle, Revision, same_style, keep_visible, and_best, check_style, check_id,
  is_visible, visible_revision,
}

-- A revision that the oracle takes: its id is positive and its timestamp has the style of the query.
abbrev pub Valid : Timestamp → Revision → Type 0
Valid as_of r = (1 ≤ max_zero r.revision) × (same_style r.available_at.aware as_of.aware ≡ true)

-- The greatest id among the visible revisions, by its definition.
abbrev pub Greatest : List Revision → Timestamp → Option ℕ → Type 0
Greatest rs as_of none = (r : Revision) → Memᴰ r rs → is_visible r as_of ≡ false
Greatest rs as_of (some n) =
    ((r : Revision) × Memᴰ r rs × (is_visible r as_of ≡ true) × (max_zero r.revision ≡ n))
    × ((r : Revision) → Memᴰ r rs → is_visible r as_of ≡ true → max_zero r.revision ≤ n)

returned_inv : (a b : Option ℕ) → ◌≡◌ {A = Oracle (Option ℕ)} (returned a) (returned b) → a ≡ b
returned_inv a b h = cc

smaller : (m n : ℕ) → leb m n ≡ false → n ≤ m
smaller m n h = ground arith

keep-Greatest :
    (r : Revision) (rs : List Revision) (as_of : Timestamp) (best : Option ℕ) (n : ℕ)
    → max_zero r.revision ≡ n
    → Greatest rs as_of best
    → (visible : Bool) → is_visible r as_of ≡ visible
    → Greatest (r ∷ rs) as_of (keep_visible n visible best)
keep-Greatest r rs as_of none n id great true seen = (
  (r, Memᴰ.head refl, seen, id),
  λ s m vis. elim m [
    | Memᴰ.head e ↦ omega (arith, ap (λ x. max_zero x.revision) e, id)
    | Memᴰ.tail k ↦ absurd (false≢true (sym (great s k) ∙ vis))
  ],
)
keep-Greatest r rs as_of (some m) n id ((s, k, vis, top), above) true seen =
    if_ind (λ x. Greatest (r ∷ rs) as_of (some x)) (leb m n)
      (λ more. (
        (r, Memᴰ.head refl, seen, id),
        λ t l v. elim l [
          | Memᴰ.head e ↦ omega (arith, ap (λ x. max_zero x.revision) e, id)
          | Memᴰ.tail j ↦ omega (arith, above t j v, leb→le m n more)
        ],
      ))
      (λ less. (
        (s, Memᴰ.tail k, vis, top),
        λ t l v. elim l [
          | Memᴰ.head e ↦ omega (arith, ap (λ x. max_zero x.revision) e, id, smaller m n less)
          | Memᴰ.tail j ↦ above t j v
        ],
      ))
keep-Greatest r rs as_of none n id great false seen =
    λ s m. elim m [ Memᴰ.head e ↦ ap (λ x. is_visible x as_of) e ∙ seen | Memᴰ.tail k ↦ great s k ]
keep-Greatest r rs as_of (some m) n id ((s, k, vis, top), above) false seen = (
  (s, Memᴰ.tail k, vis, top),
  λ t l v. elim l [
    | Memᴰ.head e ↦ absurd (false≢true (sym seen ∙ (sym (ap (λ x. is_visible x as_of) e) ∙ v)))
    | Memᴰ.tail j ↦ above t j v
  ],
)

-- What a list of revisions comes to.
abbrev pub Answers : List Revision → Timestamp → Option ℕ → Type 0
Answers rs as_of best = All (Valid as_of) rs × Greatest rs as_of best

check_id-Answers :
    (r : Revision) (rs : List Revision) (as_of : Timestamp) (rest : Oracle (Option ℕ)) (id : ℤ)
    → r.revision ≡ id
    → ((b : Option ℕ) → rest ≡ returned b → Answers rs as_of b)
    → (best : Option ℕ)
    → check_id id (λ n.
      check_style
        (same_style r.available_at.aware as_of.aware)
        (and_best n (is_visible r as_of) rest))
      ≡ returned best
    → Answers (r ∷ rs) as_of best
check_id-Answers r rs as_of rest (pos zero) e later best h = absurd (raised-returned _ best h)
check_id-Answers r rs as_of rest (negsuc n) e later best h = absurd (raised-returned _ best h)
check_id-Answers r rs as_of rest (pos (suc n)) e later best h =
    styled (same_style r.available_at.aware as_of.aware) refl rest later h
  where
    styled :
        (b : Bool)
        → same_style r.available_at.aware as_of.aware ≡ b
        → (o : Oracle (Option ℕ)) → ((x : Option ℕ) → o ≡ returned x → Answers rs as_of x)
        → check_style b (and_best (suc n) (is_visible r as_of) o) ≡ returned best
        → Answers (r ∷ rs) as_of best
    styled false s o next eq = absurd (raised-returned _ best eq)
    styled true s (raised d) next eq = absurd (raised-returned d best eq)
    styled true s (returned x) next eq = (
      ((omega (arith, ap max_zero e), s), (next x refl).0),
      subst (Greatest (r ∷ rs) as_of)
          (returned_inv (keep_visible (suc n) (is_visible r as_of) x) best eq)
          (keep-Greatest r rs as_of x (suc n) (ap max_zero e) (next x refl).1 (is_visible r as_of)
            refl),
    )

visible_revision-Answers :
    (rs : List Revision) (as_of : Timestamp) (best : Option ℕ)
    → visible_revision rs as_of ≡ returned best
    → Answers rs as_of best
unfolding visible_revision
visible_revision-Answers [] as_of none h = (tt, λ r m. elim m [ ])
visible_revision-Answers [] as_of (some n) h = cc
visible_revision-Answers (r ∷ rs) as_of best h =
    check_id-Answers r rs as_of (visible_revision rs as_of) r.revision refl
      (visible_revision-Answers rs as_of) best h

accepted :
    (id : ℤ) (b visible : Bool) (o : Oracle (Option ℕ))
    → 1 ≤ max_zero id
    → b ≡ true
    → ((x : Option ℕ) × (o ≡ returned x))
    → (x : Option ℕ) × (check_id id (λ n. check_style b (and_best n visible o)) ≡ returned x)
accepted (pos (suc n)) b visible o h same (x, e) =
    (keep_visible (suc n) visible x, rw (same, e) refl)
accepted (pos zero) b visible o h same (x, e) = absurd (omega (arith, h))
accepted (negsuc n) b visible o h same (x, e) = absurd (omega (arith, h))

visible_revision-returns :
    (rs : List Revision) (as_of : Timestamp)
    → All (Valid as_of) rs
    → (x : Option ℕ) × (visible_revision rs as_of ≡ returned x)
unfolding visible_revision
visible_revision-returns [] as_of valid = (none, refl)
visible_revision-returns (r ∷ rs) as_of ((id, same), valid) =
    accepted r.revision (same_style r.available_at.aware as_of.aware) (is_visible r as_of)
      (visible_revision rs as_of) id same (visible_revision-returns rs as_of valid)

Greatest-unique :
    (rs : List Revision) (as_of : Timestamp) (a b : Option ℕ)
    → Greatest rs as_of a
    → Greatest rs as_of b
    → a ≡ b
Greatest-unique rs as_of none none g h = refl
Greatest-unique rs as_of none (some n) g ((r, m, v, e), _) = absurd (false≢true (sym (g r m) ∙ v))
Greatest-unique rs as_of (some n) none ((r, m, v, e), _) h = absurd (false≢true (sym (h r m) ∙ v))
Greatest-unique rs as_of (some m) (some n) ((r, k, v, e), g) ((s, j, w, d), h) =
    ap some (omega (arith, g s j w, h r k v, e, d))

-- `visible_revision` returns an answer exactly when every revision id is positive and every
-- timestamp has the style of the query, and the answer is the greatest id among the revisions that
-- were available at the time of the query or before it, none where there is no such revision.
pub visible_revision-Greatest :
    (rs : List Revision) (as_of : Timestamp) (best : Option ℕ)
    → (visible_revision rs as_of ≡ returned best) ↔ (All (Valid as_of) rs × Greatest rs as_of best)
visible_revision-Greatest rs as_of best = (
  visible_revision-Answers rs as_of best,
  λ (valid, great).
      let (x, e) = visible_revision-returns rs as_of valid in
      e
      ∙ ap returned
          (Greatest-unique rs as_of x best (visible_revision-Answers rs as_of x e).1 great),
)
