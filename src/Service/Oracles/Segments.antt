-- ===== src/Service/Oracles/Segments.antt =====
-- The segments of a timeline.
use quest_test.Prelude.{
  ℕ, zero, suc, ◌+◌, ◌≡◌, ◌≢◌, refl, sym, ap, ◌∙◌, subst, true, false, if_ind, ◌==◌, ==_iff, List,
  [], ◌∷◌, ◌++◌, All, arith, ℤ, pos, negsuc,
}
use quest_test.Effect.{returned, raised-returned}
use quest_test.Service.Oracles.{
  Timestamp, mixed_styles, one_style, moments, sort, segments_after, segments_of,
  contiguous_segments, Oracle,
}
use quest_test.Service.Oracles.Sorting.{Sorted, occurrences, sort-Sorted, occurrences-sort}

abbrev pub concat : List (List ℕ) → List ℕ
concat [] = []
concat (s ∷ ss) = s ++ concat ss

-- Each number is one step after the one before it.
abbrev pub Follows : (step last : ℕ) → List ℕ → Type 0
Follows step last [] = Unit {0}
Follows step last (t ∷ ts) = (t ≡ last + step) × Follows step t ts

abbrev pub Steps : ℕ → List ℕ → Type 0
Steps step [] = ⊥
Steps step (t ∷ ts) = Follows step t ts

abbrev pub end_of : ℕ → List ℕ → ℕ
end_of last [] = last
end_of last (t ∷ ts) = end_of t ts

-- No segment begins one step after the end of the one before it.
abbrev pub Apart : (step end : ℕ) → List (List ℕ) → Type 0
Apart step end [] = Unit {0}
Apart step end ([] ∷ ss) = ⊥
Apart step end ((t ∷ ts) ∷ ss) = (t ≢ end + step) × Apart step (end_of t ts) ss

abbrev pub AllApart : ℕ → List (List ℕ) → Type 0
AllApart step [] = Unit {0}
AllApart step ([] ∷ ss) = ⊥
AllApart step ((t ∷ ts) ∷ ss) = Apart step (end_of t ts) ss

-- What the segments of a timeline are.
pub record Segmented (step : ℕ) (given : List ℕ) (segments : List (List ℕ)) : Type 0 where
  pub in_order : Sorted (concat segments)
  pub same_moments : (n : ℕ) → occurrences n (concat segments) ≡ occurrences n given
  pub stepped : All (Steps step) segments
  pub apart : AllApart step segments

record Open (step last : ℕ) (ts : List ℕ) (p : List ℕ × List (List ℕ)) : Type 0 where
  whole : p.0 ++ concat p.1 ≡ ts
  first : Follows step last p.0
  others : All (Steps step) p.1
  gaps : Apart step (end_of last p.0) p.1

different : (a b : ℕ) → (a == b) ≡ false → a ≢ b
different a b h e = ground arith

segments_after-Open :
    (step last : ℕ) (ts : List ℕ) → Open step last ts (segments_after step last ts)
unfolding segments_after
segments_after-Open step last [] = record { whole = refl; first = tt; others = tt; gaps = tt }
segments_after-Open step last (t ∷ ts) =
    let rest = segments_after-Open step t ts in
    if_ind (Open step last (t ∷ ts)) (t == last + step)
      (λ next. record {
        whole = ap (λ l. t ∷ l) rest.whole;
        first = ((==_iff t (last + step)).0 next, rest.first);
        others = rest.others;
        gaps = rest.gaps;
      })
      (λ far. record {
        whole = ap (λ l. t ∷ l) rest.whole;
        first = tt;
        others = (rest.first, rest.others);
        gaps = (different t (last + step) far, rest.gaps);
      })

segments_of-Segmented :
    (step : ℕ) (given ts : List ℕ)
    → Sorted ts
    → ((n : ℕ) → occurrences n ts ≡ occurrences n given)
    → Segmented step given (segments_of step ts)
unfolding segments_of
segments_of-Segmented step given [] up same = record {
  in_order = tt;
  same_moments = same;
  stepped = tt;
  apart = tt;
}
segments_of-Segmented step given (t ∷ ts) up same =
    let rest = segments_after-Open step t ts in
    let whole = ap (λ l. t ∷ l) rest.whole in
    record {
      in_order = subst Sorted (sym whole) up;
      same_moments = λ n. ap (occurrences n) whole ∙ same n;
      stepped = (rest.first, rest.others);
      apart = rest.gaps;
    }

-- When `contiguous_segments` returns, its step is positive and the timestamps have one style. The
-- segments, put one after the other, are the moments of the timestamps in ascending order, each as
-- often as it was given; none is empty; within one each moment is exactly one step after the moment
-- before it; and none begins one step after the end of the segment before it, so that no two could be
-- joined.
pub contiguous_segments-Segmented :
    (timestamps : List Timestamp) (step : ℤ) (segments : List (List ℕ))
    → contiguous_segments timestamps step ≡ returned segments
    → (n : ℕ) × (step ≡ pos (suc n))
      × (one_style timestamps ≡ true)
      × Segmented (suc n) (moments timestamps) segments
unfolding contiguous_segments
contiguous_segments-Segmented timestamps (pos (suc n)) segments =
    if_ind
      (λ r.
        r ≡ returned segments
        → (m : ℕ) × (pos (suc n) ≡ pos (suc m))
          × (one_style timestamps ≡ true)
          × Segmented (suc m) (moments timestamps) segments)
      (one_style timestamps)
      (λ style h. (
        n,
        refl,
        style,
        subst (Segmented (suc n) (moments timestamps))
            (returned_inv (segments_of (suc n) (sort (moments timestamps))) segments h)
            (segments_of-Segmented (suc n) (moments timestamps) (sort (moments timestamps))
              (sort-Sorted (moments timestamps)) (λ m. occurrences-sort m (moments timestamps))),
      ))
      (λ _ h. absurd (raised-returned mixed_styles segments h))
  where
    returned_inv :
        (a b : List (List ℕ)) → ◌≡◌ {A = Oracle (List (List ℕ))} (returned a) (returned b) → a ≡ b
    returned_inv a b h = cc
contiguous_segments-Segmented timestamps (pos zero) segments =
    λ h. absurd (raised-returned _ segments h)
contiguous_segments-Segmented timestamps (negsuc n) segments =
    λ h. absurd (raised-returned _ segments h)
