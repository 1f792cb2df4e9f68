-- ===== src/Service/Oracles/Examples.antt =====
-- Small timelines.
use quest_test.Prelude.{ℕ, suc, ◌≡◌, refl, ◌↔◌, true, false, some, List, [], ◌∷◌, All, pos}
use quest_test.Effect.{returned}
use quest_test.Service.Oracles.{
  Timestamp, Revision, one_style, moments, contiguous_segments, visible_revision,
}
use quest_test.Service.Oracles.Segments.{Segmented, contiguous_segments-Segmented}
use quest_test.Service.Oracles.Revisions.{Valid, Greatest, visible_revision-Greatest}

abbrev at : ℕ → Timestamp
at n = record { aware = false; moment = n }

abbrev timeline : List Timestamp
timeline = at 20 ∷ at 5 ∷ at 15 ∷ at 40 ∷ at 10 ∷ []

abbrev segments : List (List ℕ)
segments = (5 ∷ 10 ∷ 15 ∷ 20 ∷ []) ∷ (40 ∷ []) ∷ []

splits : contiguous_segments timeline (pos 5) ≡ returned segments
unfolding contiguous_segments
splits = refl

contiguous_segments-Segmented_example :
    (n : ℕ) × (pos 5 ≡ pos (suc n))
    × (one_style timeline ≡ true)
    × Segmented (suc n) (moments timeline) segments
contiguous_segments-Segmented_example =
    contiguous_segments-Segmented timeline (pos 5) segments splits

abbrev revisions : List Revision
revisions =
    record { revision = pos 1; available_at = at 3 }
    ∷ record { revision = pos 3; available_at = at 9 }
    ∷ record { revision = pos 2; available_at = at 7 }
    ∷ []

sees_second : visible_revision revisions (at 8) ≡ returned (some 2)
unfolding visible_revision
sees_second = refl

visible_revision-Greatest_example :
    (visible_revision revisions (at 8) ≡ returned (some 2))
    ↔ (All (Valid (at 8)) revisions × Greatest revisions (at 8) (some 2))
visible_revision-Greatest_example = visible_revision-Greatest revisions (at 8) (some 2)
