-- ===== src/Service/Oracles.antt =====
-- service/factor4_calculation_oracles.py: the oracles on timelines, which compute without floats. A
-- timestamp is its style, aware or naive, and the microseconds since the first one that Python
-- has; the numbers of a sample are left out, since these oracles only carry them.
pub mod Sorting
pub mod Segments
pub mod Revisions
mod Examples
use quest_test.Prelude.{
  ℕ, zero, suc, ◌+◌, Bool, true, false, not, ◌&&◌, ◌||◌, if◌then◌else◌, Option, none, some, List,
  [], ◌∷◌, ◌++◌, any, all, leb, ◌==◌, ℤ, pos, negsuc, Text, text_eq,
}
use quest_test.Effect.{Outcome, returned, raised}

-- A `datetime`
pub record Timestamp : Type 0 where
  pub aware : Bool
  pub moment : ℕ

-- The `ValueError`s of the oracles.
pub data OracleError : Type 0 where
  step_not_positive mixed_styles revision_not_positive : OracleError

abbrev pub Oracle : Type 0 → Type 0
Oracle A = Outcome OracleError A

abbrev pub same_style : Bool → Bool → Bool
same_style true b = b
same_style false b = not b

-- `_ensure_timestamp_style`, the reference being one of the timestamps
unfoldable pub one_style : List Timestamp → Bool
one_style [] = true
one_style (t ∷ ts) = all (λ u. same_style t.aware u.aware) ts

-- `sorted`, which keeps the order of equal elements
unfoldable pub insert : ℕ → List ℕ → List ℕ
insert t [] = t ∷ []
insert t (u ∷ us) = let rest = insert t us in if leb t u then t ∷ u ∷ us else u ∷ rest

unfoldable pub sort : List ℕ → List ℕ
unfolding insert
sort [] = []
sort (t ∷ ts) = insert t (sort ts)

abbrev pub moments : List Timestamp → List ℕ
moments [] = []
moments (t ∷ ts) = t.moment ∷ moments ts

-- The segments of a sorted timeline that goes on after `last`, the first one being open: a
-- timestamp that is not one step later starts a new one.
abbrev pub add_to_first : ℕ → List ℕ × List (List ℕ) → List ℕ × List (List ℕ)
add_to_first t (segment, segments) = (t ∷ segment, segments)

abbrev pub start_new : ℕ → List ℕ × List (List ℕ) → List ℕ × List (List ℕ)
start_new t (segment, segments) = ([], (t ∷ segment) ∷ segments)

unfoldable pub segments_after : (step last : ℕ) → List ℕ → List ℕ × List (List ℕ)
segments_after step last [] = ([], [])
segments_after step last (t ∷ ts) =
    let rest = segments_after step t ts in
    if t == last + step then add_to_first t rest else start_new t rest

abbrev pub close : ℕ → List ℕ × List (List ℕ) → List (List ℕ)
close t (segment, segments) = (t ∷ segment) ∷ segments

unfoldable pub segments_of : ℕ → List ℕ → List (List ℕ)
unfolding segments_after
segments_of step [] = []
segments_of step (t ∷ ts) = close t (segments_after step t ts)

-- `contiguous_segments`
unfoldable pub contiguous_segments : List Timestamp → (expected_step : ℤ) → Oracle (List (List ℕ))
unfolding segments_of sort one_style
contiguous_segments timestamps (pos (suc n)) =
    if one_style timestamps
    then returned (segments_of (suc n) (sort (moments timestamps)))
    else raised mixed_styles
contiguous_segments timestamps (pos zero) = raised step_not_positive
contiguous_segments timestamps (negsuc n) = raised step_not_positive

-- A revision id and when it became available.
pub record Revision : Type 0 where
  pub revision : ℤ
  pub available_at : Timestamp

abbrev pub max_of : ℕ → Option ℕ → ℕ
max_of n none = n
max_of n (some m) = if leb m n then n else m

abbrev pub keep_visible : ℕ → Bool → Option ℕ → Option ℕ
keep_visible n true best = some (max_of n best)
keep_visible n false best = best

-- The loop over the revisions and the `max` of the visible ones; the first revision that is refused
-- ends it.
abbrev pub and_best : ℕ → Bool → Oracle (Option ℕ) → Oracle (Option ℕ)
and_best n visible (returned best) = returned (keep_visible n visible best)
and_best n visible (raised e) = raised e

abbrev pub check_style : Bool → Oracle (Option ℕ) → Oracle (Option ℕ)
check_style true next = next
check_style false next = raised mixed_styles

-- `isinstance(revision, int) and revision >= 1`
abbrev pub check_id : ℤ → (ℕ → Oracle (Option ℕ)) → Oracle (Option ℕ)
check_id (pos (suc n)) next = next (suc n)
check_id (pos zero) next = raised revision_not_positive
check_id (negsuc n) next = raised revision_not_positive

abbrev pub is_visible : Revision → Timestamp → Bool
is_visible r as_of = leb r.available_at.moment as_of.moment

-- `visible_revision`
unfoldable pub visible_revision : List Revision → (as_of : Timestamp) → Oracle (Option ℕ)
visible_revision [] as_of = returned none
visible_revision (r ∷ rs) as_of =
    let rest = visible_revision rs as_of in
    check_id r.revision (λ n.
      check_style (same_style r.available_at.aware as_of.aware)
        (and_best n (is_visible r as_of) rest))
