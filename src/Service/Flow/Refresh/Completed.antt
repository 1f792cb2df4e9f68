-- ===== src/Service/Flow/Refresh/Completed.antt =====
-- What `_validate_completed_refresh` accepts.
use quest_test.Prelude.{
  ℕ, zero, suc, ◌≡◌, refl, ap, ◌∙◌, sym, Bool, true, false, not, ◌||◌, Option, none, some, List, [],
  ◌∷◌, Text, one_of, text_eq, pos, negsuc, arith, ltb, ◌==◌, if◌then◌else◌,
}
use quest_test.Effect.{returned, raised}
use quest_test.Json.{
  Value, null, bool, int, float, str, arr, obj, Items, bracket, element, Fields, get, get_or_null,
  as_items, as_fields, as_items_inv, as_fields_inv,
}
use quest_test.Service.Flow.{Flow, FlowError}
use quest_test.Service.Flow.Refresh.{
  is_blank, keep_name, factor_names, has_duplicates, overlaps, count_of, Counts, counts_from,
  read_counts, problems, reported_count, problem_count, is_empty, check_complete, check_counts,
  check_names, check_shape, validate_completed_refresh,
}

-- Whether an array holds the string.
abbrev pub holds : Text → Items → Bool
holds name bracket = false
holds name (element (str s) items) = text_eq name s || holds name items
holds name (element v items) = holds name items

-- A refresh that is finished: the factor is among the completed ones, none is incomplete, and all
-- of one or more task units are completed without a problem.
pub record Complete (data' : Fields) (name : Text) : Type 0 where
  pub completed : Items
  pub summary : Fields
  pub last_unit : ℕ
  pub completed_factors : get_or_null "completed_factors" data' ≡ arr completed
  pub named : holds name completed ≡ true
  pub incomplete_factors : get_or_null "incomplete_factors" data' ≡ arr bracket
  pub summary_object : get_or_null "summary" data' ≡ obj summary
  pub total_units : get_or_null "total_units" summary ≡ int (pos (suc last_unit))
  pub completed_units : get_or_null "completed_units" summary ≡ int (pos (suc last_unit))
  pub skipped : get_or_null "skipped_window_count" summary ≡ int (pos 0)
  pub failed : get_or_null "failed_unit_count" summary ≡ int (pos 0)
  pub not_run : get_or_null "not_run_unit_count" summary ≡ int (pos 0)

count_of_inv : (v : Value) (n : ℕ) → count_of v ≡ some n → v ≡ int (pos n)
unfolding count_of
count_of_inv (int (pos m)) n h = cc
count_of_inv (int (negsuc m)) n h = cc
count_of_inv null n h = cc
count_of_inv (bool b) n h = cc
count_of_inv (float t) n h = cc
count_of_inv (str t) n h = cc
count_of_inv (arr a) n h = cc
count_of_inv (obj f) n h = cc

some_inv : {A : Type 0} (x y : A) → some x ≡ some y → x ≡ y
some_inv x y h = cc

counts_from_inv :
    (t c s f n : Option ℕ) (k : Counts)
    → counts_from t c s f n ≡ some k
    → (t ≡ some k.total)
      × (c ≡ some k.completed)
      × (s ≡ some k.skipped)
      × (f ≡ some k.failed)
      × (n ≡ some k.not_run)
counts_from_inv (some t) (some c) (some s) (some f) (some n) k h =
    let e = some_inv _ k h in
    (
      ap (λ q. some q.total) e,
      ap (λ q. some q.completed) e,
      ap (λ q. some q.skipped) e,
      ap (λ q. some q.failed) e,
      ap (λ q. some q.not_run) e,
    )
counts_from_inv none c s f n k h = cc
counts_from_inv (some t) none s f n k h = cc
counts_from_inv (some t) (some c) none f n k h = cc
counts_from_inv (some t) (some c) (some s) none n k h = cc
counts_from_inv (some t) (some c) (some s) (some f) none k h = cc

reported_count_inv :
    (r : Option ℕ) (calculated n : ℕ) → reported_count r calculated ≡ returned n → n ≡ calculated
reported_count_inv none calculated n h = cc
reported_count_inv (some m) calculated n h = ground arith

problem_count_inv :
    (v : Option Value) (calculated n : ℕ) → problem_count v calculated ≡ returned n → n ≡ calculated
unfolding problem_count
problem_count_inv none calculated n h = cc
problem_count_inv (some v) calculated n h = reported_count_inv (count_of v) calculated n h

passed_four :
    (a b c d : Bool) (e : FlowError)
    → ◌≡◌ {A = Flow (Unit {0})}
        (if not a || not b || not c || not d then raised e else returned tt)
        (returned tt)
    → (a ≡ true) × (b ≡ true) × (c ≡ true) × (d ≡ true)
passed_four true true true true e h = (refl, refl, refl, refl)
passed_four false b c d e h = cc
passed_four true false c d e h = cc
passed_four true true false d e h = cc
passed_four true true true false e h = cc

passed :
    (b : Bool) (e : FlowError) (next : Flow (Unit {0}))
    → (if b then raised e else next) ≡ returned tt
    → (b ≡ false) × (next ≡ returned tt)
passed true e next h = cc
passed false e next h = (refl, h)

is_empty_inv : (names : List Text) → is_empty names ≡ true → names ≡ []
is_empty_inv [] h = refl
is_empty_inv (c ∷ cs) h = cc

==_inv : (m n : ℕ) → (m == n) ≡ true → m ≡ n
==_inv m n h = ground arith

-- What the checks of the counts leave.
record Good (name : Text) (completed incomplete : List Text) (counts : Counts) : Type 0 where
  named : one_of completed name ≡ true
  none_incomplete : incomplete ≡ []
  all_units : counts.completed ≡ counts.total
  no_problem : problems counts ≡ 0

check_complete-Good :
    (name : Text) (completed incomplete : List Text) (counts : Counts) (r : Flow ℕ)
    → ((n : ℕ) → r ≡ returned n → n ≡ problems counts)
    → check_complete name completed incomplete counts r ≡ returned tt
    → Good name completed incomplete counts
unfolding check_complete
check_complete-Good name completed incomplete counts (raised e) calc h = cc
check_complete-Good name completed incomplete counts (returned n) calc h =
    let (a, b, c, d) =
      passed_four (one_of completed name) (is_empty incomplete) (counts.completed == counts.total)
        (n == 0) _ h in
    record {
      named = a;
      none_incomplete = is_empty_inv incomplete b;
      all_units = ==_inv _ _ c;
      no_problem = sym (calc n refl) ∙ ==_inv _ _ d;
    }

check_counts-Good :
    (name : Text) (completed incomplete : List Text) (summary : Fields) (r : Option Counts)
    → check_counts name completed incomplete summary r ≡ returned tt
    → (counts : Counts) × (r ≡ some counts)
      × ((counts.total == 0) ≡ false)
      × Good name completed incomplete counts
unfolding check_counts
check_counts-Good name completed incomplete summary none h = cc
check_counts-Good name completed incomplete summary (some counts) h =
    let (a, h1) = passed (counts.total == 0) _ _ h in
    let (b, h2) = passed (ltb counts.total counts.completed) _ _ h1 in
    (
      counts,
      refl,
      a,
      check_complete-Good name completed incomplete counts _
          (λ n. problem_count_inv (get "problem_unit_count" summary) (problems counts) n) h2,
    )

keep_name-some :
    (b : Bool) (s : Text) (rest : Option (List Text)) (names : List Text)
    → keep_name b s rest ≡ some names
    → (tail : List Text) × (rest ≡ some tail) × (names ≡ s ∷ tail)
keep_name-some true s rest names h = cc
keep_name-some false s none names h = cc
keep_name-some false s (some tail) names h = (tail, refl, cc)

-- The names of an array are the strings it holds, and an array without names is empty.
factor_names-holds :
    (name : Text) (items : Items) (names : List Text)
    → factor_names items ≡ some names
    → holds name items ≡ one_of names name
unfolding factor_names
factor_names-holds name bracket names h = rw (sym (some_inv [] names h)) refl
factor_names-holds name (element (str s) items) names h =
    let (tail, e, same) = keep_name-some (is_blank s) s _ names h in
    rw (same, factor_names-holds name items tail e) refl
factor_names-holds name (element null items) names h = cc
factor_names-holds name (element (bool b) items) names h = cc
factor_names-holds name (element (int n) items) names h = cc
factor_names-holds name (element (float t) items) names h = cc
factor_names-holds name (element (arr a) items) names h = cc
factor_names-holds name (element (obj f) items) names h = cc

factor_names-bracket : (items : Items) → factor_names items ≡ some [] → items ≡ bracket
unfolding factor_names
factor_names-bracket bracket h = refl
factor_names-bracket (element (str s) items) h =
    let (tail, e, same) = keep_name-some (is_blank s) s _ [] h in cc
factor_names-bracket (element null items) h = cc
factor_names-bracket (element (bool b) items) h = cc
factor_names-bracket (element (int n) items) h = cc
factor_names-bracket (element (float t) items) h = cc
factor_names-bracket (element (arr a) items) h = cc
factor_names-bracket (element (obj f) items) h = cc

-- What an accepted answer's names and counts are.
record Named (name : Text) (completed incomplete : Option (List Text)) (summary : Fields)
    : Type 0 where
  names : List Text
  counts : Counts
  completed_names : completed ≡ some names
  member : one_of names name ≡ true
  no_incomplete : incomplete ≡ some []
  read : read_counts summary ≡ some counts
  some_unit : (counts.total == 0) ≡ false
  all_units : counts.completed ≡ counts.total
  no_problem : problems counts ≡ 0

check_names-Named :
    (name : Text) (completed incomplete : Option (List Text)) (summary : Fields)
    → check_names name completed incomplete summary ≡ returned tt
    → Named name completed incomplete summary
unfolding check_names
check_names-Named name none incomplete summary h = cc
check_names-Named name (some completed) none summary h = cc
check_names-Named name (some completed) (some incomplete) summary h =
    let (a, h1) = passed (has_duplicates completed || has_duplicates incomplete) _ _ h in
    let (b, h2) = passed (overlaps completed incomplete) _ _ h1 in
    let (counts, r, t, good) =
      check_counts-Good name completed incomplete summary (read_counts summary) h2 in
    record {
      names = completed;
      counts = counts;
      completed_names = refl;
      member = good.named;
      no_incomplete = ap some good.none_incomplete;
      read = r;
      some_unit = t;
      all_units = good.all_units;
      no_problem = good.no_problem;
    }

predecessor : (n : ℕ) → (n == 0) ≡ false → (m : ℕ) × (n ≡ suc m)
predecessor zero h = cc
predecessor (suc m) h = (m, refl)

count_is : (v : Value) (n m : ℕ) → count_of v ≡ some n → n ≡ m → v ≡ int (pos m)
count_is v n m h e = count_of_inv v n h ∙ ap (λ k. int (pos k)) e

Named-Complete :
    (data' : Fields) (name : Text) (completed incomplete : Items) (summary : Fields)
    → get_or_null "completed_factors" data' ≡ arr completed
    → get_or_null "incomplete_factors" data' ≡ arr incomplete
    → get_or_null "summary" data' ≡ obj summary
    → Named name (factor_names completed) (factor_names incomplete) summary
    → Complete data' name
unfolding read_counts
Named-Complete data' name completed incomplete summary c i s named =
    let k = named.counts in
    let (last, e) = predecessor k.total named.some_unit in
    let (t, u, sk, f, n) = counts_from_inv _ _ _ _ _ k named.read in
    record {
      completed = completed;
      summary = summary;
      last_unit = last;
      completed_factors = c;
      named = factor_names-holds name completed named.names named.completed_names ∙ named.member;
      incomplete_factors = i ∙ ap arr (factor_names-bracket incomplete named.no_incomplete);
      summary_object = s;
      total_units = count_is _ _ _ t e;
      completed_units = count_is _ _ _ u (named.all_units ∙ e);
      skipped = count_is _ _ _ sk (omega (arith, named.no_problem));
      failed = count_is _ _ _ f (omega (arith, named.no_problem));
      not_run = count_is _ _ _ n (omega (arith, named.no_problem));
    }

check_shape-Complete :
    (data' : Fields) (name : Text) (completed incomplete : Option Items) (summary : Option Fields)
    → as_items (get_or_null "completed_factors" data') ≡ completed
    → as_items (get_or_null "incomplete_factors" data') ≡ incomplete
    → as_fields (get_or_null "summary" data') ≡ summary
    → check_shape name completed incomplete summary ≡ returned tt
    → Complete data' name
unfolding check_shape
check_shape-Complete data' name none i s ec ei es h = cc
check_shape-Complete data' name (some c) none s ec ei es h = cc
check_shape-Complete data' name (some c) (some i) none ec ei es h = cc
check_shape-Complete data' name (some c) (some i) (some s) ec ei es h =
    Named-Complete data' name c i s (as_items_inv _ _ ec) (as_items_inv _ _ ei)
      (as_fields_inv _ _ es) (check_names-Named name (factor_names c) (factor_names i) s h)

-- The data that the validation accepts names the expected factor among the completed ones and no
-- incomplete factor, and counts one or more task units, all of them completed and none with a
-- problem.
pub validate_completed_refresh-Complete :
    (data' : Fields) (name : Text)
    → validate_completed_refresh data' name ≡ returned tt
    → Complete data' name
unfolding validate_completed_refresh
validate_completed_refresh-Complete data' name h =
    check_shape-Complete data' name _ _ _ refl refl refl h
