-- ===== src/Service/Coverage/Identities.antt =====
-- What a manifest that `_validate_cases` accepts is.
use quest_test.Prelude.{
  ◌≡◌, ◌≢◌, refl, ap, sym, ◌∙◌, Bool, true, false, not, ◌||◌, List, [], ◌∷◌, map, any, All, Text,
  chars, text_eq, text_eq_refl, one_of, or_false, strip,
}
use mathlib.Core.List.{Memᴰ}
use quest_test.Effect.{Outcome, returned, passed_guard}
use quest_test.Service.Coverage.{
  CoverageCase, ManifestError, is_blank, is_none, has_duplicates, validate_case, validate_from,
  validate_cases, blank_case_id, duplicate_case_id, missing_description, unsupported_mode,
  no_preconditions, duplicate_preconditions, blank_precondition,
}

-- No text twice.
abbrev pub Distinct : List Text → Type 0
Distinct [] = Unit
Distinct (name ∷ names) = (Memᴰ name names → ⊥) × Distinct names

-- A case that is described in full.
pub record Described (c : CoverageCase) : Type 0 where
  pub case_id : strip c.case_id ≢ []
  pub component : strip c.component ≢ []
  pub title : strip c.title ≢ []
  pub oracle : strip c.oracle ≢ []
  pub mode : one_of (chars "READ_ONLY" ∷ chars "R1_WRITE" ∷ []) c.mode ≡ true
  pub some_precondition : c.required_preconditions ≢ []
  pub distinct_preconditions : Distinct c.required_preconditions
  pub no_blank : All (λ p. strip p ≢ []) c.required_preconditions

one_of-absent : (names : List Text) (name : Text) → one_of names name ≡ false → Memᴰ name names → ⊥
one_of-absent [] name h m = elim m [ ]
one_of-absent (n ∷ names) name h (Memᴰ.head e) =
    same (text_eq name n) (any (λ o. text_eq name o) names)
      (ap (λ t. text_eq name t) (sym e) ∙ text_eq_refl name) h
  where
    same : (a b : Bool) → a ≡ true → (a || b) ≡ false → ⊥
    same true b e h = cc
    same false b e h = cc
one_of-absent (n ∷ names) name h (Memᴰ.tail m) =
    one_of-absent names name (or_false (text_eq name n) _ h).1 m

is_blank-false : (s : Text) → is_blank s ≡ false → strip s ≢ []
unfolding is_blank
is_blank-false s h e = cc

has_duplicates-Distinct : (names : List Text) → has_duplicates names ≡ false → Distinct names
unfolding has_duplicates
has_duplicates-Distinct [] h = tt
has_duplicates-Distinct (n ∷ names) h =
    let (fresh, rest) = or_false (one_of names n) (has_duplicates names) h in
    (one_of-absent names n fresh, has_duplicates-Distinct names rest)

is_none-false : (names : List Text) → is_none names ≡ false → names ≢ []
is_none-false names h e = cc

any-none : (names : List Text) → any is_blank names ≡ false → All (λ p. strip p ≢ []) names
any-none [] h = tt
any-none (n ∷ names) h =
    let (here, rest) = or_false (is_blank n) (any is_blank names) h in
    (is_blank-false n here, any-none names rest)

not-false : (b : Bool) → not b ≡ false → b ≡ true
not-false true h = refl
not-false false h = cc

validate_case-Described :
    (seen : List Text) (c : CoverageCase) (rest : Outcome ManifestError (Unit {0}))
    → validate_case seen c rest ≡ returned tt
    → Described c × (Memᴰ c.case_id seen → ⊥) × (rest ≡ returned tt)
unfolding validate_case
validate_case-Described seen c rest h =
    let (a, h1) = passed_guard (is_blank c.case_id) blank_case_id _ tt h in
    let (b, h2) = passed_guard (one_of seen c.case_id) (duplicate_case_id c.case_id) _ tt h1 in
    let (d, h3) =
      passed_guard (is_blank c.component || is_blank c.title || is_blank c.oracle)
        (missing_description c.case_id) _ tt h2 in
    let (m, h4) =
      passed_guard (not (one_of (chars "READ_ONLY" ∷ chars "R1_WRITE" ∷ []) c.mode))
        (unsupported_mode c.case_id) _ tt h3 in
    let (p, h5) =
      passed_guard (is_none c.required_preconditions) (no_preconditions c.case_id) _ tt h4 in
    let (q, h6) =
      passed_guard (has_duplicates c.required_preconditions) (duplicate_preconditions c.case_id) _
        tt h5 in
    let (r, h7) =
      passed_guard (any is_blank c.required_preconditions) (blank_precondition c.case_id) rest tt
        h6 in
    let (d1, d3) = or_false (is_blank c.component || is_blank c.title) (is_blank c.oracle) d in
    let (d1, d2) = or_false (is_blank c.component) (is_blank c.title) d1 in
    (
      record {
        case_id = is_blank-false c.case_id a;
        component = is_blank-false c.component d1;
        title = is_blank-false c.title d2;
        oracle = is_blank-false c.oracle d3;
        mode = not-false _ m;
        some_precondition = is_none-false c.required_preconditions p;
        distinct_preconditions = has_duplicates-Distinct c.required_preconditions q;
        no_blank = any-none c.required_preconditions r;
      },
      one_of-absent seen c.case_id b,
      h7,
    )

-- None of the ids is among those seen.
abbrev Fresh : List Text → List Text → Type 0
Fresh seen ids = (id : Text) → Memᴰ id ids → Memᴰ id seen → ⊥

validate_from-Valid :
    (seen : List Text) (cases : List CoverageCase)
    → validate_from seen cases ≡ returned tt
    → All Described cases
      × Distinct (map (λ c. c.case_id) cases)
      × Fresh seen (map (λ c. c.case_id) cases)
unfolding validate_from
validate_from-Valid seen [] h = (tt, tt, λ id m s. elim m [ ])
validate_from-Valid seen (c ∷ cases) h =
    let (described, new, rest) = validate_case-Described seen c _ h in
    let (others, distinct, fresh) = validate_from-Valid (c.case_id ∷ seen) cases rest in
    (
      (described, others),
      (λ m. fresh c.case_id m (Memᴰ.head refl), distinct),
      λ id m s. not_seen id m s new fresh,
    )
  where
    not_seen :
        (id : Text)
        → Memᴰ id (map (λ k. k.case_id) (c ∷ cases))
        → Memᴰ id seen
        → (Memᴰ c.case_id seen → ⊥)
        → Fresh (c.case_id ∷ seen) (map (λ k. k.case_id) cases)
        → ⊥
    not_seen id (Memᴰ.head e) s new fresh = new (rw e at s)
    not_seen id (Memᴰ.tail m) s new fresh = fresh id m (Memᴰ.tail s)

-- A manifest that passes the validation gives no id twice, and describes each case in full: an id,
-- a module, a title and an oracle that are not blank, one of the two modes, and one or more
-- preconditions, none blank and none twice.
pub validate_cases-Distinct :
    (cases : List CoverageCase)
    → validate_cases cases ≡ returned tt
    → All Described cases × Distinct (map (λ c. c.case_id) cases)
unfolding validate_cases
validate_cases-Distinct cases h =
    let (described, distinct, fresh) = validate_from-Valid [] cases h in (described, distinct)
