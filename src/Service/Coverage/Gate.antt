-- ===== src/Service/Coverage/Gate.antt =====
-- The gate: which cases are ready, and that a check it builds never passes.
use quest_test.Prelude.{
  ◌≡◌, ◌≢◌, ◌↔◌, refl, ap, ap, ◌∙◌, true, false, List, [], ◌∷◌, map, all, All, Text, Bool-cases,
  inl, inr, length, subst,
}
use mathlib.Core.List.{Memᴰ}
use quest_test.Effect.{Outcome, returned}
use quest_test.Service.Coverage.{
  CoverageCase, Availability, is_available, Assessment, missing_from, ready, readiness, assess_case,
  is_known, unknown_keys, AssessError, assess_known, assess, CheckResult, blocked_data_precondition,
  blocked_check, build_blocked_checks, checks_of, Issue,
}

module _ (values : Availability) where
  -- What is missing is required and not available, and nothing else that is required is.
  pub missing_from-available :
      (names : List Text)
      → (readiness (missing_from values names) ≡ ready) ↔ (all (is_available values) names ≡ true)
  unfolding missing_from
  missing_from-available [] = (λ h. refl, λ h. refl)
  missing_from-available (name ∷ names) = elim (Bool-cases (is_available values name)) [
    | inl e ↦ rw e (missing_from-available names)
    | inr e ↦ rw e (λ h. cc, λ h. cc)
  ]

  first_or_later :
      (n : Text) (names missing : List Text) (name : Text)
      → is_available values n ≡ false
      → Memᴰ name (n ∷ missing)
      → (Memᴰ name missing → Memᴰ name names × (is_available values name ≡ false))
      → Memᴰ name (n ∷ names) × (is_available values name ≡ false)
  first_or_later n names missing name e (Memᴰ.head same) later =
      (Memᴰ.head same, ap (is_available values) same ∙ e)
  first_or_later n names missing name e (Memᴰ.tail m) later =
      let (m', un) = later m in (Memᴰ.tail m', un)

  missing_from-unavailable :
      (names : List Text) (name : Text)
      → Memᴰ name (missing_from values names)
      → Memᴰ name names × (is_available values name ≡ false)
  unfolding missing_from
  missing_from-unavailable [] name m = elim m [ ]
  missing_from-unavailable (n ∷ names) name m = elim (Bool-cases (is_available values n)) [
    | inl e ↦
        let (later, un) = missing_from-unavailable names name (rw e at m) in (Memᴰ.tail later, un)
    | inr e ↦
        first_or_later n names (missing_from values names) name e (rw e at m)
          (missing_from-unavailable names name)
  ]

  -- An assessment is `READY` exactly if all that the case requires is available, and what it
  -- reports missing is required and not available.
  pub record Exact (a : Assessment) : Type 0 where
    pub ready_exactly :
        (a.status ≡ ready)
        ↔ (all (is_available values) a.coverage_case.required_preconditions ≡ true)
    pub missing :
        (name : Text)
        → Memᴰ name a.missing_preconditions
        → Memᴰ name a.coverage_case.required_preconditions × (is_available values name ≡ false)

  assess_case-Exact : (c : CoverageCase) → Exact (assess_case values c)
  unfolding assess_case
  assess_case-Exact c = record {
    ready_exactly = missing_from-available c.required_preconditions;
    missing = missing_from-unavailable c.required_preconditions;
  }

  map-Exact : (cases : List CoverageCase) → All Exact (map (assess_case values) cases)
  map-Exact [] = tt
  map-Exact (c ∷ cases) = (assess_case-Exact c, map-Exact cases)

  map-cases :
      (cases : List CoverageCase)
      → map (λ a. a.coverage_case) (map (assess_case values) cases) ≡ cases
  unfolding assess_case
  map-cases [] = refl
  map-cases (c ∷ cases) = ap (λ cs. c ∷ cs) (map-cases cases)

  map-ids :
      (cases : List CoverageCase)
      → map (λ r. r.case_id) (map blocked_check (map (assess_case values) cases))
        ≡ map (λ c. c.case_id) cases
  unfolding assess_case blocked_check
  map-ids [] = refl
  map-ids (c ∷ cases) = ap (λ ids. c.case_id ∷ ids) (map-ids cases)

unknown_keys-none :
    (cases : List CoverageCase) (values : Availability)
    → unknown_keys cases values ≡ []
    → All (λ entry. is_known cases entry.0 ≡ true) values
unfolding unknown_keys
unknown_keys-none cases [] h = tt
unknown_keys-none cases ((key, v) ∷ values) h = elim (Bool-cases (is_known cases key)) [
  | inl e ↦ (e, unknown_keys-none cases values (rw e at h))
  | inr e ↦ absurd (nonempty key (unknown_keys cases values) (rw e at h))
]
  where
    nonempty : (k : Text) (ks : List Text) → k ∷ ks ≢ []
    nonempty k ks e = cc

-- What a returned assessment is.
pub record Gated (cases : List CoverageCase) (values : Availability) (found : List Assessment)
    : Type 0 where
  pub known : All (λ entry. is_known cases entry.0 ≡ true) values
  pub same_cases : map (λ a. a.coverage_case) found ≡ cases
  pub exact : All (Exact values) found

assess_known-Gated :
    (cases : List CoverageCase) (values : Availability) (unknown : List Text)
    (found : List Assessment)
    → unknown_keys cases values ≡ unknown
    → assess_known cases values unknown ≡ returned found
    → Gated cases values found
unfolding assess_known
assess_known-Gated cases values (k ∷ ks) found e h = cc
assess_known-Gated cases values [] found e h =
    subst (Gated cases values) (returned_inv _ found h) (record {
      known = unknown_keys-none cases values e;
      same_cases = map-cases values cases;
      exact = map-Exact values cases;
    })
  where
    returned_inv :
        (xs ys : List Assessment)
        → ◌≡◌ {A = Outcome AssessError (List Assessment)} (returned xs) (returned ys)
        → xs ≡ ys
    returned_inv xs ys h = cc

-- If `assess` returns, every key of the availability map names a precondition of some case, the
-- assessments are of the manifest's cases in their order, each is `READY` exactly if all that its
-- case requires is `True` in the map, and what it reports missing is required and not `True`.
pub assess-Gated :
    (cases : List CoverageCase) (values : Availability) (found : List Assessment)
    → assess cases values ≡ returned found
    → Gated cases values found
unfolding assess
assess-Gated cases values found h = assess_known-Gated cases values _ found refl h

-- A check that no one can take for a pass: blocked, with nothing counted, and one finding, blocked
-- too.
pub record Blocked (r : CheckResult) : Type 0 where
  pub status : r.status ≡ blocked_data_precondition
  pub nothing_counted : r.checked_count ≡ 0
  pub one_finding : length r.findings ≡ 1
  pub findings_blocked : All (λ (i : Issue). i.status ≡ blocked_data_precondition) r.findings

map-Blocked : (found : List Assessment) → All Blocked (map blocked_check found)
unfolding blocked_check
map-Blocked [] = tt
map-Blocked (a ∷ found) = (
  record {
    status = refl;
    nothing_counted = refl;
    one_finding = refl;
    findings_blocked = (refl, tt);
  },
  map-Blocked found,
)

checks_of-Blocked :
    (cases : List CoverageCase) (values : Availability) (unknown : List Text)
    (rs : List CheckResult)
    → checks_of (assess_known cases values unknown) ≡ returned rs
    → (map (λ r. r.case_id) rs ≡ map (λ c. c.case_id) cases) × All Blocked rs
unfolding checks_of assess_known
checks_of-Blocked cases values (k ∷ ks) rs h = cc
checks_of-Blocked cases values [] rs h =
    subst (λ xs. (map (λ r. r.case_id) xs ≡ map (λ c. c.case_id) cases) × All Blocked xs)
      (returned_inv _ rs h) (map-ids values cases, map-Blocked (map (assess_case values) cases))
  where
    returned_inv :
        (xs ys : List CheckResult)
        → ◌≡◌ {A = Outcome AssessError (List CheckResult)} (returned xs) (returned ys)
        → xs ≡ ys
    returned_inv xs ys h = cc

-- Whatever is available, the checks that are built are those of the manifest's cases, in order and
-- none left out, and each is blocked on its preconditions, with no count and one blocked finding.
pub build_blocked_checks-Blocked :
    (cases : List CoverageCase) (values : Availability) (rs : List CheckResult)
    → build_blocked_checks cases values ≡ returned rs
    → (map (λ r. r.case_id) rs ≡ map (λ c. c.case_id) cases) × All Blocked rs
unfolding build_blocked_checks
build_blocked_checks-Blocked cases values rs h =
    checks_of-Blocked cases values (unknown_keys cases values) rs h
