-- ===== src/Service/Coverage/Examples.antt =====
-- The pending cases under small availability maps.
use quest_test.Prelude.{◌≡◌, refl, List, [], ◌∷◌, map, true, All, chars}
use quest_test.Effect.{returned, raised}
use quest_test.Json.{bool}
use quest_test.Service.Coverage.{
  CoverageCase, Availability, validate_cases, assess, assess_case, build_blocked_checks,
  blocked_check, unknown_preconditions,
}
use quest_test.Service.Coverage.Manifest.{pending_factor4_calculation_cases}
use quest_test.Service.Coverage.Gate.{Gated, assess-Gated, Blocked, build_blocked_checks-Blocked}
use quest_test.Service.Coverage.Identities.{Distinct, Described, validate_cases-Distinct}

abbrev cases : List CoverageCase
unfolding pending_factor4_calculation_cases
cases = pending_factor4_calculation_cases

abbrev gap_case : CoverageCase
gap_case = record {
  case_id = chars "CALC-1";
  component = chars "m";
  title = chars "t";
  mode = chars "READ_ONLY";
  oracle = chars "o";
  required_preconditions = chars "A" ∷ chars "B" ∷ [];
}

abbrev half : Availability
half = (chars "A", bool true) ∷ []

misspelled_key :
    assess (gap_case ∷ []) ((chars "X", bool true) ∷ [])
    ≡ raised (unknown_preconditions (chars "X" ∷ []))
unfolding assess
misspelled_key = refl

pending_valid : validate_cases cases ≡ returned tt
unfolding validate_cases pending_factor4_calculation_cases
pending_valid = refl

validate_cases-Distinct_example : All Described cases × Distinct (map (λ c. c.case_id) cases)
validate_cases-Distinct_example = validate_cases-Distinct cases pending_valid

half_assessed : assess (gap_case ∷ []) half ≡ returned (assess_case half gap_case ∷ [])
unfolding assess
half_assessed = refl

assess-Gated_example : Gated (gap_case ∷ []) half (assess_case half gap_case ∷ [])
assess-Gated_example =
    assess-Gated (gap_case ∷ []) half (assess_case half gap_case ∷ []) half_assessed

build_half :
    build_blocked_checks (gap_case ∷ []) half
    ≡ returned (blocked_check (assess_case half gap_case) ∷ [])
unfolding build_blocked_checks
build_half = refl

build_blocked_checks-Blocked_example :
    (map (λ r. r.case_id) (blocked_check (assess_case half gap_case) ∷ [])
      ≡ map (λ c. c.case_id) (gap_case ∷ []))
    × All Blocked (blocked_check (assess_case half gap_case) ∷ [])
build_blocked_checks-Blocked_example =
    build_blocked_checks-Blocked (gap_case ∷ []) half
      (blocked_check (assess_case half gap_case) ∷ []) build_half
