-- ===== src/Service/Coverage.antt =====
-- service/factor4_calculation_coverage.py: the pending calculation cases and the gate on their
-- preconditions. What `_validate_cases` asks of Python types holds of every case by its type.
pub mod Manifest
pub mod Gate
pub mod Identities
mod Examples
use quest_test.Prelude.{
  ℕ, Bool, true, false, not, ◌||◌, List, [], ◌∷◌, ◌++◌, map, any, if◌then◌else◌, Text, chars,
  text_eq, one_of, strip, upper, starts_with, join,
}
use quest_test.Effect.{Outcome, returned, raised}
use quest_test.Json.{Value, is_true, null}
use mathlib.Core.List.{reverse}

-- `Factor4CoverageCase`
pub record CoverageCase : Type 0 where
  pub case_id : Text
  pub component : Text
  pub title : Text
  pub mode : Text
  pub oracle : Text
  pub required_preconditions : List Text

pub data ManifestError : Type 0 where
  blank_case_id : ManifestError
  duplicate_case_id : Text → ManifestError
  missing_description : Text → ManifestError
  unsupported_mode : Text → ManifestError
  no_preconditions : Text → ManifestError
  duplicate_preconditions : Text → ManifestError
  blank_precondition : Text → ManifestError

unfoldable pub is_blank : Text → Bool
is_blank s = text_eq (strip s) []

abbrev pub is_none : List Text → Bool
is_none [] = true
is_none (c ∷ cs) = false

unfoldable pub has_duplicates : List Text → Bool
has_duplicates [] = false
has_duplicates (name ∷ names) = one_of names name || has_duplicates names

-- The checks of one case, before `rest` checks the others.
unfoldable pub validate_case :
    List Text → CoverageCase → Outcome ManifestError (Unit {0}) → Outcome ManifestError (Unit {0})
unfolding is_blank has_duplicates
validate_case seen_ids c rest =
    if is_blank c.case_id
    then raised blank_case_id
    else if one_of seen_ids c.case_id
    then raised (duplicate_case_id c.case_id)
    else if is_blank c.component || is_blank c.title || is_blank c.oracle
    then raised (missing_description c.case_id)
    else if not (one_of (chars "READ_ONLY" ∷ chars "R1_WRITE" ∷ []) c.mode)
    then raised (unsupported_mode c.case_id)
    else if is_none c.required_preconditions
    then raised (no_preconditions c.case_id)
    else if has_duplicates c.required_preconditions
    then raised (duplicate_preconditions c.case_id)
    else if any is_blank c.required_preconditions
    then raised (blank_precondition c.case_id)
    else rest

-- The loop of `_validate_cases`, with the ids seen so far.
unfoldable pub validate_from : List Text → List CoverageCase → Outcome ManifestError (Unit {0})
unfolding validate_case
validate_from seen_ids [] = returned tt
validate_from seen_ids (c ∷ cs) = validate_case seen_ids c (validate_from (c.case_id ∷ seen_ids) cs)

-- `_validate_cases`
unfoldable pub validate_cases : List CoverageCase → Outcome ManifestError (Unit {0})
unfolding validate_from
validate_cases cases = validate_from [] cases

-- The availability map: keys to any values.
abbrev pub Availability : Type 0
Availability = List (Text × Value)

-- `values.get(precondition)`
unfoldable pub lookup : Text → Availability → Value
lookup name [] = null
lookup name ((key, v) ∷ values) = if text_eq key name then v else lookup name values

-- `values.get(precondition) is True`
unfoldable pub is_available : Availability → Text → Bool
unfolding lookup
is_available values name = is_true (lookup name values)

pub data Readiness : Type 0 where
  ready blocked : Readiness

-- `Factor4CoverageAssessment`
pub record Assessment : Type 0 where
  pub coverage_case : CoverageCase
  pub status : Readiness
  pub missing_preconditions : List Text

-- The preconditions that are not `True`.
unfoldable pub missing_from : Availability → List Text → List Text
unfolding is_available
missing_from values [] = []
missing_from values (name ∷ names) =
    if is_available values name then missing_from values names else name ∷ missing_from values names

abbrev pub readiness : List Text → Readiness
readiness [] = ready
readiness (c ∷ cs) = blocked

unfoldable pub assess_case : Availability → CoverageCase → Assessment
unfolding missing_from
assess_case values c =
    let missing = missing_from values c.required_preconditions in
    record { coverage_case = c; status = readiness missing; missing_preconditions = missing }

-- Whether some case requires the precondition.
unfoldable pub is_known : List CoverageCase → Text → Bool
is_known cases name = any (λ c. one_of c.required_preconditions name) cases

-- `set(values) - known`, in the order of the map
unfoldable pub unknown_keys : List CoverageCase → Availability → List Text
unfolding is_known
unknown_keys cases [] = []
unknown_keys cases ((key, v) ∷ values) =
    if is_known cases key then unknown_keys cases values else key ∷ unknown_keys cases values

pub data AssessError : Type 0 where
  unknown_preconditions : List Text → AssessError

unfoldable pub assess_known :
    List CoverageCase → Availability → List Text → Outcome AssessError (List Assessment)
unfolding assess_case
assess_known cases values [] = returned (map (assess_case values) cases)
assess_known cases values (name ∷ names) = raised (unknown_preconditions (name ∷ names))

-- `assess`
unfoldable pub assess : List CoverageCase → Availability → Outcome AssessError (List Assessment)
unfolding assess_known unknown_keys
assess cases values = assess_known cases values (unknown_keys cases values)

abbrev pub ends_with : Text → Text → Bool
ends_with suffix s = starts_with (reverse suffix) (reverse s)

-- `_missing_reason_code`
unfoldable pub missing_reason_code : Text → Text
missing_reason_code name =
    let normalized = upper (strip name) in
    if ends_with (chars "_MISSING") normalized then normalized else normalized ++ chars "_MISSING"

-- `CalculationStatus`
pub data CalculationStatus : Type 0 where
  pass fail blocked_data_precondition blocked_doc : CalculationStatus

pub data Evidence : Type 0 where
  missing_evidence : (missing codes required : List Text) (oracle : Text) → Evidence
  ready_evidence : (required : List Text) (oracle reason : Text) → Evidence

-- `CalculationIssue`
pub record Issue : Type 0 where
  pub status : CalculationStatus
  pub code : Text
  pub evidence : Evidence

-- `CalculationCheckResult`
pub record CheckResult : Type 0 where
  pub case_id : Text
  pub title : Text
  pub status : CalculationStatus
  pub summary : Text
  pub checked_count : ℕ
  pub findings : List Issue
  pub component : Text
  pub mode : Text
  pub oracle : Text

unfoldable pub missing_codes : Assessment → List Text
unfolding missing_reason_code
missing_codes a = map missing_reason_code a.missing_preconditions

-- `code`, `evidence` and `summary` in `build_blocked_checks`, by the missing preconditions
abbrev pub issue_code : List Text → Text → Text
issue_code [] case_id = chars "LIVE_ORACLE_EXECUTION_REQUIRED"
issue_code (c ∷ cs) case_id = case_id ++ chars "_PRECONDITION_MISSING"

abbrev pub issue_evidence : List Text → List Text → CoverageCase → Evidence
issue_evidence [] codes c =
    ready_evidence c.required_preconditions c.oracle
      (chars "fixture readiness is not a product result")
issue_evidence (m ∷ ms) codes c = missing_evidence (m ∷ ms) codes c.required_preconditions c.oracle

abbrev pub check_summary : List Text → List Text → Text
check_summary [] codes = chars "等待独立真实计算 oracle"
check_summary (m ∷ ms) codes = chars "缺少前置: " ++ join (chars ", ") codes

unfoldable pub blocked_check : Assessment → CheckResult
unfolding missing_codes
blocked_check a =
    let c = a.coverage_case in
    let missing = a.missing_preconditions in
    record {
      case_id = c.case_id;
      title = c.title;
      status = blocked_data_precondition;
      summary = check_summary missing (missing_codes a);
      checked_count = 0;
      findings =
          record {
            status = blocked_data_precondition;
            code = issue_code missing c.case_id;
            evidence = issue_evidence missing (missing_codes a) c;
          }
          ∷ [];
      component = c.component;
      mode = c.mode;
      oracle = c.oracle;
    }

unfoldable pub checks_of :
    Outcome AssessError (List Assessment) → Outcome AssessError (List CheckResult)
unfolding blocked_check
checks_of (returned assessments) = returned (map blocked_check assessments)
checks_of (raised e) = raised e

-- `build_blocked_checks`
unfoldable pub build_blocked_checks :
    List CoverageCase → Availability → Outcome AssessError (List CheckResult)
unfolding checks_of assess
build_blocked_checks cases values = checks_of (assess cases values)
