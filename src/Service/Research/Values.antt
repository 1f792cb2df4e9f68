-- ===== src/Service/Research/Values.antt =====
-- service/factor_combo_service.py: the readers of single fields that the research flow shares.
use quest_test.Prelude.{
  ℕ, zero, suc, Bool, false, ◌&&◌, ◌||◌, if◌then◌else◌, Option, none, some, [], ◌∷◌, String, Text,
  chars, text_eq, strip, one_of, all, length, ◌==◌, leb, ℤ, pos, negsuc,
}
use quest_test.Effect.{returned, raised}
use quest_test.Json.{Value, null, int, float, str, Fields, get, get_or_null}
use quest_test.Service.Research.{Environment}
use quest_test.Service.Flow.{FlowOutcome, failure, Flow, normalize_status}

unfoldable pub positive : ℤ → Option ℕ
positive (pos zero) = none
positive (pos (suc n)) = some (suc n)
positive (negsuc n) = none

abbrev pub positive_of : Option ℤ → Option ℕ
positive_of none = none
positive_of (some n) = positive n

abbrev pub some_or_failure : {A : Type 0} → Option A → FlowOutcome → String → Flow A
some_or_failure (some a) outcome message = returned a
some_or_failure none outcome message = raised (failure outcome message)

module _ (env : Environment) where
  -- The number that `_positive_int_or_failure` accepts.
  unfoldable pub positive_int : Value → Option ℕ
  unfolding positive
  positive_int (int n) = positive n
  positive_int (float t) = if env.is_whole t then positive_of (env.int_of (float t)) else none
  positive_int (str t) = positive_of (env.int_of (str t))
  positive_int v = none

  -- `_positive_int_or_failure`
  abbrev pub positive_int_or_failure : Value → FlowOutcome → String → Flow ℕ
  positive_int_or_failure v = some_or_failure (positive_int v)

-- `isinstance(value, str) and value.strip()`, with the stripped text
unfoldable pub non_empty : Value → Option Text
non_empty (str t) = if text_eq (strip t) [] then none else some (strip t)
non_empty v = none

-- `_required_non_empty_string_or_failure`
abbrev pub non_empty_or_failure : Value → FlowOutcome → String → Flow Text
non_empty_or_failure v = some_or_failure (non_empty v)

-- `data.get("pipeline_status", data.get("status", ...))`
unfoldable pub status_value : Fields → Option Value
status_value data' = elim (get "pipeline_status" data') [
  | some v ↦ some v
  | none ↦ get "status" data'
]

abbrev pub value_or_null : Option Value → Value
value_or_null (some v) = v
value_or_null none = null

-- The status and the action that the flow branches on.
unfoldable pub run_status : Fields → Text
run_status data' = normalize_status (value_or_null (status_value data'))

unfoldable pub recommended_action : Fields → Text
recommended_action data' = normalize_status (get_or_null "recommended_action" data')

-- `_PIPELINE_FAILED_STATUSES`
unfoldable pub pipeline_failed : Text → Bool
pipeline_failed = one_of (
    chars "failed"
    ∷ chars "partial"
    ∷ chars "partial_failed"
    ∷ chars "partial_fail"
    ∷ chars "error"
    ∷ chars "cancelled"
    ∷ chars "canceled"
    ∷ chars "aborted"
    ∷ [])

abbrev pub is_digit : ℕ → Bool
is_digit c = leb b'0' c && leb c b'9'

abbrev pub is_hex : ℕ → Bool
is_hex c = is_digit c || leb b'a' c && leb c b'f'

-- `-[0-9a-f]{16}$`, after the digits
unfoldable pub is_run_tail : Text → Bool
is_run_tail [] = false
is_run_tail (c ∷ t) =
    let rest = is_run_tail t in
    if is_digit c then rest else c == b'-' && (length t == 16 && all is_hex t)

unfoldable pub is_run_number : Text → Bool
unfolding is_run_tail
is_run_number [] = false
is_run_number (c ∷ t) = leb b'1' c && leb c b'9' && is_run_tail t

unfoldable pub drop_prefix : Text → Text → Option Text
drop_prefix [] s = some s
drop_prefix (p ∷ ps) [] = none
drop_prefix (p ∷ ps) (c ∷ s) = if p == c then drop_prefix ps s else none

-- `_REAL_PIPELINE_RUN_ID.fullmatch`
unfoldable pub is_run_id : Text → Bool
unfolding is_run_number drop_prefix
is_run_id t = elim (drop_prefix (chars "combo-") t) [
  | some rest ↦ is_run_number rest
  | none ↦ false
]
