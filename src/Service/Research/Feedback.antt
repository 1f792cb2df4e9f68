-- ===== src/Service/Research/Feedback.antt =====
-- service/factor_combo_service.py: `require_feedback_response` and `submit_real_feedback`. The
-- required fields are those of service/factor_combo_persistence.py.
use quest_test.Prelude.{
  ℕ, Bool, true, false, not, if◌then◌else◌, Option, none, some, String, Text, chars, text_eq, strip,
  one_of, any, all, ◌==◌, ℤ, pos, negsuc, List, [], ◌∷◌,
}
use quest_test.Effect.{returned, raised, raise, ◌>>=◌}
use quest_test.Json.{Value, bool, int, obj, Fields, get, get_or_null, is_true, as_fields}
use quest_test.Service.Flow.{failure, fail_contract, Flow, and_then, require}
use quest_test.Service.Research.{
  PipelineResult, submit_feedback, Environment, Step, flow_step, Answer, request, runtime_error,
  value_error,
}
use quest_test.Service.Research.Values.{positive, some_or_failure, non_empty}

abbrev pub has_field : Fields → String → Bool
has_field data' name = elim (get name data') [ some v ↦ true | none ↦ false ]

-- `_FEEDBACK_RESULT_REQUIRED_FIELDS`
abbrev pub feedback_fields : List String
feedback_fields =
    "feedback_recorded" ∷ "idempotent_replay" ∷ "feedback_id" ∷ "feedback_round" ∷ "feedback_status"
    ∷ "reply" ∷ "form_id" ∷ "form_status" ∷ "factor_combo_experiment_info_id"
    ∷ "rejected_factor_combo_version_id" ∷ "experiment_valid" ∷ []

-- `_FEEDBACK_STATUS_VALUES`
abbrev feedback_statuses : List Text
feedback_statuses =
    chars "pending"
    ∷ chars "processing"
    ∷ chars "completed"
    ∷ chars "failed"
    ∷ chars "legacy_failed"
    ∷ []

-- `_required_response_int`, with the minimum 1
unfoldable pub response_int : Fields → String → Flow ℕ
unfolding positive
response_int data' name = elim (get_or_null name data') [
  | int n ↦ some_or_failure (positive n) fail_contract "must be an integer >= 1"
  | _ ↦ raised (failure fail_contract "must be an integer >= 1")
]

-- `_required_response_string`
unfoldable pub response_string : Fields → String → Flow Text
unfolding non_empty
response_string data' name =
    some_or_failure (non_empty (get_or_null name data')) fail_contract "must be a non-empty string"

-- `_required_response_bool`
unfoldable pub response_bool : Fields → String → Flow Bool
response_bool data' name = elim (get_or_null name data') [
  | bool b ↦ returned b
  | _ ↦ raised (failure fail_contract "must be a boolean")
]

-- `expected is not None and number != int(expected)`
abbrev differs : Option ℤ → ℕ → Bool
differs none n = false
differs (some (pos m)) n = not (n == m)
differs (some (negsuc m)) n = true

-- The fields of a feedback response, after the required ones are known to be present.
unfoldable pub check_feedback : Fields → ℕ → Option ℤ → Flow (ℕ × ℕ)
unfolding response_int response_string response_bool
check_feedback data' form_id experiment =
    and_then (response_bool data' "feedback_recorded") (λ recorded.
      require recorded (failure fail_contract "feedback_recorded must be true") (
        and_then (response_bool data' "idempotent_replay") (λ _.
          and_then (response_string data' "feedback_status") (λ status.
            require (one_of feedback_statuses status)
              (failure fail_contract "feedback_status is outside the documented enum")
              (require (text_eq status (chars "pending"))
                (failure fail_contract "feedback_status does not match the expected flow state")
                (check_numbers data' form_id experiment))))))
  where
    check_tail : Fields → Flow (ℕ × ℕ)
    check_tail fields = and_then (response_string fields "form_status") (λ form_status.
        require (one_of (chars "processing" ∷ chars "completed" ∷ chars "failed" ∷ []) form_status)
          (failure fail_contract "feedback form_status is invalid")
          (and_then (response_bool fields "experiment_valid") (λ valid.
            require (not valid) (failure fail_contract "feedback experiment_valid must be false") (
              and_then (response_int fields "feedback_id") (λ feedback_id.
                and_then (response_int fields "feedback_round") (λ round.
                  and_then (response_int fields "rejected_factor_combo_version_id")
                    (λ _. returned (feedback_id, round))))))))

    check_numbers : Fields → ℕ → Option ℤ → Flow (ℕ × ℕ)
    check_numbers fields expected_form expected_experiment =
        and_then (response_int fields "reply") (λ reply.
          require (reply == 2) (failure fail_contract "feedback reply must be 2") (
            and_then (response_int fields "form_id") (λ n.
              require (n == expected_form)
                (failure fail_contract "feedback form_id does not match the flow")
                (and_then (response_int fields "factor_combo_experiment_info_id") (λ m.
                  require (not (differs expected_experiment m))
                    (failure fail_contract "feedback experiment_info_id does not match the flow")
                    (check_tail fields))))))

-- The data of a success envelope; where there are none, `_require_success_data` raises a
-- `RuntimeError`.
unfoldable pub success_data : List ℕ → Answer → Option Fields
unfolding as_fields
success_data expected answer =
    if not (any (λ c. answer.status_code == c) expected) then none else elim answer.body [
      | obj payload ↦
          if is_true (get_or_null "success" payload)
          then as_fields (get_or_null "data" payload)
          else none
      | _ ↦ none
    ]

abbrev pub checked_feedback : ℕ → Option ℤ → Option Fields → Step (ℕ × ℕ)
checked_feedback form_id experiment none = raise runtime_error
checked_feedback form_id experiment (some data') = flow_step (
    require (all (has_field data') feedback_fields)
      (failure fail_contract "the response is missing required fields")
      (check_feedback data' form_id experiment))

-- `require_feedback_response`, for a feedback whose status must be pending
unfoldable pub require_feedback_response : ℕ → Option ℤ → Answer → Step (ℕ × ℕ)
unfolding success_data check_feedback
require_feedback_response form_id experiment answer =
    checked_feedback form_id experiment (success_data (200 ∷ []) answer)

-- `raw_data.get("experiment_info_id")`, if it is an `int`; a `bool` is one in Python.
abbrev pub experiment_of : Value → Option ℤ
experiment_of (int n) = some n
experiment_of (bool true) = some (pos 1)
experiment_of (bool false) = some (pos 0)
experiment_of v = none

-- `submit_real_feedback`, giving the id and the round of the feedback
unfoldable pub submit_real_feedback :
    Environment → PipelineResult → (feedback : Text) → Step (ℕ × ℕ)
unfolding request require_feedback_response
submit_real_feedback env result feedback =
    if text_eq (strip feedback) [] then raise value_error else do
      let form = result.run.form
      answer ← request env (submit_feedback form.form_id (strip feedback))
      require_feedback_response form.form_id
          (experiment_of (get_or_null "experiment_info_id" result.raw_data)) answer
