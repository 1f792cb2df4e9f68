-- ===== src/Service/Research/Results.antt =====
-- service/factor_combo_service.py: reading the structured result of a completed run, with its
-- retries, and sending feedback on it.
use quest_test.Prelude.{
  ℕ, zero, suc, Bool, true, false, not, ◌&&◌, ◌||◌, if◌then◌else◌, Option, none, some, String,
  chars, text_eq, strip, lower, all, ◌==◌, ℤ, pos, negsuc, List, [], ◌∷◌,
}
use quest_test.Effect.{Outcome, returned, raised, pure, raise, ◌>>=◌, ◌>>◌}
use quest_test.Json.{Value, null, bool, int, float, str, obj, Fields, get, get_or_null, as_fields}
use quest_test.Service.Flow.{
  failure, fail_contract, Flow, and_then, require, is_technical, is_transient, require_flow_data,
  required_boolean,
}
use quest_test.Service.Flow.Refresh.{text_or_empty}
use quest_test.Service.Research.{
  Run, PipelineResult, ResearchSettings, Event, release_form, get_run_result, Environment, Step,
  flow_step, record_event, Answer, request, Failure, flow_error, value_error, sleep_for_poll_retry,
}
use quest_test.Service.Research.Values.{
  non_empty, non_empty_or_failure, run_status, recommended_action, pipeline_failed,
}
use quest_test.Service.Research.Components.{validate_components}
use quest_test.Service.Research.Performance.{validate_performance}
use quest_test.Service.Research.Watching.{
  technical_failure, require_id, require_run_id, validate_run_identity, read_real_run_status,
  read_then,
}

-- `if field_name in report:` the field must be a text that is not blank.
unfoldable pub optional_text : Option Value → Flow (Unit {0})
unfolding non_empty
optional_text none = returned tt
optional_text (some v) =
    and_then (non_empty_or_failure v fail_contract "must be a non-empty string when present")
      (λ t. returned tt)

abbrev optional_boolean : Option Value → Flow (Unit {0})
optional_boolean none = returned tt
optional_boolean (some (bool b)) = returned tt
optional_boolean (some v) =
    raised (failure fail_contract "continue_exploration_available must be boolean")

unfoldable pub check_search : Value → Flow (Unit {0})
check_search null = returned tt
check_search (obj search) = optional_boolean (get "continue_exploration_available" search)
check_search v = raised (failure fail_contract "search must be an object when present")

-- `_validate_real_review`
unfoldable pub validate_review : Fields → Flow (Unit {0})
unfolding required_boolean check_search
validate_review review =
    and_then
      (required_boolean (get_or_null "experiment_valid" review) fail_contract
        "experiment_valid is missing or not boolean")
      (λ experiment_valid.
        and_then
          (required_boolean (get_or_null "registration_ready" review) fail_contract
            "registration_ready is missing or not boolean")
          (λ registration_ready.
            require (not (registration_ready && not experiment_valid))
              (failure fail_contract "registration_ready cannot be true when invalid")
              (check_search (get_or_null "search" review))))

abbrev is_flag : Option Value → Bool
is_flag (some null) = true
is_flag (some (bool b)) = true
is_flag _ = false

abbrev is_optional_text : Option Value → Bool
is_optional_text none = true
is_optional_text (some null) = true
is_optional_text (some (str t)) = not (text_eq (strip t) [])
is_optional_text (some v) = false

module _ (env : Environment) where
  abbrev is_optional_number : Option Value → Bool
  is_optional_number none = true
  is_optional_number (some null) = true
  is_optional_number (some (int n)) = true
  is_optional_number (some (float t)) = env.is_decimal (float t)
  is_optional_number (some (str t)) = env.is_decimal (str t)
  is_optional_number (some v) = false

  -- `_validate_real_validity`
  unfoldable pub validate_validity : Fields → Flow (Unit {0})
  validate_validity validity =
      require
        (all (λ name. is_flag (get name validity))
          ("time_series_is_valid" ∷ "cross_sectional_is_valid" ∷ []))
        (failure fail_contract "must be boolean or null")
        (require
          (all (λ name. is_optional_number (get name validity))
            ("overall_score" ∷ "time_series_score" ∷ "cross_sectional_score" ∷ "validity_threshold"
              ∷ []))
          (failure fail_contract "must be numeric or null")
          (require
            (all (λ name. is_optional_text (get name validity))
              ("overall_status" ∷ "time_series_status" ∷ "cross_sectional_status" ∷ []))
            (failure fail_contract "must be a non-empty string or null") (returned tt)))

  abbrev pub check_components : Option Value → Flow (Unit {0})
  check_components none = returned tt
  check_components (some v) = validate_components env v

  abbrev present : Value → Option Value
  present null = none
  present v = some v

  unfoldable pub check_combo : Value → Flow (Unit {0})
  unfolding optional_text validate_components
  check_combo null = returned tt
  check_combo (obj combo) =
      and_then (optional_text (get "formula" combo))
        (λ _. check_components (present (get_or_null "components" combo)))
  check_combo v = raised (failure fail_contract "combo must be an object when present")

  abbrev pub check_performance : Value → Flow (Unit {0})
  check_performance (obj performance) = validate_performance env performance
  check_performance v = raised (failure fail_contract "performance must be an object")

  -- `_validate_real_report`
  unfoldable pub validate_report : Fields → Flow (Unit {0})
  unfolding check_combo non_empty validate_components validate_performance
  validate_report report =
      and_then
        (non_empty_or_failure (get_or_null "factor_name" report) fail_contract
          "factor_name is missing or blank")
        (λ _. and_then (optional_text (get "report_no" report)) (λ _.
          and_then (optional_text (get "formula" report)) (λ _.
            and_then (check_combo (get_or_null "combo" report)) (λ _.
              and_then (check_components (get "components" report))
                (λ _. check_performance (get_or_null "performance" report))))))

  abbrev pub accepted_result : Run → Fields → Fields → Fields → Fields → PipelineResult
  accepted_result run data' report review validity = record {
    run = run;
    report = report;
    review = review;
    validity = validity;
    raw_data = data';
  }

  abbrev pub check_parts :
      Run → Fields → (report review validity : Option Fields) → Flow PipelineResult
  check_parts run data' (some report) (some review) (some validity) =
      and_then (validate_report report) (λ _. and_then (validate_review review) (λ _.
        and_then (validate_validity validity)
          (λ _. returned (accepted_result run data' report review validity))))
  check_parts run data' _ _ _ = raised (failure fail_contract "the result lacks an object")

  unfoldable pub check_result_object : Run → Fields → Value → Flow PipelineResult
  unfolding validate_report validate_review validate_validity as_fields
  check_result_object run data' (obj result) =
      check_parts run data' (as_fields (get_or_null "factor_combo_report" result))
        (as_fields (get_or_null "factor_combo_review" result))
        (as_fields (get_or_null "factor_validity_status" result))
  check_result_object run data' v = raised (failure fail_contract "result field must be an object")

  unfoldable pub check_result : Run → Fields → Flow PipelineResult
  unfolding check_result_object require_id require_run_id text_or_empty
  check_result run data' = require_id env (get_or_null "form_id" data') run.form.form_id (
      require_run_id env (get_or_null "pipeline_run_id" data') run.pipeline_run_id (
        require
          (text_eq (lower (strip (text_or_empty env.show (get "pipeline_status" data'))))
            (chars "completed"))
          (failure fail_contract "result endpoint returned a non-completed pipeline")
          (check_result_object run data' (get_or_null "result" data'))))

  -- `require_real_pipeline_result`
  unfoldable pub require_result : Answer → Run → Step PipelineResult
  unfolding check_result validate_run_identity require_flow_data
  require_result answer run = do
    _ ← validate_run_identity env run
    flow_step
        (and_then (require_flow_data (200 ∷ []) answer.status_code answer.body) (check_result run))

  -- What follows the status read after a 404; `again` is the next attempt, with the reason for
  -- which there is none.
  unfoldable pub after_missing :
      (String → Step PipelineResult)
      → Outcome Failure Fields × List Event
      → Outcome Failure PipelineResult × List Event
  unfolding run_status recommended_action pipeline_failed
  after_missing again (returned data', log) =
      if text_eq (recommended_action data') (chars "retry_run")
        || pipeline_failed (run_status data')
      then raise
          (technical_failure "Pipeline became unsuccessful" true
            "pipeline_failed_before_result_available")
          log
      else again "structured_result_unavailable" log
  after_missing again (raised (flow_error e), log) =
      if is_technical e.outcome
      then again "result_and_status_unavailable" log
      else (raised (flow_error e), log)
  after_missing again (raised e, log) = (raised e, log)

  unfoldable pub after_answer :
      Run
      → (String → Step PipelineResult)
      → Outcome Failure Answer × List Event
      → Outcome Failure PipelineResult × List Event
  unfolding after_missing require_result read_real_run_status is_transient
  after_answer run again (returned answer, log) =
      if answer.status_code == 404
      then read_then env (after_missing again) (read_real_run_status env run) log
      else if is_transient answer.status_code
      then again "structured_result_unavailable" log
      else (do
        result ← require_result answer run
        _ ← record_event (release_form run.form.form_id)
        pure result)
          log
  after_answer run again (raised (flow_error e), log) =
      if is_technical e.outcome
      then again "result_request_unavailable" log
      else (raised (flow_error e), log)
  after_answer run again (raised e, log) = (raised e, log)

  unfoldable pub read_once : Run → (String → Step PipelineResult) → Step PipelineResult
  unfolding after_answer request
  read_once run again =
      read_then env (after_answer run again)
        (request env (get_run_result run.form.form_id run.pipeline_run_id))

  -- The `for` loop of `read_real_pipeline_result`, by the retries that are left.
  unfoldable pub read_attempts : ResearchSettings → Run → (left : ℕ) → Step PipelineResult
  unfolding read_once sleep_for_poll_retry
  read_attempts settings run zero =
      read_once run (λ reason. raise (technical_failure "result unavailable" false reason))
  read_attempts settings run (suc left) =
      let loop = read_attempts settings run left in
      read_once run (λ reason. sleep_for_poll_retry settings.poll_interval >> loop)

  -- `read_real_pipeline_result`
  unfoldable pub read_real_pipeline_result :
      ResearchSettings → (max_retries : ℤ) → Run → Step PipelineResult
  unfolding read_attempts
  read_real_pipeline_result settings (pos n) run = read_attempts settings run n
  read_real_pipeline_result settings (negsuc n) run = raise value_error
