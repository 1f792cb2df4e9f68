-- ===== src/Service/Research/Accepted.antt =====
-- The results that `read_real_pipeline_result` accepts: each is of its run.
use quest_test.Prelude.{
  ℕ, zero, suc, ◌≡◌, refl, subst, false, ◌||◌, if_ind, Option, none, some, String, text_eq, chars,
  strip, lower, List, [], ◌∷◌, ◌++◌, ◌==◌, ℤ, pos, negsuc,
}
use quest_test.Effect.{Outcome, returned, raised, raise, ◌>>=◌, ◌>>◌, go_on, go_on_inv}
use quest_test.Json.{
  Value, null, bool, int, float, str, arr, obj, Fields, get, get_or_null, as_fields,
}
use quest_test.Service.Flow.{
  Flow, and_then, and_then_inv, require_inv, is_technical, is_transient, require_flow_data, failure,
  fail_contract,
}
use quest_test.Service.Flow.Refresh.{text_or_empty}
use quest_test.Service.Research.{
  Run, PipelineResult, ResearchSettings, Failure, flow_error, timeout_error, value_error,
  runtime_error, database_error, out_of_fuel, Event, sleep, release_form, get_run_result,
  Environment, Step, flow_step, flow_step_inv, record_event, Answer, request, sleep_for_poll_retry,
}
use quest_test.Service.Research.Values.{run_status, recommended_action, pipeline_failed}
use quest_test.Service.Research.Watching.{
  technical_failure, validate_run_identity, read_real_run_status,
}
use quest_test.Service.Research.Results.{
  validate_report, validate_review, validate_validity, accepted_result, check_parts,
  check_result_object, check_result, require_result, after_missing, after_answer, read_once,
  read_attempts, read_real_pipeline_result,
}
use quest_test.Service.Research.Matching.{Matches, require_id_inv, require_run_id_inv}

module _ (env : Environment) where
  -- A result that was accepted as the one of `run`.
  pub record Accepted (run : Run) (result : PipelineResult) : Type 0 where
    pub of_run : result.run ≡ run
    pub matches : Matches env run result.raw_data
    pub reported : validate_report env result.report ≡ returned tt
    pub reviewed : validate_review result.review ≡ returned tt

  returned_inv :
      (a b : PipelineResult) → ◌≡◌ {A = Flow PipelineResult} (returned a) (returned b) → a ≡ b
  returned_inv a b h = cc

  only_unit : (u : Unit {0}) → u ≡ tt
  only_unit u = refl

  check_parts-Accepted :
      (run : Run) (data' : Fields) (report review validity : Option Fields)
      (result : PipelineResult)
      → Matches env run data'
      → check_parts env run data' report review validity ≡ returned result
      → Accepted run result
  check_parts-Accepted run data' (some report) (some review) (some validity) result matches h =
      let fresh = accepted_result env run data' report review validity in
      let (u, reported, h1) =
        and_then_inv (validate_report env report)
          (λ _.
            and_then (validate_review review)
              (λ _. and_then (validate_validity env validity) (λ _. returned fresh)))
          result h in
      let (v, reviewed, h2) =
        and_then_inv (validate_review review)
          (λ _. and_then (validate_validity env validity) (λ _. returned fresh)) result h1 in
      let (w, _, h3) =
        and_then_inv (validate_validity env validity) (λ _. returned fresh) result h2 in
      subst (Accepted run) (returned_inv fresh result h3)
        (record { of_run = refl; matches = matches; reported = reported; reviewed = reviewed })
  check_parts-Accepted run data' (some report) (some review) none result matches h = cc
  check_parts-Accepted run data' (some report) none validity result matches h = cc
  check_parts-Accepted run data' none review validity result matches h = cc

  check_object-Accepted :
      (run : Run) (data' : Fields) (v : Value) (result : PipelineResult)
      → Matches env run data'
      → check_result_object env run data' v ≡ returned result
      → Accepted run result
  unfolding check_result_object
  check_object-Accepted run data' (obj o) result matches h =
      check_parts-Accepted run data' (as_fields (get_or_null "factor_combo_report" o))
        (as_fields (get_or_null "factor_combo_review" o))
        (as_fields (get_or_null "factor_validity_status" o)) result matches h
  check_object-Accepted run data' null result matches h = cc
  check_object-Accepted run data' (bool b) result matches h = cc
  check_object-Accepted run data' (int n) result matches h = cc
  check_object-Accepted run data' (float t) result matches h = cc
  check_object-Accepted run data' (str t) result matches h = cc
  check_object-Accepted run data' (arr a) result matches h = cc

  check_result-Accepted :
      (run : Run) (data' : Fields) (result : PipelineResult)
      → check_result env run data' ≡ returned result
      → Accepted run result
  unfolding check_result
  check_result-Accepted run data' result h =
      let (form, h1) =
        require_id_inv env (get_or_null "form_id" data') run.form.form_id _ result h in
      let (id, h2) =
        require_run_id_inv env (get_or_null "pipeline_run_id" data') run.pipeline_run_id _ result
          h1 in
      let (_, h3) =
        require_inv
          (text_eq (lower (strip (text_or_empty env.show (get "pipeline_status" data'))))
            (chars "completed"))
          (failure fail_contract "result endpoint returned a non-completed pipeline")
          (check_result_object env run data' (get_or_null "result" data')) result h2 in
      check_object-Accepted run data' (get_or_null "result" data') result
        (record { same_form = form; same_run = id }) h3

  -- What a read of the result may end with.
  abbrev pub Yields : Run → Outcome Failure PipelineResult × List Event → Type 0
  Yields run x = (result : PipelineResult) → x.0 ≡ returned result → Accepted run result

  require_result-Yields :
      (answer : Answer) (run : Run) (log : List Event)
      → Yields run (require_result env answer run log)
  unfolding require_result
  require_result-Yields answer run log result h =
      let data' = require_flow_data (200 ∷ []) answer.status_code answer.body in
      let checked = and_then data' (check_result env run) in
      let (u, _, h1) =
        go_on_inv (validate_run_identity env run log) (λ _. flow_step checked) result h in
      let (d, _, h2) =
        and_then_inv data' (check_result env run) result
          (flow_step_inv checked (validate_run_identity env run log).1 result h1) in
      check_result-Accepted run d result h2

  outcome_inv :
      (a b : PipelineResult)
      → ◌≡◌ {A = Outcome Failure PipelineResult} (returned a) (returned b)
      → a ≡ b
  outcome_inv a b h = cc

  -- The result is passed on after the release of the form.
  released-Yields :
      (run : Run) (x : Outcome Failure PipelineResult × List Event)
      → Yields run x
      → Yields run (
          go_on x (λ result.
            record_event (release_form run.form.form_id) >>= λ _ l. (returned result, l)))
  released-Yields run (returned r, log) yields result h = yields result h
  released-Yields run (raised e, log) yields result h = cc

  after_missing-Yields :
      (run : Run) (again : String → Step PipelineResult)
      → ((reason : String) (log : List Event) → Yields run (again reason log))
      → (r : Outcome Failure Fields × List Event) → Yields run (after_missing env again r)
  unfolding after_missing
  after_missing-Yields run again keeps (returned d, log) =
      if_ind (Yields run)
        (text_eq (recommended_action d) (chars "retry_run") || pipeline_failed (run_status d))
        (λ _ r h. cc) (λ _. keeps _ log)
  after_missing-Yields run again keeps (raised (flow_error e), log) =
      if_ind (Yields run) (is_technical e.outcome) (λ _. keeps _ log) (λ _ r h. cc)
  after_missing-Yields run again keeps (raised timeout_error, log) = λ r h. cc
  after_missing-Yields run again keeps (raised value_error, log) = λ r h. cc
  after_missing-Yields run again keeps (raised runtime_error, log) = λ r h. cc
  after_missing-Yields run again keeps (raised database_error, log) = λ r h. cc
  after_missing-Yields run again keeps (raised out_of_fuel, log) = λ r h. cc

  after_answer-Yields :
      (run : Run) (again : String → Step PipelineResult)
      → ((reason : String) (log : List Event) → Yields run (again reason log))
      → (r : Outcome Failure Answer × List Event) → Yields run (after_answer env run again r)
  unfolding after_answer
  after_answer-Yields run again keeps (returned answer, log) =
      if_ind (Yields run) (answer.status_code == 404)
        (λ _. after_missing-Yields run again keeps (read_real_run_status env run log))
        (λ _.
          if_ind (Yields run) (is_transient answer.status_code) (λ _. keeps _ log)
            (λ _.
              released-Yields run (require_result env answer run log)
                (require_result-Yields answer run log)))
  after_answer-Yields run again keeps (raised (flow_error e), log) =
      if_ind (Yields run) (is_technical e.outcome) (λ _. keeps _ log) (λ _ r h. cc)
  after_answer-Yields run again keeps (raised timeout_error, log) = λ r h. cc
  after_answer-Yields run again keeps (raised value_error, log) = λ r h. cc
  after_answer-Yields run again keeps (raised runtime_error, log) = λ r h. cc
  after_answer-Yields run again keeps (raised database_error, log) = λ r h. cc
  after_answer-Yields run again keeps (raised out_of_fuel, log) = λ r h. cc

  sleep-Yields :
      (run : Run) (m : Step PipelineResult) (n : ℤ)
      → ((log : List Event) → Yields run (m log))
      → (log : List Event) → Yields run ((sleep_for_poll_retry n >> m) log)
  unfolding sleep_for_poll_retry
  sleep-Yields run m (pos zero) keeps log = keeps log
  sleep-Yields run m (pos (suc n)) keeps log = keeps (log ++ (sleep (suc n) ∷ []))
  sleep-Yields run m (negsuc n) keeps log = keeps log

  read_attempts-Yields :
      (settings : ResearchSettings) (run : Run) (left : ℕ) (log : List Event)
      → Yields run (read_attempts env settings run left log)
  unfolding read_attempts read_once
  read_attempts-Yields settings run zero log =
      after_answer-Yields run
        (λ reason. raise (technical_failure "result unavailable" false reason))
        (λ reason later r h. cc)
        (request env (get_run_result run.form.form_id run.pipeline_run_id) log)
  read_attempts-Yields settings run (suc left) log =
      after_answer-Yields run
        (λ reason.
          sleep_for_poll_retry settings.poll_interval >> read_attempts env settings run left)
        (λ reason.
          sleep-Yields run (read_attempts env settings run left) settings.poll_interval
            (read_attempts-Yields settings run left))
        (request env (get_run_result run.form.form_id run.pipeline_run_id) log)

  pub read-Yields :
      (settings : ResearchSettings) (n : ℤ) (run : Run) (log : List Event)
      → Yields run (read_real_pipeline_result env settings n run log)
  unfolding read_real_pipeline_result
  read-Yields settings (pos n) run log = read_attempts-Yields settings run n log
  read-Yields settings (negsuc n) run log = λ r h. cc
