-- ===== src/Service/Research/Retries.antt =====
-- What reading a result and the attempts of one round spend: one start for each attempt.
use quest_test.Prelude.{
  ℕ, zero, suc, ◌+◌, ◌≡◌, ◌≢◌, refl, false, ◌||◌, if_ind, String, text_eq, chars, ◌==◌, List, arith,
  ℤ, pos, negsuc, [], ◌∷◌,
}
use quest_test.Effect.{Outcome, returned, raised, pure, ◌>>=◌}
use quest_test.Service.Flow.{is_technical, is_transient, require_flow_data, and_then}
use quest_test.Service.Research.{
  Run, PipelineResult, ResearchSettings, Failure, flow_error, timeout_error, value_error,
  runtime_error, database_error, out_of_fuel, Event, release_form, get_run_result, Environment,
  Step, record_event, Answer, request, sleep_for_poll_retry,
}
use quest_test.Service.Research.Values.{run_status, recommended_action, pipeline_failed}
use quest_test.Service.Research.Watching.{read_real_run_status, read_then, validate_run_identity}
use quest_test.Service.Research.Results.{
  require_result, check_result, after_missing, after_answer, read_once, read_attempts,
  read_real_pipeline_result,
}
use quest_test.Service.Research.Spending.{
  Spent, raised-Spent, after-Spent, record-Keeps, sleep-Keeps,
}
use quest_test.Service.Research.Counting.{
  weight, K, technical_ok, raise-K, pure-K, quiet-K, flow-K, request-K, validate_run_identity-Keeps,
  read_real_run_status-Keeps,
}

module _ (env : Environment) (settings : ResearchSettings) (s f g : ℕ) (Allowed : Failure → Type 0)
    (ok : (e : Failure) → e ≢ out_of_fuel → Allowed e) where
  -- What follows an outcome may spend `k`, if its exception was allowed.
  abbrev pub Follows :
      {A B : Type 0}
      → ℕ
      → (Outcome Failure A × List Event → Outcome Failure B × List Event)
      → Type 0
  Follows {A} k after =
      (r : Outcome Failure A × List Event)
      → ((e : Failure) → r.0 ≡ raised e → Allowed e)
      → Spent (weight s f g) Allowed k r.1 (after r)

  pub follow-K :
      {A B : Type 0} (j k : ℕ)
      (after : Outcome Failure A × List Event → Outcome Failure B × List Event) (m : Step A)
      → K s f g Allowed ok j m
      → Follows k after
      → K s f g Allowed ok (j + k) (read_then env after m)
  follow-K j k after m first next log =
      after-Spent (weight s f g) Allowed j k log (m log) (after (m log)) (first log)
        (next (m log) (first log).allowed)

  -- An exception that is passed on.
  pub passed_on :
      {A : Type 0} (k : ℕ) (log : List Event) (e : Failure)
      → Allowed e
      → Spent (weight s f g) Allowed {A = A} k log (raised e, log)
  passed_on = raised-Spent (weight s f g) Allowed

  require_result-Keeps :
      (answer : Answer) (run : Run) → K s f g Allowed ok 0 (require_result env answer run)
  unfolding require_result
  require_result-Keeps answer run =
      quiet-K s f g Allowed ok 0 (validate_run_identity env run) _
        (validate_run_identity-Keeps s f g Allowed ok env run)
        (λ _. flow-K s f g Allowed ok 0 (
          and_then (require_flow_data (200 ∷ []) answer.status_code answer.body)
            (check_result env run)))

  after_missing-Follows :
      (again : String → Step PipelineResult)
      → ((reason : String) → K s f g Allowed ok 0 (again reason))
      → Follows 0 (after_missing env again)
  unfolding after_missing
  after_missing-Follows again keeps (returned d, log) allowed =
      if_ind (Spent (weight s f g) Allowed 0 log)
        (text_eq (recommended_action d) (chars "retry_run") || pipeline_failed (run_status d))
        (λ _. passed_on 0 log _ (technical_ok s f g Allowed ok _ _ _)) (λ _. keeps _ log)
  after_missing-Follows again keeps (raised (flow_error e), log) allowed =
      if_ind (Spent (weight s f g) Allowed 0 log) (is_technical e.outcome) (λ _. keeps _ log)
        (λ _. passed_on 0 log _ (allowed _ refl))
  after_missing-Follows again keeps (raised timeout_error, log) allowed =
      passed_on 0 log _ (allowed _ refl)
  after_missing-Follows again keeps (raised value_error, log) allowed =
      passed_on 0 log _ (allowed _ refl)
  after_missing-Follows again keeps (raised runtime_error, log) allowed =
      passed_on 0 log _ (allowed _ refl)
  after_missing-Follows again keeps (raised database_error, log) allowed =
      passed_on 0 log _ (allowed _ refl)
  after_missing-Follows again keeps (raised out_of_fuel, log) allowed =
      passed_on 0 log _ (allowed _ refl)

  accept-Keeps :
      (answer : Answer) (run : Run)
      → K s f g Allowed ok 0 (do
        result ← require_result env answer run
        _ ← record_event (release_form run.form.form_id)
        pure result)
  accept-Keeps answer run =
      quiet-K s f g Allowed ok 0 (require_result env answer run) _ (require_result-Keeps answer run)
        (λ result.
          quiet-K s f g Allowed ok 0 (record_event (release_form run.form.form_id))
            (λ _. pure result)
            (record-Keeps (weight s f g) Allowed 0 (release_form run.form.form_id) (omega arith))
            (λ _. pure-K s f g Allowed ok 0 result))

  after_answer-Follows :
      (run : Run) (again : String → Step PipelineResult)
      → ((reason : String) → K s f g Allowed ok 0 (again reason))
      → Follows 0 (after_answer env run again)
  unfolding after_answer
  after_answer-Follows run again keeps (returned answer, log) allowed =
      if_ind (Spent (weight s f g) Allowed 0 log) (answer.status_code == 404)
        {x = read_then env (after_missing env again) (read_real_run_status env run) log}
        (λ _.
          follow-K 0 0 (after_missing env again) (read_real_run_status env run)
            (read_real_run_status-Keeps s f g Allowed ok env run)
            (after_missing-Follows again keeps) log)
        (λ _.
          if_ind (Spent (weight s f g) Allowed 0 log) (is_transient answer.status_code)
            (λ _. keeps _ log) (λ _. accept-Keeps answer run log))
  after_answer-Follows run again keeps (raised (flow_error e), log) allowed =
      if_ind (Spent (weight s f g) Allowed 0 log) (is_technical e.outcome) (λ _. keeps _ log)
        (λ _. passed_on 0 log _ (allowed _ refl))
  after_answer-Follows run again keeps (raised timeout_error, log) allowed =
      passed_on 0 log _ (allowed _ refl)
  after_answer-Follows run again keeps (raised value_error, log) allowed =
      passed_on 0 log _ (allowed _ refl)
  after_answer-Follows run again keeps (raised runtime_error, log) allowed =
      passed_on 0 log _ (allowed _ refl)
  after_answer-Follows run again keeps (raised database_error, log) allowed =
      passed_on 0 log _ (allowed _ refl)
  after_answer-Follows run again keeps (raised out_of_fuel, log) allowed =
      passed_on 0 log _ (allowed _ refl)

  read_once-Keeps :
      (run : Run) (again : String → Step PipelineResult)
      → ((reason : String) → K s f g Allowed ok 0 (again reason))
      → K s f g Allowed ok 0 (read_once env run again)
  unfolding read_once
  read_once-Keeps run again keeps =
      follow-K 0 0 (after_answer env run again)
        (request env (get_run_result run.form.form_id run.pipeline_run_id))
        (request-K s f g Allowed ok env 0 (get_run_result run.form.form_id run.pipeline_run_id)
          (omega arith))
        (after_answer-Follows run again keeps)

  read_attempts-Keeps :
      (run : Run) (left : ℕ) → K s f g Allowed ok 0 (read_attempts env settings run left)
  unfolding read_attempts
  read_attempts-Keeps run zero = read_once-Keeps run _ (λ reason log.
      passed_on 0 log _ (technical_ok s f g Allowed ok "result unavailable" false reason))
  read_attempts-Keeps run (suc left) = read_once-Keeps run _ (λ reason.
      quiet-K s f g Allowed ok 0 (sleep_for_poll_retry settings.poll_interval)
        (λ _. read_attempts env settings run left)
        (sleep-Keeps (weight s f g) Allowed settings.poll_interval (λ m. refl))
        (λ _. read_attempts-Keeps run left))

  pub read_real_pipeline_result-Keeps :
      (n : ℤ) (run : Run) → K s f g Allowed ok 0 (read_real_pipeline_result env settings n run)
  unfolding read_real_pipeline_result
  read_real_pipeline_result-Keeps (pos n) run = read_attempts-Keeps run n
  read_real_pipeline_result-Keeps (negsuc n) run = raise-K s f g Allowed ok 0 value_error (λ h. cc)
