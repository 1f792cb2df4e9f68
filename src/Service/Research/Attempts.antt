-- ===== src/Service/Research/Attempts.antt =====
-- What the attempts of one round spend: a start each.
use quest_test.Prelude.{
  ℕ, zero, suc, ◌+◌, ◌≢◌, refl, Bool, true, ◌&&◌, ◌||◌, if_ind, Option, String, Text, text_eq,
  chars, arith,
}
use quest_test.Effect.{returned, raised, pure, raise}
use quest_test.Json.{Fields}
use quest_test.Service.Flow.{FlowError, is_technical}
use quest_test.Service.Research.{
  Form, Run, ResearchSettings, Failure, flow_error, timeout_error, value_error, runtime_error,
  database_error, out_of_fuel, Environment, Step,
}
use quest_test.Service.Research.Values.{run_status, recommended_action, pipeline_failed}
use quest_test.Service.Research.Starting.{start_real_run}
use quest_test.Service.Research.Watching.{read_then, poll_real_run}
use quest_test.Service.Research.Results.{read_real_pipeline_result}
use quest_test.Service.Research.Rounds.{
  Finished, wants_retry, exhausted, retry_or_raise, after_result, after_poll, start_and_poll,
  attempt_loop,
}
use quest_test.Service.Research.Spending.{Spent, returned-Spent, bind-Keeps}
use quest_test.Service.Research.Counting.{
  weight, K, flow_ok, technical_ok, raise-K, pure-K, quiet-K, if-K, more-K, start_real_run-Keeps,
}
use quest_test.Service.Research.Retries.{
  Follows, follow-K, passed_on, read_real_pipeline_result-Keeps,
}

-- What the attempts of a round spend.
abbrev pub attempts_weigh : (s left : ℕ) → ℕ
attempts_weigh s zero = s
attempts_weigh s (suc left) = s + attempts_weigh s left

module _ (env : Environment) (settings : ResearchSettings) (fuel s f g : ℕ)
    (Allowed : Failure → Type 0) (ok : (e : Failure) → e ≢ out_of_fuel → Allowed e)
    (polls : (run : Run) → K s f g Allowed ok 0 (poll_real_run env settings fuel run)) where
  retry_or_raise-Keeps :
      (k : ℕ) (again : String → Step Finished) (message : String) (e : FlowError)
      → ((m : String) → K s f g Allowed ok k (again m))
      → K s f g Allowed ok k (retry_or_raise env again message e)
  unfolding retry_or_raise
  retry_or_raise-Keeps k again message e keeps =
      if-K s f g Allowed ok k (is_technical e.outcome && wants_retry e.details) _ _ (keeps message)
        (raise-K s f g Allowed ok k (flow_error e) (λ h. cc))

  after_result-Follows :
      (run : Run) (final_status : Fields) (k retries : ℕ) (again : String → Step Finished)
      → ((m : String) → K s f g Allowed ok k (again m))
      → Follows env settings s f g Allowed ok k (after_result env run final_status retries again)
  unfolding after_result
  after_result-Follows run final_status k retries again keeps (returned result, log) allowed =
      returned-Spent (weight s f g) Allowed k log _
  after_result-Follows run final_status k retries again keeps (raised (flow_error e), log) allowed =
      retry_or_raise-Keeps k again _ e keeps log
  after_result-Follows run final_status k retries again keeps (raised timeout_error, log) allowed =
      passed_on env settings s f g Allowed ok k log _ (allowed _ refl)
  after_result-Follows run final_status k retries again keeps (raised value_error, log) allowed =
      passed_on env settings s f g Allowed ok k log _ (allowed _ refl)
  after_result-Follows run final_status k retries again keeps (raised runtime_error, log) allowed =
      passed_on env settings s f g Allowed ok k log _ (allowed _ refl)
  after_result-Follows run final_status k retries again keeps (raised database_error, log) allowed =
      passed_on env settings s f g Allowed ok k log _ (allowed _ refl)
  after_result-Follows run final_status k retries again keeps (raised out_of_fuel, log) allowed =
      passed_on env settings s f g Allowed ok k log _ (allowed _ refl)

  after_poll-Follows :
      (k retries : ℕ) (again : String → Step Finished)
      → ((m : String) → K s f g Allowed ok k (again m))
      → Follows env settings s f g Allowed ok k (after_poll env settings retries again)
  unfolding after_poll
  after_poll-Follows k retries again keeps (returned (run, final_status), log) allowed =
      if_ind (Spent (weight s f g) Allowed k log)
        (text_eq (run_status final_status) (chars "completed"))
        {x = read_then env (after_result env run final_status retries again)
          (read_real_pipeline_result env settings settings.max_technical_retries run) log}
        (λ _.
          more-K s f g Allowed ok (0 + k) k _ (omega arith)
            (follow-K env settings s f g Allowed ok 0 k
              (after_result env run final_status retries again)
              (read_real_pipeline_result env settings settings.max_technical_retries run)
              (read_real_pipeline_result-Keeps env settings s f g Allowed ok
                settings.max_technical_retries run)
              (after_result-Follows run final_status k retries again keeps))
            log)
        (λ _.
          if_ind (Spent (weight s f g) Allowed k log)
            (text_eq (recommended_action final_status) (chars "retry_run")
              || pipeline_failed (run_status final_status))
            (λ _. keeps _ log)
            (λ _. passed_on env settings s f g Allowed ok k log _ (flow_ok s f g Allowed ok _)))
  after_poll-Follows k retries again keeps (raised (flow_error e), log) allowed =
      retry_or_raise-Keeps k again _ e keeps log
  after_poll-Follows k retries again keeps (raised timeout_error, log) allowed =
      passed_on env settings s f g Allowed ok k log _
        (technical_ok s f g Allowed ok _ _ "run_status_poll_timeout")
  after_poll-Follows k retries again keeps (raised value_error, log) allowed =
      passed_on env settings s f g Allowed ok k log _ (allowed _ refl)
  after_poll-Follows k retries again keeps (raised runtime_error, log) allowed =
      passed_on env settings s f g Allowed ok k log _ (allowed _ refl)
  after_poll-Follows k retries again keeps (raised database_error, log) allowed =
      passed_on env settings s f g Allowed ok k log _ (allowed _ refl)
  after_poll-Follows k retries again keeps (raised out_of_fuel, log) allowed =
      passed_on env settings s f g Allowed ok k log _ (allowed _ refl)

  module _ (form : Form) (uid : Text) (feedback_id : Option ℕ) (round : ℕ) where
    start_and_poll-Keeps :
        (force : Bool)
        → K s f g Allowed ok s (start_and_poll env settings fuel form uid feedback_id force round)
    unfolding start_and_poll
    start_and_poll-Keeps force = more-K s f g Allowed ok (s + 0) s _ (omega arith) (
        bind-Keeps (weight s f g) Allowed s 0
          (start_real_run env settings.agent_uid form uid feedback_id force round) _
          (start_real_run-Keeps s f g Allowed ok env settings.agent_uid form uid feedback_id force
            round)
          (λ run.
            quiet-K s f g Allowed ok 0 (poll_real_run env settings fuel run)
              (λ polled. pure (run, polled.1)) (polls run)
              (λ polled. pure-K s f g Allowed ok 0 (run, polled.1))))

    pub attempt_loop-Keeps :
        (left retries : ℕ) (force : Bool)
        → K s f g Allowed ok
            (attempts_weigh s left)
            (attempt_loop env settings fuel form uid feedback_id round left retries force)
    unfolding attempt_loop
    attempt_loop-Keeps zero retries force = more-K s f g Allowed ok (s + 0) s _ (omega arith) (
        follow-K env settings s f g Allowed ok s 0
          (after_poll env settings retries (λ message. raise (exhausted message)))
          (start_and_poll env settings fuel form uid feedback_id force round)
          (start_and_poll-Keeps force)
          (after_poll-Follows 0 retries (λ message. raise (exhausted message))
            (λ m. raise-K s f g Allowed ok 0 (exhausted m) (λ h. cc))))
    attempt_loop-Keeps (suc left) retries force =
        follow-K env settings s f g Allowed ok s (attempts_weigh s left)
          (after_poll env settings retries (λ message.
            attempt_loop env settings fuel form uid feedback_id round left (suc retries) true))
          (start_and_poll env settings fuel form uid feedback_id force round)
          (start_and_poll-Keeps force)
          (after_poll-Follows (attempts_weigh s left) retries _
            (λ m. attempt_loop-Keeps left (suc retries) true))
