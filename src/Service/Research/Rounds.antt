-- ===== src/Service/Research/Rounds.antt =====
-- service/factor_combo_service.py: `run_real_research_flow`. The loop over the attempts of one round
-- recurs on the technical retries that are left, the loop over the rounds on the rounds.
use quest_test.Prelude.{
  ℕ, zero, suc, Bool, true, false, not, ◌&&◌, ◌||◌, if◌then◌else◌, Option, none, some, String, Text,
  chars, text_eq, ℤ, pos, List, [], ◌∷◌, ◌++◌,
}
use quest_test.Effect.{Outcome, returned, raised, pure, raise, ◌>>=◌}
use quest_test.Json.{Value, obj, Fields, get_or_null, is_true}
use quest_test.Service.Flow.{
  FlowOutcome, pass_registered, pass_invalid, fail_contract, fail_technical, FlowError, failure,
  Flow, is_technical, required_boolean, has_registration_validity,
}
use quest_test.Service.Research.{
  Form, Run, PipelineResult, ResearchSettings, Event, release_form, Environment, Step, flow_step,
  record_event, Failure, flow_error, timeout_error, register_real_result,
}
use quest_test.Service.Research.Values.{run_status, recommended_action, pipeline_failed}
use quest_test.Service.Research.Starting.{start_real_run}
use quest_test.Service.Research.Watching.{technical_failure, read_then, poll_real_run}
use quest_test.Service.Research.Results.{read_real_pipeline_result}
use quest_test.Service.Research.Feedback.{submit_real_feedback}
use quest_test.Service.Research.Agents.{AgentSelection, discover_agent}

-- What the attempts of a round end with.
pub record Finished : Type 0 where
  pub run : Run
  pub final_status : Fields
  pub result : PipelineResult
  pub retries : ℕ

-- `round_record`
pub record Round : Type 0 where
  pub research_round : ℕ
  pub finished : Finished
  pub feedback : Option (ℕ × ℕ)

-- `RealResearchFlowResult`
pub record FlowResult : Type 0 where
  pub outcome : FlowOutcome
  pub agent : AgentSelection
  pub rounds : List Round
  pub last_result : PipelineResult

-- `details.get("retry_pipeline") is True`
unfoldable pub wants_retry : Value → Bool
wants_retry (obj details) = is_true (get_or_null "retry_pipeline" details)
wants_retry v = false

abbrev pub exhausted : String → Failure
exhausted message = flow_error (failure fail_technical message)

-- `search.get("continue_exploration_available") is True`
unfoldable pub may_continue : Value → Bool
may_continue (obj search) = is_true (get_or_null "continue_exploration_available" search)
may_continue v = false

abbrev pub feedback_text : Text
feedback_text = chars "自动化测试：当前真实组合结果未达到登记条件，请保留结果并继续探索下一轮候选。"

module _ (env : Environment) where
  -- The handler of a technical error: `again` is the next attempt, with the message for which there
  -- is none.
  unfoldable pub retry_or_raise : {A : Type 0} → (String → Step A) → String → FlowError → Step A
  unfolding wants_retry
  retry_or_raise again message e =
      if is_technical e.outcome && wants_retry e.details
      then again message
      else raise (flow_error e)

  unfoldable pub after_result :
      Run
      → Fields
      → ℕ
      → (String → Step Finished)
      → Outcome Failure PipelineResult × List Event
      → Outcome Failure Finished × List Event
  unfolding retry_or_raise
  after_result run final_status retries again (returned result, log) = (
    returned
        (record { run = run; final_status = final_status; result = result; retries = retries }),
    log,
  )
  after_result run final_status retries again (raised (flow_error e), log) =
      retry_or_raise again "Pipeline result remained unavailable and retries were exhausted" e log
  after_result run final_status retries again (raised e, log) = (raised e, log)

  -- What follows `start_real_run` and `poll_real_run`.
  unfoldable pub after_poll :
      ResearchSettings
      → ℕ
      → (String → Step Finished)
      → Outcome Failure (Run × Fields) × List Event
      → Outcome Failure Finished × List Event
  unfolding after_result read_real_pipeline_result run_status recommended_action pipeline_failed
      technical_failure
  after_poll settings retries again (returned (run, final_status), log) =
      if text_eq (run_status final_status) (chars "completed")
      then read_then env (after_result run final_status retries again)
          (read_real_pipeline_result env settings settings.max_technical_retries run) log
      else if text_eq (recommended_action final_status) (chars "retry_run")
          || pipeline_failed (run_status final_status)
      then again "Pipeline returned a terminal failure and retries were exhausted" log
      else raise (exhausted "Pipeline returned a terminal failure and retries were exhausted") log
  after_poll settings retries again (raised (flow_error e), log) =
      retry_or_raise again "Pipeline technical failure and retries were exhausted" e log
  after_poll settings retries again (raised timeout_error, log) =
      raise (technical_failure "Pipeline status polling timed out" false "run_status_poll_timeout")
        log
  after_poll settings retries again (raised e, log) = (raised e, log)

  -- The `try` block of an attempt.
  unfoldable pub start_and_poll :
      ResearchSettings
      → (fuel : ℕ) → Form
      → (agent_uid : Text) → (feedback_id : Option ℕ) → Bool
      → ℕ
      → Step (Run × Fields)
  unfolding start_real_run poll_real_run
  start_and_poll settings fuel form agent_uid feedback_id force_fresh research_round = do
    run ←
        start_real_run env settings.agent_uid form agent_uid feedback_id force_fresh research_round
    polled ← poll_real_run env settings fuel run
    pure (run, polled.1)

  -- The `while True` loop, by the technical retries that are left and those made.
  unfoldable pub attempt_loop :
      ResearchSettings
      → (fuel : ℕ) → Form
      → (agent_uid : Text) → (feedback_id : Option ℕ) → (research_round left retries : ℕ) → Bool
      → Step Finished
  unfolding after_poll start_and_poll
  attempt_loop settings fuel form uid feedback_id research_round zero retries force_fresh =
      read_then env (after_poll settings retries (λ message. raise (exhausted message)))
        (start_and_poll settings fuel form uid feedback_id force_fresh research_round)
  attempt_loop settings fuel form uid feedback_id research_round (suc left) retries force_fresh =
      let loop =
        attempt_loop settings fuel form uid feedback_id research_round left (suc retries) true in
      read_then env (after_poll settings retries (λ message. loop))
        (start_and_poll settings fuel form uid feedback_id force_fresh research_round)

  abbrev pub one_more : List Round → ℕ → Finished → Option (ℕ × ℕ) → List Round
  one_more rounds research_round finished feedback =
      rounds
      ++ (record { research_round = research_round; finished = finished; feedback = feedback } ∷ [])

  abbrev pub flow_result : FlowOutcome → AgentSelection → List Round → ℕ → Finished → FlowResult
  flow_result outcome agent rounds research_round finished = record {
    outcome = outcome;
    agent = agent;
    rounds = one_more rounds research_round finished none;
    last_result = finished.result;
  }

  -- The branch of a round whose result is valid and ready.
  unfoldable pub register_round :
      Form → AgentSelection → List Round → ℕ → Finished → Step FlowResult
  unfolding register_real_result has_registration_validity
  register_round form agent rounds research_round finished =
      if not (has_registration_validity finished.result.validity)
      then raise (flow_error (failure fail_contract "validity snapshot has no valid dimension"))
      else do
        _ ← register_real_result env form.form_id finished.run.pipeline_run_id
        _ ← record_event (release_form form.form_id)
        pure (flow_result pass_registered agent rounds research_round finished)

  -- The branch that sends feedback; `next` is the round after.
  unfoldable pub continue_round :
      List Round → ℕ → (ℕ → List Round → Step FlowResult) → Finished → Step FlowResult
  unfolding submit_real_feedback
  continue_round rounds research_round next finished = do
    feedback ← submit_real_feedback env finished.result feedback_text
    next feedback.0 (one_more rounds research_round finished (some feedback))

  unfoldable pub stop_round : Form → AgentSelection → List Round → ℕ → Finished → Step FlowResult
  stop_round form agent rounds research_round finished = do
    _ ← record_event (release_form form.form_id)
    pure (flow_result pass_invalid agent rounds research_round finished)

  unfoldable pub decide_round :
      Form
      → AgentSelection
      → List Round
      → ℕ
      → Bool
      → (ℕ → List Round → Step FlowResult)
      → Finished
      → (experiment_valid registration_ready : Bool) → Step FlowResult
  unfolding register_round continue_round stop_round may_continue
  decide_round form agent rounds research_round has_next next finished valid ready =
      if valid && ready
      then register_round form agent rounds research_round finished
      else if may_continue (get_or_null "search" finished.result.review) && has_next
      then continue_round rounds research_round next finished
      else stop_round form agent rounds research_round finished

  unfoldable pub review_flag : String → Finished → Flow Bool
  unfolding required_boolean
  review_flag name finished =
      required_boolean (get_or_null name finished.result.review) fail_contract "must be a boolean"

  -- The end of a round; `next` is the round after it, if the limit leaves one.
  unfoldable pub end_round :
      Form
      → AgentSelection
      → List Round
      → ℕ
      → Bool
      → (ℕ → List Round → Step FlowResult)
      → Finished
      → Step FlowResult
  unfolding decide_round review_flag
  end_round form agent rounds research_round has_next next finished = do
    valid ← flow_step (review_flag "experiment_valid" finished)
    ready ← flow_step (review_flag "registration_ready" finished)
    decide_round form agent rounds research_round has_next next finished valid ready

  -- After the last round.
  abbrev pub no_round : ℕ → List Round → Step FlowResult
  no_round n more = raise (flow_error (failure fail_technical "exited without a terminal outcome"))

  -- The `for` loop, by the rounds after the current one.
  unfoldable pub round_loop :
      ResearchSettings
      → (fuel : ℕ) → Form
      → AgentSelection
      → (retries left research_round : ℕ) → (feedback_id : Option ℕ) → List Round
      → Step FlowResult
  unfolding end_round attempt_loop
  round_loop settings fuel form agent retries zero research_round feedback_id rounds = do
    finished ←
        attempt_loop settings fuel form agent.agent_uid feedback_id research_round retries 0 false
    end_round form agent rounds research_round false no_round finished
  round_loop settings fuel form agent retries (suc left) research_round feedback_id rounds =
      let next : ℕ → List Round → Step FlowResult = λ n more.
        round_loop settings fuel form agent retries left (suc research_round) (some n) more in
      do
        finished ←
            attempt_loop settings fuel form agent.agent_uid feedback_id research_round retries 0
              false
        end_round form agent rounds research_round true next finished

  abbrev pub limits_invalid : Failure
  limits_invalid =
      flow_error (failure fail_contract "research and technical retry limits are invalid")

  unfoldable pub run_with_limits :
      ResearchSettings
      → (fuel : ℕ) → Form
      → (user_id : ℕ) → (preferred : Text) → (max_rounds max_technical_retries : ℤ)
      → Step FlowResult
  unfolding discover_agent round_loop
  run_with_limits settings fuel form user_id preferred (pos (suc left)) (pos retries) = do
    agent ←
        discover_agent env user_id (if text_eq preferred [] then settings.agent_uid else preferred)
    round_loop settings fuel form agent retries left 1 none []
  run_with_limits settings fuel form user_id preferred _ _ = raise limits_invalid

  -- `run_real_research_flow`
  unfoldable pub run_real_research_flow :
      ResearchSettings
      → (fuel : ℕ) → Form
      → (user_id : ℕ) → (preferred_agent_uid : Text) → Step FlowResult
  unfolding run_with_limits
  run_real_research_flow settings fuel form user_id preferred =
      run_with_limits settings fuel form user_id preferred settings.max_research_rounds
        settings.max_technical_retries
