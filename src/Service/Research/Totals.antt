-- ===== src/Service/Research/Totals.antt =====
-- How often `run_real_research_flow` starts a run, sends feedback and registers a result.
use quest_test.Prelude.{
  ℕ, zero, suc, ◌+◌, ◌≤◌, ◌≡◌, ◌≢◌, Bool, true, false, ◌&&◌, not, if◌then◌else◌, if_ind, Option,
  some, none, Text, text_eq, strip, List, [], ◌∷◌, arith, ℤ, pos, negsuc, length, and_true,
  false≢true,
}
use quest_test.Effect.{raised, pure}
use quest_test.Json.{Fields, get_or_null}
use quest_test.Service.Flow.{has_registration_validity, pass_registered, pass_invalid}
use quest_test.Service.Research.{
  Form, Run, PipelineResult, ResearchSettings, Failure, value_error, runtime_error, out_of_fuel,
  release_form, list_agents, submit_feedback, register_result, Environment, Step, flow_step,
  record_event, request, register_real_result, Registration, registered, refused, broken,
  registration_outcome,
}
use quest_test.Service.Research.Watching.{poll_real_run}
use quest_test.Service.Research.Feedback.{
  submit_real_feedback, require_feedback_response, success_data, checked_feedback, experiment_of,
}
use quest_test.Service.Research.Agents.{AgentSelection, discover_agent, select_agent}
use quest_test.Service.Research.Rounds.{
  Finished, Round, FlowResult, may_continue, feedback_text, attempt_loop, register_round,
  continue_round, stop_round, decide_round, review_flag, one_more, flow_result, end_round, no_round,
  round_loop, limits_invalid, run_with_limits, run_real_research_flow,
}
use quest_test.Service.Research.Spending.{bind-Keeps, record-Keeps, event-Spent}
use quest_test.Service.Research.Counting.{
  weight, K, raise-K, pure-K, quiet-K, flow-K, if-K, more-K, request-K,
}
use quest_test.Service.Research.Attempts.{attempts_weigh, attempt_loop-Keeps}

-- What a round spends: its attempts and a feedback or a registration.
abbrev pub rounds_weigh : (s f g retries left : ℕ) → ℕ
rounds_weigh s f g retries zero = attempts_weigh s retries + g
rounds_weigh s f g retries (suc left) =
    attempts_weigh s retries + (f + rounds_weigh s f g retries left)

-- What the limits allow the whole flow.
abbrev pub flow_weighs : (s f g : ℕ) (max_rounds max_retries : ℤ) → ℕ
flow_weighs s f g (pos (suc left)) (pos retries) = rounds_weigh s f g retries left
flow_weighs s f g _ _ = 0

registration_weighs : (s f g retries left : ℕ) → g ≤ rounds_weigh s f g retries left
registration_weighs s f g retries zero = omega arith
registration_weighs s f g retries (suc left) = omega (arith, registration_weighs s f g retries left)

module _ (env : Environment) (settings : ResearchSettings) (fuel s f g : ℕ)
    (Allowed : Failure → Type 0) (ok : (e : Failure) → e ≢ out_of_fuel → Allowed e)
    (polls : (run : Run) → K s f g Allowed ok 0 (poll_real_run env settings fuel run)) where
  checked_feedback-Keeps :
      (form_id : ℕ) (experiment : Option ℤ) (found : Option Fields)
      → K s f g Allowed ok 0 (checked_feedback form_id experiment found)
  checked_feedback-Keeps form_id experiment none =
      raise-K s f g Allowed ok 0 runtime_error (λ h. cc)
  checked_feedback-Keeps form_id experiment (some d) = flow-K s f g Allowed ok 0 _

  pub submit_real_feedback-Keeps :
      (result : PipelineResult) (text : Text)
      → K s f g Allowed ok f (submit_real_feedback env result text)
  unfolding submit_real_feedback require_feedback_response
  submit_real_feedback-Keeps result text =
      if-K s f g Allowed ok f (text_eq (strip text) []) _ _
        (raise-K s f g Allowed ok f value_error (λ h. cc))
        (more-K s f g Allowed ok (f + 0) f _ (omega arith) (
          bind-Keeps (weight s f g) Allowed f 0
            (request env (submit_feedback result.run.form.form_id (strip text))) _
            (request-K s f g Allowed ok env f (submit_feedback result.run.form.form_id (strip text))
              (omega arith))
            (λ answer.
              checked_feedback-Keeps result.run.form.form_id
                (experiment_of (get_or_null "experiment_info_id" result.raw_data))
                (success_data (200 ∷ []) answer))))

  registration-allowed :
      (r : Registration) (d : Failure) → registration_outcome r ≡ raised d → Allowed d
  unfolding registration_outcome
  registration-allowed registered d h = cc
  registration-allowed (refused e) d h = ok d (λ out. cc)
  registration-allowed broken d h = ok d (λ out. cc)

  register_round-Keeps :
      (form : Form) (agent : AgentSelection) (rounds : List Round) (round : ℕ) (done : Finished)
      → K s f g Allowed ok g (register_round env form agent rounds round done)
  unfolding register_round register_real_result
  register_round-Keeps form agent rounds round done =
      if-K s f g Allowed ok g (not (has_registration_validity done.result.validity)) _ _
        (raise-K s f g Allowed ok g _ (λ h. cc))
        (more-K s f g Allowed ok (g + 0) g _ (omega arith) (
          bind-Keeps (weight s f g) Allowed g 0
            (register_real_result env form.form_id done.run.pipeline_run_id) _
            (λ log.
              event-Spent (weight s f g) Allowed g log
                (register_result form.form_id done.run.pipeline_run_id)
                (registration_outcome (env.registrations (length log))) (omega arith)
                (registration-allowed (env.registrations (length log))))
            (λ _.
              quiet-K s f g Allowed ok 0 (record_event (release_form form.form_id)) _
                (record-Keeps (weight s f g) Allowed 0 (release_form form.form_id) (omega arith))
                (λ _.
                  pure-K s f g Allowed ok 0
                    (flow_result env pass_registered agent rounds round done)))))

  continue_round-Keeps :
      (rounds : List Round) (round j k : ℕ) (next : ℕ → List Round → Step FlowResult)
      (done : Finished)
      → f + j ≤ k
      → ((n : ℕ) (more : List Round) → K s f g Allowed ok j (next n more))
      → K s f g Allowed ok k (continue_round env rounds round next done)
  unfolding continue_round
  continue_round-Keeps rounds round j k next done enough keeps =
      more-K s f g Allowed ok (f + j) k _ enough (
        bind-Keeps (weight s f g) Allowed f j (submit_real_feedback env done.result feedback_text)
          (λ feedback. next feedback.0 (one_more env rounds round done (some feedback)))
          (submit_real_feedback-Keeps done.result feedback_text)
          (λ feedback. keeps feedback.0 (one_more env rounds round done (some feedback))))

  stop_round-Keeps :
      (form : Form) (agent : AgentSelection) (rounds : List Round) (round k : ℕ) (done : Finished)
      → K s f g Allowed ok k (stop_round env form agent rounds round done)
  unfolding stop_round
  stop_round-Keeps form agent rounds round k done =
      quiet-K s f g Allowed ok k (record_event (release_form form.form_id))
        (λ _. pure (flow_result env pass_invalid agent rounds round done))
        (record-Keeps (weight s f g) Allowed 0 (release_form form.form_id) (omega arith))
        (λ _. pure-K s f g Allowed ok k (flow_result env pass_invalid agent rounds round done))

  -- The end of a round, when the round after it may spend `j`.
  end_round-Keeps :
      (form : Form) (agent : AgentSelection) (rounds : List Round) (round k : ℕ) (has_next : Bool)
      (next : ℕ → List Round → Step FlowResult) (done : Finished)
      → g ≤ k
      → (has_next ≡ true → K s f g Allowed ok k (continue_round env rounds round next done))
      → K s f g Allowed ok k (end_round env form agent rounds round has_next next done)
  unfolding end_round decide_round
  end_round-Keeps form agent rounds round k has_next next done enough keeps =
      quiet-K s f g Allowed ok k (flow_step (review_flag env "experiment_valid" done)) _
        (flow-K s f g Allowed ok 0 (review_flag env "experiment_valid" done))
        (λ valid.
          quiet-K s f g Allowed ok k (flow_step (review_flag env "registration_ready" done))
            (decide_round env form agent rounds round has_next next done valid)
            (flow-K s f g Allowed ok 0 (review_flag env "registration_ready" done))
            (λ ready.
              if-K s f g Allowed ok k (valid && ready) _ _
                (more-K s f g Allowed ok g k _ enough
                  (register_round-Keeps form agent rounds round done))
                (if_ind {A = Step FlowResult} (K s f g Allowed ok k)
                  (may_continue (get_or_null "search" done.result.review) && has_next)
                  (λ test. keeps (and_true _ has_next test).1)
                  (λ _. stop_round-Keeps form agent rounds round k done))))

  round_loop-Keeps :
      (form : Form) (agent : AgentSelection) (retries left round : ℕ) (feedback : Option ℕ)
      (rounds : List Round)
      → K s f g Allowed ok
          (rounds_weigh s f g retries left)
          (round_loop env settings fuel form agent retries left round feedback rounds)
  unfolding round_loop
  round_loop-Keeps form agent retries zero round feedback rounds =
      bind-Keeps (weight s f g) Allowed (attempts_weigh s retries) g
        (attempt_loop env settings fuel form agent.agent_uid feedback round retries 0 false) _
        (attempt_loop-Keeps env settings fuel s f g Allowed ok polls form agent.agent_uid feedback
          round retries 0 false)
        (λ done.
          end_round-Keeps form agent rounds round g false (no_round env) done (omega arith)
            (λ impossible. absurd (false≢true impossible)))
  round_loop-Keeps form agent retries (suc left) round feedback rounds =
      bind-Keeps (weight s f g) Allowed (attempts_weigh s retries)
        (f + rounds_weigh s f g retries left)
        (attempt_loop env settings fuel form agent.agent_uid feedback round retries 0 false) _
        (attempt_loop-Keeps env settings fuel s f g Allowed ok polls form agent.agent_uid feedback
          round retries 0 false)
        (λ done.
          end_round-Keeps form agent rounds round (f + rounds_weigh s f g retries left) true next
            done (omega (arith, registration_weighs s f g retries left))
            (λ _.
              continue_round-Keeps rounds round (rounds_weigh s f g retries left)
                (f + rounds_weigh s f g retries left) next done (omega arith)
                (λ n more. round_loop-Keeps form agent retries left (suc round) (some n) more)))
    where
      next : ℕ → List Round → Step FlowResult
      next n more = round_loop env settings fuel form agent retries left (suc round) (some n) more

  pub discover_agent-Keeps :
      (user_id : ℕ) (uid : Text) → K s f g Allowed ok 0 (discover_agent env user_id uid)
  unfolding discover_agent
  discover_agent-Keeps user_id uid =
      quiet-K s f g Allowed ok 0 (request env (list_agents user_id)) _
        (request-K s f g Allowed ok env 0 (list_agents user_id) (omega arith))
        (λ answer. flow-K s f g Allowed ok 0 (select_agent env uid answer))

  run_with_limits-Keeps :
      (form : Form) (user_id : ℕ) (preferred : Text) (max_rounds max_retries : ℤ)
      → K s f g Allowed ok
          (flow_weighs s f g max_rounds max_retries)
          (run_with_limits env settings fuel form user_id preferred max_rounds max_retries)
  unfolding run_with_limits
  run_with_limits-Keeps form user_id preferred (pos (suc left)) (pos retries) =
      quiet-K s f g Allowed ok (rounds_weigh s f g retries left) _
        (λ agent. round_loop env settings fuel form agent retries left 1 none [])
        (discover_agent-Keeps user_id uid)
        (λ agent. round_loop-Keeps form agent retries left 1 none [])
    where
      uid : Text
      uid = if text_eq preferred [] then settings.agent_uid else preferred
  run_with_limits-Keeps form user_id preferred (pos zero) n =
      raise-K s f g Allowed ok 0 (limits_invalid env) (λ h. cc)
  run_with_limits-Keeps form user_id preferred (negsuc m) n =
      raise-K s f g Allowed ok 0 (limits_invalid env) (λ h. cc)
  run_with_limits-Keeps form user_id preferred (pos (suc left)) (negsuc n) =
      raise-K s f g Allowed ok 0 (limits_invalid env) (λ h. cc)

  pub run_real_research_flow-Keeps :
      (form : Form) (user_id : ℕ) (preferred : Text)
      → K s f g Allowed ok
          (flow_weighs s f g settings.max_research_rounds settings.max_technical_retries)
          (run_real_research_flow env settings fuel form user_id preferred)
  unfolding run_real_research_flow
  run_real_research_flow-Keeps form user_id preferred =
      run_with_limits-Keeps form user_id preferred settings.max_research_rounds
        settings.max_technical_retries
