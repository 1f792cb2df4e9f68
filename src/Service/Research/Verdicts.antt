-- ===== src/Service/Research/Verdicts.antt =====
-- What the research flow concludes, and what it has done by then.
use quest_test.Prelude.{
  ℕ, zero, suc, ◌≡◌, subst, Bool, true, false, ◌&&◌, if◌then◌else◌, if_ind, and_true, Option, some,
  none, Text, text_eq, List, [], arith, ℤ, pos, negsuc, false≢true,
}
use quest_test.Effect.{returned}
use quest_test.Json.{get_or_null}
use quest_test.Service.Research.{Form, ResearchSettings, Event, Environment, Step}
use quest_test.Service.Research.Feedback.{submit_real_feedback}
use quest_test.Service.Research.Agents.{AgentSelection, discover_agent}
use quest_test.Service.Research.Rounds.{
  Finished, Round, FlowResult, may_continue, feedback_text, one_more, attempt_loop, continue_round,
  decide_round, review_flag, end_round, no_round, round_loop, run_with_limits,
  run_real_research_flow,
}
use quest_test.Service.Research.Accepted.{Accepted}
use quest_test.Service.Research.Finishing.{attempt_loop-Finishes}
use quest_test.Service.Research.Counting.{K}
use quest_test.Service.Research.Attempts.{attempt_loop-Keeps}
use quest_test.Service.Research.Totals.{submit_real_feedback-Keeps, discover_agent-Keeps}
use quest_test.Service.Research.Endings.{polls_nothing, attempts_none}
use quest_test.Service.Research.Concluding.{
  Verdict, Concludes, Unregistered, Says, go_on-Concludes, flow-Concludes, review_flag_inv,
  register_round-Concludes, stop_round-Concludes,
}

module _ (env : Environment) (settings : ResearchSettings) (fuel : ℕ) (form : Form)
    (before : List Event) where
  -- A step that registers nothing leaves the log unregistered.
  still :
      {A : Type 0} (m : Step A) (log : List Event)
      → K 0 0 1 (λ e. Unit {0}) (λ e h. tt) 0 m
      → Unregistered env settings fuel form before log
      → Unregistered env settings fuel form before (m log).1
  still m log keeps few = omega (arith, (keeps log).at_most, few)

  continue_round-Concludes :
      (rounds : List Round) (round : ℕ) (next : ℕ → List Round → Step FlowResult) (done : Finished)
      (log : List Event)
      → Unregistered env settings fuel form before log
      → ((n : ℕ) (more : List Round) (later : List Event)
          → Unregistered env settings fuel form before later
          → Concludes env settings fuel form before (next n more later))
      → Concludes env settings fuel form before (continue_round env rounds round next done log)
  unfolding continue_round
  continue_round-Concludes rounds round next done log few concludes =
      go_on-Concludes env settings fuel form before
        (submit_real_feedback env done.result feedback_text log)
        (λ feedback. next feedback.0 (one_more env rounds round done (some feedback)))
        (λ feedback _. concludes feedback.0 (one_more env rounds round done (some feedback)) _ (
          still (submit_real_feedback env done.result feedback_text) log
            (submit_real_feedback-Keeps env settings fuel 0 0 1 (λ e. Unit {0}) (λ e h. tt)
              (polls_nothing env settings 0 0 1 fuel) done.result feedback_text)
            few))

  end_round-Concludes :
      (agent : AgentSelection) (rounds : List Round) (round : ℕ) (has_next : Bool)
      (next : ℕ → List Round → Step FlowResult) (done : Finished) (log : List Event)
      → Accepted env done.run done.result
      → Unregistered env settings fuel form before log
      → (has_next ≡ true
          → (n : ℕ) (more : List Round) (later : List Event)
          → Unregistered env settings fuel form before later
          → Concludes env settings fuel form before (next n more later))
      → Concludes env settings fuel form before
          (end_round env form agent rounds round has_next next done log)
  unfolding end_round decide_round
  end_round-Concludes agent rounds round has_next next done log sound few concludes =
      flow-Concludes env settings fuel form before (review_flag env "experiment_valid" done) log _
        (λ valid v.
          flow-Concludes env settings fuel form before (review_flag env "registration_ready" done)
            log (decide_round env form agent rounds round has_next next done valid)
            (λ ready w.
              if_ind {A = Step FlowResult} (λ m. Concludes env settings fuel form before (m log))
                (valid && ready)
                (λ both.
                  register_round-Concludes env settings fuel form before agent rounds round done log
                    sound
                    (subst (Says env settings fuel form before "experiment_valid" done)
                      (and_true valid ready both).0
                      (review_flag_inv env settings fuel form before "experiment_valid" done valid
                        v))
                    (subst (Says env settings fuel form before "registration_ready" done)
                      (and_true valid ready both).1
                      (review_flag_inv env settings fuel form before "registration_ready" done ready
                        w)))
                (λ unfit.
                  if_ind {A = Step FlowResult}
                    (λ m. Concludes env settings fuel form before (m log))
                    (may_continue (get_or_null "search" done.result.review) && has_next)
                    (λ test.
                      continue_round-Concludes rounds round next done log few
                        (concludes (and_true _ has_next test).1))
                    (λ _.
                      stop_round-Concludes env settings fuel form before agent rounds round done log
                        valid ready sound
                        (review_flag_inv env settings fuel form before "experiment_valid" done valid
                          v)
                        (review_flag_inv env settings fuel form before "registration_ready" done
                          ready w)
                        unfit few))))

  -- The attempts of a round register nothing.
  after_attempts :
      (agent : AgentSelection) (retries round : ℕ) (feedback : Option ℕ) (log : List Event)
      → Unregistered env settings fuel form before log
      → Unregistered env settings fuel form before
          (attempt_loop env settings fuel form agent.agent_uid feedback round retries 0 false log).1
  after_attempts agent retries round feedback log few = omega (
    arith,
    few,
    attempts_none retries,
    (attempt_loop-Keeps env settings fuel 0 0 1 (λ e. Unit {0}) (λ e h. tt)
        (polls_nothing env settings 0 0 1 fuel) form agent.agent_uid feedback round retries 0 false
        log).at_most,
  )

  round_loop-Concludes :
      (agent : AgentSelection) (retries left round : ℕ) (feedback : Option ℕ) (rounds : List Round)
      (log : List Event)
      → Unregistered env settings fuel form before log
      → Concludes env settings fuel form before
          (round_loop env settings fuel form agent retries left round feedback rounds log)
  unfolding round_loop
  round_loop-Concludes agent retries zero round feedback rounds log few =
      go_on-Concludes env settings fuel form before
        (attempt_loop env settings fuel form agent.agent_uid feedback round retries 0 false log)
        (end_round env form agent rounds round false (no_round env))
        (λ done ended.
          end_round-Concludes agent rounds round false (no_round env) done _
            (attempt_loop-Finishes env settings fuel form agent.agent_uid feedback round retries 0
              false log done ended)
            (after_attempts agent retries round feedback log few)
            (λ impossible. absurd (false≢true impossible)))
  round_loop-Concludes agent retries (suc left) round feedback rounds log few =
      go_on-Concludes env settings fuel form before
        (attempt_loop env settings fuel form agent.agent_uid feedback round retries 0 false log)
        (end_round env form agent rounds round true next)
        (λ done ended.
          end_round-Concludes agent rounds round true next done _
            (attempt_loop-Finishes env settings fuel form agent.agent_uid feedback round retries 0
              false log done ended)
            (after_attempts agent retries round feedback log few)
            (λ _ n more later still_few.
              round_loop-Concludes agent retries left (suc round) (some n) more later still_few))
    where
      next : ℕ → List Round → Step FlowResult
      next n more = round_loop env settings fuel form agent retries left (suc round) (some n) more

run_with_limits-Concludes :
    (env : Environment) (settings : ResearchSettings) (fuel : ℕ) (form : Form) (user_id : ℕ)
    (preferred : Text) (max_rounds max_retries : ℤ) (log : List Event) (r : FlowResult)
    → (run_with_limits env settings fuel form user_id preferred max_rounds max_retries log).0
      ≡ returned r
    → Verdict env form.form_id log r
        (run_with_limits env settings fuel form user_id preferred max_rounds max_retries log).1
unfolding run_with_limits
run_with_limits-Concludes env settings fuel form user_id preferred (pos (suc left)) (pos retries)
      log =
    go_on-Concludes env settings fuel form log (discover_agent env user_id uid log)
      (λ agent. round_loop env settings fuel form agent retries left 1 none [])
      (λ agent _. round_loop-Concludes env settings fuel form log agent retries left 1 none [] _ (
        still env settings fuel form log (discover_agent env user_id uid) log
          (discover_agent-Keeps env settings fuel 0 0 1 (λ e. Unit {0}) (λ e h. tt)
            (polls_nothing env settings 0 0 1 fuel) user_id uid)
          (omega arith)))
  where
    uid : Text
    uid = if text_eq preferred [] then settings.agent_uid else preferred
run_with_limits-Concludes env settings fuel form user_id preferred (pos zero) n log = λ r h. cc
run_with_limits-Concludes env settings fuel form user_id preferred (negsuc m) n log = λ r h. cc
run_with_limits-Concludes env settings fuel form user_id preferred (pos (suc left)) (negsuc n) log =
    λ r h. cc

-- When the research flow returns, the data of its last result name the form and the pipeline run
-- of that result's run, and either its outcome is PASS_REGISTERED, the review of the result says
-- that the experiment is valid and ready for registration, a dimension of the validity snapshot is
-- valid, and the last two calls registered that run's result for the form and released the form; or
-- its outcome is PASS_INVALID, the review does not say both, the flow has registered no result, and
-- its last call released the form.
pub run_real_research_flow-Concludes :
    (env : Environment) (settings : ResearchSettings) (fuel : ℕ) (form : Form) (user_id : ℕ)
    (preferred : Text) (log : List Event) (r : FlowResult)
    → (run_real_research_flow env settings fuel form user_id preferred log).0 ≡ returned r
    → Verdict env form.form_id log r
        (run_real_research_flow env settings fuel form user_id preferred log).1
unfolding run_real_research_flow
run_real_research_flow-Concludes env settings fuel form user_id preferred =
    run_with_limits-Concludes env settings fuel form user_id preferred settings.max_research_rounds
      settings.max_technical_retries
