-- ===== src/Service/Research/Finishing.antt =====
-- The results that the attempts of a round end with: each is of its run.
use quest_test.Prelude.{
  ℕ, zero, suc, ◌≡◌, refl, subst, Bool, true, ◌&&◌, ◌||◌, if_ind, Option, String, Text, text_eq,
  chars, List,
}
use quest_test.Effect.{Outcome, returned, raised, raise}
use quest_test.Json.{Fields}
use quest_test.Service.Flow.{FlowError, is_technical}
use quest_test.Service.Research.{
  Form, Run, PipelineResult, ResearchSettings, Failure, flow_error, timeout_error, value_error,
  runtime_error, database_error, out_of_fuel, Event, Environment, Step,
}
use quest_test.Service.Research.Values.{run_status, recommended_action, pipeline_failed}
use quest_test.Service.Research.Results.{read_real_pipeline_result}
use quest_test.Service.Research.Rounds.{
  Finished, wants_retry, exhausted, retry_or_raise, after_result, after_poll, start_and_poll,
  attempt_loop,
}
use quest_test.Service.Research.Accepted.{Accepted, Yields, read-Yields}

module _ (env : Environment) where
  -- What the attempts of a round may end with.
  abbrev pub Finishes : Outcome Failure Finished × List Event → Type 0
  Finishes x = (done : Finished) → x.0 ≡ returned done → Accepted env done.run done.result

  retry-Finishes :
      (again : String → Step Finished) (message : String) (e : FlowError) (log : List Event)
      → ((m : String) (later : List Event) → Finishes (again m later))
      → Finishes (retry_or_raise env again message e log)
  unfolding retry_or_raise
  retry-Finishes again message e log keeps =
      if_ind {A = Step Finished} (λ m. Finishes (m log))
        (is_technical e.outcome && wants_retry e.details) (λ _. keeps message log) (λ _ r h. cc)

  finished_inv :
      (a b : Finished) → ◌≡◌ {A = Outcome Failure Finished} (returned a) (returned b) → a ≡ b
  finished_inv a b h = cc

  after_result-Finishes :
      (run : Run) (final_status : Fields) (retries : ℕ) (again : String → Step Finished)
      → ((m : String) (later : List Event) → Finishes (again m later))
      → (x : Outcome Failure PipelineResult × List Event) → Yields env run x
      → Finishes (after_result env run final_status retries again x)
  unfolding after_result
  after_result-Finishes run final_status retries again keeps (returned result, log) yields =
      λ done h.
        subst (λ d. Accepted env d.run d.result) (finished_inv _ done h) (yields result refl)
  after_result-Finishes run final_status retries again keeps (raised (flow_error e), log) yields =
      retry-Finishes again _ e log keeps
  after_result-Finishes run final_status retries again keeps (raised timeout_error, log) yields =
      λ done h. cc
  after_result-Finishes run final_status retries again keeps (raised value_error, log) yields =
      λ done h. cc
  after_result-Finishes run final_status retries again keeps (raised runtime_error, log) yields =
      λ done h. cc
  after_result-Finishes run final_status retries again keeps (raised database_error, log) yields =
      λ done h. cc
  after_result-Finishes run final_status retries again keeps (raised out_of_fuel, log) yields =
      λ done h. cc

  after_poll-Finishes :
      (settings : ResearchSettings) (retries : ℕ) (again : String → Step Finished)
      → ((m : String) (later : List Event) → Finishes (again m later))
      → (x : Outcome Failure (Run × Fields) × List Event)
      → Finishes (after_poll env settings retries again x)
  unfolding after_poll
  after_poll-Finishes settings retries again keeps (returned (run, final_status), log) =
      if_ind Finishes (text_eq (run_status final_status) (chars "completed"))
        (λ _.
          after_result-Finishes run final_status retries again keeps
            (read_real_pipeline_result env settings settings.max_technical_retries run log)
            (read-Yields env settings settings.max_technical_retries run log))
        (λ _.
          if_ind Finishes
            (text_eq (recommended_action final_status) (chars "retry_run")
              || pipeline_failed (run_status final_status))
            (λ _. keeps _ log) (λ _ r h. cc))
  after_poll-Finishes settings retries again keeps (raised (flow_error e), log) =
      retry-Finishes again _ e log keeps
  after_poll-Finishes settings retries again keeps (raised timeout_error, log) = λ done h. cc
  after_poll-Finishes settings retries again keeps (raised value_error, log) = λ done h. cc
  after_poll-Finishes settings retries again keeps (raised runtime_error, log) = λ done h. cc
  after_poll-Finishes settings retries again keeps (raised database_error, log) = λ done h. cc
  after_poll-Finishes settings retries again keeps (raised out_of_fuel, log) = λ done h. cc

  pub attempt_loop-Finishes :
      (settings : ResearchSettings) (fuel : ℕ) (form : Form) (uid : Text) (feedback_id : Option ℕ)
      (round left retries : ℕ) (force : Bool) (log : List Event)
      → Finishes (attempt_loop env settings fuel form uid feedback_id round left retries force log)
  unfolding attempt_loop
  attempt_loop-Finishes settings fuel form uid feedback_id round zero retries force log =
      after_poll-Finishes settings retries (λ message. raise (exhausted message))
        (λ m later r h. cc) (start_and_poll env settings fuel form uid feedback_id force round log)
  attempt_loop-Finishes settings fuel form uid feedback_id round (suc left) retries force log =
      after_poll-Finishes settings retries
        (λ message.
          attempt_loop env settings fuel form uid feedback_id round left (suc retries) true)
        (λ m later.
          attempt_loop-Finishes settings fuel form uid feedback_id round left (suc retries) true
            later)
        (start_and_poll env settings fuel form uid feedback_id force round log)
