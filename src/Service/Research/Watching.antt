-- ===== src/Service/Research/Watching.antt =====
-- service/factor_combo_service.py: the identity of a run in the database, one read of its status,
-- and `poll_real_run`. The loop is on fuel; each round reads the clock.
use quest_test.Prelude.{
  ℕ, zero, suc, ◌+◌, Bool, false, not, ◌||◌, if◌then◌else◌, Option, none, some, String, Text, chars,
  text_eq, strip, one_of, ltb, ◌==◌, max_zero, List, [], ◌∷◌, ◌++◌,
}
use quest_test.Effect.{Outcome, returned, raised, raise, ◌>>=◌, ◌>>◌}
use quest_test.Json.{Value, bool, str, obj, Fields, field, brace, get, get_or_null}
use quest_test.Service.Flow.{
  failure, failure_with, fail_contract, fail_technical, Flow, and_then, require, is_technical,
  require_flow_data,
}
use quest_test.Service.Flow.Refresh.{text_or_empty}
use quest_test.Service.Research.{
  Run, ResearchSettings, Event, get_run_status, FormRead, query_error, form_row, Environment, Step,
  flow_step, request, Failure, flow_error, out_of_fuel, query_form, monotonic, sleep_for_poll_retry,
  is_past,
}
use quest_test.Service.Research.Values.{
  positive_int, positive_int_or_failure, non_empty, non_empty_or_failure, status_value, run_status,
  recommended_action, pipeline_failed,
}

-- The end of a technical failure: the details that the research flow and a reader look at.
unfoldable pub technical_failure : String → Bool → String → Failure
technical_failure message retry_pipeline reason = flow_error (
    failure_with fail_technical message (
      obj
        (field "retry_pipeline" (bool retry_pipeline) (field "reason" (str (chars reason)) brace))))

abbrev pub timed_out : Failure
timed_out = technical_failure "polling timed out" false "run_status_poll_timeout"

abbrev pub unavailable : Failure
unavailable = technical_failure "status unavailable" false "run_status_request_unavailable"

-- `status in terminal_statuses or recommended_action in {"read_result", "retry_run"}`
unfoldable pub is_settled : Fields → Bool
unfolding run_status recommended_action pipeline_failed
is_settled data' =
    text_eq (run_status data') (chars "completed")
    || pipeline_failed (run_status data')
    || one_of (chars "read_result" ∷ chars "retry_run" ∷ []) (recommended_action data')

module _ (env : Environment) where
  -- A field that must be a positive integer and one number.
  unfoldable pub require_id : Value → ℕ → {A : Type 0} → Flow A → Flow A
  unfolding positive_int
  require_id v expected next =
      and_then (positive_int_or_failure env v fail_contract "a positive id is missing") (λ n.
        require (n == expected) (failure fail_contract "an id does not match the started form")
          next)

  unfoldable pub require_run_id : Value → Text → {A : Type 0} → Flow A → Flow A
  unfolding non_empty
  require_run_id v expected next =
      and_then (non_empty_or_failure v fail_contract "pipeline_run_id is missing") (λ t.
        require (text_eq t expected)
          (failure fail_contract "pipeline_run_id does not match the started run") next)

  unfoldable pub check_pool : Option Value → ℕ → Flow (Unit {0})
  unfolding require_id
  check_pool none pool_id = returned tt
  check_pool (some v) pool_id = require_id v pool_id (returned tt)

  unfoldable pub check_identity : Run → FormRead → Flow (Unit {0})
  unfolding require_run_id check_pool
  check_identity run (query_error b) =
      raised (failure fail_technical "database form identity query failed")
  check_identity run (form_row (obj row)) = require_id (get_or_null "id" row) run.form.form_id (
      require_id (get_or_null "session_id" row) run.form.session_id (
        require_run_id (get_or_null "pipeline_run_id" row) run.pipeline_run_id
          (check_pool (get "factor_combo_pool_id" row) run.form.pool_id)))
  check_identity run (form_row v) = raised (failure fail_contract "database form does not exist")

  -- `_validate_run_database_identity`
  unfoldable pub validate_run_identity : Run → Step (Unit {0})
  unfolding query_form check_identity
  validate_run_identity run = do
    found ← query_form env run.form.form_id
    flow_step (check_identity run found)

  -- The fields of a status response.
  unfoldable pub check_status : Run → Fields → Flow Fields
  unfolding require_run_id status_value text_or_empty
  check_status run data' = require_id (get_or_null "form_id" data') run.form.form_id (
      require_run_id (get_or_null "pipeline_run_id" data') run.pipeline_run_id (
        require (not (text_eq (strip (text_or_empty env.show (status_value data'))) []))
          (failure fail_contract "run status response is missing pipeline_status")
          (returned data')))

  -- `read_real_run_status`
  unfoldable pub read_real_run_status : Run → Step Fields
  unfolding validate_run_identity check_status require_flow_data request
  read_real_run_status run = do
    _ ← validate_run_identity run
    answer ← request env (get_run_status run.form.form_id run.pipeline_run_id)
    flow_step
        (and_then (require_flow_data (200 ∷ []) answer.status_code answer.body) (check_status run))

  -- The end of a round of the loop that has not returned.
  unfoldable pub wait_then : {A : Type 0} → ResearchSettings → ℕ → Step A → Step A
  unfolding monotonic sleep_for_poll_retry
  wait_then settings started loop = do
    now ← monotonic env
    if is_past started settings.poll_timeout (now + max_zero settings.poll_interval)
        then raise timed_out
        else (sleep_for_poll_retry settings.poll_interval >> loop)

  -- What follows one read of the status; `loop` is the next round, by the failed reads in a row and
  -- the snapshots.
  unfoldable pub after_status :
      ResearchSettings
      → (started retries : ℕ) → List Fields
      → (ℕ → List Fields → Step (List Fields × Fields))
      → Outcome Failure Fields × List Event
      → Outcome Failure (List Fields × Fields) × List Event
  unfolding wait_then is_settled
  after_status settings started retries snapshots loop (returned data', log) =
      if is_settled data'
      then (returned (snapshots ++ (data' ∷ []), data'), log)
      else wait_then settings started (loop 0 (snapshots ++ (data' ∷ []))) log
  after_status settings started retries snapshots loop (raised (flow_error e), log) =
      if not (is_technical e.outcome)
      then (raised (flow_error e), log)
      else if ltb (max_zero settings.max_technical_retries) (suc retries)
      then (raised unavailable, log)
      else wait_then settings started (loop (suc retries) snapshots) log
  after_status settings started retries snapshots loop (raised e, log) = (raised e, log)

  abbrev pub read_then :
      {A B : Type 0}
      → (Outcome Failure A × List Event → Outcome Failure B × List Event)
      → Step A
      → Step B
  read_then after m log = after (m log)

  -- One round of the `while` loop.
  unfoldable pub poll_round :
      ResearchSettings
      → Run
      → (started retries : ℕ) → List Fields
      → (ℕ → List Fields → Step (List Fields × Fields))
      → Step (List Fields × Fields)
  unfolding after_status read_real_run_status monotonic
  poll_round settings run started retries snapshots loop = do
    now ← monotonic env
    if is_past started settings.poll_timeout now
        then raise timed_out
        else read_then (after_status settings started retries snapshots loop)
            (read_real_run_status run)

  -- The `while` loop.
  unfoldable pub poll_loop :
      ResearchSettings
      → Run
      → (fuel started retries : ℕ) → List Fields
      → Step (List Fields × Fields)
  unfolding poll_round
  poll_loop settings run zero started retries snapshots = raise out_of_fuel
  poll_loop settings run (suc fuel) started retries snapshots =
      let loop = poll_loop settings run fuel started in
      poll_round settings run started retries snapshots loop

  -- `poll_real_run`
  unfoldable pub poll_real_run : ResearchSettings → (fuel : ℕ) → Run → Step (List Fields × Fields)
  unfolding poll_loop
  poll_real_run settings fuel run = do
    started ← monotonic env
    poll_loop settings run fuel started 0 []
