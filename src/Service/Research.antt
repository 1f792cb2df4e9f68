-- ===== src/Service/Research.antt =====
-- service/factor_combo_service.py: the flow around a real run of the research pipeline, from
-- `start_real_run` to `run_real_research_flow`. The HTTP APIs, the clock and the database are
-- outside: each call is logged, and a script answers it by the length of the log. Times are whole
-- numbers of some unit.
pub mod Values
pub mod Starting
pub mod Watching
pub mod Components
pub mod Performance
pub mod Measured
pub mod Results
pub mod Feedback
pub mod Agents
pub mod Rounds
pub mod Spending
pub mod Counting
pub mod Polling
pub mod Retries
pub mod Attempts
pub mod Totals
pub mod Endings
pub mod Started
pub mod Accepted
pub mod Reading
pub mod Finishing
pub mod Concluding
pub mod Verdicts
pub mod Unique
pub mod RunIds
pub mod Recovered
pub mod Matching
pub mod Snapshots
mod Examples
use quest_test.Prelude.{
  ◌≡◌, ℕ, zero, suc, ◌+◌, Bool, true, false, if◌then◌else◌, Option, none, some, List, [], ◌∷◌, ◌++◌,
  String, Text, ℤ, pos, negsuc, ltb, length,
}
use quest_test.Effect.{Outcome, returned, raised, Action, pure, raise}
use quest_test.Json.{Value, null, bool, str, obj, Fields, field, brace}
use quest_test.Service.Flow.{
  FlowError, failure_with, fail_technical, Flow, Response, request_exception, response,
}

-- `SubmittedForm`
pub record Form : Type 0 where
  pub form_id : ℕ
  pub session_id : ℕ
  pub pool_id : ℕ

-- `RealRun`
pub record Run : Type 0 where
  pub form : Form
  pub pipeline_run_id : Text
  pub agent_uid : Text
  pub agent_session_id : Value
  pub research_round : ℕ
  pub reused_existing : Bool

-- `RealPipelineResult`
pub record PipelineResult : Type 0 where
  pub run : Run
  pub report : Fields
  pub review : Fields
  pub validity : Fields
  pub raw_data : Fields

pub record ResearchSettings : Type 0 where
  pub agent_uid : Text
  pub poll_interval : ℤ
  pub poll_timeout : ℤ
  pub max_research_rounds : ℤ
  pub max_technical_retries : ℤ

-- What a statement of the flow may raise. `out_of_fuel` is of the model alone.
pub data Failure : Type 0 where
  flow_error : FlowError → Failure
  timeout_error value_error runtime_error database_error out_of_fuel : Failure

-- The body of a request that starts a run.
pub record StartPayload : Type 0 where
  pub agent_uid : Text
  pub force_fresh_pipeline_run : Bool
  pub feedback_id : Option ℕ

pub data Event : Type 0 where
  read_clock : Event
  sleep : ℕ → Event
  protect_form release_form : ℕ → Event
  get_form : ℕ → Event
  list_agents : ℕ → Event
  start_run : ℕ → StartPayload → Event
  get_run_status get_run_result : ℕ → Text → Event
  submit_feedback : ℕ → Text → Event
  register_result : ℕ → Text → Event

-- What reading the form comes to: an exception, a `TimeoutError` or not, or the row, null where
-- there is none.
pub data FormRead : Type 0 where
  query_error : Bool → FormRead
  form_row : Value → FormRead

-- What a registration comes to: it succeeds, fails with a flow error, or breaks with another one.
pub data Registration : Type 0 where
  registered : Registration
  refused : FlowError → Registration
  broken : Registration

unfoldable pub registration_outcome : Registration → Outcome Failure (Unit {0})
registration_outcome registered = returned tt
registration_outcome (refused e) = raised (flow_error e)
registration_outcome broken = raised database_error

-- What lies outside. A registration with its refresh and audit, `register_real_result_and_refresh`,
-- is one event. `show` is `str()` of a value that is no string, `int_of` is `int()` of a text or a
-- float, `none` where it raises, `is_whole` is `float.is_integer`, `is_decimal` that a text or a
-- float is a finite `Decimal`, `float_at_least` and `float_at_most` compare the `Decimal` of a float
-- with an integer.
pub record Environment : Type 0 where
  pub clock : ℕ → ℕ
  pub answers : ℕ → Response
  pub forms : ℕ → FormRead
  pub registrations : ℕ → Registration
  pub show : Value → Text
  pub int_of : Value → Option ℤ
  pub is_whole : Text → Bool
  pub is_decimal : Value → Bool
  pub float_at_least : Text → ℤ → Bool
  pub float_at_most : Text → ℤ → Bool

abbrev pub Step : Type 0 → Type 0
Step A = Action (List Event) Failure A

abbrev pub flow_step : {A : Type 0} → Flow A → Step A
flow_step (returned a) log = (returned a, log)
flow_step (raised e) log = (raised (flow_error e), log)

pub flow_step_inv :
    {A : Type 0} (m : Flow A) (log : List Event) (a : A)
    → (flow_step m log).0 ≡ returned a
    → m ≡ returned a
flow_step_inv (returned b) log a h = cc
flow_step_inv (raised e) log a h = cc

abbrev pub record_event : Event → Step (Unit {0})
record_event e log = (returned tt, log ++ (e ∷ []))

-- An HTTP response, its body decoded.
pub record Answer : Type 0 where
  pub status_code : ℕ
  pub body : Value

-- `_call_flow_request`
unfoldable pub call_flow_request : Response → Outcome Failure Answer
call_flow_request request_exception = raised (
    flow_error (
      failure_with fail_technical "network request failed"
        (obj (field "exception_type" null brace))))
call_flow_request (response code body) = returned (record { status_code = code; body = body })

-- `if delay > 0: time.sleep(delay)`, of `_sleep_for_poll_retry`
unfoldable pub sleep_for_poll_retry : ℤ → Step (Unit {0})
sleep_for_poll_retry (pos (suc n)) log = (returned tt, log ++ (sleep (suc n) ∷ []))
sleep_for_poll_retry (pos zero) log = (returned tt, log)
sleep_for_poll_retry (negsuc n) log = (returned tt, log)

-- `now > deadline`, the deadline being `started + timeout`
abbrev pub is_past : (started : ℕ) → ℤ → ℕ → Bool
is_past started (pos timeout) now = ltb (started + timeout) now
is_past started (negsuc n) now = ltb started (now + suc n)

module _ (env : Environment) where
  -- `time.monotonic()`
  unfoldable pub monotonic : Step ℕ
  monotonic log = (returned (env.clock (length log)), log ++ (read_clock ∷ []))

  unfoldable pub request : Event → Step Answer
  request e log = (call_flow_request (env.answers (length log)), log ++ (e ∷ []))

  -- `repository.get_form`, before an exception is raised
  unfoldable pub query_form : ℕ → Step FormRead
  query_form form_id log = (returned (env.forms (length log)), log ++ (get_form form_id ∷ []))

  -- `register_real_result_and_refresh`
  unfoldable pub register_real_result : ℕ → Text → Step (Unit {0})
  unfolding registration_outcome
  register_real_result form_id run_id log = (
    registration_outcome (env.registrations (length log)),
    log ++ (register_result form_id run_id ∷ []),
  )
