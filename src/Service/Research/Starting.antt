-- ===== src/Service/Research/Starting.antt =====
-- service/factor_combo_service.py: starting a real run, and finding the run that exists already when
-- the start is answered with a conflict.
use quest_test.Prelude.{
  ℕ, Bool, true, false, not, ◌&&◌, if◌then◌else◌, Option, none, some, String, str_eq, Text, text_eq,
  strip, or_else, leb, ltb, ◌==◌, ℤ, pos, negsuc, [], ◌∷◌,
}
use quest_test.Effect.{returned, raised, pure, raise, ◌>>=◌, ◌>>◌}
use quest_test.Json.{
  Value, null, int, float, str, arr, obj, Items, element, bracket, Fields, field, brace,
  get_or_null,
}
use quest_test.Service.Flow.{
  FlowError, failure, fail_contract, Flow, and_then, require, require_flow_data, required_boolean,
}
use quest_test.Service.Research.{
  Form, Run, StartPayload, protect_form, release_form, start_run, FormRead, query_error, form_row,
  Environment, Step, flow_step, record_event, Answer, request, query_form, timeout_error,
  value_error, runtime_error, database_error,
}
use quest_test.Service.Research.Values.{
  positive_int, positive_int_or_failure, non_empty, non_empty_or_failure, is_run_id,
}

-- `feedback_id is not None and int(feedback_id) <= 0`
abbrev pub is_no_feedback_id : Option ℕ → Bool
is_no_feedback_id none = false
is_no_feedback_id (some n) = n == 0

-- A 4xx answer that is no conflict: the request was not accepted.
unfoldable pub is_rejected : ℕ → Bool
is_rejected code = leb 400 code && (ltb code 500 && not (code == 409))

-- `_find_pipeline_run_id`; `find_under` is the search below one key of an object.
unfoldable mutual
  unfolding non_empty

  pub find_run_id : Value → Option Text
  find_run_id (obj fs) = or_else (non_empty (get_or_null "pipeline_run_id" fs)) (
      or_else (non_empty (get_or_null "run_id" fs)) (
        or_else (find_under "run" fs)
          (or_else (find_under "existing_run" fs) (find_under "data" fs))))
  find_run_id (arr items) = find_in items
  find_run_id v = none

  find_under : String → Fields → Option Text
  find_under name brace = none
  find_under name (field j v fs) =
      let rest = find_under name fs in
      let here = find_run_id v in if str_eq j name then here else rest

  find_in : Items → Option Text
  find_in bracket = none
  find_in (element v items) = or_else (find_run_id v) (find_in items)

-- A run id of the documented format, stripped.
unfoldable pub documented : Option Text → Option Text
unfolding is_run_id
documented none = none
documented (some t) = if is_run_id (strip t) then some (strip t) else none

abbrev pub text_of : Value → Option Text
text_of (str t) = some t
text_of v = none

-- Two run ids, both given, that differ.
abbrev pub disagree : Option Text → Option Text → Bool
disagree (some s) (some t) = not (text_eq s t)
disagree _ _ = false

-- `agent_session_id` is absent, a text that is not blank, or an `int`.
unfoldable pub is_session_id : Value → Bool
is_session_id null = true
is_session_id (int n) = true
is_session_id (str t) = not (text_eq (strip t) [])
is_session_id v = false

-- The `data` of a response body, null where there is none.
abbrev pub data_of : Value → Value
data_of (obj body) = get_or_null "data" body
data_of v = null

abbrev pub field_of : String → Value → Value
field_of name (obj data') = get_or_null name data'
field_of name v = null

abbrev pub is_int : Option ℤ → ℕ → Flow (Unit {0})
is_int none form_id = raised (failure fail_contract "form_id is not an integer")
is_int (some (pos n)) form_id =
    require (n == form_id) (failure fail_contract "form_id does not match the submitted form")
      (returned tt)
is_int (some (negsuc n)) form_id =
    raised (failure fail_contract "form_id does not match the submitted form")

-- `str(agent_uid or settings.agent_uid or "").strip()`
abbrev pub select_uid : (agent_uid configured : Text) → Text
select_uid agent_uid configured = strip (if text_eq agent_uid [] then configured else agent_uid)

module _ (env : Environment) where
  -- The check of `form_id` in a conflict response.
  unfoldable pub check_conflict_form : Value → ℕ → Flow (Unit {0})
  check_conflict_form null form_id = returned tt
  check_conflict_form (int n) form_id = is_int (some n) form_id
  check_conflict_form (float t) form_id = is_int (env.int_of (float t)) form_id
  check_conflict_form (str t) form_id = is_int (env.int_of (str t)) form_id
  check_conflict_form v form_id = raised (failure fail_contract "form_id is not an integer")

  abbrev pub required_form : FormRead → Step Value
  required_form (query_error true) = raise timeout_error
  required_form (query_error false) = raise database_error
  required_form (form_row row) = pure row

  -- `start_real_run_request`, after the guards on its arguments
  unfoldable pub release_rejected : Form → Answer → Step Answer
  unfolding is_rejected
  release_rejected form answer log =
      if is_rejected answer.status_code
      then (record_event (release_form form.form_id) >> pure answer) log
      else (returned answer, log)

  unfoldable pub post_start : Form → StartPayload → Step Answer
  unfolding request release_rejected
  post_start form payload = do
    _ ← record_event (protect_form form.form_id)
    answer ← request env (start_run form.form_id payload)
    release_rejected form answer

  unfoldable pub start_real_run_request :
      (configured : Text)
      → Form
      → (agent_uid : Text) → (feedback_id : Option ℕ) → Bool
      → ℕ
      → Step Answer
  unfolding post_start
  start_real_run_request configured form agent_uid feedback_id force_fresh research_round =
      if text_eq (select_uid agent_uid configured) []
      then raise runtime_error
      else if research_round == 0
      then raise value_error
      else if is_no_feedback_id feedback_id
      then raise value_error
      else post_start form (record {
        agent_uid = select_uid agent_uid configured;
        force_fresh_pipeline_run = force_fresh;
        feedback_id = feedback_id;
      })

  abbrev pub reused : Form → Text → Value → ℕ → Text → Run
  reused form agent_uid session research_round run_id = record {
    form = form;
    pipeline_run_id = run_id;
    agent_uid = strip agent_uid;
    agent_session_id = session;
    research_round = research_round;
    reused_existing = true;
  }

  abbrev pub reuse : Form → Text → Value → ℕ → Option Text → Flow Run
  reuse form agent_uid session research_round (some run_id) =
      returned (reused form agent_uid session research_round run_id)
  reuse form agent_uid session research_round none =
      raised (failure fail_contract "no reusable real pipeline_run_id")

  -- The choice between the run ids of the response and of the database row.
  unfoldable pub choose_run :
      Form → Text → ℕ → Value → (from_response from_database : Option Text) → Flow Run
  unfolding is_session_id
  choose_run form agent_uid research_round data' from_response from_database =
      let session = field_of "agent_session_id" data' in
      require (not (disagree from_response from_database))
        (failure fail_contract "response and database point to different pipeline_run_id values")
        (require (is_session_id session)
          (failure fail_contract "agent_session_id must be a non-empty string or integer")
          (reuse form agent_uid session research_round (or_else from_response from_database)))

  -- `recover_existing_run`
  unfoldable pub recover_existing_run : Answer → Form → Text → ℕ → Step Run
  unfolding check_conflict_form query_form documented choose_run find_run_id
  recover_existing_run answer form agent_uid research_round =
      let data' = data_of answer.body in
      do
        _ ← flow_step (check_conflict_form (field_of "form_id" data') form.form_id)
        found ← query_form env form.form_id
        row ← required_form found
        flow_step (
            choose_run form agent_uid research_round data' (documented (find_run_id data'))
              (documented (text_of (field_of "pipeline_run_id" row))))

  -- The two checks of `idempotent_replay` against the status.
  abbrev pub replay_matches : ℕ → Bool → Bool
  replay_matches code replay = if code == 202 then not replay else replay

  abbrev pub replay_failure : FlowError
  replay_failure = failure fail_contract "idempotent_replay does not fit the status"

  abbrev pub session_failure : FlowError
  session_failure = failure fail_contract "agent_session_id must be a string or integer"

  abbrev pub format_failure : FlowError
  format_failure = failure fail_contract "pipeline_run_id does not match the documented format"

  abbrev pub form_failure : FlowError
  form_failure = failure fail_contract "form_id does not match the submitted form"

  abbrev pub started : Form → Text → ℕ → Fields → Text → Run
  started form agent_uid research_round data' run_id = record {
    form = form;
    pipeline_run_id = run_id;
    agent_uid = strip agent_uid;
    agent_session_id = get_or_null "agent_session_id" data';
    research_round = research_round;
    reused_existing = false;
  }

  -- The checks of a start response, from the last to the first.
  unfoldable pub check_replay : ℕ → Form → Text → ℕ → Fields → Text → Bool → Flow Run
  unfolding is_session_id
  check_replay code form agent_uid research_round data' run_id replay =
      require (replay_matches code replay) replay_failure (
        require (is_session_id (get_or_null "agent_session_id" data')) session_failure
          (returned (started form agent_uid research_round data' run_id)))

  unfoldable pub check_run_id : ℕ → Form → Text → ℕ → Fields → Text → Flow Run
  unfolding is_run_id required_boolean check_replay
  check_run_id code form agent_uid research_round data' run_id =
      require (is_run_id run_id) format_failure (
        and_then
          (required_boolean (get_or_null "idempotent_replay" data') fail_contract
            "idempotent_replay must be a boolean")
          (check_replay code form agent_uid research_round data' run_id))

  unfoldable pub check_form : ℕ → Form → Text → ℕ → Fields → ℕ → Flow Run
  unfolding non_empty check_run_id
  check_form code form agent_uid research_round data' returned_form_id =
      require (returned_form_id == form.form_id) form_failure (
        and_then
          (non_empty_or_failure (get_or_null "pipeline_run_id" data') fail_contract
            "start response is missing pipeline_run_id")
          (check_run_id code form agent_uid research_round data'))

  unfoldable pub check_started : ℕ → Form → Text → ℕ → Fields → Flow Run
  unfolding positive_int check_form
  check_started code form agent_uid research_round data' =
      and_then
        (positive_int_or_failure env (get_or_null "form_id" data') fail_contract
          "start response is missing a positive form_id")
        (check_form code form agent_uid research_round data')

  -- `parse_started_run_response`
  unfoldable pub parse_started_run_response : Answer → Form → Text → ℕ → Step Run
  unfolding check_started require_flow_data
  parse_started_run_response answer form agent_uid research_round =
      if text_eq (strip agent_uid) []
      then raise value_error
      else if research_round == 0
      then raise value_error
      else flow_step (
          and_then (require_flow_data (200 ∷ 202 ∷ []) answer.status_code answer.body)
            (check_started answer.status_code form agent_uid research_round))

  -- `start_real_run`
  unfoldable pub start_real_run :
      (configured : Text)
      → Form
      → (agent_uid : Text) → (feedback_id : Option ℕ) → Bool
      → ℕ
      → Step Run
  unfolding start_real_run_request recover_existing_run parse_started_run_response
  start_real_run configured form agent_uid feedback_id force_fresh research_round =
      let uid = select_uid agent_uid configured in
      do
        answer ← start_real_run_request configured form uid feedback_id force_fresh research_round
        if answer.status_code == 409
            then recover_existing_run answer form uid research_round
            else parse_started_run_response answer form uid research_round
