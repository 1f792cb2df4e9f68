-- ===== src/Service/Research/Counting.antt =====
-- What starting a run and reading its status spend, a start, a feedback and a registration having
-- given weights.
use quest_test.Prelude.{
  ℕ, ◌+◌, ◌≤◌, ◌≢◌, refl, Bool, true, false, if◌then◌else◌, if_ind, Option, String, Text, text_eq,
  strip, ◌==◌, [], ◌∷◌, arith,
}
use quest_test.Effect.{pure, raise, ◌>>=◌}
use quest_test.Json.{Value}
use quest_test.Service.Flow.{FlowError, Flow, require_flow_data, and_then}
use quest_test.Service.Research.{
  Form, Run, Failure, flow_error, timeout_error, value_error, runtime_error, database_error,
  out_of_fuel, StartPayload, Event, protect_form, release_form, start_run, get_run_status,
  submit_feedback, register_result, FormRead, query_error, form_row, Environment, Step, flow_step,
  record_event, Answer, request, query_form, monotonic,
}
use quest_test.Service.Research.Starting.{
  required_form, release_rejected, post_start, select_uid, start_real_run_request,
  is_no_feedback_id, recover_existing_run, parse_started_run_response, start_real_run,
  check_conflict_form, field_of, data_of, is_rejected, choose_run, documented, find_run_id, text_of,
  check_started,
}
use quest_test.Service.Research.Watching.{
  technical_failure, validate_run_identity, check_identity, read_real_run_status, check_status,
}
use quest_test.Service.Research.Spending.{
  Spent, Keeps, returned-Spent, raised-Spent, more-Spent, if-Keeps, bind-Keeps, quiet-Keeps,
  flow_step-Keeps, request-Keeps, record-Keeps, monotonic-Keeps, query_form-Keeps,
}

-- The weight of a call: that of a start, of a feedback and of a registration are given.
abbrev pub weight : (s f g : ℕ) → Event → ℕ
weight s f g (start_run n p) = s
weight s f g (submit_feedback n t) = f
weight s f g (register_result n t) = g
weight s f g e = 0

module _ (s f g : ℕ) (Allowed : Failure → Type 0)
    (ok : (e : Failure) → e ≢ out_of_fuel → Allowed e) where
  abbrev pub K : {A : Type 0} → ℕ → Step A → Type 0
  K = Keeps (weight s f g) Allowed

  pub flow_ok : (e : FlowError) → Allowed (flow_error e)
  flow_ok e = ok (flow_error e) (λ h. cc)

  pub technical_ok :
      (message : String) (retry : Bool) (reason : String)
      → Allowed (technical_failure message retry reason)
  unfolding technical_failure
  technical_ok message retry reason = flow_ok _

  pub raise-K : {A : Type 0} (k : ℕ) (e : Failure) → e ≢ out_of_fuel → K {A = A} k (raise e)
  raise-K k e other log = raised-Spent (weight s f g) Allowed k log e (ok e other)

  pub pure-K : {A : Type 0} (k : ℕ) (a : A) → K k (pure {E = Failure} a)
  pure-K k a log = returned-Spent (weight s f g) Allowed k log a

  pub required_form-Keeps : (env : Environment) (found : FormRead) → K 0 (required_form env found)
  required_form-Keeps env (query_error true) = raise-K 0 timeout_error (λ h. cc)
  required_form-Keeps env (query_error false) = raise-K 0 database_error (λ h. cc)
  required_form-Keeps env (form_row row) = pure-K 0 row

  pub quiet-K :
      {A B : Type 0} (k : ℕ) (m : Step A) (next : A → Step B)
      → K 0 m
      → ((a : A) → K k (next a))
      → K k (m >>= next)
  quiet-K = quiet-Keeps (weight s f g) Allowed

  pub flow-K : {A : Type 0} (k : ℕ) (m : Flow A) → K k (flow_step m)
  flow-K = flow_step-Keeps (weight s f g) Allowed flow_ok

  pub if-K :
      {A : Type 0} (k : ℕ) (b : Bool) (m n : Step A) → K k m → K k n → K k (if b then m else n)
  if-K k b m n p q = if-Keeps (weight s f g) Allowed k b m n (λ _. p) (λ _. q)

  pub more-K : {A : Type 0} (j k : ℕ) (m : Step A) → j ≤ k → K j m → K k m
  more-K j k m h p log = more-Spent (weight s f g) Allowed j k log (m log) h (p log)

  pub monotonic-K : (env : Environment) → K 0 (monotonic env)
  monotonic-K env = monotonic-Keeps (weight s f g) Allowed env refl

  pub request-K : (env : Environment) (k : ℕ) (e : Event) → weight s f g e ≤ k → K k (request env e)
  request-K = request-Keeps (weight s f g) Allowed flow_ok

  pub release_rejected-Keeps :
      (env : Environment) (form : Form) (answer : Answer) → K 0 (release_rejected env form answer)
  unfolding release_rejected
  release_rejected-Keeps env form answer log =
      if_ind (Spent (weight s f g) Allowed 0 log) (is_rejected answer.status_code)
        (λ _.
          quiet-K 0 (record_event (release_form form.form_id)) (λ _. pure answer)
            (record-Keeps (weight s f g) Allowed 0 (release_form form.form_id) (omega arith))
            (λ _. pure-K 0 answer) log)
        (λ _. returned-Spent (weight s f g) Allowed 0 log answer)

  pub post_start-Keeps :
      (env : Environment) (form : Form) (payload : StartPayload) → K s (post_start env form payload)
  unfolding post_start
  post_start-Keeps env form payload =
      quiet-K s (record_event (protect_form form.form_id)) _
        (record-Keeps (weight s f g) Allowed 0 (protect_form form.form_id) (omega arith))
        (λ _. more-K (s + 0) s _ (omega arith) (
          bind-Keeps (weight s f g) Allowed s 0 (request env (start_run form.form_id payload))
            (release_rejected env form)
            (request-K env s (start_run form.form_id payload) (omega arith))
            (release_rejected-Keeps env form)))

  pub start_real_run_request-Keeps :
      (env : Environment) (configured : Text) (form : Form) (uid : Text) (feedback : Option ℕ)
      (force : Bool) (round : ℕ)
      → K s (start_real_run_request env configured form uid feedback force round)
  unfolding start_real_run_request
  start_real_run_request-Keeps env configured form uid feedback force round =
      if-K s (text_eq (select_uid uid configured) []) _ _ (raise-K s runtime_error (λ h. cc)) (
        if-K s (round == 0) _ _ (raise-K s value_error (λ h. cc)) (
          if-K s (is_no_feedback_id feedback) _ _ (raise-K s value_error (λ h. cc))
            (post_start-Keeps env form _)))

  pub recover_existing_run-Keeps :
      (env : Environment) (answer : Answer) (form : Form) (uid : Text) (round : ℕ)
      → K 0 (recover_existing_run env answer form uid round)
  unfolding recover_existing_run
  recover_existing_run-Keeps env answer form uid round =
      quiet-K 0
        (flow_step
          (check_conflict_form env (field_of "form_id" (data_of answer.body)) form.form_id))
        (λ _. (do
          found ← query_form env form.form_id
          row ← required_form env found
          flow_step (choice row)))
        (flow-K 0 (check_conflict_form env (field_of "form_id" (data_of answer.body)) form.form_id))
        (λ _.
          quiet-K 0 (query_form env form.form_id)
            (λ found. (do row ← required_form env found; flow_step (choice row)))
            (query_form-Keeps (weight s f g) Allowed env form.form_id refl)
            (λ found.
              quiet-K 0 (required_form env found) (λ row. flow_step (choice row))
                (required_form-Keeps env found) (λ row. flow-K 0 (choice row))))
    where
      choice : Value → Flow Run
      choice row =
          choose_run env form uid round (data_of answer.body)
            (documented (find_run_id (data_of answer.body)))
            (documented (text_of (field_of "pipeline_run_id" row)))

  pub parse_started_run_response-Keeps :
      (env : Environment) (answer : Answer) (form : Form) (uid : Text) (round : ℕ)
      → K 0 (parse_started_run_response env answer form uid round)
  unfolding parse_started_run_response
  parse_started_run_response-Keeps env answer form uid round =
      if-K 0 (text_eq (strip uid) []) _ _ (raise-K 0 value_error (λ h. cc)) (
        if-K 0 (round == 0) _ _ (raise-K 0 value_error (λ h. cc)) (
          flow-K 0 (
            and_then (require_flow_data (200 ∷ 202 ∷ []) answer.status_code answer.body)
              (check_started env answer.status_code form uid round))))

  pub start_real_run-Keeps :
      (env : Environment) (configured : Text) (form : Form) (uid : Text) (feedback : Option ℕ)
      (force : Bool) (round : ℕ)
      → K s (start_real_run env configured form uid feedback force round)
  unfolding start_real_run
  start_real_run-Keeps env configured form uid feedback force round =
      more-K (s + 0) s _ (omega arith) (
        bind-Keeps (weight s f g) Allowed s 0
          (start_real_run_request env configured form (select_uid uid configured) feedback force
            round)
          _
          (start_real_run_request-Keeps env configured form (select_uid uid configured) feedback
            force round)
          (λ answer.
            if-K 0 (answer.status_code == 409) _ _
              (recover_existing_run-Keeps env answer form (select_uid uid configured) round)
              (parse_started_run_response-Keeps env answer form (select_uid uid configured) round)))

  pub validate_run_identity-Keeps :
      (env : Environment) (run : Run) → K 0 (validate_run_identity env run)
  unfolding validate_run_identity
  validate_run_identity-Keeps env run =
      quiet-K 0 (query_form env run.form.form_id) _
        (query_form-Keeps (weight s f g) Allowed env run.form.form_id refl)
        (λ found. flow-K 0 (check_identity env run found))

  pub read_real_run_status-Keeps :
      (env : Environment) (run : Run) → K 0 (read_real_run_status env run)
  unfolding read_real_run_status
  read_real_run_status-Keeps env run =
      quiet-K 0 (validate_run_identity env run) _ (validate_run_identity-Keeps env run) (λ _.
        quiet-K 0 (request env (get_run_status run.form.form_id run.pipeline_run_id)) _
          (request-K env 0 (get_run_status run.form.form_id run.pipeline_run_id) (omega arith))
          (λ answer. flow-K 0 (
            and_then (require_flow_data (200 ∷ []) answer.status_code answer.body)
              (check_status env run))))
