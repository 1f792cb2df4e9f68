-- ===== src/Service/Research/Recovered.antt =====
-- Which run `start_real_run` returns, new or recovered from a conflict.
use quest_test.Prelude.{
  ℕ, ◌≡◌, refl, subst, Bool, true, false, not, if◌then◌else◌, if_ind, Bool-cases, Option, none,
  some, or_else, Text, text_eq, strip, ◌==◌, inl, inr, List, [], ◌∷◌,
}
use quest_test.Effect.{Outcome, returned, raised-returned, ◌>>=◌, go_on_inv}
use quest_test.Json.{Value, Fields, get_or_null}
use quest_test.Service.Flow.{
  Flow, fail_contract, and_then, require, and_then_inv, require_inv, required_boolean,
  require_flow_data,
}
use quest_test.Service.Research.{
  Form, Run, Failure, Event, Environment, Step, flow_step, flow_step_inv, Answer, query_form,
  FormRead,
}
use quest_test.Service.Research.RunIds.{RunId, is_run_id-RunId}
use quest_test.Service.Research.Values.{is_run_id, non_empty_or_failure, positive_int_or_failure}
use quest_test.Service.Research.Starting.{
  documented, disagree, is_session_id, field_of, data_of, text_of, find_run_id, check_conflict_form,
  required_form, select_uid, start_real_run_request, reused, reuse, choose_run,
  recover_existing_run, check_started, check_form, check_run_id, check_replay, started,
  replay_matches, replay_failure, session_failure, format_failure, form_failure,
  parse_started_run_response, start_real_run,
}

-- What a run that was started or found promises.
pub record Identified (form : Form) (agent_uid : Text) (research_round : ℕ) (reused : Bool)
    (run : Run) : Type 0 where
  pub of_form : run.form ≡ form
  pub of_round : run.research_round ≡ research_round
  pub of_agent : run.agent_uid ≡ strip agent_uid
  pub documented_id : is_run_id run.pipeline_run_id ≡ true
  pub format : RunId run.pipeline_run_id
  pub session : is_session_id run.agent_session_id ≡ true
  pub origin : run.reused_existing ≡ reused

some_inv : (a b : Text) → ◌≡◌ {A = Option Text} (some a) (some b) → a ≡ b
some_inv a b h = cc

documented_inv : (o : Option Text) (t : Text) → documented o ≡ some t → is_run_id t ≡ true
unfolding documented
documented_inv none = λ t h. cc
documented_inv (some s) =
    if_ind (λ o. (t : Text) → o ≡ some t → is_run_id t ≡ true) (is_run_id (strip s))
      (λ good t h. subst (λ x. is_run_id x ≡ true) (some_inv (strip s) t h) good) (λ _ t h. cc)

or_else-documented :
    (o p : Option Text) (t : Text)
    → or_else (documented o) (documented p) ≡ some t
    → is_run_id t ≡ true
or_else-documented o p t h = pick (documented o) (documented_inv o) h
  where
    pick :
        (x : Option Text)
        → ((s : Text) → x ≡ some s → is_run_id s ≡ true)
        → or_else x (documented p) ≡ some t
        → is_run_id t ≡ true
    pick none left e = documented_inv p t e
    pick (some s) left e = left t e

module _ (env : Environment) (form : Form) (uid : Text) (round : ℕ) where
  reuse_inv :
      (session : Value) (o : Option Text) (run : Run)
      → reuse env form uid session round o ≡ returned run
      → (t : Text) × (o ≡ some t) × (reused env form uid session round t ≡ run)
  reuse_inv session (some t) run h = (t, refl, returned_inv _ run h)
    where
      returned_inv : (a b : Run) → ◌≡◌ {A = Flow Run} (returned a) (returned b) → a ≡ b
      returned_inv a b e = cc
  reuse_inv session none run h = absurd (raised-returned _ run h)

  choose_run-Identified :
      (data' : Value) (o p : Option Text) (run : Run)
      → choose_run env form uid round data' (documented o) (documented p) ≡ returned run
      → Identified form uid round true run
  unfolding choose_run
  choose_run-Identified data' o p run h =
      let (agree, rest) = require_inv (not (disagree (documented o) (documented p))) _ _ run h in
      let (session, last) =
        require_inv (is_session_id (field_of "agent_session_id" data')) _ _ run rest in
      let (t, found, same) =
        reuse_inv (field_of "agent_session_id" data') (or_else (documented o) (documented p)) run
          last in
      subst (Identified form uid round true) same (record {
        of_form = refl;
        of_round = refl;
        of_agent = refl;
        documented_id = or_else-documented o p t found;
        format = is_run_id-RunId _ (or_else-documented o p t found);
        session = session;
        origin = refl;
      })

  recover_existing_run-Identified :
      (answer : Answer) (log : List Event) (run : Run)
      → (recover_existing_run env answer form uid round log).0 ≡ returned run
      → Identified form uid round true run
  unfolding recover_existing_run
  recover_existing_run-Identified answer log run h =
      let checked =
        flow_step (check_conflict_form env (field_of "form_id" (data_of answer.body)) form.form_id)
          log in
      let (u, _, h1) = go_on_inv checked (λ _. query_form env form.form_id >>= from_form) run h in
      let (found, _, h2) = go_on_inv (query_form env form.form_id checked.1) from_form run h1 in
      let read = required_form env found (query_form env form.form_id checked.1).1 in
      let (row, _, h3) = go_on_inv read (λ row. flow_step (choice row)) run h2 in
      choose_run-Identified (data_of answer.body) (find_run_id (data_of answer.body))
        (text_of (field_of "pipeline_run_id" row)) run (flow_step_inv (choice row) read.1 run h3)
    where
      choice : Value → Flow Run
      choice row =
          choose_run env form uid round (data_of answer.body)
            (documented (find_run_id (data_of answer.body)))
            (documented (text_of (field_of "pipeline_run_id" row)))

      from_form : FormRead → Step Run
      from_form found = do row ← required_form env found; flow_step (choice row)

  check_replay-Identified :
      (code : ℕ) (data' : Fields) (t : Text) (replay : Bool) (run : Run)
      → is_run_id t ≡ true
      → check_replay env code form uid round data' t replay ≡ returned run
      → Identified form uid round false run
  unfolding check_replay
  check_replay-Identified code data' t replay run good h =
      let fresh = started env form uid round data' t in
      let session = is_session_id (get_or_null "agent_session_id" data') in
      let (_, rest) =
        require_inv (replay_matches env code replay) (replay_failure env)
          (require session (session_failure env) (returned fresh)) run h in
      let (session_good, last) =
        require_inv session (session_failure env) (returned fresh) run rest in
      subst (Identified form uid round false) (returned_inv fresh run last) (record {
        of_form = refl;
        of_round = refl;
        of_agent = refl;
        documented_id = good;
        format = is_run_id-RunId _ (good);
        session = session_good;
        origin = refl;
      })
    where
      returned_inv : (a b : Run) → ◌≡◌ {A = Flow Run} (returned a) (returned b) → a ≡ b
      returned_inv a b e = cc

  check_run_id-Identified :
      (code : ℕ) (data' : Fields) (t : Text) (run : Run)
      → check_run_id env code form uid round data' t ≡ returned run
      → Identified form uid round false run
  unfolding check_run_id
  check_run_id-Identified code data' t run h =
      let flag =
        required_boolean (get_or_null "idempotent_replay" data') fail_contract
          "idempotent_replay must be a boolean" in
      let next = check_replay env code form uid round data' t in
      let (good, rest) =
        require_inv (is_run_id t) (format_failure env) (and_then flag next) run h in
      let (replay, _, last) = and_then_inv flag next run rest in
      check_replay-Identified code data' t replay run good last

  check_started-Identified :
      (code : ℕ) (data' : Fields) (run : Run)
      → check_started env code form uid round data' ≡ returned run
      → Identified form uid round false run
  unfolding check_started check_form
  check_started-Identified code data' run h =
      let number =
        positive_int_or_failure env (get_or_null "form_id" data') fail_contract
          "start response is missing a positive form_id" in
      let name =
        non_empty_or_failure (get_or_null "pipeline_run_id" data') fail_contract
          "start response is missing pipeline_run_id" in
      let next = check_run_id env code form uid round data' in
      let (n, _, h1) = and_then_inv number (check_form env code form uid round data') run h in
      let (_, h2) =
        require_inv (n == form.form_id) (form_failure env) (and_then name next) run h1 in
      let (t, _, h3) = and_then_inv name next run h2 in check_run_id-Identified code data' t run h3

  parse_started_run_response-Identified :
      (answer : Answer) (log : List Event) (run : Run)
      → (parse_started_run_response env answer form uid round log).0 ≡ returned run
      → Identified form uid round false run
  unfolding parse_started_run_response
  parse_started_run_response-Identified answer log run =
      if_ind {A = Step Run} Returns (text_eq (strip uid) []) (λ _ h. cc)
        (λ _.
          if_ind {A = Step Run} Returns (round == 0) (λ _ h. cc)
            (λ _ h.
              let (data', _, checked) =
                and_then_inv (require_flow_data (200 ∷ 202 ∷ []) answer.status_code answer.body)
                  (check_started env answer.status_code form uid round) run
                  (flow_step_inv
                    (and_then (require_flow_data (200 ∷ 202 ∷ []) answer.status_code answer.body)
                      (check_started env answer.status_code form uid round))
                    log run h) in
              check_started-Identified answer.status_code data' run checked))
    where
      Returns : Step Run → Type 0
      Returns m = (m log).0 ≡ returned run → Identified form uid round false run

-- A run that `start_real_run` returns is of the form, the agent and the round that were given, its
-- pipeline run id has the documented format `combo-<number>-<16 hexadecimal digits>`, its agent
-- session is absent, an integer or a text that is not blank, and it is marked as an existing run
-- exactly when the start was answered with the conflict 409.
pub start_real_run-Identified :
    (env : Environment) (configured : Text) (form : Form) (agent_uid : Text)
    (feedback_id : Option ℕ) (force_fresh : Bool) (round : ℕ) (log : List Event) (run : Run)
    → (start_real_run env configured form agent_uid feedback_id force_fresh round log).0
      ≡ returned run
    → (answer : Answer) × ((start_real_run_request env configured form
          (select_uid agent_uid configured)
          feedback_id
          force_fresh
          round
          log).0
        ≡ returned answer)
      × Identified form (select_uid agent_uid configured) round (answer.status_code == 409) run
unfolding start_real_run
start_real_run-Identified env configured form agent_uid feedback_id force_fresh round log run h =
    let (answer, answered, rest) = go_on_inv sent decide run h in
    (
      answer,
      answered,
      elim (Bool-cases (answer.status_code == 409)) [
        | inl conflict ↦ rw conflict (
            recover_existing_run-Identified env form uid round answer sent.1 run
              (rw conflict at rest))
        | inr accepted ↦ rw accepted (
            parse_started_run_response-Identified env form uid round answer sent.1 run
              (rw accepted at rest))
      ],
    )
  where
    uid : Text
    uid = select_uid agent_uid configured

    sent : Outcome Failure Answer × List Event
    sent = start_real_run_request env configured form uid feedback_id force_fresh round log

    decide : Answer → Step Run
    decide answer =
        if answer.status_code == 409
        then recover_existing_run env answer form uid round
        else parse_started_run_response env answer form uid round
