-- ===== src/Service/Research/Started.antt =====
-- What starting a run does to the protection of its form, and which runs it returns.
use quest_test.Prelude.{
  ℕ, suc, ◌≡◌, refl, sym, ap, ◌∙◌, subst, ◌⊎◌, inl, inr, Bool, true, false, ◌||◌, not,
  if◌then◌else◌, Bool-cases, Option, Text, text_eq, ◌==◌, ==_refl, List, [], ◌∷◌, ◌++◌,
  append_assoc, length, length-append, arith, append-nil,
}
use quest_test.Effect.{Outcome, raised, go_on}
use quest_test.Service.Flow.{Response, request_exception, response}
use quest_test.Service.Research.{
  Form, StartPayload, Failure, Event, read_clock, sleep, protect_form, release_form, get_form,
  list_agents, start_run, get_run_status, get_run_result, submit_feedback, register_result,
  Environment, Answer, call_flow_request, request, value_error, runtime_error,
}
use quest_test.Service.Research.Starting.{
  is_no_feedback_id, is_rejected, release_rejected, post_start, select_uid, start_real_run_request,
}

-- Whether a form is protected after the calls of a log, in order; `before` says whether it was.
abbrev pub protection : (form_id : ℕ) → (before : Bool) → List Event → Bool
protection n before [] = before
protection n before (protect_form m ∷ es) = protection n (if n == m then true else before) es
protection n before (release_form m ∷ es) = protection n (if n == m then false else before) es
protection n before (e ∷ es) = protection n before es

pub protection-++ :
    (n : ℕ) (es fs : List Event) (before : Bool)
    → protection n before (es ++ fs) ≡ protection n (protection n before es) fs
protection-++ n [] fs before = refl
protection-++ n (protect_form m ∷ es) fs before = protection-++ n es fs _
protection-++ n (release_form m ∷ es) fs before = protection-++ n es fs _
protection-++ n (read_clock ∷ es) fs before = protection-++ n es fs before
protection-++ n (sleep m ∷ es) fs before = protection-++ n es fs before
protection-++ n (get_form m ∷ es) fs before = protection-++ n es fs before
protection-++ n (list_agents m ∷ es) fs before = protection-++ n es fs before
protection-++ n (start_run m p ∷ es) fs before = protection-++ n es fs before
protection-++ n (get_run_status m t ∷ es) fs before = protection-++ n es fs before
protection-++ n (get_run_result m t ∷ es) fs before = protection-++ n es fs before
protection-++ n (submit_feedback m t ∷ es) fs before = protection-++ n es fs before
protection-++ n (register_result m t ∷ es) fs before = protection-++ n es fs before

-- An answer that says that no run was started: a 4xx that is no conflict.
abbrev pub refuses : Response → Bool
refuses request_exception = false
refuses (response code body) = is_rejected code

abbrev pub release_if : Bool → ℕ → List Event
release_if true form_id = release_form form_id ∷ []
release_if false form_id = []

module _ (env : Environment) (form : Form) where
  -- The answer to the request, which is the second call.
  abbrev pub start_answer : List Event → Response
  start_answer log = env.answers (suc (length log))

  -- The form was protected, then the request was posted, and the form is released only if the answer
  -- refuses.
  pub record Posted (payload : StartPayload) (log : List Event)
      (r : Outcome Failure Answer × List Event) : Type 0 where
    pub calls :
        r.1
        ≡ log
          ++ (protect_form form.form_id
              ∷ start_run form.form_id payload
              ∷ release_if (refuses (start_answer log)) form.form_id)
    pub answered : r.0 ≡ call_flow_request (start_answer log)
    pub kept :
        (before : Bool) → protection form.form_id before r.1 ≡ not (refuses (start_answer log))

  protect_then :
      (payload : StartPayload) (before refused : Bool) (log : List Event)
      → protection form.form_id before (
          log
          ++ (protect_form form.form_id
              ∷ start_run form.form_id payload
              ∷ release_if refused form.form_id))
        ≡ not refused
  protect_then payload before true log =
      rw (protection-++ form.form_id log _ before, ==_refl form.form_id) refl
  protect_then payload before false log =
      rw (protection-++ form.form_id log _ before, ==_refl form.form_id) refl

  -- The rest of the request, once it is answered.
  finish : Response → List Event → Outcome Failure Answer × List Event
  finish answer log = go_on (call_flow_request answer, log) (release_rejected env form)

  finish_calls :
      (answer : Response) (log : List Event)
      → finish answer log
        ≡ (call_flow_request answer, log ++ release_if (refuses answer) form.form_id)
  unfolding finish call_flow_request release_rejected is_rejected
  finish_calls request_exception log = rw (append-nil log) refl
  finish_calls (response code body) log = elim (Bool-cases (is_rejected code)) [
    | inl refused ↦ rw refused refl
    | inr fine ↦ rw fine (rw (append-nil log) refl)
  ]

  post_start_calls :
      (payload : StartPayload) (log : List Event)
      → post_start env form payload log ≡ (
        call_flow_request (start_answer log),
        log
            ++ (protect_form form.form_id
                ∷ start_run form.form_id payload
                ∷ release_if (refuses (start_answer log)) form.form_id),
      )
  unfolding post_start request finish
  post_start_calls payload log =
      finish_calls (env.answers (length protected)) (protected ++ posted)
      ∙ ap
          (λ n. (
            call_flow_request (env.answers n),
            (protected ++ posted) ++ release_if (refuses (env.answers n)) form.form_id,
          ))
          one_more
      ∙ ap (λ l. (call_flow_request (start_answer log), l))
          (append_assoc protected posted _ ∙ append_assoc log (protect_form form.form_id ∷ []) _)
    where
      protected : List Event
      protected = log ++ (protect_form form.form_id ∷ [])

      posted : List Event
      posted = start_run form.form_id payload ∷ []

      one_more : length (log ++ (protect_form form.form_id ∷ [])) ≡ suc (length log)
      one_more = omega (arith, length-append log (protect_form form.form_id ∷ []))

  post_start-Posted :
      (payload : StartPayload) (log : List Event)
      → Posted payload log (post_start env form payload log)
  post_start-Posted payload log =
      subst (Posted payload log) (sym (post_start_calls payload log)) (record {
        calls = refl;
        answered = refl;
        kept = λ before. protect_then payload before (refuses (start_answer log)) log;
      })

-- The arguments that the guards refuse.
abbrev pub bad_arguments : (configured agent_uid : Text) → Option ℕ → ℕ → Bool
bad_arguments configured agent_uid feedback_id research_round =
    text_eq (select_uid agent_uid configured) []
    || (research_round == 0 || is_no_feedback_id feedback_id)

-- With a blank agent, the round zero or a feedback id that is zero, `start_real_run_request` raises
-- and calls nothing. Otherwise it first protects the form and then posts one request. It releases the
-- form only when the answer is a 4xx other than a conflict, so that whatever else comes back, a
-- network error, a 5xx, a conflict or a success, the form stays protected from the cleanup.
pub start_real_run_request-Posted :
    (env : Environment) (configured : Text) (form : Form) (agent_uid : Text)
    (feedback_id : Option ℕ) (force_fresh : Bool) (research_round : ℕ) (log : List Event)
    → ((bad_arguments configured agent_uid feedback_id research_round ≡ true)
        × ((e : Failure) × (start_real_run_request env configured form agent_uid feedback_id
                force_fresh research_round log
              ≡ (raised e, log))))
      ⊎ ((bad_arguments configured agent_uid feedback_id research_round ≡ false)
          × Posted env form
              (record {
                agent_uid = select_uid agent_uid configured;
                force_fresh_pipeline_run = force_fresh;
                feedback_id = feedback_id;
              })
              log
              (start_real_run_request env configured form agent_uid feedback_id force_fresh
                research_round log))
unfolding start_real_run_request
start_real_run_request-Posted env configured form agent_uid feedback_id force_fresh round log =
    elim (Bool-cases (text_eq (select_uid agent_uid configured) [])) [
      | inl blank ↦ rw blank (inl (refl, (runtime_error, refl)))
      | inr uid ↦ elim (Bool-cases (round == 0)) [
        | inl none_left ↦ rw (uid, none_left) (inl (refl, (value_error, refl)))
        | inr positive ↦ elim (Bool-cases (is_no_feedback_id feedback_id)) [
          | inl bad ↦ rw (uid, positive, bad) (inl (refl, (value_error, refl)))
          | inr good ↦ rw (uid, positive, good) (inr (refl, post_start-Posted env form _ log))
        ]
      ]
    ]
