-- ===== src/Service/Research/Concluding.antt =====
-- The two ends of the research flow: a registration and a result that is not registered.
use quest_test.Prelude.{
  ℕ, ◌≤◌, ◌≡◌, refl, sym, ap, ◌∙◌, subst, Bool, true, false, ◌&&◌, not, if_ind, String, List, [],
  ◌∷◌, ◌++◌, append_assoc, arith,
}
use quest_test.Effect.{Outcome, returned, raised, ◌>>=◌, go_on}
use quest_test.Json.{Value, null, bool, int, float, str, arr, obj, get_or_null}
use quest_test.Service.Flow.{
  FlowOutcome, pass_registered, pass_invalid, fail_contract, Flow, required_boolean,
  has_registration_validity,
}
use quest_test.Service.Research.{
  Form, ResearchSettings, Failure, Event, release_form, register_result, Environment, Step,
  flow_step, record_event, register_real_result,
}
use quest_test.Service.Research.Agents.{AgentSelection}
use quest_test.Service.Research.Rounds.{
  Finished, Round, FlowResult, flow_result, register_round, stop_round, review_flag,
}
use quest_test.Service.Research.Matching.{Matches}
use quest_test.Service.Research.Accepted.{Accepted}
use quest_test.Service.Research.Spending.{total-++}
use quest_test.Service.Research.Counting.{weight}
use quest_test.Service.Research.Endings.{registrations}

-- A verdict on a result, and the calls that end the flow.
pub data Verdict (env : Environment) (form_id : ℕ) (before : List Event) (r : FlowResult)
    (after : List Event) : Type 0 where
  registered_verdict :
      r.outcome ≡ pass_registered
      → get_or_null "experiment_valid" r.last_result.review ≡ bool true
      → get_or_null "registration_ready" r.last_result.review ≡ bool true
      → has_registration_validity r.last_result.validity ≡ true
      → Matches env r.last_result.run r.last_result.raw_data
      → (earlier : List Event)
      → after
        ≡ earlier
          ++ (register_result form_id r.last_result.run.pipeline_run_id ∷ release_form form_id ∷ [])
      → Verdict env form_id before r after
  invalid_verdict :
      r.outcome ≡ pass_invalid
      → (valid ready : Bool) → get_or_null "experiment_valid" r.last_result.review ≡ bool valid
      → get_or_null "registration_ready" r.last_result.review ≡ bool ready
      → (valid && ready) ≡ false
      → Matches env r.last_result.run r.last_result.raw_data
      → registrations after ≤ registrations before
      → (earlier : List Event) → after ≡ earlier ++ (release_form form_id ∷ [])
      → Verdict env form_id before r after

module _ (env : Environment) (settings : ResearchSettings) (fuel : ℕ) (form : Form)
    (before : List Event) where
  abbrev pub Concludes : Outcome Failure FlowResult × List Event → Type 0
  Concludes x = (r : FlowResult) → x.0 ≡ returned r → Verdict env form.form_id before r x.1

  abbrev pub Unregistered : List Event → Type 0
  Unregistered log = registrations log ≤ registrations before

  returned_inv :
      (a b : FlowResult) → ◌≡◌ {A = Outcome Failure FlowResult} (returned a) (returned b) → a ≡ b
  returned_inv a b h = cc

  pub go_on-Concludes :
      {A : Type 0} (x : Outcome Failure A × List Event) (f : A → Step FlowResult)
      → ((a : A) → x.0 ≡ returned a → Concludes (f a x.1))
      → Concludes (go_on x f)
  go_on-Concludes (returned a, log) f next = next a refl
  go_on-Concludes (raised e, log) f next = λ r h. cc

  pub flow-Concludes :
      {A : Type 0} (m : Flow A) (log : List Event) (f : A → Step FlowResult)
      → ((a : A) → m ≡ returned a → Concludes (f a log))
      → Concludes (go_on (flow_step m log) f)
  flow-Concludes (returned a) log f next = next a refl
  flow-Concludes (raised e) log f next = λ r h. cc

  required_boolean_inv :
      (v : Value) (outcome : FlowOutcome) (message : String) (b : Bool)
      → required_boolean v outcome message ≡ returned b
      → v ≡ bool b
  unfolding required_boolean
  required_boolean_inv (bool c) outcome message b h = cc
  required_boolean_inv null outcome message b h = cc
  required_boolean_inv (int n) outcome message b h = cc
  required_boolean_inv (float t) outcome message b h = cc
  required_boolean_inv (str t) outcome message b h = cc
  required_boolean_inv (arr a) outcome message b h = cc
  required_boolean_inv (obj o) outcome message b h = cc

  -- What the review of a finished round says.
  abbrev pub Says : String → Finished → Bool → Type 0
  Says name done b = get_or_null name done.result.review ≡ bool b

  pub review_flag_inv :
      (name : String) (done : Finished) (b : Bool)
      → review_flag env name done ≡ returned b
      → Says name done b
  unfolding review_flag
  review_flag_inv name done b h = required_boolean_inv _ fail_contract _ b h

  result-Matches :
      (done : Finished)
      → Accepted env done.run done.result
      → Matches env done.result.run done.result.raw_data
  result-Matches done sound =
      subst (λ x. Matches env x done.result.raw_data) (sym sound.of_run) sound.matches

  registration_end :
      (agent : AgentSelection) (rounds : List Round) (round : ℕ) (done : Finished)
      (log : List Event) (o : Outcome Failure (Unit {0}))
      → Accepted env done.run done.result
      → Says "experiment_valid" done true
      → Says "registration_ready" done true
      → has_registration_validity done.result.validity ≡ true
      → Concludes (
          go_on
            (o, log ++ (register_result form.form_id done.run.pipeline_run_id ∷ []))
            (λ _. record_event (release_form form.form_id) >>= λ _ l.
              (returned (flow_result env pass_registered agent rounds round done), l)))
  registration_end agent rounds round done log (returned u) sound valid ready dimension r h =
      subst
        (λ x.
          Verdict env form.form_id before x (registered_log ++ (release_form form.form_id ∷ [])))
        (returned_inv _ r h)
        (registered_verdict refl valid ready dimension (result-Matches done sound) log (
          append_assoc log (register_result form.form_id done.run.pipeline_run_id ∷ [])
            (release_form form.form_id ∷ [])
          ∙ ap
              (λ x.
                log
                ++ (register_result form.form_id x.pipeline_run_id
                    ∷ release_form form.form_id
                    ∷ []))
              (sym sound.of_run)))
    where
      registered_log : List Event
      registered_log = log ++ (register_result form.form_id done.run.pipeline_run_id ∷ [])
  registration_end agent rounds round done log (raised e) sound valid ready dimension r h = cc

  pub register_round-Concludes :
      (agent : AgentSelection) (rounds : List Round) (round : ℕ) (done : Finished)
      (log : List Event)
      → Accepted env done.run done.result
      → Says "experiment_valid" done true
      → Says "registration_ready" done true
      → Concludes (register_round env form agent rounds round done log)
  unfolding register_round register_real_result
  register_round-Concludes agent rounds round done log sound valid ready =
      if_ind {A = Step FlowResult} (λ m. Concludes (m log))
        (not (has_registration_validity done.result.validity)) (λ _ r h. cc)
        (λ dimension.
          registration_end agent rounds round done log _ sound valid ready
            (ground (arith, dimension)))

  pub stop_round-Concludes :
      (agent : AgentSelection) (rounds : List Round) (round : ℕ) (done : Finished)
      (log : List Event) (valid ready : Bool)
      → Accepted env done.run done.result
      → Says "experiment_valid" done valid
      → Says "registration_ready" done ready
      → (valid && ready) ≡ false
      → Unregistered log
      → Concludes (stop_round env form agent rounds round done log)
  unfolding stop_round
  stop_round-Concludes agent rounds round done log valid ready sound v w unfit few r h =
      subst (λ x. Verdict env form.form_id before x (log ++ (release_form form.form_id ∷ [])))
        (returned_inv _ r h)
        (invalid_verdict refl valid ready v w unfit (result-Matches done sound)
          (omega (
            arith,
            few,
            total-++ (weight 0 0 1) (λ e. Unit {0}) log (release_form form.form_id ∷ []),
          ))
          log refl)
