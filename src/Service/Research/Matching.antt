-- ===== src/Service/Research/Matching.antt =====
-- The checks that the data of a response belong to a run.
use quest_test.Prelude.{
  ℕ, ◌≡◌, ap, subst, ◌∙◌, Option, none, some, String, Text, text_eq, text_eq_sound, ◌==◌, ==_iff,
  List, [], ◌∷◌,
}
use quest_test.Effect.{returned, go_on_inv}
use quest_test.Json.{Value, Fields, get_or_null}
use quest_test.Service.Flow.{
  FlowOutcome, fail_contract, Flow, and_then_inv, require_inv, require_flow_data,
}
use quest_test.Service.Research.{Run, Event, get_run_status, Environment, flow_step_inv, request}
use quest_test.Service.Research.Values.{
  positive_int, positive_int_or_failure, some_or_failure, non_empty, non_empty_or_failure,
}
use quest_test.Service.Research.Watching.{
  require_id, require_run_id, validate_run_identity, check_status, read_real_run_status,
}

some_or_failure_inv :
    {A : Type 0} (o : Option A) (outcome : FlowOutcome) (message : String) (a : A)
    → some_or_failure o outcome message ≡ returned a
    → o ≡ some a
some_or_failure_inv (some b) outcome message a h = cc
some_or_failure_inv none outcome message a h = cc

module _ (env : Environment) where
  pub require_id_inv :
      {A : Type 0} (v : Value) (expected : ℕ) (next : Flow A) (a : A)
      → require_id env v expected next ≡ returned a
      → (positive_int env v ≡ some expected) × (next ≡ returned a)
  unfolding require_id
  require_id_inv v expected next a h =
      let (n, found, rest) = and_then_inv (positive_int_or_failure env v fail_contract _) _ a h in
      let (same, goes_on) = require_inv (n == expected) _ next a rest in
      (
        some_or_failure_inv (positive_int env v) fail_contract _ n found
            ∙ ap some ((==_iff n expected).0 same),
        goes_on,
      )

  pub require_run_id_inv :
      {A : Type 0} (v : Value) (expected : Text) (next : Flow A) (a : A)
      → require_run_id env v expected next ≡ returned a
      → (non_empty v ≡ some expected) × (next ≡ returned a)
  unfolding require_run_id
  require_run_id_inv v expected next a h =
      let (t, found, rest) = and_then_inv (non_empty_or_failure v fail_contract _) _ a h in
      let (same, goes_on) = require_inv (text_eq t expected) _ next a rest in
      (
        some_or_failure_inv (non_empty v) fail_contract _ t found
            ∙ ap some (text_eq_sound t expected same),
        goes_on,
      )

  -- The data name the form and the pipeline run of `run`.
  pub record Matches (run : Run) (data' : Fields) : Type 0 where
    pub same_form : positive_int env (get_or_null "form_id" data') ≡ some run.form.form_id
    pub same_run : non_empty (get_or_null "pipeline_run_id" data') ≡ some run.pipeline_run_id

  returned_inv : {A : Type 0} (x y : A) → ◌≡◌ {A = Flow A} (returned x) (returned y) → x ≡ y
  returned_inv x y h = cc

  check_status-Matches :
      (run : Run) (given data' : Fields)
      → check_status env run given ≡ returned data'
      → Matches run data'
  unfolding check_status
  check_status-Matches run given data' h =
      let (form, rest) = require_id_inv (get_or_null "form_id" given) run.form.form_id _ data' h in
      let (id, more) =
        require_run_id_inv (get_or_null "pipeline_run_id" given) run.pipeline_run_id _ data' rest in
      let (blank, last) = require_inv _ _ (returned given) data' more in
      subst (Matches run) (returned_inv given data' last)
        (record { same_form = form; same_run = id })

  pub read_real_run_status-Matches :
      (run : Run) (log : List Event) (data' : Fields)
      → (read_real_run_status env run log).0 ≡ returned data'
      → Matches run data'
  unfolding read_real_run_status
  read_real_run_status-Matches run log data' h =
      let (u, _, rest) = go_on_inv (validate_run_identity env run log) _ data' h in
      let (answer, _, last) =
        go_on_inv
          (request env (get_run_status run.form.form_id run.pipeline_run_id)
            (validate_run_identity env run log).1)
          _ data' rest in
      let (given, _, checked) =
        and_then_inv (require_flow_data (200 ∷ []) answer.status_code answer.body)
          (check_status env run) data' (flow_step_inv _ _ data' last) in
      check_status-Matches run given data' checked
