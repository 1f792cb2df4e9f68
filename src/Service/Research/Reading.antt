-- ===== src/Service/Research/Reading.antt =====
-- What `read_real_pipeline_result` returns.
use quest_test.Prelude.{◌≡◌, refl, ℤ, List}
use quest_test.Effect.{returned}
use quest_test.Json.{Value, null, bool, int, float, str, arr, obj, Fields, get, get_or_null}
use quest_test.Service.Flow.{and_then, and_then_inv, fail_contract}
use quest_test.Service.Research.{Run, PipelineResult, ResearchSettings, Event, Environment}
use quest_test.Service.Research.Values.{non_empty_or_failure}
use quest_test.Service.Research.Results.{
  optional_text, check_combo, check_components, check_performance, validate_report,
  read_real_pipeline_result,
}
use quest_test.Service.Research.Measured.{Judged, validate_performance-Judged}
use quest_test.Service.Research.Accepted.{Accepted, read-Yields}

module _ (env : Environment) where
  -- A report with a performance that was judged.
  abbrev pub HasPerformance : Fields → Type 0
  HasPerformance report = (p : Fields) × (get_or_null "performance" report ≡ obj p) × Judged env p

  check_performance-HasPerformance :
      (report : Fields) (v : Value)
      → get_or_null "performance" report ≡ v
      → check_performance env v ≡ returned tt
      → HasPerformance report
  check_performance-HasPerformance report (obj p) found h =
      (p, found, validate_performance-Judged env p h)
  check_performance-HasPerformance report null found h = cc
  check_performance-HasPerformance report (bool b) found h = cc
  check_performance-HasPerformance report (int n) found h = cc
  check_performance-HasPerformance report (float t) found h = cc
  check_performance-HasPerformance report (str t) found h = cc
  check_performance-HasPerformance report (arr a) found h = cc

  validate_report-HasPerformance :
      (report : Fields) → validate_report env report ≡ returned tt → HasPerformance report
  unfolding validate_report
  validate_report-HasPerformance report h =
      let performance = check_performance env (get_or_null "performance" report) in
      let components =
        and_then (check_components env (get "components" report)) (λ _. performance) in
      let combo = and_then (check_combo env (get_or_null "combo" report)) (λ _. components) in
      let formula = and_then (optional_text (get "formula" report)) (λ _. combo) in
      let number = and_then (optional_text (get "report_no" report)) (λ _. formula) in
      let (_, _, h1) =
        and_then_inv
          (non_empty_or_failure (get_or_null "factor_name" report) fail_contract
            "factor_name is missing or blank")
          (λ _. number) tt h in
      let (_, _, h2) = and_then_inv (optional_text (get "report_no" report)) (λ _. formula) tt h1 in
      let (_, _, h3) = and_then_inv (optional_text (get "formula" report)) (λ _. combo) tt h2 in
      let (_, _, h4) =
        and_then_inv (check_combo env (get_or_null "combo" report)) (λ _. components) tt h3 in
      let (_, _, h5) =
        and_then_inv (check_components env (get "components" report)) (λ _. performance) tt h4 in
      check_performance-HasPerformance report (get_or_null "performance" report) refl h5

-- A result that `read_real_pipeline_result` returns is of the run that was given: its data name that
-- run's form and pipeline run. Its report and review pass their validation, and the report has a
-- performance: either its metrics are `unavailable` and it gives no metric, or each metric that a
-- measured performance of its mode needs, and one of the two rates, is a finite number, and the
-- metrics keep the documented ranges and minimums.
pub read_real_pipeline_result-Accepted :
    (env : Environment) (settings : ResearchSettings) (max_retries : ℤ) (run : Run)
    (log : List Event) (result : PipelineResult)
    → (read_real_pipeline_result env settings max_retries run log).0 ≡ returned result
    → Accepted env run result × HasPerformance env result.report
read_real_pipeline_result-Accepted env settings max_retries run log result h =
    let accepted = read-Yields env settings max_retries run log result h in
    (accepted, validate_report-HasPerformance env result.report accepted.reported)
