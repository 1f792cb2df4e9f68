-- ===== src/Service/Flow/Refresh/Examples.antt =====
-- Polling of small runs.
use quest_test.Prelude.{◌≡◌, refl, [], true, Text, chars, pos, ◌==◌, if◌then◌else◌}
use quest_test.Effect.{returned}
use quest_test.Json.{Value, bool, int, str, arr, obj, Items, bracket, element, Fields, brace, field}
use quest_test.Service.Flow.{Response, response}
use quest_test.Service.Flow.Refresh.{
  RefreshSettings, World, poll_performance_refresh, validate_completed_refresh,
}
use quest_test.Service.Flow.Refresh.Completed.{Complete, validate_completed_refresh-Complete}
use quest_test.Service.Flow.Refresh.Polling.{Polled, poll_performance_refresh-Polled}

abbrev factor_name : Text
factor_name = chars "f1"

abbrev summary : Fields
summary = field "total_units" (int (pos 2)) (
    field "completed_units" (int (pos 2)) (
      field "skipped_window_count" (int (pos 0))
        (field "failed_unit_count" (int (pos 0)) (field "not_run_unit_count" (int (pos 0)) brace))))

abbrev finished : Fields
finished = field "task_id" (str (chars "t")) (
    field "status" (str (chars "Completed")) (
      field "completed_factors" (arr (element (str factor_name) bracket))
        (field "incomplete_factors" (arr bracket) (field "summary" (obj summary) brace))))

abbrev running : Fields
running = field "task_id" (str (chars "t")) (field "status" (str (chars "running")) brace)

abbrev envelope : Fields → Response
envelope data' = response 200 (obj (field "success" (bool true) (field "data" (obj data') brace)))

abbrev settings : RefreshSettings
settings = record {
  max_refresh_polls = pos 5;
  refresh_poll_interval = pos 1;
  refresh_poll_timeout = pos 100;
}

-- The first read finds the task running, later ones find it finished.
abbrev world : World
world = record {
  log = [];
  clock = λ n. n;
  answers = λ n. if n == 2 then envelope running else envelope finished;
}

abbrev show : Value → Text
show v = chars "None"

finished_at_once : poll_performance_refresh show settings (chars " t ") factor_name world ≡ (
  returned (record { task_id = chars "t"; poll_count = 2; data' = finished }),
  record world {
    log = (poll_performance_refresh show settings (chars " t ") factor_name world).1.log;
  },
)
unfolding poll_performance_refresh quest_test.Service.Flow.require_flow_data
    quest_test.Json.get_or_null quest_test.Json.get validate_completed_refresh
finished_at_once = refl

poll_performance_refresh-Polled_example :
    Polled show settings
      (chars " t ")
      factor_name
      0
      (poll_performance_refresh show settings (chars " t ") factor_name world)
poll_performance_refresh-Polled_example =
    poll_performance_refresh-Polled show settings (chars " t ") factor_name world

validate_finished : validate_completed_refresh finished factor_name ≡ returned tt
unfolding validate_completed_refresh quest_test.Json.get_or_null quest_test.Json.get
validate_finished = refl

validate_completed_refresh-Complete_example : Complete finished factor_name
validate_completed_refresh-Complete_example =
    validate_completed_refresh-Complete finished factor_name validate_finished
