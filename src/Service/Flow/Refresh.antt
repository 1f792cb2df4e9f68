-- ===== src/Service/Flow/Refresh.antt =====
-- service/factor_combo_refresh.py: `poll_performance_refresh` and `_validate_completed_refresh`. The
-- Performance API and the clock are outside: each call is logged, and a script answers it. Times
-- are whole numbers of some unit. `str()` of a value that is no string is the parameter `show`.
pub mod Completed
pub mod Judging
pub mod Polling
mod Examples
use quest_test.Prelude.{
  ℕ, zero, suc, ◌+◌, Bool, true, false, not, ◌&&◌, ◌||◌, Option, none, some, List, [], ◌∷◌, ◌++◌,
  any, all, map, ltb, leb, ◌==◌, if◌then◌else◌, String, Text, chars, text_eq, one_of, strip, lower,
  ℤ, pos, negsuc, max_zero, length,
}
use quest_test.Effect.{Outcome, returned, raised, Action, pure, raise, ◌>>=◌, ◌>>◌}
use quest_test.Json.{
  Value, null, bool, int, float, str, arr, obj, Items, bracket, element, Fields, get, get_or_null,
  as_items, as_fields,
}
use quest_test.Service.Flow.{
  FlowOutcome, fail_refresh, fail_technical, fail_contract, FlowError, failure, Flow, Response,
  request_exception, response, is_transient, require_flow_data,
}

-- The names of a factor array, if all its members are strings that are not blank.
unfoldable pub is_blank : Text → Bool
is_blank s = text_eq (strip s) []

abbrev pub keep_name : Bool → Text → Option (List Text) → Option (List Text)
keep_name false s (some names) = some (s ∷ names)
keep_name _ s _ = none

unfoldable pub factor_names : Items → Option (List Text)
unfolding is_blank
factor_names bracket = some []
factor_names (element (str s) items) =
    let rest = factor_names items in keep_name (is_blank s) s rest
factor_names (element v items) = none

-- `len(set(names)) != len(names)`
unfoldable pub has_duplicates : List Text → Bool
has_duplicates [] = false
has_duplicates (name ∷ names) = one_of names name || has_duplicates names

-- `set(completed).intersection(incomplete)`
unfoldable pub overlaps : List Text → List Text → Bool
overlaps completed incomplete = any (λ name. one_of incomplete name) completed

-- A count is an `int` that is no `bool` and not negative.
unfoldable pub count_of : Value → Option ℕ
count_of (int (pos n)) = some n
count_of v = none

pub record Counts : Type 0 where
  pub total : ℕ
  pub completed : ℕ
  pub skipped : ℕ
  pub failed : ℕ
  pub not_run : ℕ

abbrev pub counts_from : Option ℕ → Option ℕ → Option ℕ → Option ℕ → Option ℕ → Option Counts
counts_from (some t) (some c) (some s) (some f) (some n) =
    some (record { total = t; completed = c; skipped = s; failed = f; not_run = n })
counts_from _ _ _ _ _ = none

-- `for field_name in required_counts`
unfoldable pub read_counts : Fields → Option Counts
unfolding count_of
read_counts summary =
    counts_from (count_of (get_or_null "total_units" summary))
      (count_of (get_or_null "completed_units" summary))
      (count_of (get_or_null "skipped_window_count" summary))
      (count_of (get_or_null "failed_unit_count" summary))
      (count_of (get_or_null "not_run_unit_count" summary))

abbrev pub problems : Counts → ℕ
problems counts = counts.skipped + counts.failed + counts.not_run

abbrev pub reported_count : Option ℕ → ℕ → Flow ℕ
reported_count none calculated = raised (failure fail_contract "problem_unit_count must be a count")
reported_count (some n) calculated =
    if n == calculated
    then returned n
    else raised (failure fail_contract "problem_unit_count is inconsistent")

-- `problem_count`, reported or calculated
unfoldable pub problem_count : Option Value → ℕ → Flow ℕ
unfolding count_of
problem_count none calculated = returned calculated
problem_count (some v) calculated = reported_count (count_of v) calculated

-- `incomplete_factors` as a condition
abbrev pub is_empty : List Text → Bool
is_empty [] = true
is_empty (c ∷ cs) = false

unfoldable pub check_complete : Text → List Text → List Text → Counts → Flow ℕ → Flow (Unit {0})
check_complete name completed incomplete counts (raised e) = raised e
check_complete name completed incomplete counts (returned problem_count) =
    if not (one_of completed name)
      || not (is_empty incomplete)
      || not (counts.completed == counts.total)
      || not (problem_count == 0)
    then raised (failure fail_refresh "its factor or task units are incomplete")
    else returned tt

unfoldable pub check_counts :
    Text → List Text → List Text → Fields → Option Counts → Flow (Unit {0})
unfolding check_complete problem_count
check_counts name completed incomplete summary none =
    raised (failure fail_contract "a count must be a non-negative integer")
check_counts name completed incomplete summary (some counts) =
    if counts.total == 0
    then raised (failure fail_refresh "no task units")
    else if ltb counts.total counts.completed
    then raised (failure fail_contract "completed_units cannot exceed total_units")
    else check_complete name completed incomplete counts
        (problem_count (get "problem_unit_count" summary) (problems counts))

unfoldable pub check_names :
    Text → Option (List Text) → Option (List Text) → Fields → Flow (Unit {0})
unfolding has_duplicates overlaps check_counts read_counts
check_names name (some completed) (some incomplete) summary =
    if has_duplicates completed || has_duplicates incomplete
    then raised (failure fail_contract "duplicate names")
    else if overlaps completed incomplete
    then raised (failure fail_contract "the factor arrays overlap")
    else check_counts name completed incomplete summary (read_counts summary)
check_names name _ _ summary = raised (failure fail_contract "factor arrays must contain names")

unfoldable pub check_shape : Text → Option Items → Option Items → Option Fields → Flow (Unit {0})
unfolding check_names factor_names
check_shape name (some completed) (some incomplete) (some summary) =
    check_names name (factor_names completed) (factor_names incomplete) summary
check_shape name _ _ _ = raised (failure fail_contract "factor arrays and a summary object")

-- `_validate_completed_refresh`
unfoldable pub validate_completed_refresh : Fields → Text → Flow (Unit {0})
unfolding check_shape as_items as_fields
validate_completed_refresh data' expected_factor_name =
    check_shape expected_factor_name (as_items (get_or_null "completed_factors" data'))
      (as_items (get_or_null "incomplete_factors" data')) (as_fields (get_or_null "summary" data'))

pub record RefreshSettings : Type 0 where
  pub max_refresh_polls : ℤ
  pub refresh_poll_interval : ℤ
  pub refresh_poll_timeout : ℤ

pub record RefreshResult : Type 0 where
  pub task_id : Text
  pub poll_count : ℕ
  pub data' : Fields

-- The only requests are the reads of a run.
pub data Event : Type 0 where
  read_clock : Event
  get_refresh_run : Text → Event
  sleep : ℕ → Event

pub record World : Type 0 where
  pub log : List Event
  pub clock : ℕ → ℕ
  pub answers : ℕ → Response

abbrev pub Poll : Type 0 → Type 0
Poll A = Action World FlowError A

-- `time.monotonic()`
unfoldable pub monotonic : Poll ℕ
monotonic w = (returned (w.clock (length w.log)), record w { log = w.log ++ (read_clock ∷ []) })

unfoldable pub request_run : Text → Poll Response
request_run task_id w = (
  returned (w.answers (length w.log)),
  record w { log = w.log ++ (get_refresh_run task_id ∷ []) },
)

-- `if poll_interval > 0: time.sleep(poll_interval)`
unfoldable pub sleep_interval : ℕ → Poll (Unit {0})
sleep_interval zero w = (returned tt, w)
sleep_interval (suc n) w = (returned tt, record w { log = w.log ++ (sleep (suc n) ∷ []) })

-- What one answer leads to: another poll, after a transport error or not, or the end.
pub data Verdict : Type 0 where
  again : Bool → Verdict
  stop : FlowError → Verdict
  accept : Fields → Verdict

unfoldable pub is_active : Text → Bool
is_active = one_of (chars "queued" ∷ chars "running" ∷ chars "submitted" ∷ [])

unfoldable pub is_failed : Text → Bool
is_failed = one_of (chars "partial" ∷ chars "failed" ∷ chars "unknown" ∷ [])

abbrev pub accept_if : Fields → Flow (Unit {0}) → Verdict
accept_if data' (returned u) = accept data'
accept_if data' (raised e) = stop e

unfoldable pub judge_status : Text → Fields → Text → Verdict
unfolding is_active is_failed
judge_status name data' status =
    if text_eq status []
    then stop (failure fail_contract "the response is missing status")
    else if is_active status
    then again false
    else if is_failed status
    then stop (failure fail_refresh "Performance Refresh did not complete")
    else if text_eq status (chars "completed")
    then accept_if data' (validate_completed_refresh data' name)
    else stop (failure fail_contract "Performance Refresh returned unknown status")

pub data Refusal : Type 0 where
  blank_argument : Refusal
  flow_error : FlowError → Refusal

-- After the loop.
abbrev pub timed_out : Bool → FlowError
timed_out transport =
    failure (if transport then fail_technical else fail_refresh)
      "polling timed out or exceeded max_refresh_polls"

module _ (show : Value → Text) where
  unfoldable pub text_or_empty : Option Value → Text
  text_or_empty none = []
  text_or_empty (some (str s)) = s
  text_or_empty (some v) = show v

  unfoldable pub judge_data : Text → Text → Flow Fields → Verdict
  unfolding text_or_empty judge_status
  judge_data task_id name (raised e) = stop e
  judge_data task_id name (returned data') =
      if not (text_eq (strip (text_or_empty (get "task_id" data'))) task_id)
      then stop (failure fail_contract "the response task_id does not match the requested task")
      else judge_status name data' (lower (strip (text_or_empty (get "status" data'))))

  unfoldable pub judge : Text → Text → Response → Verdict
  unfolding judge_data is_transient
  judge task_id name request_exception = again true
  judge task_id name (response code body) =
      if code == 200
      then judge_data task_id name (require_flow_data (200 ∷ []) code body)
      else if is_transient code
      then again true
      else if any (λ c. code == c) (400 ∷ 401 ∷ 403 ∷ 422 ∷ [])
      then stop (failure fail_contract "Performance Refresh query was refused")
      else stop (failure fail_refresh "Performance Refresh query failed")

  unfoldable pub wait_then :
      (interval deadline left : ℕ) (transport : Bool) → Poll RefreshResult → Poll RefreshResult
  unfolding monotonic sleep_interval
  wait_then interval deadline zero transport loop = raise (timed_out transport)
  wait_then interval deadline (suc left) transport loop = do
    now ← monotonic
    if ltb deadline (now + interval)
        then raise (timed_out transport)
        else (sleep_interval interval >> loop)

  unfoldable pub follow :
      (task_id : Text) (interval deadline left poll_count : ℕ)
      → (Bool → Poll RefreshResult)
      → Verdict
      → Poll RefreshResult
  unfolding wait_then
  follow task_id interval deadline left poll_count loop (again transport) =
      wait_then interval deadline left transport (loop transport)
  follow task_id interval deadline left poll_count loop (stop e) = raise e
  follow task_id interval deadline left poll_count loop (accept data') =
      pure (record { task_id = task_id; poll_count = poll_count; data' = data' })

  -- The `while` loop, by the number of polls that are left.
  unfoldable pub poll_loop :
      (task_id name : Text) (interval deadline left poll_count : ℕ) (transport : Bool)
      → Poll RefreshResult
  unfolding follow request_run judge monotonic
  poll_loop task_id name interval deadline zero poll_count transport = raise (timed_out transport)
  poll_loop task_id name interval deadline (suc left) poll_count transport =
      let loop = poll_loop task_id name interval deadline left (poll_count + 1) in
      do
        now ← monotonic
        if ltb deadline now then raise (timed_out transport) else do
          answer ← request_run task_id
          follow task_id interval deadline left (poll_count + 1) loop (judge task_id name answer)

  unfoldable pub start_polling :
      (task_id name : Text) (max_polls interval timeout : ℕ) → Poll RefreshResult
  unfolding poll_loop
  start_polling task_id name zero interval timeout =
      raise (failure fail_contract "max_refresh_polls must be a positive integer")
  start_polling task_id name (suc left) interval timeout = do
    started ← monotonic
    poll_loop task_id name interval (started + timeout) (suc left) 0 false

  abbrev pub refuse : {A : Type 0} → Outcome FlowError A × World → Outcome Refusal A × World
  refuse (returned a, w) = (returned a, w)
  refuse (raised e, w) = (raised (flow_error e), w)

  -- `poll_performance_refresh`, with a Performance API configured
  unfoldable pub poll_performance_refresh :
      RefreshSettings → (task_id expected_factor_name : Text) → Action World Refusal RefreshResult
  unfolding start_polling
  poll_performance_refresh settings task_id expected_factor_name w =
      if text_eq (strip task_id) [] || text_eq (strip expected_factor_name) []
      then (raised blank_argument, w)
      else refuse (
          start_polling (strip task_id) (strip expected_factor_name)
            (max_zero settings.max_refresh_polls) (max_zero settings.refresh_poll_interval)
            (max_zero settings.refresh_poll_timeout) w)
