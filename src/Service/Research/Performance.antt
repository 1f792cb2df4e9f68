-- ===== src/Service/Research/Performance.antt =====
-- service/factor_combo_service.py: the check of the performance in a report.
use quest_test.Prelude.{
  Bool, true, false, not, ◌&&◌, ◌||◌, if◌then◌else◌, Option, none, some, String, str_eq, text_eq,
  chars, strip, any, all, leb, ℤ, pos, negsuc, List, [], ◌∷◌, ◌++◌,
}
use quest_test.Effect.{returned}
use quest_test.Json.{
  Value, null, int, float, str, arr, Items, element, bracket, Fields, field, brace, get,
}
use quest_test.Service.Flow.{failure, fail_contract, Flow, require}
use quest_test.Service.Research.{Environment}

-- `_PERFORMANCE_REQUIRED_NUMERIC_FIELDS`
abbrev pub required_metrics : List String
required_metrics =
    "ts_ic" ∷ "return_rate" ∷ "out_of_sample_icir" ∷ "net_sharpe" ∷ "max_drawdown"
    ∷ "annual_turnover" ∷ []

-- `_PERFORMANCE_COMPATIBILITY_RATE_FIELDS`
abbrev pub rate_metrics : List String
rate_metrics = "positive_return_rate" ∷ "rolling_oos_win_rate" ∷ []

-- `_PERFORMANCE_OPTIONAL_NUMERIC_FIELDS`
abbrev pub optional_metrics : List String
optional_metrics =
    rate_metrics
    ++ ("annualized_return" ∷ "benchmark_sharpe" ∷ "calmar" ∷ "profit_loss_ratio" ∷ "observations"
        ∷ "trade_observations" ∷ "decay_ratio" ∷ "cs_rank_ic" ∷ "cs_icir" ∷ "cs_score" ∷ [])

-- `_PERFORMANCE_NUMERIC_FIELDS`
abbrev pub metrics : List String
metrics = required_metrics ++ optional_metrics

abbrev pub has_name : List String → String → Bool
has_name names name = any (str_eq name) names

-- `_PERFORMANCE_ALLOWED_FIELDS`
abbrev pub is_allowed : String → Bool
is_allowed name =
    has_name ("metrics_status" ∷ metrics) name
    || has_name ("metric_mode" ∷ "universe_key" ∷ "symbols" ∷ []) name

unfoldable pub only_allowed : Fields → Bool
only_allowed brace = true
only_allowed (field name v fields) = is_allowed name && only_allowed fields

-- Whether `performance.get(name, usual)` is the usual text, where it is one of the two.
unfoldable pub mode_of : Option Value → (usual other : String) → Option Bool
mode_of none usual other = some true
mode_of (some (str t)) usual other =
    if text_eq t (chars usual)
    then some true
    else if text_eq t (chars other)
    then some false
    else none
mode_of (some v) usual other = none

-- `name in performance`
abbrev pub is_present : Option Value → Bool
is_present none = false
is_present (some v) = true

-- `performance.get(name) is not None`
abbrev pub is_given : Option Value → Bool
is_given none = false
is_given (some null) = false
is_given (some v) = true

unfoldable pub has_fields : (time_series : Bool) → Fields → Bool
has_fields time_series performance =
    all (λ name. is_present (get name performance)) required_metrics
    && any (λ name. is_present (get name performance)) rate_metrics
    && (time_series
        || all (λ name. is_present (get name performance))
            ("cs_rank_ic" ∷ "cs_icir" ∷ "universe_key" ∷ "symbols" ∷ []))

-- `measured_required`
abbrev pub measured_metrics : (time_series : Bool) → List String
measured_metrics time_series =
    "return_rate"
    ∷ "out_of_sample_icir"
    ∷ "net_sharpe"
    ∷ "max_drawdown"
    ∷ "annual_turnover"
    ∷ (if time_series then "ts_ic" ∷ [] else "cs_rank_ic" ∷ "cs_icir" ∷ [])

unfoldable pub has_measures : (time_series : Bool) → Fields → Bool
has_measures time_series performance =
    all (λ name. is_given (get name performance)) (measured_metrics time_series)
    && any (λ name. is_given (get name performance)) rate_metrics

unfoldable pub leb_int : ℤ → ℤ → Bool
leb_int (pos m) (pos n) = leb m n
leb_int (pos m) (negsuc n) = false
leb_int (negsuc m) (pos n) = true
leb_int (negsuc m) (negsuc n) = leb n m

abbrev is_text : Items → Bool
is_text bracket = true
is_text (element (str t) items) = is_text items
is_text (element v items) = false

-- A list of texts that is not empty, where there is one.
unfoldable pub are_symbols : Option Value → Bool
are_symbols none = true
are_symbols (some (arr (element v items))) = is_text (element v items)
are_symbols (some v) = false

unfoldable pub is_universe_key : Option Value → Bool
is_universe_key none = true
is_universe_key (some (str t)) = not (text_eq (strip t) [])
is_universe_key (some v) = false

module _ (env : Environment) where
  -- A numeric field, in the loop over `_PERFORMANCE_NUMERIC_FIELDS`.
  unfoldable pub is_metric : (measured : Bool) → String → Option Value → Bool
  is_metric measured name none = true
  is_metric measured name (some null) = true
  is_metric measured name (some (int n)) = measured
  is_metric measured name (some (float t)) =
      measured
      && env.is_decimal (float t)
      && not (has_name ("observations" ∷ "trade_observations" ∷ []) name)
  is_metric measured name (some v) = false

  -- `value is None or minimum <= value`
  unfoldable pub at_least : ℤ → Option Value → Bool
  unfolding leb_int
  at_least minimum (some (int n)) = leb_int minimum n
  at_least minimum (some (float t)) = env.float_at_least t minimum
  at_least minimum v = true

  unfoldable pub at_most : ℤ → Option Value → Bool
  unfolding leb_int
  at_most maximum (some (int n)) = leb_int n maximum
  at_most maximum (some (float t)) = env.float_at_most t maximum
  at_most maximum v = true

  abbrev pub between : (minimum maximum : ℤ) → Option Value → Bool
  between minimum maximum v = at_least minimum v && at_most maximum v

  -- `bounded_ranges`
  unfoldable pub is_bounded : Fields → Bool
  unfolding at_least at_most
  is_bounded performance =
      between (negsuc 0) (pos 1) (get "ts_ic" performance)
      && between (negsuc 0) (pos 0) (get "max_drawdown" performance)
      && all (λ name. between (pos 0) (pos 1) (get name performance)) rate_metrics
      && between (negsuc 0) (pos 1) (get "cs_rank_ic" performance)

  -- `lower_bounds`
  unfoldable pub is_bounded_below : Fields → Bool
  unfolding at_least
  is_bounded_below performance =
      all (λ name. at_least (negsuc 0) (get name performance))
        ("return_rate" ∷ "annualized_return" ∷ [])
      && all (λ name. at_least (pos 0) (get name performance))
          ("profit_loss_ratio" ∷ "annual_turnover" ∷ "observations" ∷ "trade_observations"
            ∷ "decay_ratio" ∷ [])

  abbrev refuse_unless : Bool → String → Flow (Unit {0}) → Flow (Unit {0})
  refuse_unless holds message = require holds (failure fail_contract message)

  unfoldable pub check_metrics : (measured time_series : Bool) → Fields → Flow (Unit {0})
  unfolding has_fields is_metric has_measures is_bounded is_bounded_below is_universe_key
      are_symbols
  check_metrics measured time_series performance =
      refuse_unless (has_fields time_series performance) "required fields are missing" (
        refuse_unless (all (λ name. is_metric measured name (get name performance)) metrics)
          "a metric must be a finite number or null"
          (refuse_unless (not measured || has_measures time_series performance)
            "measured metrics must contain valid numbers"
            (refuse_unless (is_bounded performance) "a metric is outside the documented range" (
              refuse_unless (is_bounded_below performance)
                "a metric is below the documented minimum"
                (refuse_unless (is_universe_key (get "universe_key" performance))
                  "universe_key must be a non-empty string when present"
                  (refuse_unless (are_symbols (get "symbols" performance))
                    "symbols must be a non-empty string array when present"
                    (refuse_unless
                      (time_series
                        || is_given (get "universe_key" performance)
                          && is_given (get "symbols" performance))
                      "cross-sectional performance requires universe_key and symbols"
                      (returned tt))))))))

  abbrev pub check_modes : (measured time_series : Option Bool) → Fields → Flow (Unit {0})
  check_modes none time_series performance =
      refuse_unless false "metrics_status must be measured or unavailable" (returned tt)
  check_modes (some measured) none performance =
      refuse_unless false "metric_mode must be time_series or cross_sectional" (returned tt)
  check_modes (some measured) (some time_series) performance =
      check_metrics measured time_series performance

  -- `_validate_real_performance`
  unfoldable pub validate_performance : Fields → Flow (Unit {0})
  unfolding only_allowed mode_of check_metrics
  validate_performance performance =
      refuse_unless (only_allowed performance) "performance contains unsupported fields" (
        check_modes (mode_of (get "metrics_status" performance) "measured" "unavailable")
          (mode_of (get "metric_mode" performance) "time_series" "cross_sectional") performance)
