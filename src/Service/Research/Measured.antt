-- ===== src/Service/Research/Measured.antt =====
-- The performance of a report that the research flow accepts.
use quest_test.Prelude.{
  ◌≡◌, refl, ap, ◌∙◌, ◌⊎◌, inl, inr, Bool, true, false, not, ◌||◌, and_true, Option, none, some,
  String, str_eq, text_eq, text_eq_sound, chars, any, all, All, List, [], ◌∷◌, arith, false≢true,
  Bool-cases, eq_iff,
}
use quest_test.Effect.{returned}
use quest_test.Json.{Value, null, bool, int, float, str, arr, obj, Fields, get}
use quest_test.Service.Flow.{require_inv}
use quest_test.Service.Research.{Environment}
use quest_test.Service.Research.Performance.{
  metrics, rate_metrics, measured_metrics, has_name, mode_of, is_given, has_measures, is_metric,
  is_bounded, is_bounded_below, check_metrics, check_modes, validate_performance,
}

-- A text among the names is one of the names.
all_named :
    (test : String → Bool) (names : List String) (name : String)
    → all test names ≡ true
    → has_name names name ≡ true
    → test name ≡ true
all_named test [] name h k = ground arith
all_named test (x ∷ names) name h k = elim (Bool-cases (str_eq name x)) [
  | inl same ↦ ap test ((eq_iff name x).0 same) ∙ (and_true _ _ h).0
  | inr other ↦ all_named test names name (and_true _ _ h).1 (ground (arith, other, k))
]

module _ (env : Environment) where
  -- A finite number.
  abbrev pub Number : Option Value → Type 0
  Number (some (int n)) = Unit
  Number (some (float t)) = env.is_decimal (float t) ≡ true
  Number _ = ⊥

  is_metric-Number :
      (name : String) (v : Option Value)
      → is_metric env true name v ≡ true
      → is_given v ≡ true
      → Number v
  unfolding is_metric
  is_metric-Number name none h given = absurd (false≢true given)
  is_metric-Number name (some null) h given = absurd (false≢true given)
  is_metric-Number name (some (int n)) h given = tt
  is_metric-Number name (some (float t)) h given = (and_true _ _ h).0
  is_metric-Number name (some (bool b)) h given = absurd (false≢true h)
  is_metric-Number name (some (str t)) h given = absurd (false≢true h)
  is_metric-Number name (some (arr a)) h given = absurd (false≢true h)
  is_metric-Number name (some (obj o)) h given = absurd (false≢true h)

  not_given_of :
      (name : String) (v : Option Value) → is_metric env false name v ≡ true → is_given v ≡ false
  unfolding is_metric
  not_given_of name none h = refl
  not_given_of name (some null) h = refl
  not_given_of name (some (int n)) h = absurd (false≢true h)
  not_given_of name (some (float t)) h = absurd (false≢true h)
  not_given_of name (some (bool b)) h = absurd (false≢true h)
  not_given_of name (some (str t)) h = absurd (false≢true h)
  not_given_of name (some (arr a)) h = absurd (false≢true h)
  not_given_of name (some (obj o)) h = absurd (false≢true h)

  -- The performance of a measured report: its metrics are finite numbers, within their ranges.
  pub record Measured (time_series : Bool) (performance : Fields) : Type 0 where
    pub numbers : All (λ name. Number (get name performance)) (measured_metrics time_series)
    pub rate :
        Number (get "positive_return_rate" performance)
        ⊎ Number (get "rolling_oos_win_rate" performance)
    pub in_range : is_bounded env performance ≡ true
    pub high_enough : is_bounded_below env performance ≡ true

  -- What a performance may be.
  pub data Judged (performance : Fields) : Type 0 where
    without_metrics :
        get "metrics_status" performance ≡ some (str (chars "unavailable"))
        → ((name : String) → has_name metrics name ≡ true → is_given (get name performance) ≡ false)
        → Judged performance
    with_metrics :
        (time_series : Bool)
        → mode_of (get "metric_mode" performance) "time_series" "cross_sectional" ≡ some time_series
        → Measured time_series performance
        → Judged performance

  metrics-Number :
      (p : Fields) (name : String)
      → all (λ n. is_metric env true n (get n p)) metrics ≡ true
      → has_name metrics name ≡ true
      → is_given (get name p) ≡ true
      → Number (get name p)
  metrics-Number p name valid known given =
      is_metric-Number name (get name p)
        (all_named (λ n. is_metric env true n (get n p)) metrics name valid known) given

  all_numbers :
      (p : Fields) (names : List String)
      → all (λ n. is_metric env true n (get n p)) metrics ≡ true
      → all (has_name metrics) names ≡ true
      → all (λ n. is_given (get n p)) names ≡ true
      → All (λ n. Number (get n p)) names
  all_numbers p [] valid known given = tt
  all_numbers p (x ∷ names) valid known given = (
    metrics-Number p x valid (and_true _ _ known).0 (and_true _ _ given).0,
    all_numbers p names valid (and_true _ _ known).1 (and_true _ _ given).1,
  )

  known_measures :
      (time_series : Bool) → all (has_name metrics) (measured_metrics time_series) ≡ true
  known_measures true = refl
  known_measures false = refl

  a_rate :
      (p : Fields)
      → all (λ n. is_metric env true n (get n p)) metrics ≡ true
      → any (λ n. is_given (get n p)) rate_metrics ≡ true
      → Number (get "positive_return_rate" p) ⊎ Number (get "rolling_oos_win_rate" p)
  a_rate p valid given = elim (Bool-cases (is_given (get "positive_return_rate" p))) [
    | inl first ↦ inl (metrics-Number p "positive_return_rate" valid refl first)
    | inr other ↦
        inr (metrics-Number p "rolling_oos_win_rate" valid refl (ground (arith, given, other)))
  ]

  check_metrics-Judged :
      (measured time_series : Bool) (p : Fields)
      → check_metrics env measured time_series p ≡ returned tt
      → (all (λ n. is_metric env measured n (get n p)) metrics ≡ true)
        × ((not measured || has_measures time_series p) ≡ true)
        × (is_bounded env p ≡ true)
        × (is_bounded_below env p ≡ true)
  unfolding check_metrics
  check_metrics-Judged measured time_series p h =
      let (_, h1) = require_inv _ _ _ tt h in
      let (valid, h2) = require_inv _ _ _ tt h1 in
      let (given, h3) = require_inv _ _ _ tt h2 in
      let (bounded, h4) = require_inv _ _ _ tt h3 in
      (valid, given, bounded, (require_inv _ _ _ tt h4).0)

  mode_of_other :
      (v : Option Value) (usual other : String)
      → mode_of v usual other ≡ some false
      → v ≡ some (str (chars other))
  unfolding mode_of
  mode_of_other none usual other h = cc
  mode_of_other (some (str t)) usual other h = elim (Bool-cases (text_eq t (chars other))) [
    | inl same ↦ ap (λ x. some (str x)) (text_eq_sound t (chars other) same)
    | inr differs ↦ ground (arith, h, differs)
  ]
  mode_of_other (some null) usual other h = cc
  mode_of_other (some (bool b)) usual other h = cc
  mode_of_other (some (int n)) usual other h = cc
  mode_of_other (some (float t)) usual other h = cc
  mode_of_other (some (arr a)) usual other h = cc
  mode_of_other (some (obj o)) usual other h = cc

  checked-Judged :
      (m t : Option Bool) (p : Fields)
      → mode_of (get "metrics_status" p) "measured" "unavailable" ≡ m
      → mode_of (get "metric_mode" p) "time_series" "cross_sectional" ≡ t
      → check_modes env m t p ≡ returned tt
      → Judged p
  unfolding has_measures
  checked-Judged none t p status mode h = cc
  checked-Judged (some m) none p status mode h = cc
  checked-Judged (some true) (some time_series) p status mode h =
      let (valid, given, bounded, above) = check_metrics-Judged true time_series p h in
      let (measures, rates) = and_true _ _ given in
      with_metrics time_series mode (record {
        numbers =
            all_numbers p (measured_metrics time_series) valid (known_measures time_series)
              measures;
        rate = a_rate p valid rates;
        in_range = bounded;
        high_enough = above;
      })
  checked-Judged (some false) (some time_series) p status mode h =
      without_metrics (mode_of_other _ "measured" "unavailable" status) (λ name known.
        not_given_of name (get name p) (
          all_named (λ n. is_metric env false n (get n p)) metrics name
            (check_metrics-Judged false time_series p h).0 known))

  pub validate_performance-Judged :
      (p : Fields) → validate_performance env p ≡ returned tt → Judged p
  unfolding validate_performance
  validate_performance-Judged p h = checked-Judged _ _ p refl refl (require_inv _ _ _ tt h).1
