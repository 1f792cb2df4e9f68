-- ===== src/Service/Research/Endings.antt =====
-- The bounds on the calls of `run_real_research_flow`, and that it ends.
use quest_test.Prelude.{
  ℕ, zero, suc, ◌+◌, ◌-◌, ◌*◌, ◌≤◌, ◌≡◌, ◌≢◌, refl, List, arith, ℤ, pos, negsuc, max_zero, inl, inr,
  Text,
}
use native.Mathlib.Nat.{suc-mul, zero-mul}
use quest_test.Effect.{raised, raise}
use quest_test.Service.Research.{
  Form, Run, ResearchSettings, out_of_fuel, Event, Environment, monotonic,
}
use quest_test.Service.Research.Watching.{poll_real_run, poll_loop}
use quest_test.Service.Research.Rounds.{run_real_research_flow}
use quest_test.Service.Research.Spending.{total, Spent, raised-Spent}
use quest_test.Service.Research.Counting.{weight, K, quiet-K, monotonic-K}
use quest_test.Service.Research.Polling.{Runs, poll_real_run-Keeps}
use quest_test.Service.Research.Attempts.{attempts_weigh}
use quest_test.Service.Research.Totals.{rounds_weigh, flow_weighs, run_real_research_flow-Keeps}

-- How many calls of a kind the log holds.
abbrev pub starts : List Event → ℕ
starts = total (weight 1 0 0) (λ e. Unit {0})

abbrev pub feedbacks : List Event → ℕ
feedbacks = total (weight 0 1 0) (λ e. Unit {0})

abbrev pub registrations : List Event → ℕ
registrations = total (weight 0 0 1) (λ e. Unit {0})

-- Whatever the fuel, polling starts nothing.
pub polls_nothing :
    (env : Environment) (settings : ResearchSettings) (s f g fuel : ℕ) (run : Run)
    → K s f g (λ e. Unit {0}) (λ e h. tt) 0 (poll_real_run env settings fuel run)
unfolding poll_real_run poll_loop
polls_nothing env settings s f g zero run =
    quiet-K s f g (λ e. Unit {0}) (λ e h. tt) 0 (monotonic env) (λ started. raise out_of_fuel)
      (monotonic-K s f g (λ e. Unit {0}) (λ e h. tt) env)
      (λ started log. raised-Spent (weight s f g) (λ e. Unit {0}) 0 log out_of_fuel tt)
polls_nothing env settings s f g (suc fuel) run =
    poll_real_run-Keeps env settings s f g (λ e. Unit {0}) (λ e h. tt) run 0 fuel (inl tt)

attempts_one : (left : ℕ) → attempts_weigh 1 left ≡ suc left
attempts_one zero = refl
attempts_one (suc left) = omega (arith, attempts_one left)

pub attempts_none : (left : ℕ) → attempts_weigh 0 left ≡ 0
attempts_none zero = refl
attempts_none (suc left) = omega (arith, attempts_none left)

rounds_start : (retries left : ℕ) → rounds_weigh 1 0 0 retries left ≡ suc left * suc retries
rounds_start retries zero =
    omega (arith, attempts_one retries, suc-mul 0 (suc retries), zero-mul (suc retries))
rounds_start retries (suc left) =
    omega (arith, attempts_one retries, rounds_start retries left, suc-mul (suc left) (suc retries))

rounds_send : (retries left : ℕ) → rounds_weigh 0 1 0 retries left ≡ left
rounds_send retries zero = omega (arith, attempts_none retries)
rounds_send retries (suc left) = omega (arith, attempts_none retries, rounds_send retries left)

rounds_register : (retries left : ℕ) → rounds_weigh 0 0 1 retries left ≡ 1
rounds_register retries zero = omega (arith, attempts_none retries)
rounds_register retries (suc left) =
    omega (arith, attempts_none retries, rounds_register retries left)

-- What the limits allow: a start for each attempt of each round, a feedback between two rounds, and
-- one registration.
pub record Within (settings : ResearchSettings) (before after : List Event) : Type 0 where
  pub few_starts :
      starts after
      ≤ starts before
        + max_zero settings.max_research_rounds * suc (max_zero settings.max_technical_retries)
  pub few_feedbacks :
      feedbacks after ≤ feedbacks before + (max_zero settings.max_research_rounds - 1)
  pub one_registration : registrations after ≤ registrations before + 1

starts_allowed : (m n : ℤ) → flow_weighs 1 0 0 m n ≤ max_zero m * suc (max_zero n)
starts_allowed (pos (suc left)) (pos retries) = omega (arith, rounds_start retries left)
starts_allowed (pos zero) n = omega arith
starts_allowed (negsuc m) n = omega arith
starts_allowed (pos (suc left)) (negsuc n) = omega arith

feedbacks_allowed : (m n : ℤ) → flow_weighs 0 1 0 m n ≤ max_zero m - 1
feedbacks_allowed (pos (suc left)) (pos retries) = omega (arith, rounds_send retries left)
feedbacks_allowed (pos zero) n = omega arith
feedbacks_allowed (negsuc m) n = omega arith
feedbacks_allowed (pos (suc left)) (negsuc n) = omega arith

registrations_allowed : (m n : ℤ) → flow_weighs 0 0 1 m n ≤ 1
registrations_allowed (pos (suc left)) (pos retries) = omega (arith, rounds_register retries left)
registrations_allowed (pos zero) n = omega arith
registrations_allowed (negsuc m) n = omega arith
registrations_allowed (pos (suc left)) (negsuc n) = omega arith

-- Whatever the HTTP APIs, the database and the clock answer, and however the flow ends, it starts at
-- most one run for each allowed attempt of each allowed round, sends feedback at most once between
-- two rounds, and registers at most one result.
pub run_real_research_flow-Within :
    (env : Environment) (settings : ResearchSettings) (fuel : ℕ) (form : Form) (user_id : ℕ)
    (preferred : Text) (log : List Event)
    → Within settings log (run_real_research_flow env settings fuel form user_id preferred log).1
run_real_research_flow-Within env settings fuel form user_id preferred log = record {
  few_starts = omega (
    arith,
    (spent 1 0 0).at_most,
    starts_allowed settings.max_research_rounds settings.max_technical_retries,
  );
  few_feedbacks = omega (
    arith,
    (spent 0 1 0).at_most,
    feedbacks_allowed settings.max_research_rounds settings.max_technical_retries,
  );
  one_registration = omega (
    arith,
    (spent 0 0 1).at_most,
    registrations_allowed settings.max_research_rounds settings.max_technical_retries,
  );
}
  where
    spent :
        (s f g : ℕ)
        → Spent
            (weight s f g)
            (λ e. Unit {0})
            (flow_weighs s f g settings.max_research_rounds settings.max_technical_retries)
            log
            (run_real_research_flow env settings fuel form user_id preferred log)
    spent s f g =
        run_real_research_flow-Keeps env settings fuel s f g (λ e. Unit {0}) (λ e h. tt)
          (polls_nothing env settings s f g fuel) form user_id preferred log

-- When the clock has passed any of its readings by the polling timeout at most `horizon` events
-- later, fuel for more than `horizon` rounds of polling is enough: the whole research flow ends by
-- returning a result or raising an exception of the program, and does not run out of fuel.
pub run_real_research_flow-Runs :
    (env : Environment) (settings : ResearchSettings) (horizon fuel : ℕ) (form : Form) (user_id : ℕ)
    (preferred : Text) (log : List Event)
    → Runs env settings horizon
    → horizon ≤ fuel
    → (run_real_research_flow env settings (suc fuel) form user_id preferred log).0
      ≢ raised out_of_fuel
run_real_research_flow-Runs env settings horizon fuel form user_id preferred log clock_runs reach
      out =
    spent.allowed out_of_fuel out refl
  where
    spent :
        Spent
          (weight 0 0 0)
          (λ e. e ≢ out_of_fuel)
          (flow_weighs 0 0 0 settings.max_research_rounds settings.max_technical_retries)
          log
          (run_real_research_flow env settings (suc fuel) form user_id preferred log)
    spent =
        run_real_research_flow-Keeps env settings (suc fuel) 0 0 0 (λ e. e ≢ out_of_fuel) (λ e h. h)
          (λ run.
            poll_real_run-Keeps env settings 0 0 0 (λ e. e ≢ out_of_fuel) (λ e h. h) run horizon
              fuel (inr (clock_runs, reach)))
          form user_id preferred log
