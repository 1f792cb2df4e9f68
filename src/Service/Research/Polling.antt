-- ===== src/Service/Research/Polling.antt =====
-- What the polling loop spends, and that it ends: each round reads the clock.
use quest_test.Prelude.{
  ℕ, zero, suc, ◌+◌, ◌≤◌, ◌<◌, ◌≡◌, ◌≢◌, ◌⊎◌, inl, inr, refl, sym, ◌∙◌, false≢true, true, false,
  not, if◌then◌else◌, if_ind, List, [], ◌∷◌, ◌++◌, arith, length, length-append, max_zero, ltb,
}
use quest_test.Effect.{Outcome, returned, raised, raise, ◌>>◌}
use quest_test.Json.{Fields}
use quest_test.Service.Flow.{is_technical}
use quest_test.Service.Research.{
  Run, ResearchSettings, Failure, flow_error, timeout_error, value_error, runtime_error,
  database_error, out_of_fuel, Event, read_clock, Environment, Step, monotonic,
  sleep_for_poll_retry, is_past,
}
use quest_test.Service.Research.Watching.{
  timed_out, unavailable, is_settled, read_real_run_status, wait_then, after_status, read_then,
  poll_round, poll_loop, poll_real_run,
}
use quest_test.Service.Research.Spending.{
  Spent, returned-Spent, raised-Spent, after-Spent, go_on-Spent, sleep-Keeps,
}
use quest_test.Service.Research.Counting.{
  weight, K, technical_ok, monotonic-K, read_real_run_status-Keeps,
}

-- The clock has passed any of its readings by the timeout `horizon` events later.
abbrev pub Runs : Environment → ResearchSettings → (horizon : ℕ) → Type 0
Runs env settings horizon =
    (m n : ℕ) → m + horizon ≤ n → is_past (env.clock m) settings.poll_timeout (env.clock n) ≡ true

module _ (env : Environment) (settings : ResearchSettings) (s f g : ℕ) (Allowed : Failure → Type 0)
    (ok : (e : Failure) → e ≢ out_of_fuel → Allowed e) where
  wait_then-Spent :
      (started : ℕ) (loop : Step (List Fields × Fields)) (log : List Event)
      → ((later : List Event)
          → length log ≤ length later
          → Spent (weight s f g) Allowed 0 later (loop later))
      → Spent (weight s f g) Allowed 0 log (wait_then env settings started loop log)
  unfolding wait_then
  wait_then-Spent started loop log next =
      go_on-Spent (weight s f g) Allowed 0 0 log (monotonic env log)
        (λ now.
          if is_past started settings.poll_timeout (now + max_zero settings.poll_interval)
          then raise timed_out
          else (sleep_for_poll_retry settings.poll_interval >> loop))
        (monotonic-K s f g Allowed ok env log)
        (λ now later longer.
          if_ind {A = Step (List Fields × Fields)}
            (λ m. Spent (weight s f g) Allowed 0 later (m later))
            (is_past started settings.poll_timeout (now + max_zero settings.poll_interval))
            (λ _.
              raised-Spent (weight s f g) Allowed 0 later timed_out
                (technical_ok s f g Allowed ok _ _ _))
            (λ _.
              go_on-Spent (weight s f g) Allowed 0 0 later
                (sleep_for_poll_retry settings.poll_interval later) (λ _. loop)
                (sleep-Keeps (weight s f g) Allowed settings.poll_interval (λ m. refl) later)
                (λ _ last longest. next last (omega arith))))

  after_status-Spent :
      (started retries : ℕ) (snapshots : List Fields)
      (loop : ℕ → List Fields → Step (List Fields × Fields))
      (r : Outcome Failure Fields × List Event)
      → ((e : Failure) → r.0 ≡ raised e → Allowed e)
      → ((n : ℕ) (more : List Fields) (later : List Event)
          → length r.1 ≤ length later
          → Spent (weight s f g) Allowed 0 later (loop n more later))
      → Spent
          (weight s f g)
          Allowed
          0
          r.1
          (after_status env settings started retries snapshots loop r)
  unfolding after_status
  after_status-Spent started retries snapshots loop (returned d, log) allowed next =
      if_ind (Spent (weight s f g) Allowed 0 log) (is_settled d)
        (λ _. returned-Spent (weight s f g) Allowed 0 log _)
        (λ _.
          wait_then-Spent started (loop 0 (snapshots ++ (d ∷ []))) log
            (next 0 (snapshots ++ (d ∷ []))))
  after_status-Spent started retries snapshots loop (raised (flow_error e), log) allowed next =
      if_ind (Spent (weight s f g) Allowed 0 log) (not (is_technical e.outcome))
        (λ _. raised-Spent (weight s f g) Allowed 0 log (flow_error e) (allowed _ refl))
        (λ _.
          if_ind (Spent (weight s f g) Allowed 0 log)
            (ltb (max_zero settings.max_technical_retries) (suc retries))
            (λ _.
              raised-Spent (weight s f g) Allowed 0 log unavailable
                (technical_ok s f g Allowed ok _ _ _))
            (λ _.
              wait_then-Spent started (loop (suc retries) snapshots) log
                (next (suc retries) snapshots)))
  after_status-Spent started retries snapshots loop (raised timeout_error, log) allowed next =
      raised-Spent (weight s f g) Allowed 0 log timeout_error (allowed _ refl)
  after_status-Spent started retries snapshots loop (raised value_error, log) allowed next =
      raised-Spent (weight s f g) Allowed 0 log value_error (allowed _ refl)
  after_status-Spent started retries snapshots loop (raised runtime_error, log) allowed next =
      raised-Spent (weight s f g) Allowed 0 log runtime_error (allowed _ refl)
  after_status-Spent started retries snapshots loop (raised database_error, log) allowed next =
      raised-Spent (weight s f g) Allowed 0 log database_error (allowed _ refl)
  after_status-Spent started retries snapshots loop (raised out_of_fuel, log) allowed next =
      raised-Spent (weight s f g) Allowed 0 log out_of_fuel (allowed _ refl)

  poll_round-Spent :
      (run : Run) (started retries : ℕ) (snapshots : List Fields)
      (loop : ℕ → List Fields → Step (List Fields × Fields)) (log : List Event)
      → (is_past started settings.poll_timeout (env.clock (length log)) ≡ false
          → (n : ℕ) (more : List Fields) (later : List Event) → length log < length later
          → Spent (weight s f g) Allowed 0 later (loop n more later))
      → Spent
          (weight s f g)
          Allowed
          0
          log
          (poll_round env settings run started retries snapshots loop log)
  unfolding poll_round monotonic
  poll_round-Spent run started retries snapshots loop log next =
      after-Spent (weight s f g) Allowed 0 0 log (monotonic env log) _
        (monotonic-K s f g Allowed ok env log)
        (if_ind {A = Step (List Fields × Fields)}
          (λ m. Spent (weight s f g) Allowed 0 read (m read))
          (is_past started settings.poll_timeout (env.clock (length log)))
          {y = read_then env (after_status env settings started retries snapshots loop)
            (read_real_run_status env run)}
          (λ _.
            raised-Spent (weight s f g) Allowed 0 read timed_out
              (technical_ok s f g Allowed ok _ _ _))
          (λ early.
            let status : Spent (weight s f g) Allowed 0 read (read_real_run_status env run read) =
              read_real_run_status-Keeps s f g Allowed ok env run read in
            after-Spent (weight s f g) Allowed 0 0 read (read_real_run_status env run read) _ status
              (after_status-Spent started retries snapshots loop (read_real_run_status env run read)
                status.allowed
                (λ n more later longer.
                  next early n more later
                    (omega (arith, longer, status.grows, length-append log (read_clock ∷ [])))))))
    where
      read : List Event
      read = log ++ (read_clock ∷ [])

  -- Either running out of fuel is allowed, or the clock is past the deadline from `limit` events on
  -- and the fuel reaches that far.
  abbrev pub Enough : (started limit fuel : ℕ) → List Event → Type 0
  Enough started limit fuel log =
      ((n : ℕ) → limit ≤ n → is_past started settings.poll_timeout (env.clock n) ≡ true)
      × (limit ≤ fuel + length log)

  poll_loop-Spent :
      (run : Run) (limit fuel started retries : ℕ) (snapshots : List Fields) (log : List Event)
      → Allowed out_of_fuel ⊎ Enough started limit fuel log
      → Spent
          (weight s f g)
          Allowed
          0
          log
          (poll_loop env settings run (suc fuel) started retries snapshots log)
  unfolding poll_loop
  poll_loop-Spent run limit zero started retries snapshots log enough =
      poll_round-Spent run started retries snapshots (poll_loop env settings run zero started) log
        (λ early n more later longer.
          raised-Spent (weight s f g) Allowed 0 later out_of_fuel (elim enough [
            | inl fine ↦ fine
            | inr (late, reach) ↦ absurd (false≢true (sym early ∙ late (length log) (omega arith)))
          ]))
  poll_loop-Spent run limit (suc fuel) started retries snapshots log enough =
      poll_round-Spent run started retries snapshots (poll_loop env settings run (suc fuel) started)
        log
        (λ early n more later longer.
          poll_loop-Spent run limit fuel started n more later (elim enough [
            | inl fine ↦ inl fine
            | inr (late, reach) ↦ inr (late, omega (arith, reach, longer))
          ]))

  pub poll_real_run-Keeps :
      (run : Run) (horizon fuel : ℕ)
      → Allowed out_of_fuel ⊎ (Runs env settings horizon × (horizon ≤ fuel))
      → K s f g Allowed ok 0 (poll_real_run env settings (suc fuel) run)
  unfolding poll_real_run monotonic
  poll_real_run-Keeps run horizon fuel enough log =
      after-Spent (weight s f g) Allowed 0 0 log (monotonic env log) _
        (monotonic-K s f g Allowed ok env log)
        (poll_loop-Spent run (length log + horizon) fuel (env.clock (length log)) 0 []
          (log ++ (read_clock ∷ []))
          (elim enough [
            | inl fine ↦ inl fine
            | inr (clock_runs, reach) ↦
                inr (
                  clock_runs (length log),
                  omega (arith, reach, length-append log (read_clock ∷ [])),
                )
          ]))
