-- ===== src/Service/Research/Snapshots.antt =====
-- What `poll_real_run` returns and raises.
use quest_test.Prelude.{
  ℕ, zero, suc, ◌+◌, ◌≡◌, refl, sym, ap, ◌∙◌, subst, true, false, ◌&&◌, not, if_ind, ltb, List, [],
  ◌∷◌, ◌++◌, All, All-append, max_zero, arith, length, String, ℤ, pos, negsuc,
}
use quest_test.Effect.{Outcome, returned, raised, ◌>>◌}
use quest_test.Json.{Fields}
use quest_test.Service.Flow.{FlowError, is_technical}
use quest_test.Service.Research.{
  Run, ResearchSettings, Failure, flow_error, timeout_error, value_error, runtime_error,
  database_error, out_of_fuel, Event, read_clock, sleep, Environment, Step, monotonic,
  sleep_for_poll_retry, is_past,
}
use quest_test.Service.Research.Watching.{
  technical_failure, is_settled, read_real_run_status, wait_then, after_status, poll_round,
  poll_loop, poll_real_run,
}
use quest_test.Service.Research.Rounds.{wants_retry}
use quest_test.Service.Research.Matching.{Matches, read_real_run_status-Matches}

module _ (env : Environment) (settings : ResearchSettings) (run : Run) where
  -- A snapshot after which the loop goes on.
  abbrev pub GoesOn : Fields → Type 0
  GoesOn data' = (is_settled data' ≡ false) × Matches env run data'

  -- What polling promises of its outcome.
  pub record Watched (r : Outcome Failure (List Fields × Fields) × List Event) : Type 0 where
    pub settled :
        (snapshots : List Fields) (last : Fields)
        → r.0 ≡ returned (snapshots, last)
        → (is_settled last ≡ true)
          × Matches env run last
          × ((earlier : List Fields) × (snapshots ≡ earlier ++ (last ∷ [])) × All GoesOn earlier)
    pub no_retry :
        (e : FlowError)
        → r.0 ≡ raised (flow_error e)
        → (is_technical e.outcome && wants_retry e.details) ≡ false

  abbrev Watches : Step (List Fields × Fields) → Type 0
  Watches m = (log : List Event) → Watched (m log)

  raised_inv :
      (a b : Failure)
      → ◌≡◌ {A = Outcome Failure (List Fields × Fields)} (raised a) (raised b)
      → a ≡ b
  raised_inv a b h = cc

  flow_error_inv : (d e : FlowError) → flow_error d ≡ flow_error e → d ≡ e
  flow_error_inv d e h = cc

  -- An exception that does not ask for another run.
  abbrev Calm : Failure → Type 0
  Calm e =
      (d : FlowError) → e ≡ flow_error d → (is_technical d.outcome && wants_retry d.details) ≡ false

  error-Calm :
      (e : FlowError)
      → (is_technical e.outcome && wants_retry e.details) ≡ false
      → Calm (flow_error e)
  error-Calm e calm d h =
      subst (λ x. (is_technical x.outcome && wants_retry x.details) ≡ false) (flow_error_inv e d h)
        calm

  raised-Watched : (e : Failure) (log : List Event) → Calm e → Watched (raised e, log)
  raised-Watched e log calm = record {
    settled = λ s d h. cc;
    no_retry = λ d h. calm d (raised_inv e (flow_error d) h);
  }

  technical-Watched :
      (message reason : String) (log : List Event)
      → Watched (raised (technical_failure message false reason), log)
  unfolding technical_failure wants_retry quest_test.Json.get_or_null
  technical-Watched message reason log = raised-Watched _ log (error-Calm _ refl)

  sleep-Watches :
      (loop : Step (List Fields × Fields))
      → Watches loop
      → (n : ℤ) → Watches (sleep_for_poll_retry n >> loop)
  unfolding sleep_for_poll_retry
  sleep-Watches loop keeps (pos zero) log = keeps log
  sleep-Watches loop keeps (pos (suc n)) log = keeps (log ++ (sleep (suc n) ∷ []))
  sleep-Watches loop keeps (negsuc n) log = keeps log

  wait_then-Watches :
      (started : ℕ) (loop : Step (List Fields × Fields))
      → Watches loop
      → Watches (wait_then env settings started loop)
  unfolding wait_then monotonic
  wait_then-Watches started loop keeps log =
      if_ind {A = Step (List Fields × Fields)} (λ m. Watched (m (log ++ (read_clock ∷ []))))
        (is_past started settings.poll_timeout
          (env.clock (length log) + max_zero settings.poll_interval))
        (λ _. technical-Watched _ "run_status_poll_timeout" _)
        (λ _. sleep-Watches loop keeps settings.poll_interval (log ++ (read_clock ∷ [])))

  returned-Watched :
      (snapshots : List Fields) (d : Fields) (log : List Event)
      → is_settled d ≡ true
      → Matches env run d
      → All GoesOn snapshots
      → Watched (returned (snapshots ++ (d ∷ []), d), log)
  returned-Watched snapshots d log done matches kept = record {
    settled = λ s last h. (
      subst (λ x. is_settled x ≡ true) (last_inv s last h) done,
      subst (Matches env run) (last_inv s last h) matches,
      (
        snapshots,
        sym (all_inv s last h) ∙ ap (λ x. snapshots ++ (x ∷ [])) (last_inv s last h),
        kept,
      ),
    );
    no_retry = λ e h. cc;
  }
    where
      last_inv :
          (s : List Fields) (last : Fields)
          → ◌≡◌ {A = Outcome Failure (List Fields × Fields)}
              (returned (snapshots ++ (d ∷ []), d))
              (returned (s, last))
          → d ≡ last
      last_inv s last h = cc

      all_inv :
          (s : List Fields) (last : Fields)
          → ◌≡◌ {A = Outcome Failure (List Fields × Fields)}
              (returned (snapshots ++ (d ∷ []), d))
              (returned (s, last))
          → snapshots ++ (d ∷ []) ≡ s
      all_inv s last h = cc

  after_status-Watched :
      (started retries : ℕ) (snapshots : List Fields)
      (loop : ℕ → List Fields → Step (List Fields × Fields))
      (r : Outcome Failure Fields × List Event)
      → ((d : Fields) → r.0 ≡ returned d → Matches env run d)
      → All GoesOn snapshots
      → ((n : ℕ) (more : List Fields) → All GoesOn more → Watches (loop n more))
      → Watched (after_status env settings started retries snapshots loop r)
  unfolding after_status
  after_status-Watched started retries snapshots loop (returned d, log) matches kept keeps =
      if_ind Watched (is_settled d)
        (λ done. returned-Watched snapshots d log done (matches d refl) kept)
        (λ not_done.
          wait_then-Watches started (loop 0 (snapshots ++ (d ∷ [])))
            (keeps 0 (snapshots ++ (d ∷ []))
              (All-append GoesOn snapshots (d ∷ []) kept ((not_done, matches d refl), tt)))
            log)
  after_status-Watched started retries snapshots loop (raised (flow_error e), log) matches kept
        keeps =
      if_ind Watched (not (is_technical e.outcome))
        (λ other. raised-Watched (flow_error e) log (error-Calm e (ground arith)))
        (λ _.
          if_ind Watched (ltb (max_zero settings.max_technical_retries) (suc retries))
            (λ _. technical-Watched _ "run_status_request_unavailable" log)
            (λ _.
              wait_then-Watches started (loop (suc retries) snapshots)
                (keeps (suc retries) snapshots kept) log))
  after_status-Watched started retries snapshots loop (raised timeout_error, log) matches kept
        keeps =
      raised-Watched timeout_error log (λ d h. cc)
  after_status-Watched started retries snapshots loop (raised value_error, log) matches kept keeps =
      raised-Watched value_error log (λ d h. cc)
  after_status-Watched started retries snapshots loop (raised runtime_error, log) matches kept
        keeps =
      raised-Watched runtime_error log (λ d h. cc)
  after_status-Watched started retries snapshots loop (raised database_error, log) matches kept
        keeps =
      raised-Watched database_error log (λ d h. cc)
  after_status-Watched started retries snapshots loop (raised out_of_fuel, log) matches kept keeps =
      raised-Watched out_of_fuel log (λ d h. cc)

  poll_loop-Watches :
      (fuel started retries : ℕ) (snapshots : List Fields)
      → All GoesOn snapshots
      → Watches (poll_loop env settings run fuel started retries snapshots)
  unfolding poll_loop poll_round monotonic
  poll_loop-Watches zero started retries snapshots kept log =
      raised-Watched out_of_fuel log (λ d h. cc)
  poll_loop-Watches (suc fuel) started retries snapshots kept log =
      if_ind {A = Step (List Fields × Fields)} (λ m. Watched (m (log ++ (read_clock ∷ []))))
        (is_past started settings.poll_timeout (env.clock (length log)))
        (λ _. technical-Watched _ "run_status_poll_timeout" _)
        (λ _.
          after_status-Watched started retries snapshots (poll_loop env settings run fuel started)
            (read_real_run_status env run (log ++ (read_clock ∷ [])))
            (read_real_run_status-Matches env run (log ++ (read_clock ∷ []))) kept
            (λ n more all_kept. poll_loop-Watches fuel started n more all_kept))

-- When polling returns, its last snapshot is settled, that is completed, failed or with the
-- recommendation to read the result or to retry; all the snapshots before it are not, and each of
-- them names the form and the pipeline run that was started. A technical failure that polling raises
-- never asks for another pipeline run.
pub poll_real_run-Watched :
    (env : Environment) (settings : ResearchSettings) (fuel : ℕ) (run : Run) (log : List Event)
    → Watched env settings run (poll_real_run env settings fuel run log)
unfolding poll_real_run monotonic
poll_real_run-Watched env settings fuel run log =
    poll_loop-Watches env settings run fuel (env.clock (length log)) 0 [] tt
      (log ++ (read_clock ∷ []))
