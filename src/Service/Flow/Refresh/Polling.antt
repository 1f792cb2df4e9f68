-- ===== src/Service/Flow/Refresh/Polling.antt =====
-- The polling loop of `poll_performance_refresh`: how many requests it makes, and what it returns.
use quest_test.Prelude.{
  ℕ, zero, suc, ◌+◌, ◌≤◌, ◌≡◌, refl, ap, sym, subst, Bool, true, false, ◌||◌, List, [], ◌∷◌, ◌++◌,
  Text, text_eq, strip, arith, if◌then◌else◌, if_ind, ltb, max_zero, length,
}
use quest_test.Effect.{Outcome, returned, raised, ◌>>=◌, ◌>>◌, raise}
use quest_test.Json.{Value, Fields}
use quest_test.Service.Flow.{FlowError, Response}
use quest_test.Service.Flow.Refresh.{
  RefreshSettings, RefreshResult, Event, read_clock, get_refresh_run, sleep, World, Poll, monotonic,
  request_run, sleep_interval, Verdict, again, stop, accept, judge, timed_out, wait_then, follow,
  poll_loop, Refusal, start_polling, refuse, poll_performance_refresh, blank_argument,
}
use quest_test.Service.Flow.Refresh.Judging.{Accepted, judge-Accepted}

-- How many reads of a run the log holds.
abbrev pub gets : List Event → ℕ
gets [] = 0
gets (read_clock ∷ es) = gets es
gets (get_refresh_run t ∷ es) = suc (gets es)
gets (sleep n ∷ es) = gets es

gets-++ : (es fs : List Event) → gets (es ++ fs) ≡ gets es + gets fs
gets-++ [] fs = omega arith
gets-++ (read_clock ∷ es) fs = gets-++ es fs
gets-++ (get_refresh_run t ∷ es) fs = rw (gets-++ es fs) (omega arith)
gets-++ (sleep n ∷ es) fs = gets-++ es fs

returned_inv :
    (x y : RefreshResult)
    → ◌≡◌ {A = Outcome FlowError RefreshResult} (returned x) (returned y)
    → x ≡ y
returned_inv x y h = cc

module _ (show : Value → Text) (task_id name : Text) where
  -- What a step promises when `left` reads may follow and `poll_count` were made: at most `left`
  -- more reads, and of a result that it counts the reads and was accepted.
  pub record Promise (left poll_count before : ℕ) (r : Outcome FlowError RefreshResult × World)
      : Type 0 where
    pub at_most : gets r.1.log ≤ before + left
    pub counted :
        (x : RefreshResult) → r.0 ≡ returned x → x.poll_count + before ≡ poll_count + gets r.1.log
    pub named : (x : RefreshResult) → r.0 ≡ returned x → x.task_id ≡ task_id
    pub accepted : (x : RefreshResult) → r.0 ≡ returned x → Accepted show task_id name x.data'

  abbrev Keeps : ℕ → ℕ → Poll RefreshResult → Type 0
  Keeps left poll_count m = (w : World) → Promise left poll_count (gets w.log) (m w)

  raise-Keeps : (left poll_count : ℕ) (e : FlowError) → Keeps left poll_count (raise e)
  raise-Keeps left poll_count e w = record {
    at_most = omega arith;
    counted = λ x h. cc;
    named = λ x h. cc;
    accepted = λ x h. cc;
  }

  guard-Keeps :
      (left poll_count : ℕ) (b : Bool) (e : FlowError) (m : Poll RefreshResult)
      → Keeps left poll_count m
      → Keeps left poll_count (if b then raise e else m)
  guard-Keeps left poll_count true e m keeps = raise-Keeps left poll_count e
  guard-Keeps left poll_count false e m keeps = keeps

  same_gets :
      (left poll_count : ℕ) (m : Poll RefreshResult) (w v : World)
      → gets v.log ≡ gets w.log
      → Keeps left poll_count m
      → Promise left poll_count (gets w.log) (m v)
  same_gets left poll_count m w v e keeps = subst (λ n. Promise left poll_count n (m v)) e (keeps v)

  monotonic-Keeps :
      (left poll_count : ℕ) (m : ℕ → Poll RefreshResult)
      → ((now : ℕ) → Keeps left poll_count (m now))
      → Keeps left poll_count (monotonic >>= m)
  unfolding monotonic
  monotonic-Keeps left poll_count m keeps w =
      same_gets left poll_count (m (w.clock (length w.log))) w
        (record w { log = w.log ++ (read_clock ∷ []) })
        (rw (gets-++ w.log (read_clock ∷ [])) (omega arith)) (keeps _)

  sleep-Keeps :
      (left poll_count n : ℕ) (m : Poll RefreshResult)
      → Keeps left poll_count m
      → Keeps left poll_count (sleep_interval n >> m)
  unfolding sleep_interval
  sleep-Keeps left poll_count zero m keeps w = keeps w
  sleep-Keeps left poll_count (suc n) m keeps w =
      same_gets left poll_count m w (record w { log = w.log ++ (sleep (suc n) ∷ []) })
        (rw (gets-++ w.log (sleep (suc n) ∷ [])) (omega arith)) keeps

  wait_then-Keeps :
      (interval deadline left poll_count : ℕ) (transport : Bool) (loop : Poll RefreshResult)
      → Keeps left poll_count loop
      → Keeps left poll_count (wait_then show interval deadline left transport loop)
  unfolding wait_then
  wait_then-Keeps interval deadline zero poll_count transport loop keeps =
      raise-Keeps zero poll_count _
  wait_then-Keeps interval deadline (suc left) poll_count transport loop keeps =
      monotonic-Keeps (suc left) poll_count
        (λ now.
          if ltb deadline (now + interval)
          then raise (timed_out transport)
          else (sleep_interval interval >> loop))
        (λ now.
          guard-Keeps (suc left) poll_count (ltb deadline (now + interval)) (timed_out transport)
            (sleep_interval interval >> loop)
            (sleep-Keeps (suc left) poll_count interval loop keeps))

  follow-Keeps :
      (interval deadline left poll_count : ℕ) (loop : Bool → Poll RefreshResult) (v : Verdict)
      → ((transport : Bool) → Keeps left poll_count (loop transport))
      → ((e : Fields) → v ≡ accept e → Accepted show task_id name e)
      → Keeps left poll_count (follow show task_id interval deadline left poll_count loop v)
  unfolding follow
  follow-Keeps interval deadline left poll_count loop (again transport) keeps ok =
      wait_then-Keeps interval deadline left poll_count transport (loop transport) (keeps transport)
  follow-Keeps interval deadline left poll_count loop (stop e) keeps ok =
      raise-Keeps left poll_count e
  follow-Keeps interval deadline left poll_count loop (accept d) keeps ok = λ w. record {
    at_most = omega arith;
    counted = λ x h. ap (λ y. y.poll_count + gets w.log) (sym (returned_inv _ x h));
    named = λ x h. ap (λ y. y.task_id) (sym (returned_inv _ x h));
    accepted = λ x h.
        subst (Accepted show task_id name) (ap (λ y. y.data') (returned_inv _ x h)) (ok d refl);
  }

  request-Keeps :
      (left poll_count : ℕ) (m : Response → Poll RefreshResult)
      → ((answer : Response) → Keeps left (poll_count + 1) (m answer))
      → Keeps (suc left) poll_count (request_run task_id >>= m)
  unfolding request_run
  request-Keeps left poll_count m keeps w =
      let v : World = record w { log = w.log ++ (get_refresh_run task_id ∷ []) } in
      let p = keeps (w.answers (length w.log)) v in
      let e : gets v.log ≡ gets w.log + 1 = gets-++ w.log (get_refresh_run task_id ∷ []) in
      record {
        at_most = omega (arith, p.at_most, e);
        counted = λ x h. omega (arith, p.counted x h, e);
        named = p.named;
        accepted = p.accepted;
      }

  -- What the loop does with an answer.
  abbrev attempt : (interval deadline left poll_count : ℕ) → Response → Poll RefreshResult
  attempt interval deadline left poll_count answer =
      follow show task_id interval deadline left (poll_count + 1)
        (poll_loop show task_id name interval deadline left (poll_count + 1))
        (judge show task_id name answer)

  poll_loop-Keeps :
      (interval deadline left poll_count : ℕ) (transport : Bool)
      → Keeps left poll_count
          (poll_loop show task_id name interval deadline left poll_count transport)
  unfolding poll_loop
  poll_loop-Keeps interval deadline zero poll_count transport = raise-Keeps zero poll_count _
  poll_loop-Keeps interval deadline (suc left) poll_count transport =
      monotonic-Keeps (suc left) poll_count
        (λ now.
          if ltb deadline now
          then raise (timed_out transport)
          else (request_run task_id >>= attempt interval deadline left poll_count))
        (λ now.
          guard-Keeps (suc left) poll_count (ltb deadline now) (timed_out transport)
            (request_run task_id >>= attempt interval deadline left poll_count)
            (request-Keeps left poll_count (attempt interval deadline left poll_count) (λ answer.
              follow-Keeps interval deadline left (poll_count + 1)
                (poll_loop show task_id name interval deadline left (poll_count + 1))
                (judge show task_id name answer)
                (λ t. poll_loop-Keeps interval deadline left (poll_count + 1) t)
                (judge-Accepted show task_id name answer))))

  start_polling-Keeps :
      (max_polls interval timeout : ℕ)
      → Keeps max_polls 0 (start_polling show task_id name max_polls interval timeout)
  unfolding start_polling
  start_polling-Keeps zero interval timeout = raise-Keeps zero 0 _
  start_polling-Keeps (suc left) interval timeout =
      monotonic-Keeps (suc left) 0
        (λ started. poll_loop show task_id name interval (started + timeout) (suc left) 0 false)
        (λ started. poll_loop-Keeps interval (started + timeout) (suc left) 0 false)

-- What polling promises of its outcome: the reads are at most the configured number, and a result
-- counts them all, is of the task asked for, and was accepted.
pub record Polled (show : Value → Text) (settings : RefreshSettings) (task_id name : Text)
    (before : ℕ) (r : Outcome Refusal RefreshResult × World) : Type 0 where
  pub at_most : gets r.1.log ≤ before + max_zero settings.max_refresh_polls
  pub counted : (x : RefreshResult) → r.0 ≡ returned x → x.poll_count + before ≡ gets r.1.log
  pub named : (x : RefreshResult) → r.0 ≡ returned x → x.task_id ≡ strip task_id
  pub accepted :
      (x : RefreshResult) → r.0 ≡ returned x → Accepted show (strip task_id) (strip name) x.data'

refuse-Polled :
    (show : Value → Text) (settings : RefreshSettings) (task_id name : Text) (before : ℕ)
    (r : Outcome FlowError RefreshResult × World)
    → Promise show (strip task_id) (strip name) (max_zero settings.max_refresh_polls) 0 before r
    → Polled show settings task_id name before (refuse show r)
refuse-Polled show settings task_id name before (raised e, w) p = record {
  at_most = p.at_most;
  counted = λ x h. cc;
  named = λ x h. cc;
  accepted = λ x h. cc;
}
refuse-Polled show settings task_id name before (returned y, w) p = record {
  at_most = p.at_most;
  counted = λ x h. omega (arith, p.counted x (relabel x h));
  named = λ x h. p.named x (relabel x h);
  accepted = λ x h. p.accepted x (relabel x h);
}
  where
    relabel :
        (x : RefreshResult)
        → ◌≡◌ {A = Outcome Refusal RefreshResult} (returned y) (returned x)
        → ◌≡◌ {A = Outcome FlowError RefreshResult} (returned y) (returned x)
    relabel x h = cc

-- Whatever the clock and the Performance API answer, polling ends after at most the configured
-- number of reads of the run. A result that it returns counts the reads it made, carries the task
-- asked for, and its data are of that task, with the status `completed`, the expected factor among
-- the completed ones and all task units completed without a problem.
pub poll_performance_refresh-Polled :
    (show : Value → Text) (settings : RefreshSettings) (task_id name : Text) (w : World)
    → Polled show settings task_id name
        (gets w.log)
        (poll_performance_refresh show settings task_id name w)
unfolding poll_performance_refresh
poll_performance_refresh-Polled show settings task_id name w =
    if_ind (Polled show settings task_id name (gets w.log))
      (text_eq (strip task_id) [] || text_eq (strip name) []) {x = (raised blank_argument, w)}
      {y = refuse show (polling w)}
      (λ _. record {
        at_most = omega arith;
        counted = λ x h. cc;
        named = λ x h. cc;
        accepted = λ x h. cc;
      })
      (λ _. refuse-Polled show settings task_id name (gets w.log) (polling w) (
        start_polling-Keeps show (strip task_id) (strip name) (max_zero settings.max_refresh_polls)
          (max_zero settings.refresh_poll_interval) (max_zero settings.refresh_poll_timeout) w))
  where
    polling : Poll RefreshResult
    polling =
        start_polling show (strip task_id) (strip name) (max_zero settings.max_refresh_polls)
          (max_zero settings.refresh_poll_interval) (max_zero settings.refresh_poll_timeout)
