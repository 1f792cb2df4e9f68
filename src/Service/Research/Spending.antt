-- ===== src/Service/Research/Spending.antt =====
-- What the statements of the research flow spend: the weight of the calls they add to the log, and
-- which exceptions they may raise.
use quest_test.Prelude.{
  ℕ, zero, suc, ◌+◌, ◌≤◌, ◌≡◌, refl, subst, Bool, true, false, if◌then◌else◌, List, [], ◌∷◌, ◌++◌,
  arith, length, length-append, ℤ, pos, negsuc,
}
use quest_test.Effect.{Outcome, returned, raised, ◌>>=◌, go_on}
use quest_test.Service.Flow.{FlowError, Flow, Response, request_exception, response}
use quest_test.Service.Research.{
  Event, Failure, flow_error, Step, flow_step, record_event, Answer, Environment, call_flow_request,
  request, query_form, monotonic, sleep_for_poll_retry, read_clock, sleep, get_form,
}
use quest_test.Service.Research.Watching.{read_then}

module _ (weigh : Event → ℕ) (Allowed : Failure → Type 0) where
  abbrev pub total : List Event → ℕ
  total [] = 0
  total (e ∷ es) = weigh e + total es

  pub total-++ : (es fs : List Event) → total (es ++ fs) ≡ total es + total fs
  total-++ [] fs = omega arith
  total-++ (e ∷ es) fs = omega (arith, total-++ es fs)

  pub record Spent {A : Type 0} (k : ℕ) (log : List Event) (r : Outcome Failure A × List Event)
      : Type 0 where
    pub at_most : total r.1 ≤ total log + k
    pub grows : length log ≤ length r.1
    pub allowed : (e : Failure) → r.0 ≡ raised e → Allowed e

  abbrev pub Keeps : {A : Type 0} → ℕ → Step A → Type 0
  Keeps k m = (log : List Event) → Spent k log (m log)

  module _ {A : Type 0} where
    pub returned-Spent : (k : ℕ) (log : List Event) (a : A) → Spent {A = A} k log (returned a, log)
    returned-Spent k log a = record {
      at_most = omega arith;
      grows = omega arith;
      allowed = λ e h. cc;
    }

    raised_inv : (e d : Failure) → ◌≡◌ {A = Outcome Failure A} (raised e) (raised d) → e ≡ d
    raised_inv e d h = cc

    pub raised-Spent :
        (k : ℕ) (log : List Event) (e : Failure) → Allowed e → Spent {A = A} k log (raised e, log)
    raised-Spent k log e ok = record {
      at_most = omega arith;
      grows = omega arith;
      allowed = λ d h. subst Allowed (raised_inv e d h) ok;
    }

    pub event-Spent :
        (k : ℕ) (log : List Event) (e : Event) (r : Outcome Failure A)
        → weigh e ≤ k
        → ((d : Failure) → r ≡ raised d → Allowed d)
        → Spent {A = A} k log (r, log ++ (e ∷ []))
    event-Spent k log e r light ok = record {
      at_most = rw (total-++ log (e ∷ [])) (omega (arith, light));
      grows = rw (length-append log (e ∷ [])) (omega arith);
      allowed = ok;
    }

    pub more-Spent :
        (j k : ℕ) (log : List Event) (r : Outcome Failure A × List Event)
        → j ≤ k
        → Spent {A = A} j log r
        → Spent {A = A} k log r
    more-Spent j k log r h s = record {
      at_most = omega (arith, s.at_most, h);
      grows = s.grows;
      allowed = s.allowed;
    }

    pub if-Keeps :
        (k : ℕ) (b : Bool) (m n : Step A)
        → (b ≡ true → Keeps k m)
        → (b ≡ false → Keeps k n)
        → Keeps k (if b then m else n)
    if-Keeps k true m n p q = p refl
    if-Keeps k false m n p q = q refl

  module _ {A B : Type 0} where
    pub after-Spent :
        (j k : ℕ) (log : List Event) (r : Outcome Failure A × List Event)
        (s : Outcome Failure B × List Event)
        → Spent j log r
        → Spent k r.1 s
        → Spent (j + k) log s
    after-Spent j k log r s first next = record {
      at_most = omega (arith, first.at_most, next.at_most);
      grows = omega (arith, first.grows, next.grows);
      allowed = next.allowed;
    }

    pub go_on-Spent :
        (j k : ℕ) (log : List Event) (r : Outcome Failure A × List Event) (f : A → Step B)
        → Spent j log r
        → ((a : A) (later : List Event) → length log ≤ length later → Spent k later (f a later))
        → Spent (j + k) log (go_on r f)
    go_on-Spent j k log (returned a, later) f first next =
        after-Spent j k log (returned a, later) (f a later) first (next a later first.grows)
    go_on-Spent j k log (raised e, later) f first next =
        after-Spent j k log (raised e, later) (raised e, later) first
          (raised-Spent k later e (first.allowed e refl))

    pub bind-Keeps :
        (j k : ℕ) (m : Step A) (f : A → Step B)
        → Keeps j m
        → ((a : A) → Keeps k (f a))
        → Keeps (j + k) (m >>= f)
    bind-Keeps j k m f first next log =
        go_on-Spent j k log (m log) f (first log) (λ a later _. next a later)

  -- The same for steps that weigh nothing before.
  module _ {A B : Type 0} where
    pub quiet-Keeps :
        (k : ℕ) (m : Step A) (f : A → Step B)
        → Keeps 0 m
        → ((a : A) → Keeps k (f a))
        → Keeps k (m >>= f)
    quiet-Keeps k m f first next log =
        more-Spent (0 + k) k log (go_on (m log) f) (omega arith) (bind-Keeps 0 k m f first next log)

    pub read_then-Keeps :
        (env : Environment) (j k : ℕ)
        (after : Outcome Failure A × List Event → Outcome Failure B × List Event) (m : Step A)
        → Keeps j m
        → ((r : Outcome Failure A × List Event)
            → ((e : Failure) → r.0 ≡ raised e → Allowed e)
            → Spent k r.1 (after r))
        → Keeps (j + k) (read_then env after m)
    read_then-Keeps env j k after m first next log =
        after-Spent j k log (m log) (after (m log)) (first log) (next (m log) (first log).allowed)

  module _ (ok : (e : FlowError) → Allowed (flow_error e)) where
    flow_error_inv :
        {A : Type 0} (e : FlowError) (d : Failure)
        → ◌≡◌ {A = Outcome Failure A} (raised (flow_error e)) (raised d)
        → flow_error e ≡ d
    flow_error_inv e d h = cc

    pub flow_step-Keeps : {A : Type 0} (k : ℕ) (m : Flow A) → Keeps k (flow_step m)
    flow_step-Keeps k (returned a) log = returned-Spent k log a
    flow_step-Keeps k (raised e) log = raised-Spent k log (flow_error e) (ok e)

    call-allowed : (r : Response) (d : Failure) → call_flow_request r ≡ raised d → Allowed d
    unfolding call_flow_request
    call-allowed request_exception d h = subst Allowed (flow_error_inv {A = Answer} _ d h) (ok _)
    call-allowed (response code body) d h = cc

    pub request-Keeps :
        (env : Environment) (k : ℕ) (e : Event) → weigh e ≤ k → Keeps k (request env e)
    unfolding request
    request-Keeps env k e light log =
        event-Spent k log e (call_flow_request (env.answers (length log))) light
          (call-allowed (env.answers (length log)))

  pub record-Keeps : (k : ℕ) (e : Event) → weigh e ≤ k → Keeps k (record_event e)
  record-Keeps k e light log = event-Spent k log e (returned tt) light (λ d h. cc)

  pub monotonic-Keeps : (env : Environment) → weigh read_clock ≡ 0 → Keeps 0 (monotonic env)
  unfolding monotonic
  monotonic-Keeps env light log =
      event-Spent 0 log read_clock (returned (env.clock (length log))) (omega (arith, light))
        (λ d h. cc)

  pub query_form-Keeps :
      (env : Environment) (n : ℕ) → weigh (get_form n) ≡ 0 → Keeps 0 (query_form env n)
  unfolding query_form
  query_form-Keeps env n light log =
      event-Spent 0 log (get_form n) (returned (env.forms (length log))) (omega (arith, light))
        (λ d h. cc)

  pub sleep-Keeps : (n : ℤ) → ((m : ℕ) → weigh (sleep m) ≡ 0) → Keeps 0 (sleep_for_poll_retry n)
  unfolding sleep_for_poll_retry
  sleep-Keeps (pos (suc n)) light log =
      event-Spent 0 log (sleep (suc n)) (returned tt) (omega (arith, light (suc n))) (λ d h. cc)
  sleep-Keeps (pos zero) light log = returned-Spent 0 log tt
  sleep-Keeps (negsuc n) light log = returned-Spent 0 log tt
