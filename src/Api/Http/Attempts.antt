-- ===== src/Api/Http/Attempts.antt =====
-- The retry loop of the HTTP client: how often it sends, and what it gives back.
use quest_test.Prelude.{
  ℕ, zero, suc, ◌+◌, ◌≤◌, ◌<◌, ◌≡◌, ◌≢◌, refl, ap, ◌∙◌, sym, subst, List, [], ◌∷◌, ◌++◌, Bool, true,
  false, ◌&&◌, ◌⊎◌, inl, inr, arith, length, ℤ, pos, negsuc, and_true,
}
use quest_test.Effect.{Outcome, returned, raised, ◌>>◌, go_on}
use quest_test.Api.Http.{
  ApiSettings, Sent, Event, send, sleep, Answer, status, request_exception, outcome_of, Error,
  exhausted, Session, Http, is_retryable_status, should_retry, send_once, sleep_before_retry,
  after_attempt, again_if, attempt_loop,
}

no_retry :
    (f : ℕ → Bool) (s t : ℕ) (retry : Bool)
    → ◌≡◌ {A = Outcome Error ℕ} (returned s) (returned t)
    → f t ≡ true
    → (f s && retry) ≡ false
    → retry ≡ false
no_retry f s t retry e h k = ground arith

may_retry :
    (retryable : Bool) (attempt attempts : ℕ)
    → should_retry retryable attempt attempts ≡ true
    → (retryable ≡ true) × (attempt + 1 < attempts)
unfolding should_retry
may_retry retryable attempt attempts h = ground arith

no_more :
    (retryable : Bool) (left attempt attempts : ℕ)
    → attempt + suc left ≡ attempts
    → should_retry retryable attempt attempts ≡ false
    → (retryable ≡ false) ⊎ (left ≡ 0)
unfolding should_retry
no_more false left attempt attempts e h = inl refl
no_more true left attempt attempts e h = inr (ground arith)

outcome_of-ne-exhausted : (a : Answer) → outcome_of a ≢ raised exhausted
outcome_of-ne-exhausted (status s) e = cc
outcome_of-ne-exhausted (request_exception n) e = cc

module _ {B : Type 0} where
  -- How many requests the log holds.
  abbrev pub sends : List (Event B) → ℕ
  sends [] = 0
  sends (send r ∷ es) = suc (sends es)
  sends (sleep d ∷ es) = sends es

  sends-send : (es : List (Event B)) (r : Sent B) → sends (es ++ (send r ∷ [])) ≡ suc (sends es)
  sends-send [] r = refl
  sends-send (send q ∷ es) r = ap suc (sends-send es r)
  sends-send (sleep d ∷ es) r = sends-send es r

  sends-sleep : (es : List (Event B)) (d : ℕ) → sends (es ++ (sleep d ∷ [])) ≡ sends es
  sends-sleep [] d = refl
  sends-sleep (send q ∷ es) d = ap suc (sends-sleep es d)
  sends-sleep (sleep e ∷ es) d = sends-sleep es d

  -- What the loop promises of its result, with `left` attempts to go: it sends at most `left`
  -- requests, and gives a retryable status back only if it may not retry or has sent them all.
  pub record Promise (retryable : Bool) (left before : ℕ) (r : Outcome Error ℕ × Session B)
      : Type 0 where
    pub at_least : suc before ≤ sends r.1.log
    pub at_most : sends r.1.log ≤ before + left
    pub once : retryable ≡ false → sends r.1.log ≡ suc before
    pub retried :
        (s : ℕ)
        → r.0 ≡ returned s
        → is_retryable_status s ≡ true
        → (retryable ≡ false) ⊎ (sends r.1.log ≡ before + left)
    pub not_exhausted : r.0 ≢ raised exhausted

  sleep_before_retry-sends :
      (b : ℤ) (k : ℕ) (s : Session B)
      → ((sleep_before_retry b k s).0 ≡ returned tt)
        × (sends (sleep_before_retry b k s).1.log ≡ sends s.log)
  unfolding sleep_before_retry
  sleep_before_retry-sends (negsuc n) k s = (refl, refl)
  sleep_before_retry-sends (pos zero) k s = (refl, refl)
  sleep_before_retry-sends (pos (suc n)) k s = (refl, sends-sleep s.log _)

  go_on-returned :
      (x : Outcome Error (Unit {0}) × Session B) (f : Http B ℕ)
      → x.0 ≡ returned tt
      → go_on x (λ _. f) ≡ f x.1
  go_on-returned (returned u, w) f e = refl
  go_on-returned (raised e', w) f e = cc

  module _ (retryable : Bool) (left before : ℕ) where
    stop-Promise :
        (o : Outcome Error ℕ) (w : Session B)
        → sends w.log ≡ suc before
        → o ≢ raised exhausted
        → ((s : ℕ)
            → o ≡ returned s
            → is_retryable_status s ≡ true
            → (retryable ≡ false) ⊎ (left ≡ 0))
        → Promise retryable (suc left) before (o, w)
    stop-Promise o w sent other last = record {
      at_least = omega arith;
      at_most = omega arith;
      once = λ _. sent;
      retried =
          λ s e h. elim (last s e h) [ inl never ↦ inl never | inr none_left ↦ inr (omega arith) ];
      not_exhausted = other;
    }

    again_if-Promise :
        (c : Bool) (again : Http B ℕ) (o : Outcome Error ℕ) (w : Session B)
        → (c ≡ true → Promise retryable (suc left) before (again w))
        → (c ≡ false → Promise retryable (suc left) before (o, w))
        → Promise retryable (suc left) before (again_if c again (o, w))
    again_if-Promise true again o w more last = more refl
    again_if-Promise false again o w more last = last refl

    after-Promise :
        (retry : Bool) (again : Http B ℕ) (o : Outcome Error ℕ) (w : Session B)
        → sends w.log ≡ suc before
        → o ≢ raised exhausted
        → (retry ≡ true → Promise retryable (suc left) before (again w))
        → (retry ≡ false → (retryable ≡ false) ⊎ (left ≡ 0))
        → Promise retryable (suc left) before (after_attempt retry again (o, w))
    after-Promise retry again (raised e) w sent other more last =
        unfold after_attempt in
        again_if-Promise retry again (raised e) w more
          (λ h. stop-Promise (raised e) w sent other (λ s e h'. last h))
    after-Promise retry again (returned s) w sent other more last =
        unfold after_attempt in
        again_if-Promise (is_retryable_status s && retry) again (returned s) w
          (λ h. more (and_true (is_retryable_status s) retry h).1)
          (λ h.
            stop-Promise (returned s) w sent other
              (λ t e h'. last (no_retry is_retryable_status s t retry e h' h)))

  widen-Promise :
      (left before : ℕ) (r : Outcome Error ℕ × Session B)
      → Promise true left (suc before) r
      → Promise true (suc left) before r
  widen-Promise left before r p = record {
    at_least = omega arith;
    at_most = omega (arith, p.at_most);
    once = λ h. cc;
    retried = λ s e h. elim (p.retried s e h) [ inl never ↦ cc | inr all ↦ inr (omega arith) ];
    not_exhausted = p.not_exhausted;
  }

  again-Promise :
      (b : ℤ) (k left before : ℕ) (loop : Http B ℕ) (w : Session B)
      → sends w.log ≡ suc before
      → ((v : Session B) → Promise true (suc left) (sends v.log) (loop v))
      → Promise true (suc (suc left)) before ((sleep_before_retry b k >> loop) w)
  again-Promise b k left before loop w sent h =
      let (done, same) = sleep_before_retry-sends b k w in
      let v = (sleep_before_retry b k w).1 in
      rw (go_on-returned (sleep_before_retry b k w) loop done) (
        widen-Promise (suc left) before (loop v)
          (subst (λ n. Promise true (suc left) n (loop v)) (same ∙ sent) (h v)))

  send_once-other : (r : Sent B) (s : Session B) → (send_once r s).0 ≢ raised exhausted
  unfolding send_once
  send_once-other r s = outcome_of-ne-exhausted (s.script (length s.log))

  send_once-sends : (r : Sent B) (s : Session B) → sends (send_once r s).1.log ≡ suc (sends s.log)
  unfolding send_once
  send_once-sends r s = sends-send s.log r

  module _ (settings : ApiSettings) (retryable : Bool) (attempts : ℕ) (r : Sent B) where
    pub loop-Promise :
        (left attempt : ℕ) (s : Session B)
        → attempt + suc left ≡ attempts
        → Promise retryable
            (suc left)
            (sends s.log)
            (attempt_loop settings retryable attempts r (suc left) attempt s)
    unfolding attempt_loop
    loop-Promise zero attempt s e =
        after-Promise retryable zero (sends s.log) (should_retry retryable attempt attempts) _
          (send_once r s).0 (send_once r s).1 (send_once-sends r s) (send_once-other r s)
          (λ h. absurd (omega (arith, (may_retry retryable attempt attempts h).1)))
          (no_more retryable zero attempt attempts e)
    loop-Promise (suc left) attempt s e =
        after-Promise retryable (suc left) (sends s.log) (should_retry retryable attempt attempts) _
          (send_once r s).0 (send_once r s).1 (send_once-sends r s) (send_once-other r s)
          (λ h.
            let able = (may_retry retryable attempt attempts h).0 in
            let loop = attempt_loop settings retryable attempts r (suc left) (attempt + 1) in
            let again = sleep_before_retry settings.retry_backoff attempt >> loop in
            subst (λ b. Promise b (suc (suc left)) (sends s.log) (again (send_once r s).1))
              (sym able)
              (again-Promise settings.retry_backoff attempt left (sends s.log) loop
                (send_once r s).1 (send_once-sends r s)
                (λ v.
                  subst (λ b. Promise b (suc left) (sends v.log) (loop v)) able
                    (loop-Promise left (attempt + 1) v (omega arith)))))
          (no_more retryable (suc left) attempt attempts e)
