-- ===== src/Api/Http/Requests.antt =====
-- What the HTTP client promises of a whole request.
use quest_test.Prelude.{
  ℕ, suc, ◌+◌, ◌≤◌, ◌≡◌, ◌≢◌, Option, none, some, Bool, true, false, ◌⊎◌, arith, max_zero, if_ind,
  Text, upper,
}
use quest_test.Effect.{Outcome, returned, raised}
use quest_test.Api.Http.{
  ApiSettings, Request, has_both, build_url, Error, exhausted, Session, Http, is_retryable_status,
  attempts_of, is_retryable, request_http, send_to, base_url_missing, exclusive_bodies,
}
use quest_test.Api.Http.Attempts.{Promise, loop-Promise, sends}

module _ {B : Type 0} where
  module _ (settings : ApiSettings) (request : Request B) (s : Session B) where
    abbrev pub can_repeat : Bool
    can_repeat = is_retryable request.retryable (upper request.method)

    -- What `request` promises, whatever the session answers: at most `max(retry_attempts, 0) + 1`
    -- requests are sent, and only one if the request is not retryable; a status that calls for a
    -- retry is returned only for a request that is not retryable or after the last attempt; and
    -- the error at the end of the method is never reached.
    pub record Bounded (r : Outcome Error ℕ × Session B) : Type 0 where
      pub at_most : sends r.1.log ≤ sends s.log + attempts_of settings
      pub once : can_repeat ≡ false → sends r.1.log ≤ suc (sends s.log)
      pub retried :
          (code : ℕ)
          → r.0 ≡ returned code
          → is_retryable_status code ≡ true
          → (can_repeat ≡ false) ⊎ (sends r.1.log ≡ sends s.log + attempts_of settings)
      pub not_exhausted : r.0 ≢ raised exhausted

    Bounded-raised : (e : Error) → e ≢ exhausted → Bounded (raised e, s)
    Bounded-raised e other = record {
      at_most = omega arith;
      once = λ h. omega arith;
      retried = λ code h k. absurd (cc);
      not_exhausted = λ h. other (ground arith);
    }

    Bounded-Promise :
        (r : Outcome Error ℕ × Session B)
        → Promise can_repeat (attempts_of settings) (sends s.log) r
        → Bounded r
    Bounded-Promise r p = record {
      at_most = p.at_most;
      once = λ h. omega (arith, p.once h);
      retried = p.retried;
      not_exhausted = p.not_exhausted;
    }

    send_to-Bounded : (o : Option Text) → Bounded (send_to settings request o s)
    unfolding send_to
    send_to-Bounded none = Bounded-raised base_url_missing (λ h. cc)
    send_to-Bounded (some url) = Bounded-Promise _ (
        loop-Promise settings can_repeat (attempts_of settings) _ (max_zero settings.retry_attempts)
          0 s (omega arith))

    -- Every request keeps these bounds.
    pub request_http-Bounded : Bounded (request_http settings request s)
    unfolding request_http
    request_http-Bounded =
        if_ind (λ (m : Http B ℕ). Bounded (m s)) (has_both request.raw_body request.json_body)
          (λ _. Bounded-raised exclusive_bodies (λ h. cc))
          (λ _. send_to-Bounded (build_url settings.base_url request.path))
