-- ===== src/Api/Http.antt =====
-- api/client.py: `HTTPClient`. The HTTP session is outside: each request is logged, and a script
-- answers it with a status or with a `RequestException`. A backoff is a whole number of some unit.
pub mod Attempts
pub mod Requests
pub mod Headers
mod Examples
use quest_test.Prelude.{
  ℕ, zero, suc, ◌+◌, ◌*◌, List, [], ◌∷◌, ◌++◌, Option, none, some, Bool, true, false, not, ◌&&◌,
  if◌then◌else◌, ltb, ◌==◌, length, any, Text, chars, text_eq, one_of, upper, lower, strip_left, ℤ,
  pos, negsuc, max_zero,
}
use quest_test.Effect.{Outcome, returned, raised, Action, pure, raise, ◌>>=◌, ◌>>◌}

pub record ApiSettings : Type 0 where
  pub base_url : Text
  pub retry_attempts : ℤ
  pub retry_backoff : ℤ
  pub auth_token : Option Text

abbrev pub HeaderList : Type 0
HeaderList = List (Text × Text)

-- What `request` is called with; `B` is the type of bodies.
pub record Request (B : Type 0) : Type 0 where
  pub method : Text
  pub path : Text
  pub json_body : Option B
  pub raw_body : Option B
  pub headers : HeaderList
  pub retryable : Option Bool
  pub include_authentication : Bool

-- What the session is called with.
pub record Sent (B : Type 0) : Type 0 where
  pub method : Text
  pub url : Text
  pub headers : HeaderList
  pub json_body : Option B
  pub raw_body : Option B

pub data Event (B : Type 0) : Type 0 where
  send : Sent B → Event B
  sleep : ℕ → Event B

pub data Answer : Type 0 where
  status : ℕ → Answer
  request_exception : ℕ → Answer

pub data Error : Type 0 where
  request_error : ℕ → Error
  exclusive_bodies base_url_missing exhausted : Error

pub record Session (B : Type 0) : Type 0 where
  pub log : List (Event B)
  pub script : ℕ → Answer

unfoldable pub is_retryable_status : ℕ → Bool
is_retryable_status s = any (λ code. s == code) (408 ∷ 429 ∷ 500 ∷ 502 ∷ 503 ∷ 504 ∷ [])

unfoldable pub is_idempotent_method : Text → Bool
is_idempotent_method =
    one_of (chars "GET" ∷ chars "HEAD" ∷ chars "OPTIONS" ∷ chars "PUT" ∷ chars "DELETE" ∷ [])

-- `_should_retry`
unfoldable pub should_retry : Bool → ℕ → ℕ → Bool
should_retry retryable attempt attempts = retryable && ltb (attempt + 1) attempts

-- `path.lstrip("/")`
abbrev pub strip_slashes : Text → Text
strip_slashes = strip_left (λ c. c == b'/')

-- `_build_url`
unfoldable pub build_url : Text → Text → Option Text
build_url [] path = none
build_url (c ∷ base) path = some ((c ∷ base) ++ (b'/' ∷ strip_slashes path))

-- `result[name] = value`
unfoldable pub set_header : Text → Text → HeaderList → HeaderList
set_header name value [] = (name, value) ∷ []
set_header name value ((n, v) ∷ hs) =
    if text_eq n name then (name, value) ∷ hs else (n, v) ∷ set_header name value hs

-- `result.update(headers)`
unfoldable pub update_headers : HeaderList → HeaderList → HeaderList
unfolding set_header
update_headers result [] = result
update_headers result ((n, v) ∷ hs) = update_headers (set_header n v result) hs

-- `if self._settings.auth_token:`, an empty token being none
unfoldable pub authorize : Option Text → HeaderList → HeaderList
unfolding set_header
authorize none hs = hs
authorize (some []) hs = hs
authorize (some (c ∷ token)) hs =
    set_header (chars "Authorization") (chars "Bearer " ++ (c ∷ token)) hs

-- `_build_headers`
unfoldable pub build_headers : Option Text → HeaderList → HeaderList
unfolding update_headers authorize
build_headers token headers =
    update_headers (authorize token ((chars "Accept", chars "application/json") ∷ [])) headers

-- `key.casefold() != "authorization"`
abbrev pub is_authorization : Text → Bool
is_authorization name = text_eq (lower name) (chars "authorization")

unfoldable pub drop_authorization : HeaderList → HeaderList
drop_authorization [] = []
drop_authorization ((n, v) ∷ hs) =
    if is_authorization n then drop_authorization hs else (n, v) ∷ drop_authorization hs

abbrev pub Http : Type 0 → Type 0 → Type 0
Http B A = Action (Session B) Error A

abbrev outcome_of : Answer → Outcome Error ℕ
outcome_of (status s) = returned s
outcome_of (request_exception n) = raised (request_error n)

abbrev pub attempts_of : ApiSettings → ℕ
attempts_of settings = suc (max_zero settings.retry_attempts)

abbrev pub is_retryable : Option Bool → Text → Bool
is_retryable none method = is_idempotent_method method
is_retryable (some b) method = b

module _ {B : Type 0} where
  -- `self._session.request(...)`, which returns a response with its status or raises
  unfoldable pub send_once : Sent B → Http B ℕ
  send_once r session = (
    outcome_of (session.script (length session.log)),
    record session { log = session.log ++ (send r ∷ []) },
  )

  -- `_sleep_before_retry`
  unfoldable pub sleep_before_retry : ℤ → ℕ → Http B (Unit {0})
  sleep_before_retry (negsuc n) attempt session = (returned tt, session)
  sleep_before_retry (pos zero) attempt session = (returned tt, session)
  sleep_before_retry (pos (suc n)) attempt session =
      (returned tt, record session { log = session.log ++ (sleep (suc n * (attempt + 1)) ∷ []) })

  -- `continue` in the loop, or what the attempt gave
  abbrev pub again_if : Bool → Http B ℕ → Outcome Error ℕ × Session B → Outcome Error ℕ × Session B
  again_if true again (o, session) = again session
  again_if false again r = r

  -- What follows one attempt: `again` sleeps and goes on with the loop.
  unfoldable pub after_attempt :
      Bool → Http B ℕ → Outcome Error ℕ × Session B → Outcome Error ℕ × Session B
  unfolding is_retryable_status
  after_attempt retry again (returned s, session) =
      again_if (is_retryable_status s && retry) again (returned s, session)
  after_attempt retry again (raised e, session) = again_if retry again (raised e, session)

  -- `for attempt in range(attempts)`, by the number of attempts that are left
  unfoldable pub attempt_loop : ApiSettings → Bool → ℕ → Sent B → ℕ → ℕ → Http B ℕ
  unfolding send_once sleep_before_retry after_attempt should_retry
  attempt_loop settings retryable attempts r zero attempt session = (raised exhausted, session)
  attempt_loop settings retryable attempts r (suc left) attempt session =
      let again =
        sleep_before_retry settings.retry_backoff attempt
        >> attempt_loop settings retryable attempts r left (attempt + 1) in
      after_attempt (should_retry retryable attempt attempts) again (send_once r session)

  unfoldable pub request_headers : ApiSettings → Request B → HeaderList
  unfolding build_headers drop_authorization
  request_headers settings request =
      let headers = build_headers settings.auth_token request.headers in
      if request.include_authentication then headers else drop_authorization headers

  -- `raw_body is not None and json_body is not None`
  abbrev pub has_both : Option B → Option B → Bool
  has_both (some raw) (some json) = true
  has_both _ _ = false

  send_to : ApiSettings → Request B → Option Text → Http B ℕ
  unfolding attempt_loop request_headers
  send_to settings request none = raise base_url_missing
  send_to settings request (some url) =
      let method = upper request.method in
      attempt_loop settings (is_retryable request.retryable method) (attempts_of settings)
        (record {
          method = method;
          url = url;
          headers = request_headers settings request;
          json_body = request.json_body;
          raw_body = request.raw_body;
        })
        (attempts_of settings) 0

  -- `HTTPClient.request`
  unfoldable pub request_http : ApiSettings → Request B → Http B ℕ
  unfolding send_to build_url
  request_http settings request =
      if has_both request.raw_body request.json_body
      then raise exclusive_bodies
      else send_to settings request (build_url settings.base_url request.path)
