-- ===== src/Api/Http/Examples.antt =====
-- Requests over small sessions.
use quest_test.Prelude.{ℕ, ◌≡◌, refl, ◌∷◌, [], true, false, none, some, chars, pos}
use quest_test.Api.Http.{
  ApiSettings, Request, status, Session, request_http, request_headers, is_idempotent_method,
}
use quest_test.Api.Http.Requests.{Bounded, request_http-Bounded}
use quest_test.Api.Http.Attempts.{sends}
use quest_test.Api.Http.Headers.{header, request_headers-header}

abbrev settings : ApiSettings
settings = record {
  base_url = chars "http://h";
  retry_attempts = pos 2;
  retry_backoff = pos 1;
  auth_token = some (chars "t");
}

abbrev get_status : Request ℕ
get_status = record {
  method = chars "get";
  path = chars "//status";
  json_body = none;
  raw_body = none;
  headers = (chars "AUTHORIZATION", chars "x") ∷ [];
  retryable = none;
  include_authentication = false;
}

-- A server that is always unavailable.
abbrev down : Session ℕ
down = record { log = []; script = λ _. status 503 }

three_attempts : sends (request_http settings get_status down).1.log ≡ 3
unfolding request_http is_idempotent_method
three_attempts = refl

request_http-Bounded_example :
    Bounded settings get_status down (request_http settings get_status down)
request_http-Bounded_example = request_http-Bounded settings get_status down

abbrev get_open : Request ℕ
get_open = record get_status { headers = []; include_authentication = true }

request_headers-header_example :
    header (chars "Authorization") (request_headers settings get_open) ≡ some (chars "Bearer t")
request_headers-header_example = request_headers-header settings get_open (chars "Authorization")
