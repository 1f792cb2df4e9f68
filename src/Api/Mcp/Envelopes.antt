-- ===== src/Api/Mcp/Envelopes.antt =====
-- What an envelope that is accepted is.
use quest_test.Prelude.{
  ℕ, ◌≡◌, refl, ap, Bool, true, false, not, ◌||◌, or_false, and_true, Option, none, some, Text, ℤ,
  if◌then◌else◌, leb, ltb, subst,
}
use quest_test.Effect.{returned, raised, passed_guard}
use quest_test.Json.{Value, null, bool, int, float, str, arr, obj, Fields, get, get_or_null}
use quest_test.Api.Mcp.{
  RequestId, protocol_error, Mcp, then_do, HttpResponse, has, is_some, is_version, xor, same_id,
  validate_envelope, read_envelope, parse_response, require_success_status, raise_error_value,
  raise_json_rpc_error,
}

not-false : (b : Bool) → not b ≡ false → b ≡ true
not-false true h = refl
not-false false h = cc

-- Of a `result` and an `error`, exactly one.
xor-only : (a b : Bool) → xor a b ≡ true → b ≡ false → a ≡ true
xor-only true b h e = refl
xor-only false b h e = absurd (apart b h e)
  where
    apart : (b : Bool) → b ≡ true → b ≡ false → ⊥
    apart true h e = cc
    apart false h e = cc

pub then_do-inv :
    {A B : Type 0} (m : Mcp A) (f : A → Mcp B) (b : B)
    → then_do m f ≡ returned b
    → (a : A) × (m ≡ returned a) × (f a ≡ returned b)
then_do-inv (returned a) f b h = (a, refl, h)
then_do-inv (raised e) f b h = cc

module _ (float_is : Text → ℤ → Bool) where
  -- An envelope that answers the request: of version 2.0, with its id and a result, and no error.
  pub record Answers (id : RequestId) (envelope : Fields) : Type 0 where
    pub version : is_version (get_or_null "jsonrpc" envelope) ≡ true
    pub with_id : same_id float_is id (get_or_null "id" envelope) ≡ true
    pub with_result : has "result" envelope ≡ true
    pub without_error : has "error" envelope ≡ false

  raise_error_value-none :
      (envelope : Fields) (v : Option Value) → raise_error_value envelope v ≡ returned tt → v ≡ none
  raise_error_value-none envelope none h = refl
  raise_error_value-none envelope (some (obj f)) h = cc
  raise_error_value-none envelope (some null) h = cc
  raise_error_value-none envelope (some (bool b)) h = cc
  raise_error_value-none envelope (some (int n)) h = cc
  raise_error_value-none envelope (some (float t)) h = cc
  raise_error_value-none envelope (some (str s)) h = cc
  raise_error_value-none envelope (some (arr a)) h = cc

  raise_json_rpc_error-none :
      (envelope : Fields)
      → raise_json_rpc_error envelope ≡ returned tt
      → has "error" envelope ≡ false
  unfolding raise_json_rpc_error has
  raise_json_rpc_error-none envelope h =
      ap is_some (raise_error_value-none envelope (get "error" envelope) h)

  -- An envelope that passes `_validate_envelope` and carries no error answers the request.
  pub validate_envelope-Answers :
      (id : RequestId) (envelope : Fields)
      → validate_envelope float_is envelope id ≡ returned tt
      → raise_json_rpc_error envelope ≡ returned tt
      → Answers id envelope
  unfolding validate_envelope
  validate_envelope-Answers id envelope h no_raise =
      let (a, h1) =
        passed_guard (not (is_version (get_or_null "jsonrpc" envelope)))
          (protocol_error "response does not declare jsonrpc 2.0") _ tt h in
      let (b, h2) =
        passed_guard
          (not (has "id" envelope) || not (same_id float_is id (get_or_null "id" envelope)))
          (protocol_error "response id does not match the request id") _ tt h1 in
      let (c, h3) =
        passed_guard (not (xor (has "result" envelope) (has "error" envelope)))
          (protocol_error "response must contain exactly one of result or error") _ tt h2 in
      let no_error = raise_json_rpc_error-none envelope no_raise in
      record {
        version = not-false _ a;
        with_id =
            not-false _
              (or_false (not (has "id" envelope))
                (not (same_id float_is id (get_or_null "id" envelope))) b).1;
        with_result =
            xor-only (has "result" envelope) (has "error" envelope) (not-false _ c) no_error;
        without_error = no_error;
      }

  pub parse_response-valid :
      (decode : Text → Option Value) (r : HttpResponse) (id : RequestId) (envelope : Fields)
      → parse_response float_is decode r id ≡ returned envelope
      → validate_envelope float_is envelope id ≡ returned tt
  unfolding parse_response
  parse_response-valid decode r id envelope h =
      let (e, read, rest) = then_do-inv (read_envelope float_is decode r id) _ envelope h in
      let (u, valid, same) =
        then_do-inv (validate_envelope float_is e id) (λ _. returned e) envelope rest in
      subst (λ k. validate_envelope float_is k id ≡ returned tt) (returned_inv e envelope same)
        valid
    where
      returned_inv : (a b : Fields) → ◌≡◌ {A = Mcp Fields} (returned a) (returned b) → a ≡ b
      returned_inv a b h = cc

-- A status of success.
pub record IsSuccess (code : ℕ) : Type 0 where
  pub from : leb 200 code ≡ true
  pub below : ltb code 300 ≡ true

pub require_success_status-IsSuccess :
    (r : HttpResponse) → require_success_status r ≡ returned tt → IsSuccess r.status_code
unfolding require_success_status
require_success_status-IsSuccess r h =
    let (a, b) = and_true (leb 200 r.status_code) (ltb r.status_code 300) (passed _ h) in
    record { from = a; below = b }
  where
    passed :
        (b : Bool)
        → ◌≡◌ {A = Mcp (Unit {0})}
            (if b then returned tt else raised (protocol_error "HTTP status"))
            (returned tt)
        → b ≡ true
    passed true h = refl
    passed false h = cc
