-- ===== src/Service/Flow.antt =====
-- service/factor_combo_models.py and the response checks of service/factor_combo_service.py that the
-- polling loops and the research flow share. The details of an error are kept for the technical
-- failures, where the research flow reads them.
pub mod Refresh
use quest_test.Prelude.{
  ℕ, String, Text, chars, Bool, true, false, not, ◌&&◌, ◌||◌, Option, none, some, List, [], ◌∷◌,
  map, any, ◌==◌, if◌then◌else◌, one_of, strip, lower, replace_char, ◌≡◌, refl,
}
use quest_test.Effect.{Outcome, returned, raised, raised-returned}
use quest_test.Json.{Value, null, bool, str, obj, Fields, get, get_or_null, is_true}

pub data FlowOutcome : Type 0 where
  pass_registered pass_invalid fail_refresh fail_technical fail_contract : FlowOutcome

pub record FlowError : Type 0 where
  pub outcome : FlowOutcome
  pub message : String
  pub details : Value

abbrev pub failure : FlowOutcome → String → FlowError
failure outcome message = record { outcome = outcome; message = message; details = null }

abbrev pub failure_with : FlowOutcome → String → Value → FlowError
failure_with outcome message details = record {
  outcome = outcome;
  message = message;
  details = details;
}

abbrev pub Flow : Type 0 → Type 0
Flow A = Outcome FlowError A

-- What a request comes to: a network exception, or a status with its decoded body.
pub data Response : Type 0 where
  request_exception : Response
  response : ℕ → Value → Response

unfoldable pub is_transient : ℕ → Bool
is_transient code = any (λ c. code == c) (408 ∷ 429 ∷ 500 ∷ 502 ∷ 503 ∷ 504 ∷ [])

-- `outcome` of the two checks on the status in `_require_flow_data`
unfoldable pub status_outcome : ℕ → FlowOutcome
unfolding is_transient
status_outcome code = if is_transient code then fail_technical else fail_contract

unfoldable pub require_object : Value → Flow Fields
require_object (obj data') = returned data'
require_object v = raised (failure fail_contract "response data must be an object")

unfoldable pub require_envelope : ℕ → Value → Flow Fields
unfolding status_outcome require_object
require_envelope code (obj payload) =
    if is_true (get_or_null "success" payload)
    then require_object (get_or_null "data" payload)
    else raised (failure_with (status_outcome code) "unsuccessful JSON envelope" (obj payload))
require_envelope code v = raised (failure_with (status_outcome code) "unsuccessful JSON envelope" v)

-- `_require_flow_data`
unfoldable pub require_flow_data : List ℕ → ℕ → Value → Flow Fields
unfolding require_envelope
require_flow_data expected code payload =
    if not (any (λ c. code == c) expected)
    then raised (failure_with (status_outcome code) "unexpected HTTP status" payload)
    else require_envelope code payload

-- The statements after a check that may raise.
abbrev pub and_then : {A B : Type 0} → Flow A → (A → Flow B) → Flow B
and_then (returned a) next = next a
and_then (raised e) next = raised e

-- `if not condition: raise ...`
abbrev pub require : {A : Type 0} → Bool → FlowError → Flow A → Flow A
require true e next = next
require false e next = raised e

pub and_then_inv :
    {A B : Type 0} (m : Flow A) (next : A → Flow B) (b : B)
    → and_then m next ≡ returned b
    → (a : A) × (m ≡ returned a) × (next a ≡ returned b)
and_then_inv (returned a) next b h = (a, refl, h)
and_then_inv (raised e) next b h = absurd (raised-returned e b h)

pub require_inv :
    {A : Type 0} (holds : Bool) (e : FlowError) (next : Flow A) (a : A)
    → require holds e next ≡ returned a
    → (holds ≡ true) × (next ≡ returned a)
require_inv true e next a h = (refl, h)
require_inv false e next a h = absurd (raised-returned e a h)

abbrev pub is_technical : FlowOutcome → Bool
is_technical fail_technical = true
is_technical outcome = false

-- `_normalize_status`
unfoldable pub normalize_status : Value → Text
normalize_status (str s) = map replace_char (lower (strip s))
normalize_status v = []

-- `_required_boolean_or_failure`
unfoldable pub required_boolean : Value → FlowOutcome → String → Flow Bool
required_boolean (bool b) outcome message = returned b
required_boolean v outcome message = raised (failure outcome message)

-- `_has_registration_validity`
unfoldable pub has_registration_validity : Fields → Bool
has_registration_validity validity =
    is_true (get_or_null "time_series_is_valid" validity)
    || is_true (get_or_null "cross_sectional_is_valid" validity)
