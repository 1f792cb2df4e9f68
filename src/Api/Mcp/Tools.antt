-- ===== src/Api/Mcp/Tools.antt =====
-- The tools that `FactorDataMCPAPI` calls by name, and the probe of the protocol. An `int` that is no
-- `bool` is an integer by its type here.
pub mod Bounds
use quest_test.Prelude.{
  ℕ, Bool, true, false, not, ◌&&◌, Option, none, some, List, [], ◌∷◌, ◌++◌, String, Text, chars,
  text_eq, one_of, contains, length, leb, if◌then◌else◌, ℤ, pos, negsuc,
}
use quest_test.Effect.{returned, raised, Action, pure, raise, ◌>>=◌, ◌>>◌}
use quest_test.Json.{Value, int, str, arr, obj, Items, bracket, element, Fields, brace, field}
use quest_test.Api.Mcp.{
  RequestId, McpError, value_error, protocol_error, Mcp, then_do, HttpResponse, content_type,
  parse_sse,
}
use quest_test.Api.Mcp.Client.{
  Connection, McpResponse, Call, lift, non_blank, call_tool, post, raw_body, headers_of,
}

abbrev pub require : Bool → String → Mcp (Unit {0})
require b message = if b then returned tt else raised (value_error message)

abbrev pub detail_levels : List Text
detail_levels = chars "summary" ∷ chars "definition" ∷ chars "executable" ∷ []

abbrev pub within : ℕ → ℕ → ℤ → Bool
within low high (pos n) = leb low n && leb n high
within low high (negsuc n) = false

-- An argument that is given or not, in front of others.
abbrev pub optional_argument : String → Option Text → Fields → Mcp Fields
unfolding non_blank
optional_argument name none fields = returned fields
optional_argument name (some value) fields =
    then_do (non_blank value) (λ v. returned (field name (str v) fields))

abbrev pub refs_of : List Text → Mcp Items
unfolding non_blank
refs_of [] = returned bracket
refs_of (ref ∷ refs) =
    let rest = refs_of refs in
    then_do (non_blank ref) (λ r. then_do rest (λ rs. returned (element (str r) rs)))

abbrev pub as_text : Value → Text
as_text (str s) = s
as_text v = []

unfoldable pub set_probe_header : Text → Text → List (Text × Text) → List (Text × Text)
set_probe_header name value [] = (name, value) ∷ []
set_probe_header name value ((n, v) ∷ hs) =
    if text_eq n name then (name, value) ∷ hs else (n, v) ∷ set_probe_header name value hs

abbrev pub when : Bool → Text → Text → List (Text × Text) → List (Text × Text)
unfolding set_probe_header
when b name value hs = if b then set_probe_header name value hs else hs

abbrev pub with_origin : Option Text → List (Text × Text) → List (Text × Text)
unfolding set_probe_header
with_origin none hs = hs
with_origin (some origin) hs = set_probe_header (chars "Origin") origin hs

-- The headers of `probe_protocol`.
unfoldable pub probe_headers :
    (accept session_mode authentication : Text) → Option Text → Connection → List (Text × Text)
unfolding when with_origin headers_of
probe_headers accept session_mode authentication origin c = with_origin origin (
    when (text_eq authentication (chars "malformed")) (chars "Authorization") (chars "Bearer") (
      when (text_eq authentication (chars "invalid")) (chars "Authorization")
        (chars "Bearer questtest-invalid-token")
        (when (text_eq session_mode (chars "invalid")) (chars "Mcp-Session-Id")
          (chars "questtest-invalid-session")
          (set_probe_header (chars "Accept") accept
            (headers_of (text_eq session_mode (chars "current")) c)))))

abbrev pub single_event : List Fields → Mcp Fields
single_event (e ∷ []) = returned e
single_event es = raised (protocol_error "exactly one response event")

abbrev pub probe_value : Option Value → Mcp Fields
probe_value none = raised (protocol_error "the probe response is not JSON")
probe_value (some (obj fields)) = returned fields
probe_value (some v) = raised (protocol_error "the probe response must be an object")

abbrev pub is_event_stream : Option Text → Bool
is_event_stream none = false
is_event_stream (some t) = contains (chars "text/event-stream") t

module _ (float_is : Text → ℤ → Bool) (decode : Text → Option Value) (fresh_id : Text) where
  abbrev pub call : String → Fields → Option RequestId → Call McpResponse
  unfolding call_tool
  call name arguments given = call_tool float_is decode fresh_id (chars name) arguments given

  abbrev pub detail_arguments : Text → Text → ℤ → Option Text → Mcp Fields
  unfolding optional_argument
  detail_arguments ref detail_level children_limit children_cursor =
      then_do (optional_argument "children_cursor" children_cursor brace) (λ rest. returned (
        field "factor_ref" (str ref) (
          field "detail_level" (str detail_level)
            (field "children_limit" (int children_limit) rest))))

  -- `get_factor_detail`
  unfoldable pub get_factor_detail :
      (factor_ref detail_level : Text) → ℤ → Option Text → Option RequestId → Call McpResponse
  unfolding non_blank call detail_arguments
  get_factor_detail factor_ref detail_level children_limit children_cursor given = do
    ref ← lift (non_blank factor_ref)
    lift (require (one_of detail_levels detail_level) "detail_level")
    lift (require (within 1 200 children_limit) "children_limit must be between 1 and 200")
    arguments ← lift (detail_arguments ref detail_level children_limit children_cursor)
    call "factor_get_detail" arguments given

  -- `get_formula`
  unfoldable pub get_formula :
      (factor_ref run_id interval factor_window_bars return_bar_interval : Text)
      → ℤ
      → (calculation_mode : Text) → Option Text
      → Option RequestId
      → Call McpResponse
  unfolding non_blank call optional_argument
  get_formula factor_ref run_id interval factor_window_bars return_bar_interval bars mode as_of
        given =
      do
        lift (require (text_eq mode (chars "direct")) "calculation_mode must be direct")
        ref ← lift (non_blank factor_ref)
        run ← lift (non_blank run_id)
        interval' ← lift (non_blank interval)
        window ← lift (non_blank factor_window_bars)
        bar_interval ← lift (non_blank return_bar_interval)
        rest ← lift (optional_argument "as_of" as_of brace)
        call "factor_get_formula"
            (field "factor_ref" (str ref) (
              field "run_id" (str run) (
                field "calculation_mode" (str mode) (
                  field "interval" (str interval') (
                    field "factor_window_bars" (str window) (
                      field "return_bar_interval" (str bar_interval)
                        (field "forward_return_bars" (int bars) rest)))))))
            given

  -- `get_factor_details_batch`
  unfoldable pub get_factor_details_batch : List Text → Text → Option RequestId → Call McpResponse
  unfolding call refs_of
  get_factor_details_batch factor_refs detail_level given = do
    lift (
        require (leb 1 (length factor_refs) && leb (length factor_refs) 50)
          "between 1 and 50 items")
    refs ← lift (refs_of factor_refs)
    lift (require (one_of detail_levels detail_level) "detail_level")
    call "factor_get_details_batch"
        (field "factor_refs" (arr refs) (field "detail_level" (str detail_level) brace)) given

  unfoldable pub probe_envelope : HttpResponse → Mcp Fields
  unfolding content_type parse_sse
  probe_envelope r =
      if is_event_stream (content_type r)
      then then_do (parse_sse decode r.text) single_event
      else probe_value r.json_value

  -- `probe_protocol`: the status and the envelope, and the connection as it was but for the log
  unfoldable pub probe_protocol :
      (body accept session_mode authentication : Text) → Option Text → Call (ℕ × Fields)
  unfolding probe_headers post probe_envelope
  probe_protocol body accept session_mode authentication origin c =
      (lift (
            require (one_of (chars "current" ∷ chars "omit" ∷ chars "invalid" ∷ []) session_mode)
              "session mode")
          >> lift (
              require
                (one_of
                  (chars "current" ∷ chars "missing" ∷ chars "invalid" ∷ chars "malformed" ∷ [])
                  authentication)
                "authentication")
          >> post (probe_headers accept session_mode authentication origin c) (raw_body body)
              (not (text_eq authentication (chars "missing")))
          >>= λ r.
              lift (then_do (probe_envelope r) (λ envelope. returned (r.status_code, envelope))))
        c
