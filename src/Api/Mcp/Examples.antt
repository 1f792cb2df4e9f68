-- ===== src/Api/Mcp/Examples.antt =====
-- Small MCP conversations.
use quest_test.Prelude.{
  ◌≡◌, refl, ◌∷◌, [], true, false, none, some, Option, Bool, Text, chars, ℤ, List,
}
use quest_test.Effect.{returned}
use quest_test.Json.{Value, int, str, arr, obj, bracket, element, Fields, brace, field}
use quest_test.Api.Mcp.{HttpResponse, parse_sse, McpError, has, json_rpc_error}
use quest_test.Api.Mcp.Client.{Connection, response, initialize, call_tool}
use quest_test.Api.Mcp.Tools.{get_factor_details_batch, detail_levels}
use quest_test.Api.Mcp.Tools.Bounds.{Checked, get_factor_details_batch-Checked}
use quest_test.Api.Mcp.Streams.{SseEvent, crlf, end_chars, write_stream, parse_sse-write_stream}
use quest_test.Api.Mcp.Sessions.{Exchange, call_tool-Exchange}
use quest_test.Api.Mcp.Negotiation.{Settled, initialize-Settled}
use quest_test.Api.Mcp.Redaction.{
  Pattern, sanitize_data, Redacted, Sanitized, sanitize_data-Redacted, normalize_key,
  is_sensitive_data_key,
}
use quest_test.Prelude.{one_of, leb, length}

abbrev float_is : Text → ℤ → Bool
float_is t n = false

-- A decoder that knows one text.
abbrev decode : Text → Option Value
decode [] = none
decode (c ∷ s) = some (obj (field "n" (str (c ∷ s)) brace))

abbrev fresh_id : Text
fresh_id = chars "u"

abbrev answer : Fields
answer = field "jsonrpc" (str (chars "2.0")) (
    field "id" (str (chars "u"))
      (field "result" (obj (field "protocolVersion" (str (chars " v1 ")) brace)) brace))

abbrev ok_response : HttpResponse
ok_response = record {
  status_code = 200;
  headers =
      (chars "Content-Type", chars "application/json; charset=utf-8")
      ∷ (chars "MCP-Session-Id", chars "s1")
      ∷ [];
  text = [];
  json_value = some (obj answer);
}

abbrev connection : Connection
connection = record {
  endpoint_path = chars "/mcp";
  session_id = none;
  protocol_version = none;
  log = [];
  script = λ _. response ok_response;
}

two_events :
    parse_sse decode (chars ": hi\r\ndata: a\r\n\r\ndata:b\ndata: c\n\n")
    ≡ returned (field "n" (str (chars "a")) brace ∷ field "n" (str (chars "b\nc")) brace ∷ [])
unfolding parse_sse
two_events = refl

initialized_session :
    (initialize float_is decode fresh_id
      (chars "v1")
      (chars "q")
      (chars "1")
      brace
      none
      connection).1.session_id
    ≡ some (chars "s1")
unfolding initialize quest_test.Api.Mcp.has quest_test.Json.get quest_test.Json.get_or_null
    quest_test.Api.Mcp.parse_response quest_test.Api.Mcp.raise_json_rpc_error
    quest_test.Api.Mcp.require_success_status
initialized_session = refl

initialize-Settled_example :
    Settled float_is decode fresh_id connection (
      initialize float_is decode fresh_id
        (chars "v1")
        (chars "q")
        (chars "1")
        brace
        none
        connection)
initialize-Settled_example =
    initialize-Settled float_is decode fresh_id (chars "v1") (chars "q") (chars "1") brace none
      connection

call_tool-Exchange_example :
    Exchange float_is decode fresh_id true none connection
      (call_tool float_is decode fresh_id (chars "t") brace none connection)
call_tool-Exchange_example =
    call_tool-Exchange float_is decode fresh_id (chars "t") brace none connection

abbrev two_refs : List Text
two_refs = chars "factor:1" ∷ chars "factor:2" ∷ []

get_factor_details_batch-Checked_example :
    Checked float_is decode fresh_id
      ((leb 1 (length two_refs) ≡ true)
        × (leb (length two_refs) 50 ≡ true)
        × (one_of detail_levels (chars "summary") ≡ true))
      none
      connection
      (get_factor_details_batch float_is decode fresh_id two_refs (chars "summary") none connection)
get_factor_details_batch-Checked_example =
    get_factor_details_batch-Checked float_is decode fresh_id two_refs (chars "summary") none
      connection

abbrev no_sub : Pattern → Text → Text → Text
no_sub p r s = s

abbrev secret_data : Value
secret_data = obj (field "Access-Token" (str (chars "x")) (field "n" (str (chars "y")) brace))

hides_token :
    sanitize_data no_sub secret_data
    ≡ obj (field "Access-Token" (str (chars "<redacted>")) (field "n" (str (chars "y")) brace))
unfolding sanitize_data normalize_key is_sensitive_data_key
hides_token = refl

sanitize_data-Redacted_example : Redacted (Sanitized no_sub) (sanitize_data no_sub secret_data)
sanitize_data-Redacted_example = sanitize_data-Redacted no_sub secret_data

abbrev sse_events : List SseEvent
sse_events =
    record { first = chars "1"; more = [] }
    ∷ record { first = chars "2"; more = chars "3" ∷ [] }
    ∷ []

abbrev first_object : Fields
first_object = field "n" (str (chars "1")) brace

abbrev second_object : Fields
second_object = field "n" (str (50 ∷ 10 ∷ 51 ∷ [])) brace

parse_sse-write_stream_example :
    parse_sse decode (write_stream (end_chars crlf) sse_events)
    ≡ returned (first_object ∷ second_object ∷ [])
parse_sse-write_stream_example =
    parse_sse-write_stream decode crlf sse_events first_object (second_object ∷ [])
      (refl, refl, (refl, refl, tt))
