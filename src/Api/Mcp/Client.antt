-- ===== src/Api/Mcp/Client.antt =====
-- `FactorDataMCPAPI`: the session it keeps, and its operations. The HTTP client below it is a log of
-- what was posted and a script of answers; a fresh request id comes from `fresh_id`. The error of a JSON-RPC error envelope carries the
-- message as it came.
use quest_test.Prelude.{
  ℕ, Bool, true, false, Option, none, some, List, [], ◌∷◌, ◌++◌, String, Text, chars, text_eq,
  strip, length, if◌then◌else◌, ℤ,
}
use quest_test.Effect.{returned, raised, Action, ◌>>=◌, ◌>>◌}
use quest_test.Json.{Value, null, int, str, obj, Fields, brace, field, get_or_null}
use quest_test.Api.Mcp.{
  RequestId, text_id, int_id, McpError, value_error, protocol_error, request_exception, Mcp,
  then_do, HttpResponse, header_value, content_type, parse_response, raise_json_rpc_error,
  require_success_status,
}

pub data Reply : Type 0 where
  response : HttpResponse → Reply
  no_response : ℕ → Reply

-- A body is JSON, or the raw bytes of a probe.
pub data Body : Type 0 where
  json_body : Fields → Body
  raw_body : Text → Body

pub record Post : Type 0 where
  pub path : Text
  pub headers : List (Text × Text)
  pub body : Body
  pub include_authentication : Bool

-- The connection: what was negotiated, and the HTTP client.
pub record Connection : Type 0 where
  pub endpoint_path : Text
  pub session_id : Option Text
  pub protocol_version : Option Text
  pub log : List Post
  pub script : ℕ → Reply

pub record McpResponse : Type 0 where
  pub status_code : ℕ
  pub content_type : Option Text
  pub envelope : Option Fields
  pub protocol_version : Option Text

abbrev pub Call : Type 0 → Type 0
Call A = Action Connection McpError A

abbrev pub lift : {A : Type 0} → Mcp A → Call A
lift m c = (m, c)

-- `_non_blank`
abbrev pub present : Text → Mcp Text
present [] = raised (value_error "must not be blank")
present (c ∷ s) = returned (c ∷ s)

unfoldable pub non_blank : Text → Mcp Text
non_blank value = present (strip value)

abbrev pub reply_of : Reply → Mcp HttpResponse
reply_of (response r) = returned r
reply_of (no_response n) = raised (request_exception n)

-- `self._client.request("POST", self._endpoint_path, ...)`
unfoldable pub post : List (Text × Text) → Body → Bool → Call HttpResponse
post headers body include_authentication c = (
  reply_of (c.script (length c.log)),
  record c {
    log =
        c.log
        ++ (record {
          path = c.endpoint_path;
          headers = headers;
          body = body;
          include_authentication = include_authentication;
        }
            ∷ []);
  },
)

-- A header whose value may be missing or empty.
abbrev pub optional_header : Text → Option Text → List (Text × Text)
optional_header name none = []
optional_header name (some []) = []
optional_header name (some (c ∷ s)) = (name, c ∷ s) ∷ []

abbrev pub accept_header : Text
accept_header = chars "application/json, text/event-stream"

-- `_headers`
unfoldable pub headers_of : Bool → Connection → List (Text × Text)
headers_of include_session c =
    (chars "Accept", accept_header)
    ∷ (chars "Content-Type", chars "application/json")
    ∷ (if include_session
        then optional_header (chars "MCP-Protocol-Version") c.protocol_version
          ++ optional_header (chars "Mcp-Session-Id") c.session_id
        else [])

abbrev pub keep_session : Option Text → Option Text → Option Text
keep_session old none = old
keep_session old (some value) = let id = strip value in if text_eq id [] then old else some id

-- `_capture_session`
unfoldable pub capture_session : HttpResponse → Call (Unit {0})
unfolding header_value
capture_session r c = (
  returned tt,
  record c {
    session_id = keep_session c.session_id (header_value (chars "mcp-session-id") r.headers);
  },
)

unfoldable pub forget_session : Call (Unit {0})
forget_session c = (returned tt, record c { session_id = none })

unfoldable pub forget : Call (Unit {0})
forget c = (returned tt, record c { session_id = none; protocol_version = none })

abbrev pub id_value : RequestId → Value
id_value (text_id t) = str t
id_value (int_id n) = int n

abbrev pub payload : String → Fields → RequestId → Fields
payload method params id = field "jsonrpc" (str (chars "2.0")) (
    field "id" (id_value id)
      (field "method" (str (chars method)) (field "params" (obj params) brace)))

abbrev pub response_of : HttpResponse → Option Fields → Option Text → McpResponse
response_of r envelope version = record {
  status_code = r.status_code;
  content_type = content_type r;
  envelope = envelope;
  protocol_version = version;
}

unfoldable pub answer_with : HttpResponse → Option Fields → Call McpResponse
unfolding content_type
answer_with r envelope c = (returned (response_of r envelope c.protocol_version), c)

-- `McpResponse.result`
unfoldable pub result : McpResponse → Value
result r = elim r.envelope [ none ↦ null | some envelope ↦ get_or_null "result" envelope ]

-- `_request_id`
unfoldable pub request_id : Text → Option RequestId → Mcp RequestId
request_id fresh_id none = returned (text_id fresh_id)
request_id fresh_id (some (int_id n)) = returned (int_id n)
request_id fresh_id (some (text_id t)) =
    if text_eq (strip t) []
    then raised (value_error "request_id must not be blank")
    else returned (text_id t)

module _ (float_is : Text → ℤ → Bool) (decode : Text → Option Value) (fresh_id : Text) where
  -- `_send_request`, after the response
  unfoldable pub receive : RequestId → HttpResponse → Call McpResponse
  unfolding capture_session answer_with
  receive id r = do
    envelope ← lift (parse_response float_is decode r id)
    lift (raise_json_rpc_error envelope)
    lift (require_success_status r)
    capture_session r
    answer_with r (some envelope)

  -- `_send_request`
  unfoldable pub send_request : String → Fields → RequestId → Bool → Call McpResponse
  unfolding receive post headers_of
  send_request method params id include_session c =
      (post (headers_of include_session c) (json_body (payload method params id)) true
          >>= receive id)
        c

  -- The version that the result of `initialize` declares.
  abbrev pub declared : Text → Mcp Text
  declared [] = raised (protocol_error "no non-empty protocolVersion")
  declared (c ∷ s) = returned (c ∷ s)

  abbrev pub version_of : Value → Mcp Text
  version_of (str s) = declared (strip s)
  version_of v = raised (protocol_error "no non-empty protocolVersion")

  abbrev pub negotiated : Value → Mcp Text
  negotiated (obj fields) = version_of (get_or_null "protocolVersion" fields)
  negotiated v = raised (protocol_error "initialize result must be a JSON object")

  unfoldable pub settle : McpResponse → Mcp Text → Call McpResponse
  settle r (raised e) c = (raised e, record c { session_id = none })
  settle r (returned version) c = (
    returned (record r { protocol_version = some version }),
    record c { protocol_version = some version },
  )

  abbrev pub initialize_params : Text → Text → Text → Fields → Fields
  initialize_params version name client_version capabilities =
      field "protocolVersion" (str version) (
        field "capabilities" (obj capabilities) (
          field "clientInfo"
            (obj (field "name" (str name) (field "version" (str client_version) brace))) brace))

  -- `initialize`, an argument that is blank leaving the connection as it is
  unfoldable pub initialize :
      (version name client_version : Text) → Fields → Option RequestId → Call McpResponse
  unfolding non_blank forget request_id send_request settle result
  initialize version name client_version capabilities given = do
    version' ← lift (non_blank version)
    name' ← lift (non_blank name)
    client_version' ← lift (non_blank client_version)
    forget
    id ← lift (request_id fresh_id given)
    r ←
        send_request "initialize" (initialize_params version' name' client_version' capabilities) id
          false
    settle r (negotiated (result r))

  -- `notify_initialized`
  unfoldable pub notify_initialized : Call McpResponse
  unfolding post headers_of capture_session answer_with
  notify_initialized c =
      (post (headers_of true c)
            (json_body (
              field "jsonrpc" (str (chars "2.0")) (
                field "method" (str (chars "notifications/initialized"))
                  (field "params" (obj brace) brace))))
            true
          >>= λ r. lift (require_success_status r) >> capture_session r >> answer_with r none)
        c

  -- `call_tool`
  unfoldable pub call_tool : Text → Fields → Option RequestId → Call McpResponse
  unfolding non_blank request_id send_request
  call_tool name arguments given = do
    name' ← lift (non_blank name)
    id ← lift (request_id fresh_id given)
    send_request "tools/call" (field "name" (str name') (field "arguments" (obj arguments) brace))
        id true

  -- `list_tools`
  abbrev pub cursor_params : Option Text → Mcp Fields
  unfolding non_blank
  cursor_params none = returned brace
  cursor_params (some cursor) =
      then_do (non_blank cursor) (λ c. returned (field "cursor" (str c) brace))

  unfoldable pub list_tools : Option Text → Option RequestId → Call McpResponse
  unfolding cursor_params request_id send_request
  list_tools cursor given = do
    params ← lift (cursor_params cursor)
    id ← lift (request_id fresh_id given)
    send_request "tools/list" params id true

-- `close`: what is closed below may raise, and the state is cleared all the same.
unfoldable pub close : Option ℕ → Call (Unit {0})
close none c = (returned tt, record c { session_id = none; protocol_version = none })
close (some n) c =
    (raised (request_exception n), record c { session_id = none; protocol_version = none })

-- `__init__`
unfoldable pub connect : Text → (ℕ → Reply) → Mcp Connection
unfolding non_blank
connect endpoint_path script = then_do (non_blank endpoint_path) (λ path. returned (record {
  endpoint_path = path;
  session_id = none;
  protocol_version = none;
  log = [];
  script = script;
}))

-- `new_connection`, the new HTTP session answering by `script`
unfoldable pub new_connection : Connection → (ℕ → Reply) → Mcp Connection
unfolding connect
new_connection c script = connect c.endpoint_path script
