-- ===== src/Api/Mcp.antt =====
-- api/factor_data_mcp_api.py: how a response becomes a JSON-RPC envelope. Decoding JSON text, and
-- comparing a float with an integer, are parameters; a response says itself what `json()` gives.
pub mod Client
pub mod Envelopes
pub mod Streams
pub mod Sessions
pub mod Negotiation
pub mod Tools
pub mod Redaction
mod Examples
use quest_test.Prelude.{
  ℕ, zero, suc, Bool, true, false, not, ◌&&◌, ◌||◌, Option, none, some, List, [], ◌∷◌, ◌++◌, String,
  Text, chars, text_eq, strip, lower, starts_with, join, ◌==◌, leb, ltb, if◌then◌else◌, ℤ, pos,
  negsuc,
}
use quest_test.Effect.{Outcome, returned, raised}
use quest_test.Json.{Value, null, bool, int, float, str, arr, obj, Fields, get, get_or_null}
use mathlib.Core.List.{reverse}

-- `JSONRPCId`
pub data RequestId : Type 0 where
  text_id : Text → RequestId
  int_id : ℤ → RequestId

pub data McpError : Type 0 where
  value_error : String → McpError
  protocol_error : String → McpError
  json_rpc_error : ℤ → Text → Value → Value → McpError
  request_exception : ℕ → McpError

abbrev pub Mcp : Type 0 → Type 0
Mcp A = Outcome McpError A

abbrev pub then_do : {A B : Type 0} → Mcp A → (A → Mcp B) → Mcp B
then_do (returned a) f = f a
then_do (raised e) f = raised e

-- What the session answers a request with.
pub record HttpResponse : Type 0 where
  pub status_code : ℕ
  pub headers : List (Text × Text)
  pub text : Text
  pub json_value : Option Value

-- `_header_value`
unfoldable pub header_value : Text → List (Text × Text) → Option Text
header_value name [] = none
header_value name ((key, value) ∷ hs) =
    if text_eq (lower key) (lower name) then some value else header_value name hs

-- `_content_type`
unfoldable pub content_type : HttpResponse → Option Text
unfolding header_value
content_type response = header_value (chars "content-type") response.headers

-- `line.partition(mark)`: what stands before the mark, and after it if there is one.
unfoldable pub partition : ℕ → Text → Text × Option Text
partition mark [] = ([], none)
partition mark (c ∷ s) =
    let (before, after) = partition mark s in
    if c == mark then ([], some s) else (c ∷ before, after)

-- `content_type.split(";", 1)[0].strip().lower()`
unfoldable pub media_type : Option Text → Text
unfolding partition
media_type none = []
media_type (some t) = lower (strip (partition b';' t).0)

-- `replace("\r\n", "\n").replace("\r", "\n")`, `after_return` telling whether a return came just before
unfoldable pub normalize_from : Bool → Text → Text
normalize_from after_return [] = []
normalize_from after_return (c ∷ s) =
    if c == 13
    then 10 ∷ normalize_from true s
    else if c == 10 && after_return
    then normalize_from false s
    else c ∷ normalize_from false s

-- `text.split("\n")`, the first line apart from the others
unfoldable pub split_lines : Text → Text × List Text
split_lines [] = ([], [])
split_lines (c ∷ s) =
    let (line, lines) = split_lines s in if c == 10 then ([], line ∷ lines) else (c ∷ line, lines)

-- `value[1:] if value.startswith(" ") else value`
abbrev pub drop_space : Text → Text
drop_space [] = []
drop_space (c ∷ s) = if c == 32 then s else c ∷ s

abbrev pub data_of : Text × Option Text → Option Text
data_of (field, none) = none
data_of (field, some value) = if text_eq field (chars "data") then some (drop_space value) else none

-- The data that a line adds to its event, if it is a `data` line and no comment.
unfoldable pub data_line : Text → Option Text
unfolding partition
data_line line = if starts_with (chars ":") line then none else data_of (partition b':' line)

abbrev pub is_blank_line : Text → Bool
is_blank_line [] = true
is_blank_line (c ∷ s) = false

abbrev pub add_line : List Text → Option Text → List Text
add_line data_lines none = data_lines
add_line data_lines (some l) = data_lines ++ (l ∷ [])

abbrev pub as_event : Option Value → Mcp Fields
as_event (some (obj fields)) = returned fields
as_event (some v) = raised (protocol_error "an SSE data root that is not an object")
as_event none = raised (protocol_error "an SSE event with invalid JSON data")

module _ (decode : Text → Option Value) where
  -- `flush_event`
  unfoldable pub flush_event : List Text → List Fields → Mcp (List Fields)
  flush_event [] events = returned events
  flush_event (l ∷ ls) events =
      then_do (as_event (decode (join (10 ∷ []) (l ∷ ls))))
        (λ event. returned (events ++ (event ∷ [])))

  -- The loop over the lines, with the data lines of the event that is open.
  unfoldable pub parse_lines : List Text → List Text → List Fields → Mcp (List Fields)
  unfolding flush_event data_line
  parse_lines [] data_lines events = flush_event data_lines events
  parse_lines (line ∷ lines) data_lines events =
      if is_blank_line line
      then then_do (flush_event data_lines events) (λ flushed. parse_lines lines [] flushed)
      else parse_lines lines (add_line data_lines (data_line line)) events

  abbrev pub some_event : List Fields → Mcp (List Fields)
  some_event [] = raised (protocol_error "an SSE stream without JSON data events")
  some_event (e ∷ es) = returned (e ∷ es)

  abbrev pub parse_split : Text × List Text → Mcp (List Fields)
  unfolding parse_lines
  parse_split (line, lines) = parse_lines (line ∷ lines) [] []

  -- `_parse_sse`
  unfoldable pub parse_sse : Text → Mcp (List Fields)
  unfolding parse_split normalize_from split_lines
  parse_sse text = then_do (parse_split (split_lines (normalize_from false text))) some_event

abbrev pub int_eq : ℤ → ℤ → Bool
int_eq (pos m) (pos n) = m == n
int_eq (negsuc m) (negsuc n) = m == n
int_eq _ _ = false

abbrev pub is_some : Option Value → Bool
is_some none = false
is_some (some v) = true

-- `name in envelope`
unfoldable pub has : String → Fields → Bool
has name fields = is_some (get name fields)

abbrev pub is_version : Value → Bool
is_version (str s) = text_eq s (chars "2.0")
is_version v = false

abbrev pub xor : Bool → Bool → Bool
xor true b = not b
xor false b = b

abbrev pub only_one : List Fields → Mcp Fields
only_one (e ∷ []) = returned e
only_one es = raised (protocol_error "exactly one envelope for the request id")

abbrev pub as_envelope : Option Value → Mcp Fields
as_envelope none = raised (protocol_error "invalid JSON")
as_envelope (some (obj fields)) = returned fields
as_envelope (some v) = raised (protocol_error "JSON-RPC response root must be an object")

abbrev pub is_json : Text → Bool
is_json media =
    text_eq media (chars "application/json")
    || starts_with (reverse (chars "+json")) (reverse media)

module _ (float_is : Text → ℤ → Bool) where
  -- `value == request_id`; in Python a Boolean is the integer 0 or 1.
  unfoldable pub same_id : RequestId → Value → Bool
  same_id (text_id t) (str s) = text_eq s t
  same_id (int_id n) (int m) = int_eq m n
  same_id (int_id n) (bool true) = int_eq (pos 1) n
  same_id (int_id n) (bool false) = int_eq (pos 0) n
  same_id (int_id n) (float t) = float_is t n
  same_id _ _ = false

  -- `_validate_envelope`
  unfoldable pub validate_envelope : Fields → RequestId → Mcp (Unit {0})
  unfolding same_id has
  validate_envelope envelope id =
      if not (is_version (get_or_null "jsonrpc" envelope))
      then raised (protocol_error "response does not declare jsonrpc 2.0")
      else if not (has "id" envelope) || not (same_id id (get_or_null "id" envelope))
      then raised (protocol_error "response id does not match the request id")
      else if not (xor (has "result" envelope) (has "error" envelope))
      then raised (protocol_error "response must contain exactly one of result or error")
      else returned tt

  -- The envelopes whose id is the request's.
  unfoldable pub matching : RequestId → List Fields → List Fields
  unfolding same_id
  matching id [] = []
  matching id (e ∷ es) =
      if same_id id (get_or_null "id" e) then e ∷ matching id es else matching id es

  module _ (decode : Text → Option Value) where
    unfoldable pub read_envelope : HttpResponse → RequestId → Mcp Fields
    unfolding parse_sse matching media_type content_type
    read_envelope response id =
        let media = media_type (content_type response) in
        if text_eq media (chars "text/event-stream")
        then then_do (parse_sse decode response.text)
            (λ envelopes. only_one (matching id envelopes))
        else if is_json media
        then as_envelope response.json_value
        else raised (protocol_error "unsupported Content-Type")

    -- `_parse_response`
    unfoldable pub parse_response : HttpResponse → RequestId → Mcp Fields
    unfolding read_envelope validate_envelope
    parse_response response id =
        then_do (read_envelope response id)
          (λ envelope. then_do (validate_envelope envelope id) (λ _. returned envelope))

-- `_require_success_status`
unfoldable pub require_success_status : HttpResponse → Mcp (Unit {0})
require_success_status response =
    if leb 200 response.status_code && ltb response.status_code 300
    then returned tt
    else raised (protocol_error "HTTP status")

abbrev pub json_rpc_error_of : Value → Value → Value → Value → McpError
json_rpc_error_of (int code) (str message) id data' = json_rpc_error code message id data'
json_rpc_error_of _ _ id data' =
    protocol_error "JSON-RPC error must contain an integer code and string message"

abbrev pub raise_error_value : Fields → Option Value → Mcp (Unit {0})
raise_error_value envelope none = returned tt
raise_error_value envelope (some (obj value)) = raised (
    json_rpc_error_of (get_or_null "code" value) (get_or_null "message" value)
      (get_or_null "id" envelope) (get_or_null "data" value))
raise_error_value envelope (some v) = raised (protocol_error "JSON-RPC error must be an object")

-- `_raise_json_rpc_error`
unfoldable pub raise_json_rpc_error : Fields → Mcp (Unit {0})
raise_json_rpc_error envelope = raise_error_value envelope (get "error" envelope)
