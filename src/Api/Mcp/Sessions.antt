-- ===== src/Api/Mcp/Sessions.antt =====
-- What the operations of a connection leave of its session, and what they return.
use quest_test.Prelude.{
  ◌≡◌, refl, sym, ap, subst, Bool, true, Option, some, [], ◌∷◌, ◌++◌, Text, ℤ, ◌⊎◌, inl, inr,
  String,
}
use quest_test.Effect.{Outcome, returned, raised, ◌>>=◌}
use quest_test.Json.{Value, Fields}
use quest_test.Api.Mcp.{
  RequestId, McpError, Mcp, HttpResponse, parse_response, raise_json_rpc_error,
  require_success_status,
}
use quest_test.Api.Mcp.Envelopes.{
  Answers, validate_envelope-Answers, parse_response-valid, IsSuccess,
  require_success_status-IsSuccess,
}
use quest_test.Api.Mcp.Client.{
  Connection, Post, McpResponse, Call, lift, non_blank, post, headers_of, capture_session,
  answer_with, request_id, receive, send_request, call_tool,
}

-- A statement that may raise, without an effect on the connection.
pub lift_ind :
    {A B : Type 0} (P : Outcome McpError B × Connection → Type 0) (m : Mcp A) (f : A → Call B)
    (c : Connection)
    → ((e : McpError) → m ≡ raised e → P (raised e, c))
    → ((a : A) → m ≡ returned a → P (f a c))
    → P ((lift m >>= f) c)
lift_ind P (raised e) f c failed went_on = failed e refl
lift_ind P (returned a) f c failed went_on = went_on a refl

module _ (float_is : Text → ℤ → Bool) (decode : Text → Option Value) (fresh_id : Text) where
  -- What receiving a response promises: if it raises, the connection is as it was; if it returns,
  -- the response is a success whose envelope answers the request.
  pub record Received (id : RequestId) (c : Connection)
      (r : Outcome McpError McpResponse × Connection) : Type 0 where
    pub unchanged : (e : McpError) → r.0 ≡ raised e → r.1 ≡ c
    pub same_log : r.1.log ≡ c.log
    pub same_version : r.1.protocol_version ≡ c.protocol_version
    pub success : (x : McpResponse) → r.0 ≡ returned x → IsSuccess x.status_code
    pub answers :
        (x : McpResponse)
        → r.0 ≡ returned x
        → (envelope : Fields) × (x.envelope ≡ some envelope) × Answers float_is id envelope

  raised-Received : (id : RequestId) (c : Connection) (e : McpError) → Received id c (raised e, c)
  raised-Received id c e = record {
    unchanged = λ e' h. refl;
    same_log = refl;
    same_version = refl;
    success = λ x h. cc;
    answers = λ x h. cc;
  }

  pub returned_inv :
      (x y : McpResponse) → ◌≡◌ {A = Mcp McpResponse} (returned x) (returned y) → x ≡ y
  returned_inv x y h = cc

  receive-Received :
      (id : RequestId) (r : HttpResponse) (c : Connection)
      → Received id c (receive float_is decode fresh_id id r c)
  unfolding receive capture_session answer_with
  receive-Received id r c =
      lift_ind (Received id c) (parse_response float_is decode r id) _ c
        (λ e h. raised-Received id c e)
        (λ envelope parsed.
          lift_ind (Received id c) (raise_json_rpc_error envelope) _ c
            (λ e h. raised-Received id c e)
            (λ u no_error.
              lift_ind (Received id c) (require_success_status r) _ c
                (λ e h. raised-Received id c e)
                (λ v ok. record {
                  unchanged = λ e h. cc;
                  same_log = refl;
                  same_version = refl;
                  success = λ x h.
                      subst (λ y. IsSuccess y.status_code) (returned_inv _ x h)
                        (require_success_status-IsSuccess r ok);
                  answers = λ x h. (
                    envelope,
                    sym (ap (λ y. y.envelope) (returned_inv _ x h)),
                    validate_envelope-Answers float_is id envelope
                        (parse_response-valid float_is decode r id envelope parsed) no_error,
                  );
                })))

  -- What an operation with one request promises: at most one post, with the headers of the
  -- session; the negotiated version stays, and the session too if it raises; what it returns is a
  -- success whose envelope answers the request's id.
  pub record Exchange (include_session : Bool) (given : Option RequestId) (c : Connection)
      (r : Outcome McpError McpResponse × Connection) : Type 0 where
    pub posts :
        (r.1.log ≡ c.log)
        ⊎ ((p : Post) × (r.1.log ≡ c.log ++ (p ∷ [])) × (p.headers ≡ headers_of include_session c))
    pub same_version : r.1.protocol_version ≡ c.protocol_version
    pub same_session : (e : McpError) → r.0 ≡ raised e → r.1.session_id ≡ c.session_id
    pub success : (x : McpResponse) → r.0 ≡ returned x → IsSuccess x.status_code
    pub answers :
        (x : McpResponse)
        → r.0 ≡ returned x
        → (id : RequestId) × (request_id fresh_id given ≡ returned id)
          × (envelope : Fields) × (x.envelope ≡ some envelope)
          × Answers float_is id envelope

  raised-Exchange :
      (include_session : Bool) (given : Option RequestId) (c : Connection) (e : McpError)
      → Exchange include_session given c (raised e, c)
  raised-Exchange include_session given c e = record {
    posts = inl refl;
    same_version = refl;
    same_session = λ e' h. refl;
    success = λ x h. cc;
    answers = λ x h. cc;
  }

  -- The connection after a post.
  abbrev logged : Post → Connection → Connection
  logged p c = record c { log = c.log ++ (p ∷ []) }

  Received-Exchange :
      (include_session : Bool) (given : Option RequestId) (c : Connection) (p : Post)
      (id : RequestId) (r : Outcome McpError McpResponse × Connection)
      → p.headers ≡ headers_of include_session c
      → request_id fresh_id given ≡ returned id
      → Received id (logged p c) r
      → Exchange include_session given c r
  Received-Exchange include_session given c p id r e chosen received = record {
    posts = inr (p, received.same_log, e);
    same_version = received.same_version;
    same_session = λ e' h. ap (λ d. d.session_id) (received.unchanged e' h);
    success = received.success;
    answers = λ x h. let (envelope, e', a) = received.answers x h in (id, chosen, envelope, e', a);
  }

  after_post-Exchange :
      (include_session : Bool) (given : Option RequestId) (c : Connection) (p : Post)
      (id : RequestId) (m : Mcp HttpResponse)
      → p.headers ≡ headers_of include_session c
      → request_id fresh_id given ≡ returned id
      → Exchange include_session given c
          ((lift m >>= receive float_is decode fresh_id id) (logged p c))
  after_post-Exchange include_session given c p id m e chosen =
      lift_ind (Exchange include_session given c) m (receive float_is decode fresh_id id)
        (logged p c)
        (λ e' h.
          Received-Exchange include_session given c p id _ e chosen
            (raised-Received id (logged p c) e'))
        (λ r h.
          Received-Exchange include_session given c p id _ e chosen
            (receive-Received id r (logged p c)))

  pub send_request-Exchange :
      (method : String) (params : Fields) (include_session : Bool) (given : Option RequestId)
      (id : RequestId) (c : Connection)
      → request_id fresh_id given ≡ returned id
      → Exchange include_session given c
          (send_request float_is decode fresh_id method params id include_session c)
  unfolding send_request post
  send_request-Exchange method params include_session given id c chosen =
      after_post-Exchange include_session given c _ id _ refl chosen

  -- Calling a tool posts at most one request, with the headers of the session, leaves the
  -- negotiated version as it is, and the session too if it raises. What it returns is an HTTP
  -- success whose envelope declares JSON-RPC 2.0, carries the id of the request, and has a result
  -- and no error.
  pub call_tool-Exchange :
      (name : Text) (arguments : Fields) (given : Option RequestId) (c : Connection)
      → Exchange true given c (call_tool float_is decode fresh_id name arguments given c)
  unfolding call_tool
  call_tool-Exchange name arguments given c =
      lift_ind (Exchange true given c) (non_blank name) _ c (λ e h. raised-Exchange true given c e)
        (λ name' present.
          lift_ind (Exchange true given c) (request_id fresh_id given) _ c
            (λ e h. raised-Exchange true given c e)
            (λ id chosen. send_request-Exchange "tools/call" _ true given id c chosen))
