-- ===== src/Api/Mcp/Negotiation.antt =====
-- What `initialize` leaves of the session.
use quest_test.Prelude.{
  ◌≡◌, ◌≢◌, refl, sym, ap, Bool, false, Option, none, some, [], ◌∷◌, ◌++◌, Text, strip, ℤ, ◌⊎◌, inl,
  inr,
}
use quest_test.Effect.{Outcome, returned, raised, ◌>>=◌}
use quest_test.Json.{Value, null, bool, int, float, str, arr, obj, Fields, get_or_null}
use quest_test.Api.Mcp.{RequestId, McpError, Mcp}
use quest_test.Api.Mcp.Client.{
  Connection, Post, McpResponse, lift, non_blank, headers_of, forget, request_id, initialize,
  declared, version_of, negotiated, settle, result,
}
use quest_test.Api.Mcp.Sessions.{Exchange, send_request-Exchange, lift_ind, returned_inv}

module _ (float_is : Text → ℤ → Bool) (decode : Text → Option Value) (fresh_id : Text) where
  -- What `initialize` promises: it posts at most once, without the headers of a session; if it
  -- returns, it keeps the version that it returns, which is not empty; if it raises, the connection
  -- is as it was or without session and version.
  pub record Settled (c : Connection) (r : Outcome McpError McpResponse × Connection) : Type 0 where
    pub posts :
        (r.1.log ≡ c.log)
        ⊎ ((p : Post) × (r.1.log ≡ c.log ++ (p ∷ [])) × (p.headers ≡ headers_of false c))
    pub negotiated_version :
        (x : McpResponse)
        → r.0 ≡ returned x
        → (version : Text) × (version ≢ [])
          × (x.protocol_version ≡ some version)
          × (r.1.protocol_version ≡ some version)
    pub cleared :
        (e : McpError)
        → r.0 ≡ raised e
        → (r.1 ≡ c) ⊎ ((r.1.session_id ≡ none) × (r.1.protocol_version ≡ none))

  abbrev forgotten : Connection → Connection
  forgotten c = record c { session_id = none; protocol_version = none }

  declared-present : (s t : Text) → declared float_is decode fresh_id s ≡ returned t → t ≢ []
  declared-present [] t h = cc
  declared-present (k ∷ s) t h = λ e. cc

  version_of-present :
      (v : Value) (t : Text) → version_of float_is decode fresh_id v ≡ returned t → t ≢ []
  version_of-present (str s) t h = declared-present (strip s) t h
  version_of-present null t h = cc
  version_of-present (bool b) t h = cc
  version_of-present (int n) t h = cc
  version_of-present (float s) t h = cc
  version_of-present (arr a) t h = cc
  version_of-present (obj f) t h = cc

  negotiated-present :
      (v : Value) (t : Text) → negotiated float_is decode fresh_id v ≡ returned t → t ≢ []
  negotiated-present (obj f) t h = version_of-present (get_or_null "protocolVersion" f) t h
  negotiated-present null t h = cc
  negotiated-present (bool b) t h = cc
  negotiated-present (int n) t h = cc
  negotiated-present (float s) t h = cc
  negotiated-present (arr a) t h = cc
  negotiated-present (str s) t h = cc

  settle-Settled :
      (c d : Connection) (x : McpResponse) (m : Mcp Text)
      → d.protocol_version ≡ none
      → ((d.log ≡ c.log)
          ⊎ ((p : Post) × (d.log ≡ c.log ++ (p ∷ [])) × (p.headers ≡ headers_of false c)))
      → ((t : Text) → m ≡ returned t → t ≢ [])
      → Settled c (settle float_is decode fresh_id x m d)
  unfolding settle
  settle-Settled c d x (raised e) no_version posts nonempty = record {
    posts = posts;
    negotiated_version = λ y h. cc;
    cleared = λ e' h. inr (refl, no_version);
  }
  settle-Settled c d x (returned t) no_version posts nonempty = record {
    posts = posts;
    negotiated_version = λ y h. (
      t,
      nonempty t refl,
      sym (ap (λ z. z.protocol_version) (returned_inv float_is decode fresh_id _ y h)),
      refl,
    );
    cleared = λ e' h. cc;
  }

  finish-Settled :
      (given : Option RequestId) (c : Connection) (r : Outcome McpError McpResponse × Connection)
      → Exchange float_is decode fresh_id false given (forgotten c) r
      → Settled c (
          (lift r.0 >>= λ x.
          settle float_is decode fresh_id x (negotiated float_is decode fresh_id (result x)))
            r.1)
  unfolding headers_of
  finish-Settled given c (raised e, d) exchange = record {
    posts = exchange.posts;
    negotiated_version = λ y h. cc;
    cleared = λ e' h. inr (exchange.same_session e refl, exchange.same_version);
  }
  finish-Settled given c (returned x, d) exchange =
      settle-Settled c d x _ exchange.same_version exchange.posts (negotiated-present (result x))

  as_it_was : (c : Connection) (e : McpError) → Settled c (raised e, c)
  as_it_was c e = record {
    posts = inl refl;
    negotiated_version = λ x h. cc;
    cleared = λ e' h. inl refl;
  }

  -- `initialize` posts at most one request, without the headers of a session. If it returns, the
  -- connection keeps the version that the response carries, which is not empty. If it raises, on
  -- any path, the connection is as it was, or it has no session and no version.
  pub initialize-Settled :
      (version name client_version : Text) (capabilities : Fields) (given : Option RequestId)
      (c : Connection)
      → Settled c
          (initialize float_is decode fresh_id version name client_version capabilities given c)
  unfolding initialize forget
  initialize-Settled version name client_version capabilities given c =
      lift_ind (Settled c) (non_blank version) _ c (λ e h. as_it_was c e)
        (λ version' h0.
          lift_ind (Settled c) (non_blank name) _ c (λ e h. as_it_was c e)
            (λ name' h1.
              lift_ind (Settled c) (non_blank client_version) _ c (λ e h. as_it_was c e)
                (λ client_version' h2.
                  lift_ind (Settled c) (request_id fresh_id given) _ (forgotten c)
                    (λ e h. without_session e)
                    (λ id chosen. finish-Settled given c _ (
                      send_request-Exchange float_is decode fresh_id "initialize" _ false given id
                        (forgotten c) chosen)))))
    where
      without_session : (e : McpError) → Settled c (raised e, forgotten c)
      without_session e = record {
        posts = inl refl;
        negotiated_version = λ x h. cc;
        cleared = λ e' h. inr (refl, refl);
      }
