-- ===== src/Api/Mcp/Tools/Bounds.antt =====
-- The local checks of the tools: what is out of bounds posts nothing.
use quest_test.Prelude.{
  ◌≡◌, refl, Bool, true, false, Option, List, Text, chars, String, one_of, length, leb, ◌&&◌,
  and_true, ℤ, ◌⊎◌, inl, inr,
}
use quest_test.Effect.{Outcome, returned, raised}
use quest_test.Json.{Value, field, brace, str, arr}
use quest_test.Api.Mcp.{RequestId, McpError, Mcp}
use quest_test.Api.Mcp.Sessions.{Exchange, call_tool-Exchange, lift_ind}
use quest_test.Api.Mcp.Client.{Connection, McpResponse, non_blank}
use quest_test.Api.Mcp.Tools.{
  require, detail_levels, within, refs_of, detail_arguments, get_factor_detail,
  get_factor_details_batch,
}

passed_require : (b : Bool) (message : String) → require b message ≡ returned tt → b ≡ true
passed_require true message h = refl
passed_require false message h = cc

module _ (float_is : Text → ℤ → Bool) (decode : Text → Option Value) (fresh_id : Text) where
  -- A tool that checks its arguments: an exchange, which posts only if `Allowed`.
  pub record Checked (Allowed : Type 0) (given : Option RequestId) (c : Connection)
      (r : Outcome McpError McpResponse × Connection) : Type 0 where
    pub exchange : Exchange float_is decode fresh_id true given c r
    pub allowed : (r.1.log ≡ c.log) ⊎ Allowed

  refused-Checked :
      (Allowed : Type 0) (given : Option RequestId) (c : Connection) (e : McpError)
      → Checked Allowed given c (raised e, c)
  refused-Checked Allowed given c e = record {
    exchange = record {
      posts = inl refl;
      same_version = refl;
      same_session = λ e' h. refl;
      success = λ x h. cc;
      answers = λ x h. cc;
    };
    allowed = inl refl;
  }

  -- Reading a detail posts at most one request, and only for one of the three levels and a limit
  -- from 1 to 200; what it returns answers the request with a result.
  get_factor_detail-Checked :
      (factor_ref detail_level : Text) (limit : ℤ) (cursor : Option Text) (given : Option RequestId)
      (c : Connection)
      → Checked
          ((one_of detail_levels detail_level ≡ true) × (within 1 200 limit ≡ true))
          given
          c
          (get_factor_detail float_is decode fresh_id factor_ref detail_level limit cursor given c)
  unfolding get_factor_detail
  get_factor_detail-Checked factor_ref detail_level limit cursor given c =
      lift_ind P (non_blank factor_ref) _ c refuse (λ ref h0.
        lift_ind P (require (one_of detail_levels detail_level) "detail_level") _ c refuse (λ u h1.
          lift_ind P (require (within 1 200 limit) "children_limit must be between 1 and 200") _ c
            refuse
            (λ v h2.
              lift_ind P (detail_arguments float_is decode fresh_id ref detail_level limit cursor) _
                c refuse
                (λ arguments h3. record {
                  exchange =
                      call_tool-Exchange float_is decode fresh_id (chars "factor_get_detail")
                        arguments given c;
                  allowed = inr (passed_require _ _ h1, passed_require _ _ h2);
                }))))
    where
      P : Outcome McpError McpResponse × Connection → Type 0
      P = Checked ((one_of detail_levels detail_level ≡ true) × (within 1 200 limit ≡ true)) given c

      refuse : {A : Type 0} {m : Mcp A} → (e : McpError) → m ≡ raised e → P (raised e, c)
      refuse e h = refused-Checked _ given c e

  -- Reading a batch of details posts at most one request, and only for 1 to 50 references and one of
  -- the three levels; what it returns answers the request with a result.
  pub get_factor_details_batch-Checked :
      (refs : List Text) (detail_level : Text) (given : Option RequestId) (c : Connection)
      → Checked
          ((leb 1 (length refs) ≡ true)
            × (leb (length refs) 50 ≡ true)
            × (one_of detail_levels detail_level ≡ true))
          given
          c
          (get_factor_details_batch float_is decode fresh_id refs detail_level given c)
  unfolding get_factor_details_batch
  get_factor_details_batch-Checked refs detail_level given c =
      lift_ind P (require (leb 1 (length refs) && leb (length refs) 50) "between 1 and 50 items") _
        c refuse
        (λ u h0. lift_ind P (refs_of refs) _ c refuse (λ items h1.
          lift_ind P (require (one_of detail_levels detail_level) "detail_level") _ c refuse
            (λ v h2.
              let (low, high) =
                and_true (leb 1 (length refs)) (leb (length refs) 50) (passed_require _ _ h0) in
              record {
                exchange =
                    call_tool-Exchange float_is decode fresh_id (chars "factor_get_details_batch")
                      (field "factor_refs" (arr items)
                        (field "detail_level" (str detail_level) brace))
                      given c;
                allowed = inr (low, high, passed_require _ _ h2);
              })))
    where
      P : Outcome McpError McpResponse × Connection → Type 0
      P =
          Checked
            ((leb 1 (length refs) ≡ true)
              × (leb (length refs) 50 ≡ true)
              × (one_of detail_levels detail_level ≡ true))
            given c

      refuse : {A : Type 0} {m : Mcp A} → (e : McpError) → m ≡ raised e → P (raised e, c)
      refuse e h = refused-Checked _ given c e
