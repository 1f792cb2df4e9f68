-- ===== src/Service/Research/Agents.antt =====
-- service/factor_combo_service.py: `discover_agent`, which never picks one of several agents.
use quest_test.Prelude.{
  ℕ, Bool, true, false, not, ◌&&◌, ◌||◌, if◌then◌else◌, Option, none, some, String, Text, chars,
  text_eq, strip, lower, one_of, ◌==◌, is_space, List, [], ◌∷◌,
}
use quest_test.Effect.{returned, raised, ◌>>=◌}
use quest_test.Json.{Value, null, bool, arr, obj, Items, element, bracket, Fields, get, get_or_null}
use quest_test.Service.Flow.{failure, fail_contract, Flow, and_then}
use quest_test.Service.Flow.Refresh.{text_or_empty}
use quest_test.Service.Research.{list_agents, Environment, Step, flow_step, Answer, request}

-- `AgentSelection`
pub record AgentSelection : Type 0 where
  pub agent_uid : Text
  pub name : Text
  pub raw : Fields

abbrev is_false : Value → Bool
is_false (bool b) = not b
is_false v = false

-- `"".join(text.split())`
unfoldable pub without_spaces : Text → Text
without_spaces [] = []
without_spaces (c ∷ t) = if is_space c then without_spaces t else c ∷ without_spaces t

-- `preferred_names`
abbrev pub preferred_names : List Text
preferred_names = chars "投研agent" ∷ chars "投研agent(内置)" ∷ []

abbrev first_of : Option Value → Value → Value
first_of (some v) w = v
first_of none w = w

abbrev items_or_root : Value → Value → Value
items_or_root null root_items = root_items
items_or_root (obj data') root_items = first_of (get "items" data') (get_or_null "agents" data')
items_or_root v root_items = v

-- The value that must be the list of agents.
unfoldable pub agent_items : Value → Flow Value
agent_items (obj payload) =
    if is_false (get_or_null "success" payload)
    then raised (failure fail_contract "an unsuccessful JSON envelope")
    else returned (items_or_root (get_or_null "data" payload) (get_or_null "items" payload))
agent_items v = returned v

abbrev pub keep_if : Bool → Fields → Flow (List Fields) → Flow (List Fields)
keep_if keep item (raised e) = raised e
keep_if true item (returned items) = returned (item ∷ items)
keep_if false item (returned items) = returned items

module _ (env : Environment) where
  -- `str(item.get(name, "")).strip()`
  abbrev pub stripped : String → Fields → Text
  stripped name item = strip (text_or_empty env.show (get name item))

  abbrev pub is_enabled : Fields → Bool
  is_enabled item =
      not (text_eq (stripped "agent_uid" item) [])
      && not (is_false (get_or_null "enabled" item) || is_false (get_or_null "is_enabled" item))

  -- `normalized_items`
  unfoldable pub normalized_items : Items → Flow (List Fields)
  unfolding text_or_empty
  normalized_items bracket = returned []
  normalized_items (element (obj item) items) =
      let rest = normalized_items items in keep_if (is_enabled item) item rest
  normalized_items (element v items) = raised (failure fail_contract "a non-object item")

  -- The test that picks an agent: the uid where one is given, else the name.
  unfoldable pub is_wanted : (preferred : Text) → Fields → Bool
  unfolding text_or_empty without_spaces
  is_wanted preferred item =
      if text_eq preferred []
      then one_of preferred_names
          (lower (without_spaces (text_or_empty env.show (get "name" item))))
      else text_eq (stripped "agent_uid" item) (strip preferred)

  abbrev pub filter_by : (Fields → Bool) → List Fields → List Fields
  filter_by test [] = []
  filter_by test (item ∷ items) =
      let rest = filter_by test items in if test item then item ∷ rest else rest

  -- `matches[0]` or `candidates[0]`, of exactly one
  unfoldable pub only_one : List Fields → Flow Fields
  only_one (item ∷ []) = returned item
  only_one items = raised (failure fail_contract "not exactly one agent")

  abbrev pub selection : Fields → AgentSelection
  selection item = record {
    agent_uid = stripped "agent_uid" item;
    name = stripped "name" item;
    raw = item;
  }

  unfoldable pub select_from : (preferred : Text) → Value → Flow AgentSelection
  unfolding normalized_items is_wanted only_one text_or_empty
  select_from preferred (arr items) = and_then (normalized_items items) (λ agents.
      and_then (only_one (filter_by (is_wanted preferred) agents))
        (λ item. returned (selection item)))
  select_from preferred v = raised (failure fail_contract "must be a JSON array")

  unfoldable pub select_agent : (preferred : Text) → Answer → Flow AgentSelection
  unfolding select_from agent_items
  select_agent preferred answer =
      if not (answer.status_code == 200)
      then raised (failure fail_contract "Agent list request failed")
      else and_then (agent_items answer.body) (select_from preferred)

  -- `discover_agent`, with an Agent API configured; an empty text is no preference.
  unfoldable pub discover_agent : (user_id : ℕ) → (preferred : Text) → Step AgentSelection
  unfolding select_agent request
  discover_agent user_id preferred = do
    answer ← request env (list_agents user_id)
    flow_step (select_agent preferred answer)
