-- ===== src/Service/Research/Unique.antt =====
-- `discover_agent` returns the only agent that is wanted.
use quest_test.Prelude.{
  ◌≡◌, refl, sym, ap, ◌∙◌, subst, Bool, true, false, not, if_ind, Bool-cases, Text, strip, not-true,
  text_eq, and_true, List, [], ◌∷◌, ◌==◌, All, ==_iff, arith, inl, inr,
}
use mathlib.Core.List.{Memᴰ}
use quest_test.Effect.{returned, raised, raised-returned}
use quest_test.Json.{
  Value, null, bool, int, float, str, arr, obj, Items, element, bracket, Fields, get,
}
use quest_test.Service.Flow.{Flow, and_then, and_then_inv}
use quest_test.Service.Flow.Refresh.{text_or_empty}
use quest_test.Service.Research.{Environment, Answer}
use quest_test.Service.Research.Agents.{
  AgentSelection, agent_items, keep_if, is_enabled, normalized_items, is_wanted, filter_by,
  only_one, selection, select_from, select_agent,
}

module _ (env : Environment) where
  kept :
      (test : Fields → Bool) (x y : Fields) (ys : List Fields)
      → test y ≡ true
      → (Memᴰ x (filter_by env test ys) → Memᴰ x ys × (test x ≡ true))
      → Memᴰ x (y ∷ filter_by env test ys)
      → Memᴰ x (y ∷ ys) × (test x ≡ true)
  kept test x y ys keeps rest (Memᴰ.head e) = (Memᴰ.head e, ap test e ∙ keeps)
  kept test x y ys keeps rest (Memᴰ.tail n) =
      let (later, holds) = rest n in (Memᴰ.tail later, holds)

  mem_of_filter :
      (test : Fields → Bool) (x : Fields) (xs : List Fields)
      → Memᴰ x (filter_by env test xs)
      → Memᴰ x xs × (test x ≡ true)
  mem_of_filter test x [] m = elim m [ ]
  mem_of_filter test x (y ∷ ys) m = elim (Bool-cases (test y)) [
    | inl keeps ↦ kept test x y ys keeps (mem_of_filter test x ys) (rw keeps at m)
    | inr drops ↦
        let (later, holds) = mem_of_filter test x ys (rw drops at m) in (Memᴰ.tail later, holds)
  ]

  filter_of_mem :
      (test : Fields → Bool) (x : Fields) (xs : List Fields)
      → Memᴰ x xs
      → test x ≡ true
      → Memᴰ x (filter_by env test xs)
  filter_of_mem test x [] m h = elim m [ ]
  filter_of_mem test x (y ∷ ys) (Memᴰ.head e) h = rw (sym (ap test e) ∙ h) (Memᴰ.head e)
  filter_of_mem test x (y ∷ ys) (Memᴰ.tail m) h = elim (Bool-cases (test y)) [
    | inl keeps ↦ rw keeps (Memᴰ.tail (filter_of_mem test x ys m h))
    | inr drops ↦ rw drops (filter_of_mem test x ys m h)
  ]

  only_one_inv : (xs : List Fields) (x : Fields) → only_one env xs ≡ returned x → xs ≡ x ∷ []
  unfolding only_one
  only_one_inv [] x h = cc
  only_one_inv (y ∷ []) x h = ap (λ z. z ∷ []) (returned_inv y x h)
    where
      returned_inv : (a b : Fields) → ◌≡◌ {A = Flow Fields} (returned a) (returned b) → a ≡ b
      returned_inv a b e = cc
  only_one_inv (y ∷ z ∷ ys) x h = cc

  abbrev Enabled : Fields → Type 0
  Enabled item = is_enabled env item ≡ true

  keep_if-Enabled :
      (item : Fields) (rest : Flow (List Fields)) (b : Bool)
      → (b ≡ true → Enabled item)
      → ((more : List Fields) → rest ≡ returned more → All Enabled more)
      → (agents : List Fields) → keep_if b item rest ≡ returned agents
      → All Enabled agents
  keep_if-Enabled item (raised e) b here later agents h = absurd (raised-returned e agents h)
  keep_if-Enabled item (returned more) true here later agents h =
      subst (All Enabled) (returned_inv (item ∷ more) agents h) (here refl, later more refl)
    where
      returned_inv :
          (x y : List Fields) → ◌≡◌ {A = Flow (List Fields)} (returned x) (returned y) → x ≡ y
      returned_inv x y e = cc
  keep_if-Enabled item (returned more) false here later agents h = later agents h

  normalized_items-Enabled :
      (items : Items) (agents : List Fields)
      → normalized_items env items ≡ returned agents
      → All Enabled agents
  unfolding normalized_items
  normalized_items-Enabled bracket [] h = tt
  normalized_items-Enabled bracket (a ∷ agents) h = cc
  normalized_items-Enabled (element (obj item) items) agents h =
      keep_if-Enabled item (normalized_items env items) (is_enabled env item) (λ e. e)
        (normalized_items-Enabled items) agents h
  normalized_items-Enabled (element null items) agents h = cc
  normalized_items-Enabled (element (bool b) items) agents h = cc
  normalized_items-Enabled (element (int n) items) agents h = cc
  normalized_items-Enabled (element (float t) items) agents h = cc
  normalized_items-Enabled (element (str t) items) agents h = cc
  normalized_items-Enabled (element (arr l) items) agents h = cc

  mem-All : (x : Fields) (xs : List Fields) → All Enabled xs → Memᴰ x xs → Enabled x
  mem-All x [] holds m = elim m [ ]
  mem-All x (y ∷ ys) (here, later) (Memᴰ.head e) = subst Enabled (sym e) here
  mem-All x (y ∷ ys) (here, later) (Memᴰ.tail m) = mem-All x ys later m

  -- The agent was chosen from the enabled agents of the list as the only one that is wanted.
  pub record Chosen (preferred : Text) (items : Items) (chosen : AgentSelection) : Type 0 where
    pub agents : List Fields
    pub visible : normalized_items env items ≡ returned agents
    pub member : Memᴰ chosen.raw agents
    pub enabled : is_enabled env chosen.raw ≡ true
    pub same_uid : chosen.agent_uid ≡ strip (text_or_empty env.show (get "agent_uid" chosen.raw))
    pub given_uid : text_eq chosen.agent_uid [] ≡ false
    pub same_name : chosen.name ≡ strip (text_or_empty env.show (get "name" chosen.raw))
    pub wanted : is_wanted env preferred chosen.raw ≡ true
    pub only :
        (other : Fields)
        → Memᴰ other agents
        → is_wanted env preferred other ≡ true
        → other ≡ chosen.raw

  mem_one : (x y : Fields) → Memᴰ x (y ∷ []) → x ≡ y
  mem_one x y (Memᴰ.head e) = e
  mem_one x y (Memᴰ.tail m) = elim m [ ]

  item-Chosen :
      (preferred : Text) (items : Items) (agents : List Fields) (item : Fields)
      → normalized_items env items ≡ returned agents
      → filter_by env (is_wanted env preferred) agents ≡ item ∷ []
      → Chosen preferred items (selection env item)
  item-Chosen preferred items agents item visible one =
      let test = is_wanted env preferred in
      let (member, wanted) =
        mem_of_filter test item agents (subst (Memᴰ item) (sym one) (Memᴰ.head refl)) in
      let enabled = mem-All item agents (normalized_items-Enabled items agents visible) member in
      record {
        agents = agents;
        visible = visible;
        member = member;
        enabled = enabled;
        same_uid = refl;
        given_uid = not-true _ (and_true _ _ enabled).0;
        same_name = refl;
        wanted = wanted;
        only = λ other m holds.
            mem_one other item (subst (Memᴰ other) one (filter_of_mem test other agents m holds));
      }

  -- The list of agents that a response brings, if its envelope is accepted.
  pub record Selected (preferred : Text) (answer : Answer) (chosen : AgentSelection) : Type 0 where
    pub accepted : answer.status_code ≡ 200
    pub items : Items
    pub listed : agent_items answer.body ≡ returned (arr items)
    pub chosen_one : Chosen preferred items chosen

  select_from-Chosen :
      (preferred : Text) (v : Value) (chosen : AgentSelection)
      → select_from env preferred v ≡ returned chosen
      → (items : Items) × (v ≡ arr items) × Chosen preferred items chosen
  unfolding select_from
  select_from-Chosen preferred (arr items) chosen h =
      let (agents, visible, rest) = and_then_inv (normalized_items env items) pick chosen h in
      let wanted = filter_by env (is_wanted env preferred) agents in
      let (item, one, last) =
        and_then_inv (only_one env wanted) (λ x. returned (selection env x)) chosen rest in
      (
        items,
        refl,
        subst (Chosen preferred items) (returned_inv (selection env item) chosen last)
            (item-Chosen preferred items agents item visible (only_one_inv wanted item one)),
      )
    where
      pick : List Fields → Flow AgentSelection
      pick agents =
          and_then (only_one env (filter_by env (is_wanted env preferred) agents))
            (λ item. returned (selection env item))

      returned_inv :
          (x y : AgentSelection) → ◌≡◌ {A = Flow AgentSelection} (returned x) (returned y) → x ≡ y
      returned_inv x y e = cc
  select_from-Chosen preferred null chosen h = cc
  select_from-Chosen preferred (bool b) chosen h = cc
  select_from-Chosen preferred (int n) chosen h = cc
  select_from-Chosen preferred (float t) chosen h = cc
  select_from-Chosen preferred (str t) chosen h = cc
  select_from-Chosen preferred (obj o) chosen h = cc

-- An agent that is selected from a list response comes from an answer 200 whose envelope is not
-- unsuccessful. It is a member of the visible agents, enabled, with that member's uid, which is not
-- blank, and its name, has the preferred uid, or a research agent's name where there is no preference,
-- and every visible agent that does so is the selected one: an ambiguous list selects nothing.
pub select_agent-Selected :
    (env : Environment) (preferred : Text) (answer : Answer) (chosen : AgentSelection)
    → select_agent env preferred answer ≡ returned chosen
    → Selected env preferred answer chosen
unfolding select_agent
select_agent-Selected env preferred answer chosen =
    if_ind (λ m. m ≡ returned chosen → Selected env preferred answer chosen)
      (not (answer.status_code == 200))
      {y = and_then (agent_items answer.body) (select_from env preferred)}
      (λ _ h. absurd (raised-returned _ chosen h))
      (λ accepted h.
        let (v, listed, rest) =
          and_then_inv (agent_items answer.body) (select_from env preferred) chosen h in
        let (items, same, one) = select_from-Chosen env preferred v chosen rest in
        record {
          accepted = (==_iff answer.status_code 200).0 (ground (arith, accepted));
          items = items;
          listed = listed ∙ ap returned same;
          chosen_one = one;
        })
