-- ===== src/Agents.antt =====
-- The adapter interface and the registry of src/agents/mod.rs. An adapter is a parameter: what its
-- `bind` and `unbind` do is a function on a world `W` of which only the program's other parts know,
-- with the events that reach the store before the call returns.
use herdr_agent_watcher.Prelude.{String, Option, List, [], ◌∷◌}
use herdr_agent_watcher.Prelude.Map
use herdr_agent_watcher.Prelude.Map.{Map}

pub record BoundPane : Type 0 where
  pub pane_id : String
  pub agent_id : String
  pub agent_session : String

-- An event on its way to the store: the pane, the event's name and its payload.
pub record Emitted (V : Type 0) : Type 0 where
  pub pane_id : String
  pub event : String
  pub payload : V

-- `error` is none for `Ok(())`.
pub record Answer (W V : Type 0) : Type 0 where
  pub world : W
  pub events : List (Emitted V)
  pub error : Option String

pub record AgentAdapter (W V : Type 0) : Type 0 where
  pub ids : List String
  pub bind : W → BoundPane → Answer W V
  pub unbind : W → String → Answer W V

abbrev pub Registry : Type 0 → Type 0 → Type 0
Registry W V = Map (AgentAdapter W V)

module _ {W V : Type 0} where
  unfoldable pub register_ids : Registry W V → AgentAdapter W V → List String → Registry W V
  register_ids by_id adapter [] = by_id
  register_ids by_id adapter (id ∷ ids) = register_ids (Map.insert by_id id adapter) adapter ids

  unfoldable pub register_all : Registry W V → List (AgentAdapter W V) → Registry W V
  unfolding register_ids
  register_all by_id [] = by_id
  register_all by_id (a ∷ as') = register_all (register_ids by_id a a.ids) as'

  abbrev pub new_registry : List (AgentAdapter W V) → Registry W V
  new_registry adapters = register_all [] adapters

  unfoldable pub adapter_for : Registry W V → String → Option (AgentAdapter W V)
  adapter_for by_id agent_id = Map.get by_id agent_id
