-- ===== src/Sidebar/Select.antt =====
-- Which cards the sidebar shows, and in what order: src/sidebar/select.rs, with the canonical names
-- of agents from src/sidebar/agent_ids.rs.
pub mod Shown
use Prim.Native.Nat.{Ordering}
use Prim.Native.Nat
use Prim.Native.String
use herdr_agent_watcher.Prelude.{
  ℕ, ◌+◌, ◌-◌, ◌^◌, String, Option, none, some, List, [], ◌∷◌, ◌++◌, Bool, true, false, ◌&&◌, not,
  ◌==◌, and_then, unwrap_or, if◌then◌else◌,
}
use herdr_agent_watcher.Prelude.Map.{Map}
use herdr_agent_watcher.Prelude.Sort.{sort}
use herdr_agent_watcher.Daemon.Store.Types.{CardState, PaneTelemetry, card_eq}

pub data SortMode : Type 0 where
  position smart group : SortMode

abbrev pub rank : CardState → ℕ
rank CardState.error = 0
rank CardState.attention = 1
rank CardState.running = 2
rank CardState.finished = 3
rank CardState.idle = 4

unfoldable pub canonical : String → Option String
canonical id =
    if id == "claude"
    then some "claude"
    else if id == "claude-code"
    then some "claude"
    else if id == "codex"
    then some "codex"
    else if id == "kimi"
    then some "kimi"
    else if id == "opencode"
    then some "opencode"
    else none

-- `Ordering::then`
abbrev pub then_cmp : Ordering → Ordering → Ordering
then_cmp Ordering.eq o = o
then_cmp Ordering.lt o = Ordering.lt
then_cmp Ordering.gt o = Ordering.gt

abbrev pub is_le : Ordering → Bool
is_le Ordering.gt = false
is_le Ordering.lt = true
is_le Ordering.eq = true

abbrev pub Card : Type 0 → Type 0
Card V = String × PaneTelemetry V

pub record Visible (V : Type 0) : Type 0 where
  pub panes : List (Card V)
  pub hidden_idle : ℕ

module _ {V : Type 0} where
  unfoldable pub group_key : PaneTelemetry V → String
  unfolding canonical
  group_key t = unwrap_or (and_then t.agent canonical) ""

  -- `position.unwrap_or(u32::MAX)`
  abbrev pub place : PaneTelemetry V → ℕ
  place t = unwrap_or t.position (2 ^ 32 - 1)

  unfoldable pub smart_cmp : Card V → Card V → Ordering
  smart_cmp a b =
      then_cmp (Nat.compare (rank a.1.card_state) (rank b.1.card_state))
        (then_cmp (Nat.compare b.1.updated_seq a.1.updated_seq) (String.compare a.0 b.0))

  unfoldable pub card_cmp : SortMode → Card V → Card V → Ordering
  unfolding group_key smart_cmp
  card_cmp SortMode.position a b =
      then_cmp (Nat.compare (place a.1) (place b.1)) (String.compare a.0 b.0)
  card_cmp SortMode.smart a b = smart_cmp a b
  card_cmp SortMode.group a b =
      then_cmp (String.compare (group_key a.1) (group_key b.1)) (smart_cmp a b)

  -- The card is of another workspace than the one asked for.
  abbrev pub out_of_scope : Option String → PaneTelemetry V → Bool
  out_of_scope (some scope) t = elim t.workspace_id [
    | none ↦ false
    | some workspace ↦ not (scope == workspace)
  ]
  out_of_scope none t = false

  abbrev pub is_idle : PaneTelemetry V → Bool
  is_idle t = card_eq t.card_state CardState.idle

  -- The loop over the panes.
  unfoldable pub sift : Map (PaneTelemetry V) → Bool → Option String → Visible V → Visible V
  sift [] hide_idle scope v = v
  sift ((id, t) ∷ panes) hide_idle scope v = sift panes hide_idle scope (
      if out_of_scope scope t
      then v
      else if hide_idle && is_idle t
      then record v { hidden_idle = v.hidden_idle + 1 }
      else record v { panes = v.panes ++ (id, t) ∷ [] })

  unfoldable pub visible : Map (PaneTelemetry V) → SortMode → Bool → Option String → Visible V
  unfolding sift card_cmp
  visible panes mode hide_idle scope =
      let v = sift panes hide_idle scope (record { panes = []; hidden_idle = 0 }) in
      record v { panes = sort (λ a b. is_le (card_cmp mode a b)) v.panes }
