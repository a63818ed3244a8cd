-- ===== src/Daemon/Reconcile.antt =====
-- The reconciliation of the bound panes with Herdr's pane list, src/daemon/reconcile.rs.
pub mod Actions
pub mod Diff
pub mod Converge
use Prim.Native.Nat.{Ordering}
use Prim.Native.String.{compare}
use herdr_agent_watcher.Prelude.{
  ℕ, String, Option, none, some, List, [], ◌∷◌, ◌++◌, Bool, true, false, ◌&&◌, not, ◌==◌, ltb,
  nat_beq, and_then, if◌then◌else◌,
}
use mathlib.Core.Option
use herdr_agent_watcher.Prelude.Map
use herdr_agent_watcher.Prelude.Map.{Map}
use herdr_agent_watcher.Prelude.StrSet
use herdr_agent_watcher.Prelude.StrSet.{StrSet}
use herdr_agent_watcher.Prelude.Sort.{sort}
use herdr_agent_watcher.Herdr.{PaneInfo, session_value}

-- An agent's name and its session.
abbrev pub Binding : Type 0
Binding = String × String

abbrev pub binding_eq : Binding → Binding → Bool
binding_eq a b = (a.0 == b.0) && (a.1 == b.1)

pub data Action : Type 0 where
  bind rebind : String → Binding → Action
  unbind : String → Action

abbrev pub target : Action → String
target (bind p b) = p
target (rebind p b) = p
target (unbind p) = p

abbrev pub rank : Action → ℕ
rank (unbind p) = 0
rank (rebind p b) = 1
rank (bind p b) = 2

-- The order of the sort keys: the rank, then the pane's identifier.
abbrev pub action_le : Action → Action → Bool
action_le a b =
    if ltb (rank a) (rank b)
    then true
    else if nat_beq (rank a) (rank b)
    then (elim (compare (target a) (target b)) [ Ordering.gt ↦ false | _ ↦ true ])
    else false

unfoldable pub present_of : StrSet → List PaneInfo → StrSet
present_of seen [] = seen
present_of seen (pane ∷ panes) = present_of (StrSet.insert seen pane.pane_id) panes

-- The pane's agent and session, if it reports both.
unfoldable pub reported : PaneInfo → Option Binding
reported pane =
    and_then pane.agent (λ agent. Option.map (λ session. (agent, session)) (session_value pane))

unfoldable pub live_of : Map Binding → List PaneInfo → Map Binding
unfolding reported
live_of live [] = live
live_of live (pane ∷ panes) =
    live_of (elim (reported pane) [ none ↦ live | some b ↦ Map.insert live pane.pane_id b ]) panes

-- What is to be done about one bound pane.
unfoldable pub review : StrSet → Map Binding → String → Binding → Option Action
review present live pane_id bound =
    if not (StrSet.contains present pane_id)
    then some (unbind pane_id)
    else elim (Map.get live pane_id) [
      | none ↦ none
      | some b ↦ if binding_eq bound b then none else some (rebind pane_id b)
    ]

unfoldable pub changes : StrSet → Map Binding → Map Binding → List Action
unfolding review
changes present live [] = []
changes present live ((pane_id, bound) ∷ rest) = elim (review present live pane_id bound) [
  | none ↦ changes present live rest
  | some a ↦ a ∷ changes present live rest
]

unfoldable pub arrivals : Map Binding → Map Binding → List Action
arrivals bound [] = []
arrivals bound ((pane_id, b) ∷ rest) =
    let more = arrivals bound rest in
    if not (Map.has bound pane_id) then bind pane_id b ∷ more else more

unfoldable pub diff : Map Binding → List PaneInfo → List Action
unfolding changes arrivals present_of live_of
diff bound panes =
    let present = present_of [] panes in
    let live = live_of [] panes in
    sort action_le (changes present live bound ++ arrivals bound live)

unfoldable pub apply_action : Map Binding → Action → Map Binding
apply_action bound (bind p b) = Map.insert bound p b
apply_action bound (rebind p b) = Map.insert bound p b
apply_action bound (unbind p) = Map.remove bound p

unfoldable pub apply : Map Binding → List Action → Map Binding
unfolding apply_action
apply bound [] = bound
apply bound (a ∷ as') = apply (apply_action bound a) as'

unfoldable pub agent_for : Map Binding → String → Option String
agent_for bound pane_id = Option.map (λ b. b.0) (Map.get bound pane_id)

unfoldable pub forget : Map Binding → String → Map Binding
forget bound pane_id = Map.remove bound pane_id
