-- ===== src/Daemon/Loop.antt =====
-- One round of the daemon's loop, src/daemon/run.rs, from the pane list that Herdr has answered to
-- the last write of the store. Events of the adapters reach the store through `record_event`.
pub mod Cards
pub mod Invariant
pub mod Round
use Prim.Native.String.{◌++◌}
use herdr_agent_watcher.Prelude.{
  ℕ, ◌+◌, ◌%◌, ◌^◌, String, Option, none, some, List, [], ◌∷◌, Bool, ◌==◌, ◌&&◌, any, keep_if,
  or_else, if◌then◌else◌,
}
use herdr_agent_watcher.Prelude.Map.{Map}
use herdr_agent_watcher.Json.{Json}
use herdr_agent_watcher.Herdr.{PaneInfo}
use herdr_agent_watcher.Terminal.{PtyState, upsert_pane, remove_pane}
use herdr_agent_watcher.Agents.{Emitted, Answer, AgentAdapter, Registry, adapter_for}
use herdr_agent_watcher.Daemon.Reconcile.{
  Binding, Action, bind, rebind, unbind, diff, apply, agent_for, forget, reported, binding_eq,
}
use herdr_agent_watcher.Daemon.Store.Types.{TelemetryStore}
use herdr_agent_watcher.Daemon.Store.Broadcast.{remove}
use herdr_agent_watcher.Daemon.Store.Record.{record_event}
use herdr_agent_watcher.Daemon.Store.Ops.{
  set_agent, set_pane_list_cwd, set_pane_position, set_pane_workspace, replace_session,
}

-- A pane with the agent and the session for which there was no adapter.
abbrev pub Skip : Type 0
Skip = String × Binding

abbrev pub skip_eq : Skip → Skip → Bool
skip_eq a b = (a.0 == b.0) && binding_eq a.1 b.1

pub record Daemon (W V : Type 0) : Type 0 where
  pub bindings : Map Binding
  pub store : TelemetryStore V
  pub pty : PtyState
  pub skipped : List Skip
  pub world : W

-- What an action came to: `done` goes on the list of applied actions; `failed` and `skipped` do not.
pub data Result : Type 0 where
  done skipped : Result
  failed : String → Result

abbrev pub of_error : Option String → Result
of_error none = done
of_error (some e) = failed e

abbrev pub cwd_of : PaneInfo → Option String
cwd_of pane = or_else pane.foreground_cwd pane.cwd

unfoldable pub live_skips : List PaneInfo → List Skip
live_skips [] = []
live_skips (pane ∷ panes) = elim (reported pane) [
  | none ↦ live_skips panes
  | some b ↦ (pane.pane_id, b) ∷ live_skips panes
]

unfoldable pub upsert_panes : (String → Option ℕ) → ℕ → PtyState → List PaneInfo → PtyState
upsert_panes pid now pty [] = pty
upsert_panes pid now pty (pane ∷ panes) =
    upsert_panes pid now (upsert_pane pty pane.pane_id (pid pane.pane_id) (cwd_of pane) now) panes

-- An action that was done is put on the list.
abbrev pub kept : Result → Action → List Action → List Action
kept done a applied = a ∷ applied
kept skipped a applied = applied
kept (failed e) a applied = applied

module _ (J : Json) where
  open J use {Value}

  unfoldable pub deliver_events : TelemetryStore Value → List (Emitted Value) → TelemetryStore Value
  deliver_events st [] = st
  deliver_events st (e ∷ es) = deliver_events (record_event J st e.pane_id e.event e.payload) es

  -- The last loop of a round, from the given position on.
  unfoldable pub place_panes : TelemetryStore Value → ℕ → List PaneInfo → TelemetryStore Value
  place_panes st n [] = st
  place_panes st n (pane ∷ panes) =
      let a = set_pane_list_cwd st pane.pane_id (cwd_of pane) in
      let b = set_pane_workspace a pane.pane_id (some pane.workspace_id) in
      place_panes (set_pane_position b pane.pane_id (n % 2 ^ 32)) (n + 1) panes

module _ (J : Json) {W : Type 0} where
  open J use {Value}

  -- A call of an adapter: its events are in the store when it returns.
  unfoldable pub after_call : Daemon W Value → Answer W Value → Daemon W Value
  unfolding deliver_events
  after_call d a = record d { store = deliver_events J d.store a.events; world = a.world }

  -- `adapter.unbind` as a rollback, then the card goes.
  unfoldable pub roll_back : AgentAdapter W Value → Daemon W Value → String → Daemon W Value
  unfolding after_call
  roll_back adapter d pane_id =
      let d' = after_call d (adapter.unbind d.world pane_id) in
      record d' { store = remove d'.store pane_id }

  -- `adapter.bind`, with the rollback where it fails.
  unfoldable pub start_watcher :
      AgentAdapter W Value → Daemon W Value → String → Binding → Daemon W Value × Result
  unfolding after_call roll_back
  start_watcher adapter d pane_id b =
      let a =
        adapter.bind d.world (record { pane_id = pane_id; agent_id = b.0; agent_session = b.1 }) in
      let d' = after_call d a in
      elim a.error [ none ↦ (d', done) | some e ↦ (roll_back adapter d' pane_id, failed e) ]

  unfoldable pub bind_pane :
      AgentAdapter W Value → Daemon W Value → String → Binding → Daemon W Value × Result
  unfolding start_watcher
  bind_pane adapter d pane_id b =
      start_watcher adapter (record d { store = set_agent d.store pane_id b.0 }) pane_id b

  -- The old watcher is stopped first; the answer is its error, if it has one.
  unfoldable pub stop_previous :
      Registry W Value → Daemon W Value → String → Daemon W Value × Option String
  unfolding after_call
  stop_previous registry d pane_id = elim (agent_for d.bindings pane_id) [
    | none ↦ (d, none)
    | some agent ↦ elim (adapter_for registry agent) [
      | none ↦ (d, none)
      | some adapter ↦ let a = adapter.unbind d.world pane_id in (after_call d a, a.error)
    ]
  ]

  unfoldable pub start_replacement :
      Registry W Value → Daemon W Value → String → Binding → Daemon W Value × Result
  unfolding start_watcher
  start_replacement registry d pane_id b =
      let d' = record d { bindings = forget d.bindings pane_id } in
      elim (adapter_for registry b.0) [
        | none ↦
            (record d' { store = remove d'.store pane_id }, failed ("no adapter for agent " ++ b.0))
        | some adapter ↦
            start_watcher adapter (record d' { store = replace_session d'.store pane_id b.0 })
              pane_id b
      ]

  unfoldable pub rebind_pane :
      Registry W Value → Daemon W Value → String → Binding → Daemon W Value × Result
  unfolding stop_previous start_replacement
  rebind_pane registry d pane_id b =
      let (d', error) = stop_previous registry d pane_id in
      elim error [ some e ↦ (d', failed e) | none ↦ start_replacement registry d' pane_id b ]

  unfoldable pub unbind_pane : Registry W Value → Daemon W Value → String → Daemon W Value × Result
  unfolding stop_previous
  unbind_pane registry d pane_id =
      let (d', error) = stop_previous registry d pane_id in
      elim error [
        | some e ↦ (d', failed e)
        | none ↦
            (record d' { store = remove d'.store pane_id; pty = remove_pane d'.pty pane_id }, done)
      ]

  -- The body of the loop over the actions.
  unfoldable pub perform : Registry W Value → Daemon W Value → Action → Daemon W Value × Result
  unfolding bind_pane rebind_pane unbind_pane
  perform registry d (bind p b) = elim (adapter_for registry b.0) [
    | some adapter ↦ bind_pane adapter d p b
    | none ↦ (
      record d {
        skipped = if any (skip_eq (p, b)) d.skipped then d.skipped else (p, b) ∷ d.skipped;
      },
      skipped,
    )
  ]
  perform registry d (rebind p b) = rebind_pane registry d p b
  perform registry d (unbind p) = unbind_pane registry d p

  -- The actions that were done, in order.
  unfoldable pub perform_all :
      Registry W Value → Daemon W Value → List Action → Daemon W Value × List Action
  unfolding perform
  perform_all registry d [] = (d, [])
  perform_all registry d (a ∷ as') =
      let (d', r) = perform registry d a in
      let (d'', applied) = perform_all registry d' as' in (d'', kept r a applied)

  unfoldable pub tick :
      Registry W Value → (String → Option ℕ) → ℕ → Daemon W Value → List PaneInfo → Daemon W Value
  unfolding live_skips upsert_panes perform_all place_panes
  tick registry pid now d panes =
      let live = live_skips panes in
      let d₁ = record d {
        skipped = keep_if (λ s. any (skip_eq s) live) d.skipped;
        pty = upsert_panes pid now d.pty panes;
      } in
      let (d₂, applied) = perform_all registry d₁ (diff d₁.bindings panes) in
      record d₂ { bindings = apply d₂.bindings applied; store = place_panes J d₂.store 0 panes }
