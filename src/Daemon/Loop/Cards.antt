-- ===== src/Daemon/Loop/Cards.antt =====
-- Which panes have a card after a round of the loop: src/daemon/run.rs.
use herdr_agent_watcher.Prelude.{
  ℕ, ◌+◌, ◌%◌, ◌^◌, String, ◌≡◌, refl, ◌∙◌, ap, none, some, List, [], ◌∷◌, Bool, true, false, not,
  ◌==◌, ◌&&◌, arith, if◌then◌else◌, Option-cases, inl, inr,
}
use herdr_agent_watcher.Prelude.Map
use herdr_agent_watcher.Prelude.Map.{Map, HasUniqueKeys, get-remove, remove-HasUniqueKeys}
use herdr_agent_watcher.Json.{Json}
use herdr_agent_watcher.Herdr.{PaneInfo}
use herdr_agent_watcher.Agents.{Emitted, AgentAdapter, Registry, adapter_for}
use herdr_agent_watcher.Daemon.Reconcile.{Binding, agent_for, forget}
use herdr_agent_watcher.Daemon.Store.Types.{TelemetryStore}
use herdr_agent_watcher.Daemon.Store.Record.{record_event}
use herdr_agent_watcher.Daemon.Store.Ops.{
  set_agent, set_pane_list_cwd, set_pane_position, set_pane_workspace, replace_session,
}
use herdr_agent_watcher.Daemon.Store.Domain.{
  has_card, has_card-set_agent, has_card-replace_session, has_card-remove,
  has_card-set_pane_list_cwd, has_card-set_pane_position, has_card-set_pane_workspace,
  has_card-record_event,
}
use herdr_agent_watcher.Daemon.Loop.{
  Daemon, Result, done, skipped, failed, deliver_events, after_call, roll_back, start_watcher,
  bind_pane, stop_previous, start_replacement, cwd_of, place_panes,
}

abbrev pub is_done : Result → Bool
is_done done = true
is_done skipped = false
is_done (failed e) = false

module _ (J : Json) where
  open J use {Value}

  has_card-deliver_events :
      (st : TelemetryStore Value) (es : List (Emitted Value)) (k : String)
      → has_card (deliver_events J st es) k ≡ has_card st k
  unfolding deliver_events
  has_card-deliver_events st [] k = refl
  has_card-deliver_events st (e ∷ es) k =
      has_card-deliver_events (record_event J st e.pane_id e.event e.payload) es k
      ∙ has_card-record_event J st e.pane_id e.event e.payload k

  pub has_card-place_panes :
      (st : TelemetryStore Value) (n : ℕ) (panes : List PaneInfo) (k : String)
      → has_card (place_panes J st n panes) k ≡ has_card st k
  unfolding place_panes
  has_card-place_panes st n [] k = refl
  has_card-place_panes st n (pane ∷ panes) k =
      let a = set_pane_list_cwd st pane.pane_id (cwd_of pane) in
      let b = set_pane_workspace a pane.pane_id (some pane.workspace_id) in
      has_card-place_panes (set_pane_position b pane.pane_id (n % 2 ^ 32)) (n + 1) panes k
      ∙ has_card-set_pane_position b pane.pane_id (n % 2 ^ 32) k
      ∙ has_card-set_pane_workspace a pane.pane_id (some pane.workspace_id) k
      ∙ has_card-set_pane_list_cwd st pane.pane_id (cwd_of pane) k

module _ (J : Json) {W : Type 0} where
  open J use {Value}

  pub has_card-start_watcher :
      (adapter : AgentAdapter W Value) (d : Daemon W Value) (p : String) (b : Binding) (k : String)
      → has_card (start_watcher J adapter d p b).0.store k ≡ (
          if (p == k) && not (is_done (start_watcher J adapter d p b).1)
          then false
          else has_card d.store k)
  unfolding start_watcher roll_back after_call
  has_card-start_watcher adapter d p b k =
      let a = adapter.bind d.world (record { pane_id = p; agent_id = b.0; agent_session = b.1 }) in
      let u = adapter.unbind a.world p in
      let st = deliver_events J d.store a.events in
      elim (Option-cases a.error) [
        | inl e ↦
            rw (e, start_watcher) (ground (arith, has_card-deliver_events J d.store a.events k))
        | inr (x, e) ↦
            rw (e, start_watcher)
              (ground (
                arith,
                has_card-deliver_events J d.store a.events k,
                has_card-deliver_events J st u.events k,
                has_card-remove (deliver_events J st u.events) p k,
              ))
      ]

  bindings-start_watcher :
      (adapter : AgentAdapter W Value) (d : Daemon W Value) (p : String) (b : Binding)
      → (start_watcher J adapter d p b).0.bindings ≡ d.bindings
  unfolding start_watcher roll_back after_call
  bindings-start_watcher adapter d p b =
      elim (Option-cases
        (adapter.bind d.world
          (record { pane_id = p; agent_id = b.0; agent_session = b.1 })).error) [
            | inl e ↦ rw (e, start_watcher) refl
            | inr (x, e) ↦ rw (e, start_watcher) refl
          ]

  pub has_card-bind_pane :
      (adapter : AgentAdapter W Value) (d : Daemon W Value) (p : String) (b : Binding) (k : String)
      → has_card (bind_pane J adapter d p b).0.store k
        ≡ (if p == k then is_done (bind_pane J adapter d p b).1 else has_card d.store k)
  unfolding bind_pane
  has_card-bind_pane adapter d p b k =
      let d' = record d { store = set_agent d.store p b.0 } in
      ground (arith, has_card-start_watcher adapter d' p b k, has_card-set_agent d.store p b.0 k)

  pub has_card-start_replacement :
      (registry : Registry W Value) (d : Daemon W Value) (p : String) (b : Binding) (k : String)
      → has_card (start_replacement J registry d p b).0.store k
        ≡ (if p == k then is_done (start_replacement J registry d p b).1 else has_card d.store k)
  unfolding start_replacement
  has_card-start_replacement registry d p b k =
      let d' = record d { bindings = forget d.bindings p } in
      elim (Option-cases (adapter_for registry b.0)) [
        | inl e ↦ rw (e, start_replacement) (ground (arith, has_card-remove d.store p k))
        | inr (a, e) ↦
            rw (e, start_replacement)
              (ground (
                arith,
                has_card-start_watcher a (record d' { store = replace_session d.store p b.0 }) p b
                    k,
                has_card-replace_session d.store p b.0 k,
              ))
      ]

  pub bindings-start_replacement :
      (registry : Registry W Value) (d : Daemon W Value) (p : String) (b : Binding)
      → (start_replacement J registry d p b).0.bindings ≡ forget d.bindings p
  unfolding start_replacement
  bindings-start_replacement registry d p b =
      let d' = record d { bindings = forget d.bindings p } in
      elim (Option-cases (adapter_for registry b.0)) [
        | inl e ↦ rw (e, start_replacement) refl
        | inr (a, e) ↦
            rw (e, start_replacement)
              (bindings-start_watcher a (record d' { store = replace_session d.store p b.0 }) p b)
      ]

  -- Stopping a watcher leaves the bindings alone.
  pub bindings-stop_previous :
      (registry : Registry W Value) (d : Daemon W Value) (p : String)
      → (stop_previous J registry d p).0.bindings ≡ d.bindings
  unfolding stop_previous after_call
  bindings-stop_previous registry d p = elim (Option-cases (agent_for d.bindings p)) [
    | inl e ↦ rw (e, stop_previous) refl
    | inr (agent, e) ↦ elim (Option-cases (adapter_for registry agent)) [
      | inl f ↦ rw (e, f, stop_previous) refl
      | inr (a, f) ↦ rw (e, f, stop_previous) refl
    ]
  ]

  pub has_card-stop_previous :
      (registry : Registry W Value) (d : Daemon W Value) (p k : String)
      → has_card (stop_previous J registry d p).0.store k ≡ has_card d.store k
  unfolding stop_previous after_call
  has_card-stop_previous registry d p k = elim (Option-cases (agent_for d.bindings p)) [
    | inl e ↦ rw (e, stop_previous) refl
    | inr (agent, e) ↦ elim (Option-cases (adapter_for registry agent)) [
      | inl f ↦ rw (e, f, stop_previous) refl
      | inr (a, f) ↦
          rw (e, f, stop_previous) (has_card-deliver_events J d.store (a.unbind d.world p).events k)
    ]
  ]

  pub bindings-bind_pane :
      (adapter : AgentAdapter W Value) (d : Daemon W Value) (p : String) (b : Binding)
      → (bind_pane J adapter d p b).0.bindings ≡ d.bindings
  unfolding bind_pane
  bindings-bind_pane adapter d p b =
      bindings-start_watcher adapter (record d { store = set_agent d.store p b.0 }) p b

  pub get-bind_pane :
      (adapter : AgentAdapter W Value) (d : Daemon W Value) (p : String) (b : Binding) (k : String)
      → Map.get (bind_pane J adapter d p b).0.bindings k ≡ Map.get d.bindings k
  get-bind_pane adapter d p b k = ap (λ m. Map.get m k) (bindings-bind_pane adapter d p b)

  pub get-start_replacement :
      (registry : Registry W Value) (d : Daemon W Value) (p : String) (b : Binding) (k : String)
      → Map.get (start_replacement J registry d p b).0.bindings k
        ≡ (if p == k then none else Map.get d.bindings k)
  unfolding forget
  get-start_replacement registry d p b k =
      ap (λ m. Map.get m k) (bindings-start_replacement registry d p b) ∙ get-remove d.bindings p k

  pub get-stop_previous :
      (registry : Registry W Value) (d : Daemon W Value) (p k : String)
      → Map.get (stop_previous J registry d p).0.bindings k ≡ Map.get d.bindings k
  get-stop_previous registry d p k = ap (λ m. Map.get m k) (bindings-stop_previous registry d p)
