-- ===== src/Daemon/Loop/Round.antt =====
-- What one action, and then a whole round, does to the bindings and the cards: src/daemon/run.rs.
use herdr_agent_watcher.Prelude.{
  String, ◌≡◌, refl, Option, some, Bool, true, false, ◌==◌, arith, eq_refl, is_some, if◌then◌else◌,
  Option-cases, inl, inr,
}
use herdr_agent_watcher.Prelude.Map
use herdr_agent_watcher.Prelude.Map.{Map, HasUniqueKeys, get-remove, remove-HasUniqueKeys}
use herdr_agent_watcher.Json.{Json}
use herdr_agent_watcher.Agents.{Registry, adapter_for}
use herdr_agent_watcher.Daemon.Reconcile.{Binding, Action, bind, rebind, unbind, target}
use herdr_agent_watcher.Daemon.Reconcile.Actions.{outcome}
use herdr_agent_watcher.Daemon.Store.Domain.{has_card, has_card-remove}
use herdr_agent_watcher.Daemon.Loop.{
  Daemon, Result, bind_pane, stop_previous, rebind_pane, unbind_pane, perform,
}
use herdr_agent_watcher.Daemon.Loop.Cards.{
  is_done, has_card-bind_pane, has_card-start_replacement, get-bind_pane, get-start_replacement,
  get-stop_previous, has_card-stop_previous,
}

-- The pane has a card, or not, as its binding after the action says.
abbrev pub settles : Action → Result → Option Binding → Bool
settles a r bound = is_some (if is_done r then outcome (some a) bound else bound)

-- A first binding is only asked of a pane that has none.
abbrev pub is_fresh : Option Action → Option Binding → Bool
is_fresh (some (bind p b)) (some old) = false
is_fresh a old = true

module _ (J : Json) {W : Type 0} (registry : Registry W (Json.Value J)) where
  open J use {Value}

  pub get-perform :
      (d : Daemon W Value) (a : Action) (k : String)
      → (target a == k) ≡ false
      → Map.get (perform J registry d a).0.bindings k ≡ Map.get d.bindings k
  unfolding perform bind_pane rebind_pane unbind_pane
  get-perform d (bind p b) k h = elim (Option-cases (adapter_for registry b.0)) [
    | inl e ↦ rw (e, perform) refl
    | inr (a, e) ↦ rw (e, perform) (get-bind_pane J a d p b k)
  ]
  get-perform d (rebind p b) k h =
      let s = stop_previous J registry d p in
      elim (Option-cases s.1) [
        | inl e ↦
            rw (e, rebind_pane)
              (ground (
                arith,
                h,
                get-start_replacement J registry s.0 p b k,
                get-stop_previous J registry d p k,
              ))
        | inr (x, e) ↦ rw (e, rebind_pane) (get-stop_previous J registry d p k)
      ]
  get-perform d (unbind p) k h = elim (Option-cases (stop_previous J registry d p).1) [
    | inl e ↦ rw (e, unbind_pane) (get-stop_previous J registry d p k)
    | inr (x, e) ↦ rw (e, unbind_pane) (get-stop_previous J registry d p k)
  ]

  pub has_card-perform :
      (d : Daemon W Value) (a : Action) (k : String)
      → (target a == k) ≡ false
      → has_card (perform J registry d a).0.store k ≡ has_card d.store k
  unfolding perform rebind_pane unbind_pane
  has_card-perform d (bind p b) k h = elim (Option-cases (adapter_for registry b.0)) [
    | inl e ↦ rw (e, perform) refl
    | inr (a, e) ↦ rw (e, perform) (ground (arith, h, has_card-bind_pane J a d p b k))
  ]
  has_card-perform d (rebind p b) k h =
      let s = stop_previous J registry d p in
      elim (Option-cases s.1) [
        | inl e ↦
            rw (e, rebind_pane)
              (ground (
                arith,
                h,
                has_card-start_replacement J registry s.0 p b k,
                has_card-stop_previous J registry d p k,
              ))
        | inr (x, e) ↦ rw (e, rebind_pane) (has_card-stop_previous J registry d p k)
      ]
  has_card-perform d (unbind p) k h =
      let s = stop_previous J registry d p in
      elim (Option-cases s.1) [
        | inl e ↦
            rw (e, unbind_pane)
              (ground
                (arith, h, has_card-remove s.0.store p k, has_card-stop_previous J registry d p k))
        | inr (x, e) ↦ rw (e, unbind_pane) (has_card-stop_previous J registry d p k)
      ]

  -- At its own pane: the card agrees with what the pane is then bound to.
  pub perform-settles :
      (d : Daemon W Value) (a : Action)
      → has_card d.store (target a) ≡ Map.has d.bindings (target a)
      → is_fresh (some a) (Map.get d.bindings (target a)) ≡ true
      → has_card (perform J registry d a).0.store (target a)
        ≡ settles a
            (perform J registry d a).1
            (Map.get (perform J registry d a).0.bindings (target a))
  unfolding perform bind_pane rebind_pane unbind_pane
  perform-settles d (bind p b) h fresh = elim (Option-cases (adapter_for registry b.0)) [
    | inl e ↦ rw (e, perform) h
    | inr (a, e) ↦
        rw (e, perform)
          (ground
            (arith, fresh, eq_refl p, has_card-bind_pane J a d p b p, get-bind_pane J a d p b p))
  ]
  perform-settles d (rebind p b) h fresh =
      let s = stop_previous J registry d p in
      elim (Option-cases s.1) [
        | inl e ↦
            rw (e, rebind_pane)
              (ground (
                arith,
                eq_refl p,
                has_card-start_replacement J registry s.0 p b p,
                get-start_replacement J registry s.0 p b p,
              ))
        | inr (x, e) ↦
            rw (e, rebind_pane)
              (ground (
                arith,
                h,
                has_card-stop_previous J registry d p p,
                get-stop_previous J registry d p p,
              ))
      ]
  perform-settles d (unbind p) h fresh =
      let s = stop_previous J registry d p in
      elim (Option-cases s.1) [
        | inl e ↦ rw (e, unbind_pane) (ground (arith, eq_refl p, has_card-remove s.0.store p p))
        | inr (x, e) ↦
            rw (e, unbind_pane)
              (ground (
                arith,
                h,
                has_card-stop_previous J registry d p p,
                get-stop_previous J registry d p p,
              ))
      ]
