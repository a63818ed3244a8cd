-- ===== src/Daemon/Loop/Invariant.antt =====
-- The invariant of the loop, src/daemon/run.rs: the panes with a card are the bound panes.
use herdr_agent_watcher.Prelude.{
  ℕ, String, ◌≡◌, refl, ◌∙◌, Option, none, some, List, [], ◌∷◌, true, ◌==◌, arith, eq_iff, is_some,
  if◌then◌else◌, Bool-cases, Option-cases, inl, inr, any, keep_if,
}
use herdr_agent_watcher.Prelude.Map
use herdr_agent_watcher.Prelude.Map.{Map, HasUniqueKeys, remove-HasUniqueKeys}
use herdr_agent_watcher.Json.{Json}
use herdr_agent_watcher.Herdr.{PaneInfo}
use herdr_agent_watcher.Agents.{Registry, adapter_for}
use herdr_agent_watcher.Daemon.Reconcile.{
  Binding, Action, bind, rebind, unbind, target, diff, forget,
}
use herdr_agent_watcher.Daemon.Reconcile.Actions.{
  action_for, HasDistinctTargets, outcome, get-apply,
}
use herdr_agent_watcher.Daemon.Reconcile.Diff.{diff-HasDistinctTargets, action_for-diff}
use herdr_agent_watcher.Daemon.Reconcile.Converge.{apply-HasUniqueKeys}
use herdr_agent_watcher.Daemon.Store.Domain.{has_card}
use herdr_agent_watcher.Daemon.Loop.{
  Daemon, Result, done, skipped, failed, kept, skip_eq, stop_previous, rebind_pane, unbind_pane,
  perform, perform_all, live_skips, upsert_panes, tick,
}
use herdr_agent_watcher.Daemon.Loop.Cards.{
  is_done, bindings-bind_pane, bindings-start_replacement, bindings-stop_previous,
  has_card-place_panes,
}
use herdr_agent_watcher.Daemon.Loop.Round.{is_fresh, get-perform, has_card-perform, perform-settles}

kept-HasDistinctTargets :
    (r : Result) (a : Action) (xs : List Action)
    → action_for xs (target a) ≡ none
    → HasDistinctTargets xs
    → HasDistinctTargets (kept r a xs)
kept-HasDistinctTargets done a xs h u = (h, u)
kept-HasDistinctTargets skipped a xs h u = u
kept-HasDistinctTargets (failed e) a xs h u = u

action_for-kept :
    (r : Result) (a : Action) (xs : List Action) (p : String)
    → action_for (kept r a xs) p
      ≡ (if is_done r then (if target a == p then some a else action_for xs p) else action_for xs p)
unfolding action_for
action_for-kept done a xs p = refl
action_for-kept skipped a xs p = refl
action_for-kept (failed e) a xs p = refl

-- The panes with a card are the bound panes.
pub record CardsMatch {W V : Type 0} (d : Daemon W V) : Type 0 where
  pub card_iff_bound : (k : String) → has_card d.store k ≡ Map.has d.bindings k

module _ (J : Json) {W : Type 0} (registry : Registry W (Json.Value J)) where
  open J use {Value}

  perform-HasUniqueKeys :
      (d : Daemon W Value) (a : Action)
      → HasUniqueKeys d.bindings
      → HasUniqueKeys (perform J registry d a).0.bindings
  unfolding perform rebind_pane unbind_pane forget
  perform-HasUniqueKeys d (bind p b) u = elim (Option-cases (adapter_for registry b.0)) [
    | inl e ↦ rw (e, perform) u
    | inr (a, e) ↦ rw (e, perform, bindings-bind_pane J a d p b) u
  ]
  perform-HasUniqueKeys d (rebind p b) u =
      let s = stop_previous J registry d p in
      elim (Option-cases s.1) [
        | inl e ↦
            rw
              (
                e,
                rebind_pane,
                bindings-start_replacement J registry s.0 p b,
                bindings-stop_previous J registry d p,
              )
              (remove-HasUniqueKeys d.bindings p u)
        | inr (x, e) ↦ rw (e, rebind_pane, bindings-stop_previous J registry d p) u
      ]
  perform-HasUniqueKeys d (unbind p) u =
      let s = stop_previous J registry d p in
      elim (Option-cases s.1) [
        | inl e ↦ rw (e, unbind_pane, bindings-stop_previous J registry d p) u
        | inr (x, e) ↦ rw (e, unbind_pane, bindings-stop_previous J registry d p) u
      ]

  perform_all-HasUniqueKeys :
      (d : Daemon W Value) (todo : List Action)
      → HasUniqueKeys d.bindings
      → HasUniqueKeys (perform_all J registry d todo).0.bindings
  unfolding perform_all
  perform_all-HasUniqueKeys d [] u = u
  perform_all-HasUniqueKeys d (a ∷ todo) u =
      perform_all-HasUniqueKeys (perform J registry d a).0 todo (perform-HasUniqueKeys d a u)

  abbrev after : Daemon W Value → List Action → Daemon W Value
  after d todo = (perform_all J registry d todo).0

  abbrev applied : Daemon W Value → List Action → List Action
  applied d todo = (perform_all J registry d todo).1

  -- A pane that no action names keeps its card, its binding, and has no action applied.
  has_card-elsewhere :
      (d : Daemon W Value) (todo : List Action) (k : String)
      → action_for todo k ≡ none
      → has_card (after d todo).store k ≡ has_card d.store k
  unfolding perform_all action_for
  has_card-elsewhere d [] k h = refl
  has_card-elsewhere d (a ∷ todo) k h =
      has_card-elsewhere (perform J registry d a).0 todo k (ground arith)
      ∙ has_card-perform J registry d a k (ground arith)

  get-elsewhere :
      (d : Daemon W Value) (todo : List Action) (k : String)
      → action_for todo k ≡ none
      → Map.get (after d todo).bindings k ≡ Map.get d.bindings k
  unfolding perform_all action_for
  get-elsewhere d [] k h = refl
  get-elsewhere d (a ∷ todo) k h =
      get-elsewhere (perform J registry d a).0 todo k (ground arith)
      ∙ get-perform J registry d a k (ground arith)

  action_for-elsewhere :
      (d : Daemon W Value) (todo : List Action) (k : String)
      → action_for todo k ≡ none
      → action_for (applied d todo) k ≡ none
  unfolding perform_all action_for
  action_for-elsewhere d [] k h = refl
  action_for-elsewhere d (a ∷ todo) k h =
      let (d', r) = perform J registry d a in
      ground (
        arith,
        action_for-kept r a (applied d' todo) k,
        action_for-elsewhere d' todo k (ground arith),
      )

  applied-HasDistinctTargets :
      (d : Daemon W Value) (todo : List Action)
      → HasDistinctTargets todo
      → HasDistinctTargets (applied d todo)
  unfolding perform_all action_for
  applied-HasDistinctTargets d [] h = tt
  applied-HasDistinctTargets d (a ∷ todo) h =
      let (d', r) = perform J registry d a in
      kept-HasDistinctTargets r a (applied d' todo) (action_for-elsewhere d' todo (target a) h.0)
        (applied-HasDistinctTargets d' todo h.1)

  perform_all-settles :
      (d : Daemon W Value) (todo : List Action) (k : String)
      → HasDistinctTargets todo
      → has_card d.store k ≡ Map.has d.bindings k
      → is_fresh (action_for todo k) (Map.get d.bindings k) ≡ true
      → has_card (after d todo).store k
        ≡ is_some (outcome (action_for (applied d todo) k) (Map.get (after d todo).bindings k))
  unfolding perform_all action_for
  perform_all-settles d [] k h card fresh = card
  perform_all-settles d (a ∷ todo) k h card fresh =
      let (d', r) = perform J registry d a in
      elim (Bool-cases (target a == k)) [
        | inl e ↦ ground (
          arith,
          eq_iff (target a) k,
          e,
          card,
          fresh,
          action_for-kept r a (applied d' todo) k,
          has_card-elsewhere d' todo (target a) h.0,
          get-elsewhere d' todo (target a) h.0,
          action_for-elsewhere d' todo (target a) h.0,
          perform-settles J registry d a,
        )
        | inr e ↦ ground (
          arith,
          e,
          card,
          fresh,
          action_for-kept r a (applied d' todo) k,
          has_card-perform J registry d a k e,
          get-perform J registry d a k e,
          perform_all-settles d' todo k h.1,
        )
      ]

  fresh-diff :
      (bound : Map Binding) (panes : List PaneInfo) (k : String)
      → HasUniqueKeys bound
      → is_fresh (action_for (diff bound panes) k) (Map.get bound k) ≡ true
  fresh-diff bound panes k u = ground (arith, action_for-diff bound panes u k)

  -- If no pane is bound twice and the panes with a card are the bound panes, then after a round of
  -- the loop the panes with a card are again the bound panes, whatever the adapters do and whichever
  -- of their calls fail.
  pub tick-CardsMatch :
      (pid : String → Option ℕ) (now : ℕ) (d : Daemon W Value) (panes : List PaneInfo)
      → HasUniqueKeys d.bindings
      → CardsMatch d
      → CardsMatch (tick J registry pid now d panes)
  unfolding tick
  tick-CardsMatch pid now d panes u match =
      let todo = diff d.bindings panes in
      let d₁ = record d {
        skipped = keep_if (λ s. any (skip_eq s) (live_skips panes)) d.skipped;
        pty = upsert_panes pid now d.pty panes;
      } in
      record {
        card_iff_bound = λ k.
            has_card-place_panes J (after d₁ todo).store 0 panes k
            ∙ ground (
              arith,
              get-apply (after d₁ todo).bindings (applied d₁ todo) k
                  (applied-HasDistinctTargets d₁ todo (diff-HasDistinctTargets d.bindings panes u)),
              perform_all-settles d₁ todo k (diff-HasDistinctTargets d.bindings panes u)
                  (match.card_iff_bound k) (fresh-diff d.bindings panes k u),
            );
      }

  -- If no pane is bound twice, then none is after a round of the loop.
  pub tick-HasUniqueKeys :
      (pid : String → Option ℕ) (now : ℕ) (d : Daemon W Value) (panes : List PaneInfo)
      → HasUniqueKeys d.bindings
      → HasUniqueKeys (tick J registry pid now d panes).bindings
  unfolding tick
  tick-HasUniqueKeys pid now d panes u =
      let d₁ = record d {
        skipped = keep_if (λ s. any (skip_eq s) (live_skips panes)) d.skipped;
        pty = upsert_panes pid now d.pty panes;
      } in
      let todo = diff d.bindings panes in
      apply-HasUniqueKeys (after d₁ todo).bindings (applied d₁ todo)
        (perform_all-HasUniqueKeys d₁ todo u)
