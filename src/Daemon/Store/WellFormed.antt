-- ===== src/Daemon/Store/WellFormed.antt =====
-- What is true of every card, whatever calls the store has had: src/daemon/store.rs.
use herdr_agent_watcher.Prelude.{
  ℕ, ◌+◌, ◌≤◌, String, ◌≡◌, refl, subst, Option, none, some, Bool, true, false, ◌||◌, ◌==◌, arith,
  Bool-cases, Option-cases, inl, inr,
}
use herdr_agent_watcher.Prelude.Map
use herdr_agent_watcher.Prelude.Map.{get-insert, get-remove, get-empty}
use herdr_agent_watcher.Text.{is_empty, sanitise}
use herdr_agent_watcher.Json.{Json}
use herdr_agent_watcher.Daemon.Store.Types.{
  PaneTelemetry, TelemetryStore, empty_store, default_pane,
}
use herdr_agent_watcher.Daemon.Store.Broadcast.{
  publish, settle, mutate_existing, mutate_creating, remove,
}
use herdr_agent_watcher.Daemon.Store.Normalise.{normalise_event}
use herdr_agent_watcher.Daemon.Store.Record.{on_event, record_event}
use herdr_agent_watcher.Daemon.Store.Ops.{
  agent_change, set_agent, cwd_change, set_pane_list_cwd, position_change, set_pane_position,
  workspace_change, nonempty, set_pane_workspace, fresh_session, replace_session,
}
use herdr_agent_watcher.Daemon.Store.Call.{Call, call}
use herdr_agent_watcher.Daemon.Store.Keeps.{
  IsWellFormed, Keeps, agent_change-Keeps, cwd_change-Keeps, position_change-Keeps,
  workspace_change-Keeps, on_event-Keeps,
}

-- Every card is well-formed, with no number above the store's own.
pub record AllWellFormed {V : Type 0} (st : TelemetryStore V) : Type 0 where
  pub each :
      (k : String) (e : PaneTelemetry V) → Map.get st.panes k ≡ some e → IsWellFormed st.seq e

module _ {V : Type 0} where
  later : (n : ℕ) (e : PaneTelemetry V) → IsWellFormed n e → IsWellFormed (n + 1) e
  later n e w = record {
    recent = w.recent;
    sourced = w.sourced;
    stamped = omega (arith, w.stamped);
  }

  kept-IsWellFormed :
      (n : ℕ) (e : PaneTelemetry V) (r : PaneTelemetry V × Bool)
      → Keeps e r
      → IsWellFormed n e
      → IsWellFormed n r.0
  kept-IsWellFormed n e r k w =
      let (a, b, c) = k in
      record { recent = a w.recent; sourced = b w.sourced; stamped = rw c w.stamped }

  default-IsWellFormed : (n : ℕ) → IsWellFormed n (default_pane {V = V})
  default-IsWellFormed n = record { recent = omega arith; sourced = refl; stamped = omega arith }

  insert-AllWellFormed :
      (st st' : TelemetryStore V) (p : String) (e : PaneTelemetry V)
      → st'.panes ≡ Map.insert st.panes p e
      → st.seq ≤ st'.seq
      → IsWellFormed st'.seq e
      → AllWellFormed st
      → AllWellFormed st'
  insert-AllWellFormed st st' p e panes seq w all = record {
    each = λ k a h. elim (Bool-cases (p == k)) [
      | inl here ↦
          subst (IsWellFormed st'.seq) (ground (arith, here, panes, get-insert st.panes p k e, h)) w
      | inr miss ↦
          let old : Map.get st.panes k ≡ some a =
            ground (arith, miss, panes, get-insert st.panes p k e, h) in
          let v = all.each k a old in
          record { recent = v.recent; sourced = v.sourced; stamped = omega (arith, v.stamped, seq) }
    ];
  }

  publish-AllWellFormed :
      (st : TelemetryStore V) (p : String) (e : PaneTelemetry V)
      → IsWellFormed st.seq e
      → AllWellFormed st
      → AllWellFormed (publish st p e)
  unfolding publish
  publish-AllWellFormed st p e w all =
      insert-AllWellFormed st (publish st p e) p (record e { updated_seq = st.seq + 1 }) refl
        (omega arith) (record { recent = w.recent; sourced = w.sourced; stamped = omega arith }) all

  settle-AllWellFormed :
      (st : TelemetryStore V) (p : String) (r : PaneTelemetry V × Bool) (created : Bool)
      → IsWellFormed st.seq r.0
      → AllWellFormed st
      → AllWellFormed (settle st p r created)
  unfolding settle
  settle-AllWellFormed st p (e, changed) created w all = elim (Bool-cases (changed || created)) [
    | inl loud ↦ rw loud (publish-AllWellFormed st p e w all)
    | inr quiet ↦ rw quiet (
        insert-AllWellFormed st (record st { panes = Map.insert st.panes p e }) p e refl
          (omega arith) w all)
  ]

  mutate_existing-AllWellFormed :
      (st : TelemetryStore V) (p : String) (f : PaneTelemetry V → PaneTelemetry V × Bool)
      → ((e : PaneTelemetry V) → Keeps e (f e))
      → AllWellFormed st
      → AllWellFormed (mutate_existing st p f)
  unfolding mutate_existing
  mutate_existing-AllWellFormed st p f keeps all = elim (Option-cases (Map.get st.panes p)) [
    | inl e ↦ rw (e, mutate_existing) all
    | inr (a, e) ↦
        rw (e, mutate_existing)
          (settle-AllWellFormed st p (f a) false
            (kept-IsWellFormed st.seq a (f a) (keeps a) (all.each p a e)) all)
  ]

  mutate_creating-AllWellFormed :
      (st : TelemetryStore V) (p : String) (f : PaneTelemetry V → PaneTelemetry V × Bool)
      → ((e : PaneTelemetry V) → Keeps e (f e))
      → AllWellFormed st
      → AllWellFormed (mutate_creating st p f)
  unfolding mutate_creating
  mutate_creating-AllWellFormed st p f keeps all = elim (Option-cases (Map.get st.panes p)) [
    | inl e ↦ rw e (
        settle-AllWellFormed st p (f default_pane) true
          (kept-IsWellFormed st.seq default_pane (f default_pane) (keeps default_pane)
            (default-IsWellFormed st.seq))
          all)
    | inr (a, e) ↦ rw e (
        settle-AllWellFormed st p (f a) false
          (kept-IsWellFormed st.seq a (f a) (keeps a) (all.each p a e)) all)
  ]

  fresh_session-IsWellFormed :
      (n : ℕ) (old : Option (PaneTelemetry V)) (agent : String)
      → IsWellFormed n (fresh_session old agent)
  unfolding fresh_session
  fresh_session-IsWellFormed n old agent = record {
    recent = omega arith;
    sourced = ground arith;
    stamped = omega arith;
  }

  remove-AllWellFormed :
      (st : TelemetryStore V) (p : String) → AllWellFormed st → AllWellFormed (remove st p)
  unfolding remove
  remove-AllWellFormed st p all = elim (Option-cases (Map.get st.panes p)) [
    | inl e ↦ rw (e, remove) all
    | inr (a, e) ↦
        rw (e, remove)
          (record {
            each = λ k b h. later st.seq b (all.each k b (ground (arith, get-remove st.panes p k)));
          })
  ]

  set_pane_list_cwd-AllWellFormed :
      (st : TelemetryStore V) (p : String) (d : Option String)
      → AllWellFormed st
      → AllWellFormed (set_pane_list_cwd st p d)
  unfolding set_pane_list_cwd
  set_pane_list_cwd-AllWellFormed st p none all = all
  set_pane_list_cwd-AllWellFormed st p (some raw) all =
      elim (Bool-cases (is_empty (sanitise raw))) [
        | inl e ↦ rw e all
        | inr e ↦ rw e (
            mutate_existing-AllWellFormed st p (cwd_change (sanitise raw))
              (cwd_change-Keeps (sanitise raw)) all)
      ]

module _ (J : Json) where
  open J use {Value}

  -- Every call of the store keeps its cards well-formed: if before it each card has at most 50 tool
  -- calls in its ring, a directory exactly where it has a source for one, and a number not above the
  -- store's, then so it is after it.
  pub call-AllWellFormed :
      (st : TelemetryStore Value) (c : Call Value) → AllWellFormed st → AllWellFormed (call J st c)
  unfolding call set_agent set_pane_position set_pane_workspace replace_session record_event
  call-AllWellFormed st (Call.agent p name) all =
      mutate_creating-AllWellFormed st p (agent_change name) (agent_change-Keeps name) all
  call-AllWellFormed st (Call.cwd p d) all = set_pane_list_cwd-AllWellFormed st p d all
  call-AllWellFormed st (Call.position p n) all =
      mutate_existing-AllWellFormed st p (position_change n) (position_change-Keeps n) all
  call-AllWellFormed st (Call.workspace p w) all =
      mutate_existing-AllWellFormed st p (workspace_change (nonempty w))
        (workspace_change-Keeps (nonempty w)) all
  call-AllWellFormed st (Call.session p name) all =
      publish-AllWellFormed st p (fresh_session (Map.get st.panes p) name)
        (fresh_session-IsWellFormed st.seq (Map.get st.panes p) name) all
  call-AllWellFormed st (Call.event p name v) all =
      mutate_existing-AllWellFormed st p (on_event J name (normalise_event J name v))
        (on_event-Keeps J name (normalise_event J name v)) all
  call-AllWellFormed st (Call.drop p) all = remove-AllWellFormed st p all

pub empty-AllWellFormed : {V : Type 0} → AllWellFormed (empty_store {V = V})
empty-AllWellFormed {V} = record { each = λ k e h. cc (get-empty {V = PaneTelemetry V} k) }
