-- ===== src/Daemon/Store/Announce.antt =====
-- Every call of the store announces exactly what it changes.
use mathlib.Core.Option
use herdr_agent_watcher.Prelude.{
  ◌+◌, String, ◌≡◌, refl, Option, none, some, Bool, true, false, ◌==◌, arith, eq_iff, if◌then◌else◌,
  Bool-cases, Option-cases, inl, inr,
}
use herdr_agent_watcher.Prelude.Map
use herdr_agent_watcher.Prelude.Map.{get-insert, get-remove}
use herdr_agent_watcher.Text.{is_empty, sanitise}
use herdr_agent_watcher.Json.{Json}
use herdr_agent_watcher.Daemon.Store.Types.{
  PaneTelemetry, Update, TelemetryStore, wire, default_pane,
}
use herdr_agent_watcher.Daemon.Store.Broadcast.{
  broadcast, publish, settle, mutate_existing, mutate_creating, remove,
}
use herdr_agent_watcher.Daemon.Store.Normalise.{normalise_event}
use herdr_agent_watcher.Daemon.Store.Record.{record_event}
use herdr_agent_watcher.Daemon.Store.Ops.{
  set_agent, set_pane_list_cwd, set_pane_position, nonempty, set_pane_workspace, fresh_session,
  replace_session,
}
use herdr_agent_watcher.Daemon.Store.Silent.{
  SilentAt, agent_change-silent, cwd_change-silent, position_change-silent, workspace_change-silent,
  on_event-silent,
}
use herdr_agent_watcher.Daemon.Store.Call.{Call, call}

-- What a client of the state socket may know of a pane.
abbrev pub view : {V : Type 0} → TelemetryStore V → String → Option (PaneTelemetry V)
view st k = Option.map wire (Map.get st.panes k)

-- Either nothing that a client sees has changed, and no update was sent; or one update was sent,
-- under the next sequence number, and the views differ by what it says.
pub data Announces {V : Type 0} (st st' : TelemetryStore V) : Type 0 where
  quiet :
      st'.seq ≡ st.seq
      → st'.subscribers ≡ st.subscribers
      → st'.next_sub_id ≡ st.next_sub_id
      → ((k : String) → view st' k ≡ view st k)
      → Announces st st'
  loud :
      (u : Update V)
      → u.seq ≡ st.seq + 1
      → st'.seq ≡ st.seq + 1
      → st'.subscribers ≡ broadcast st.subscribers u
      → st'.next_sub_id ≡ st.next_sub_id
      → ((k : String)
          → view st' k ≡ (if u.pane_id == k then Option.map wire u.telemetry else view st k))
      → Announces st st'

module _ {V : Type 0} where
  same-Announces : (st : TelemetryStore V) → Announces st st
  same-Announces st = quiet refl refl refl (λ k. refl)

  publish-Announces :
      (st : TelemetryStore V) (pane_id : String) (e : PaneTelemetry V)
      → Announces st (publish st pane_id e)
  unfolding publish
  publish-Announces st pane_id e =
      loud
        (record {
          seq = st.seq + 1;
          pane_id = pane_id;
          telemetry = some (record e { updated_seq = st.seq + 1 });
        })
        refl refl refl refl
        (λ k. ground (arith, get-insert st.panes pane_id k (record e { updated_seq = st.seq + 1 })))

  -- A write that no client can see.
  hidden_write :
      (st : TelemetryStore V) (pane_id : String) (e e' : PaneTelemetry V)
      → Map.get st.panes pane_id ≡ some e
      → wire e' ≡ wire e
      → Announces st (record st { panes = Map.insert st.panes pane_id e' })
  hidden_write st pane_id e e' found same =
      quiet refl refl refl (λ k. ground (arith, get-insert st.panes pane_id k e', eq_iff pane_id k))

  settle-Announces :
      (st : TelemetryStore V) (pane_id : String) (e : PaneTelemetry V) (r : PaneTelemetry V × Bool)
      → Map.get st.panes pane_id ≡ some e
      → SilentAt e r
      → Announces st (settle st pane_id r false)
  unfolding settle
  settle-Announces st pane_id e (e', true) found silent = publish-Announces st pane_id e'
  settle-Announces st pane_id e (e', false) found silent =
      hidden_write st pane_id e e' found (silent refl)

  mutate_existing-Announces :
      (st : TelemetryStore V) (pane_id : String) (f : PaneTelemetry V → PaneTelemetry V × Bool)
      → ((e : PaneTelemetry V) → SilentAt e (f e))
      → Announces st (mutate_existing st pane_id f)
  unfolding mutate_existing
  mutate_existing-Announces st pane_id f silent = elim (Option-cases (Map.get st.panes pane_id)) [
    | inl e ↦ rw (e, mutate_existing) (same-Announces st)
    | inr (a, e) ↦ rw (e, mutate_existing) (settle-Announces st pane_id a (f a) e (silent a))
  ]

  settle_created :
      (st : TelemetryStore V) (pane_id : String) (r : PaneTelemetry V × Bool)
      → Announces st (settle st pane_id r true)
  unfolding settle
  settle_created st pane_id (e, true) = publish-Announces st pane_id e
  settle_created st pane_id (e, false) = publish-Announces st pane_id e

  mutate_creating-Announces :
      (st : TelemetryStore V) (pane_id : String) (f : PaneTelemetry V → PaneTelemetry V × Bool)
      → ((e : PaneTelemetry V) → SilentAt e (f e))
      → Announces st (mutate_creating st pane_id f)
  unfolding mutate_creating
  mutate_creating-Announces st pane_id f silent = elim (Option-cases (Map.get st.panes pane_id)) [
    | inl e ↦ rw (e, mutate_creating) (settle_created st pane_id (f default_pane))
    | inr (a, e) ↦ rw (e, mutate_creating) (settle-Announces st pane_id a (f a) e (silent a))
  ]

  remove-Announces : (st : TelemetryStore V) (pane_id : String) → Announces st (remove st pane_id)
  unfolding remove
  remove-Announces st pane_id = elim (Option-cases (Map.get st.panes pane_id)) [
    | inl e ↦ rw (e, remove) (same-Announces st)
    | inr (a, e) ↦
        rw (e, remove)
          (loud (record { seq = st.seq + 1; pane_id = pane_id; telemetry = none }) refl refl refl
            refl (λ k. ground (arith, get-remove st.panes pane_id k)))
  ]

  set_pane_list_cwd-Announces :
      (st : TelemetryStore V) (pane_id : String) (dir : Option String)
      → Announces st (set_pane_list_cwd st pane_id dir)
  unfolding set_pane_list_cwd
  set_pane_list_cwd-Announces st pane_id none = same-Announces st
  set_pane_list_cwd-Announces st pane_id (some raw) = elim (Bool-cases (is_empty (sanitise raw))) [
    | inl e ↦ rw e (same-Announces st)
    | inr e ↦ rw e (mutate_existing-Announces st pane_id _ (cwd_change-silent (sanitise raw)))
  ]

module _ (J : Json) where
  open J use {Value}

  -- Each call of the store either leaves every client's view, the sequence number and the
  -- subscribers' channels as they were, or sends one update, numbered one above the last, that says
  -- exactly how the views changed. No call registers a subscriber.
  pub call-Announces : (st : TelemetryStore Value) (c : Call Value) → Announces st (call J st c)
  unfolding call set_agent set_pane_position set_pane_workspace replace_session record_event
  call-Announces st (Call.agent pane_id name) =
      mutate_creating-Announces st pane_id _ (agent_change-silent name)
  call-Announces st (Call.cwd pane_id dir) = set_pane_list_cwd-Announces st pane_id dir
  call-Announces st (Call.position pane_id n) =
      mutate_existing-Announces st pane_id _ (position_change-silent n)
  call-Announces st (Call.workspace pane_id w) =
      mutate_existing-Announces st pane_id _ (workspace_change-silent (nonempty w))
  call-Announces st (Call.session pane_id name) =
      publish-Announces st pane_id (fresh_session (Map.get st.panes pane_id) name)
  call-Announces st (Call.event pane_id name payload) =
      mutate_existing-Announces st pane_id _
        (on_event-silent J name (normalise_event J name payload))
  call-Announces st (Call.drop pane_id) = remove-Announces st pane_id
