-- ===== src/Daemon/Store/Broadcast.antt =====
-- `broadcast`, the two ways to change a pane, `remove`, and the subscriptions of
-- src/daemon/store.rs. One call is one critical section of the store's mutex.
use herdr_agent_watcher.Prelude.{
  ℕ, ◌+◌, String, Option, none, some, List, [], ◌∷◌, ◌++◌, Bool, true, false, ◌&&◌, ◌||◌, not, ltb,
  nat_beq, length, keep_if, if◌then◌else◌, unwrap_or,
}
use herdr_agent_watcher.Prelude.Map
use herdr_agent_watcher.Prelude.Map.{Map}
use herdr_agent_watcher.Daemon.Store.Types.{
  PaneTelemetry, Update, Subscriber, TelemetryStore, default_pane, subscriber_buffer,
}

module _ {V : Type 0} where
  -- `SyncSender::try_send`: it fails when the buffer is full or the receiver is gone.
  unfoldable pub try_send : Subscriber V → Update V → Option (Subscriber V)
  try_send s u =
      if s.connected && ltb (length s.pending) subscriber_buffer
      then some (record s { pending = s.pending ++ u ∷ [] })
      else none

  unfoldable pub broadcast : List (Subscriber V) → Update V → List (Subscriber V)
  broadcast [] u = []
  broadcast (s ∷ ss) u = elim (try_send s u) [
    | none ↦ broadcast ss u
    | some s' ↦ s' ∷ broadcast ss u
  ]

  -- The end of both `mutate` functions: the next sequence number goes into the pane and the update.
  unfoldable pub publish : TelemetryStore V → String → PaneTelemetry V → TelemetryStore V
  publish st pane_id entry =
      let n = st.seq + 1 in
      let entry' : PaneTelemetry V = record entry { updated_seq = n } in
      record st {
        panes = Map.insert st.panes pane_id entry';
        seq = n;
        subscribers =
            broadcast st.subscribers
              (record { seq = n; pane_id = pane_id; telemetry = some entry' });
      }

  -- What a closure did to its pane stays, also where it reports no change.
  unfoldable pub settle :
      TelemetryStore V → String → PaneTelemetry V × Bool → Bool → TelemetryStore V
  settle st pane_id (entry, changed) created =
      if changed || created
      then publish st pane_id entry
      else record st { panes = Map.insert st.panes pane_id entry }

  unfoldable pub mutate_existing :
      TelemetryStore V → String → (PaneTelemetry V → PaneTelemetry V × Bool) → TelemetryStore V
  mutate_existing st pane_id apply = elim (Map.get st.panes pane_id) [
    | none ↦ st
    | some entry ↦ settle st pane_id (apply entry) false
  ]

  unfoldable pub mutate_creating :
      TelemetryStore V → String → (PaneTelemetry V → PaneTelemetry V × Bool) → TelemetryStore V
  mutate_creating st pane_id apply =
      settle st pane_id (apply (unwrap_or (Map.get st.panes pane_id) default_pane))
        (not (Map.has st.panes pane_id))

  unfoldable pub remove : TelemetryStore V → String → TelemetryStore V
  remove st pane_id = elim (Map.get st.panes pane_id) [
    | none ↦ st
    | some entry ↦
        let n = st.seq + 1 in
        record st {
          panes = Map.remove st.panes pane_id;
          seq = n;
          subscribers =
              broadcast st.subscribers (record { seq = n; pane_id = pane_id; telemetry = none });
        }
  ]

  -- `subscribe_full`: the new identifier, the sequence number and the panes, read under one lock.
  unfoldable pub subscribe : TelemetryStore V → TelemetryStore V × ℕ × ℕ × Map (PaneTelemetry V)
  subscribe st =
      let n = st.next_sub_id + 1 in
      (
        record st {
          next_sub_id = n;
          subscribers = st.subscribers ++ record { id = n; pending = []; connected = true } ∷ [];
        },
        n,
        st.seq,
        st.panes,
      )

  unfoldable pub unsubscribe : TelemetryStore V → ℕ → TelemetryStore V
  unsubscribe st id = record st {
    subscribers = keep_if (λ s. not (nat_beq s.id id)) st.subscribers;
  }

  unfoldable pub snapshot : TelemetryStore V → ℕ × Map (PaneTelemetry V)
  snapshot st = (st.seq, st.panes)

  unfoldable pub subscriber_count : TelemetryStore V → ℕ
  subscriber_count st = length st.subscribers
