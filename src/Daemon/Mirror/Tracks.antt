-- ===== src/Daemon/Mirror/Tracks.antt =====
-- What a channel holds against what the store has announced, one subscriber at a time.
use herdr_agent_watcher.Prelude.{
  ℕ, ◌+◌, ◌≤◌, String, ◌≡◌, ◌≢◌, ◌⊎◌, refl, sym, ap, ◌∙◌, Option, List, [], ◌∷◌, ◌++◌, true, ◌&&◌,
  ltb, ◌==◌, arith, length, All, if◌then◌else◌, Bool-cases, Option-cases, inl, inr,
}
use mathlib.Core.Option
use herdr_agent_watcher.Prelude.Map
use herdr_agent_watcher.Prelude.Map.{get-insert, get-remove}
use herdr_agent_watcher.Daemon.Store.Types.{
  PaneTelemetry, Update, Subscriber, wire, subscriber_buffer,
}
use herdr_agent_watcher.Daemon.Store.Broadcast.{try_send, broadcast}
use herdr_agent_watcher.Daemon.StateServer.{delta}
use herdr_agent_watcher.Sidebar.Reducer.{State, apply_delta}
use herdr_agent_watcher.Daemon.Mirror.Channels.{Distinct}
use herdr_agent_watcher.Daemon.Mirror.{has_failed}

module _ {V : Type 0} where
  -- The replica after it has read a list of updates.
  abbrev pub deliver : State V → List (Update V) → State V
  deliver r [] = r
  deliver r (u ∷ us) = deliver (apply_delta r (delta u)) us

  -- Reading its channel to the end brings the replica to sequence number `n` and to the panes `v`.
  pub record Tracks (n : ℕ) (v : String → Option (PaneTelemetry V)) (r : State V) (s : Subscriber V)
      : Type 0 where
    pub seen : (deliver r s.pending).last_seq ≡ n
    pub same : (k : String) → Map.get (deliver r s.pending).panes k ≡ v k

  deliver-append :
      (r : State V) (us : List (Update V)) (u : Update V)
      → deliver r (us ++ u ∷ []) ≡ apply_delta (deliver r us) (delta u)
  deliver-append r [] u = refl
  deliver-append r (x ∷ us) u = deliver-append (apply_delta r (delta x)) us u

  last_seq-apply_delta :
      (r : State V) (u : Update V) (n : ℕ)
      → r.last_seq ≡ n
      → u.seq ≡ n + 1
      → (apply_delta r (delta u)).last_seq ≡ n + 1
  unfolding apply_delta
  last_seq-apply_delta r u n h e = ground arith

  get-apply_delta :
      (r : State V) (u : Update V) (n : ℕ) (k : String)
      → r.last_seq ≡ n
      → u.seq ≡ n + 1
      → Map.get (apply_delta r (delta u)).panes k
        ≡ (if u.pane_id == k then Option.map wire u.telemetry else Map.get r.panes k)
  unfolding apply_delta
  get-apply_delta r u n k h e = elim (Option-cases u.telemetry) [
    | inl gone ↦ rw (gone, apply_delta) (ground (arith, gone, get-remove r.panes u.pane_id k))
    | inr (t, there) ↦
        rw (there, apply_delta) (ground (arith, there, get-insert r.panes u.pane_id k (wire t)))
  ]

  -- One more update in the channel is one more step of the store.
  pub Tracks-send :
      (n : ℕ) (v v' : String → Option (PaneTelemetry V)) (r : State V) (s : Subscriber V)
      (u : Update V)
      → u.seq ≡ n + 1
      → ((k : String) → v' k ≡ (if u.pane_id == k then Option.map wire u.telemetry else v k))
      → Tracks n v r s
      → Tracks (n + 1) v' r (record s { pending = s.pending ++ u ∷ [] })
  Tracks-send n v v' r s u e change t = record {
    seen =
        rw (deliver-append r s.pending u) (last_seq-apply_delta (deliver r s.pending) u n t.seen e);
    same = λ k.
        rw (deliver-append r s.pending u) (
          ground (arith, get-apply_delta (deliver r s.pending) u n k t.seen e, change k, t.same k));
  }

  module _ (P : Subscriber V → Type 0) (Q : Subscriber V → Type 0) (u : Update V) where
    -- `broadcast` keeps a subscriber with the update at the end of its channel, or drops it.
    pub All-broadcast :
        ((s : Subscriber V)
          → length s.pending + 1 ≤ subscriber_buffer
          → P s
          → Q (record s { pending = s.pending ++ u ∷ [] }))
        → (ss : List (Subscriber V)) → All P ss
        → All Q (broadcast ss u)
    unfolding broadcast try_send
    All-broadcast f [] h = tt
    All-broadcast f (s ∷ ss) h =
        elim (Bool-cases (s.connected && ltb (length s.pending) subscriber_buffer)) [
          | inl room ↦ rw (room, broadcast) (f s (ground arith) h.0, All-broadcast f ss h.1)
          | inr full ↦ rw (full, broadcast) (All-broadcast f ss h.1)
        ]

  pub Distinct-broadcast :
      (u : Update V) (ss : List (Subscriber V)) → Distinct ss → Distinct (broadcast ss u)
  unfolding broadcast try_send
  Distinct-broadcast u [] d = tt
  Distinct-broadcast u (s ∷ ss) d =
      elim (Bool-cases (s.connected && ltb (length s.pending) subscriber_buffer)) [
        | inl room ↦
            rw (room, broadcast)
              (
                All-broadcast (λ t. t.id ≢ s.id) (λ t. t.id ≢ s.id) u (λ t fits h. h) ss d.0,
                Distinct-broadcast u ss d.1,
              )
        | inr full ↦ rw (full, broadcast) (Distinct-broadcast u ss d.1)
      ]

  -- The connection has failed, or reading its channel brings the replica to the store.
  abbrev pub Follows :
      List ℕ → ℕ → (String → Option (PaneTelemetry V)) → State V → Subscriber V → Type 0
  Follows failed n v r s = (has_failed failed s.id ≡ true) ⊎ Tracks n v r s

  -- One who follows still does when what is to be followed changes.
  pub Follows-map :
      (failed : List ℕ) (n m : ℕ) (v w : String → Option (PaneTelemetry V)) (q r : State V)
      (s t : Subscriber V)
      → s.id ≡ t.id
      → (Tracks n v q s → Tracks m w r t)
      → Follows failed n v q s
      → Follows failed m w r t
  Follows-map failed n m v w q r s t same f (inl lost) = inl (rw (← same) lost)
  Follows-map failed n m v w q r s t same f (inr tracks) = inr (f tracks)

  pub Tracks-receive :
      (n : ℕ) (v : String → Option (PaneTelemetry V)) (replica : ℕ → State V) (s : Subscriber V)
      (id : ℕ) (u : Update V) (us : List (Update V))
      → s.id ≡ id
      → s.pending ≡ u ∷ us
      → Tracks n v (replica s.id) s
      → Tracks n v (apply_delta (replica id) (delta u)) (record s { pending = us })
  Tracks-receive n v replica s id u us here queue t =
      let path : deliver (replica s.id) s.pending ≡ deliver (replica id) (u ∷ us) =
        ap (λ i. deliver (replica i) s.pending) here ∙ ap (deliver (replica id)) queue in
      record {
        seen = sym (ap (λ r. r.last_seq) path) ∙ t.seen;
        same = λ k. sym (ap (λ r. Map.get r.panes k) path) ∙ t.same k;
      }

  -- Whoever followed still does, or is the one that fails.
  pub fail-Follows :
      (failed : List ℕ) (id n : ℕ) (v : String → Option (PaneTelemetry V)) (r : State V)
      (s : Subscriber V)
      → Follows failed n v r s
      → Follows (id ∷ failed) n v r s
  fail-Follows failed id n v r s (inl lost) = inl (ground (arith, lost))
  fail-Follows failed id n v r s (inr t) = inr t
