-- ===== src/Daemon/Mirror/Sync.antt =====
-- Every subscriber that the store still has is in step with it, or its connection has failed: what
-- its channel holds brings the sidebar's replica to the store's own panes.
use herdr_agent_watcher.Prelude.{
  ℕ, ◌+◌, ◌≤◌, String, ◌≡◌, refl, sym, ap, ◌∙◌, some, List, [], ◌∷◌, true, false, nat_beq, not,
  arith, length, length-append, All, All-append, All-map, All-both, All-keep_if, inl, inr,
}
use herdr_agent_watcher.Json.{Json}
use herdr_agent_watcher.Daemon.Store.Types.{Update, Subscriber, TelemetryStore, subscriber_buffer}
use herdr_agent_watcher.Daemon.Store.Broadcast.{subscribe, unsubscribe}
use herdr_agent_watcher.Daemon.Store.Announce.{Announces, quiet, loud, view, call-Announces}
use herdr_agent_watcher.Daemon.Store.Call.{call}
use herdr_agent_watcher.Daemon.StateServer.{delta, get-wire_panes}
use herdr_agent_watcher.Sidebar.Reducer.{apply_hello, apply_delta}
use herdr_agent_watcher.Daemon.Mirror.Channels.{
  Distinct, All-receive, Distinct-receive, All-hang_up, Distinct-hang_up, Distinct-keep_if,
  Distinct-snoc,
}
use herdr_agent_watcher.Daemon.Mirror.{
  System, set_replica, receive, hang_up, with_subscribers, start, connect, connect_in_vain, Step,
  calls, connects, connects_in_vain, receives, fails, stops, hangs_up, leaves, Reach, started, next,
}
use herdr_agent_watcher.Daemon.Mirror.Tracks.{
  Tracks-send, All-broadcast, Distinct-broadcast, Follows, Follows-map, Tracks-receive,
  fail-Follows,
}

module _ {V : Type 0} where
  pub record InSync (sys : System V) : Type 0 where
    pub tracks :
        All
          (λ (s : Subscriber V).
            Follows sys.failed sys.store.seq (view sys.store) (sys.replica s.id) s)
          sys.store.subscribers
    pub numbered : All (λ (s : Subscriber V). s.id ≤ sys.store.next_sub_id) sys.store.subscribers
    pub distinct : Distinct sys.store.subscribers
    pub bounded :
        All (λ (s : Subscriber V). length s.pending ≤ subscriber_buffer) sys.store.subscribers

  Announces-InSync :
      (sys : System V) (st : TelemetryStore V)
      → Announces sys.store st
      → InSync sys
      → InSync (record sys { store = st })
  Announces-InSync sys st (quiet seq subs ids same) h = record {
    tracks = rw subs (
        All-map _ _
          (λ s.
            Follows-map sys.failed _ _ _ _ _ _ s s refl
              (λ t. record { seen = t.seen ∙ sym seq; same = λ k. t.same k ∙ sym (same k) }))
          sys.store.subscribers h.tracks);
    numbered = rw (subs, ids) h.numbered;
    distinct = rw subs h.distinct;
    bounded = rw subs h.bounded;
  }
  Announces-InSync sys st (loud u next_seq seq subs ids change) h = record {
    tracks =
        rw (subs, seq)
          (All-broadcast _ _ u
            (λ s fits.
              Follows-map sys.failed _ _ _ _ _ _ s _ refl
                (Tracks-send sys.store.seq (view sys.store) (view st) _ s u next_seq change))
            sys.store.subscribers h.tracks);
    numbered =
        rw (subs, ids) (All-broadcast _ _ u (λ s fits t. t) sys.store.subscribers h.numbered);
    distinct = rw subs (Distinct-broadcast u sys.store.subscribers h.distinct);
    bounded = rw subs (
        All-broadcast _ (λ s. length s.pending ≤ subscriber_buffer) u
          (λ s fits t. omega (arith, length-append {0} s.pending (u ∷ []))) sys.store.subscribers
          h.bounded);
  }

  connect-InSync : (build : String) (sys : System V) → InSync sys → InSync (connect build sys)
  unfolding subscribe apply_hello
  connect-InSync build sys h = record {
    tracks =
        All-append _ sys.store.subscribers _
          (All-both _ _ _
            (λ s t small.
              let other : nat_beq s.id (sys.store.next_sub_id + 1) ≡ false = ground arith in
              rw other t)
            sys.store.subscribers h.tracks h.numbered)
          (
            let self : nat_beq (sys.store.next_sub_id + 1) (sys.store.next_sub_id + 1) ≡ true =
                  ground arith in
                rw self
                  (inr (record { seen = refl; same = λ k. get-wire_panes sys.store.panes k })),
            tt,
          );
    numbered =
        All-append _ sys.store.subscribers _
          (All-map _ _ (λ s small. omega arith) sys.store.subscribers h.numbered) (omega arith);
    distinct =
        Distinct-snoc sys.store.subscribers _
          (All-map _ _ (λ s small. omega arith) sys.store.subscribers h.numbered) h.distinct;
    bounded = All-append _ sys.store.subscribers _ h.bounded (omega arith);
  }

  receive-InSync :
      (sys : System V) (id : ℕ) (u : Update V) (rest : List (Subscriber V))
      → receive sys.store.subscribers id ≡ some (u, rest)
      → InSync sys
      → InSync (record sys {
        store = with_subscribers sys.store rest;
        replica = set_replica sys.replica id (apply_delta (sys.replica id) (delta u));
      })
  receive-InSync sys id u rest r h = record {
    tracks =
        All-receive _ _ id u
          (λ s us here queue t.
            let self : nat_beq s.id id ≡ true = ground arith in
            rw self (
              Follows-map sys.failed _ _ _ _ _ _ s _ refl
                (Tracks-receive sys.store.seq (view sys.store) sys.replica s id u us here queue) t))
          (λ s other t. let miss : nat_beq s.id id ≡ false = ground arith in rw miss t)
          sys.store.subscribers rest r h.tracks h.distinct;
    numbered =
        All-receive _ (λ s. s.id ≤ sys.store.next_sub_id) id u (λ s us here queue t. t)
          (λ s other t. t) sys.store.subscribers rest r h.numbered h.distinct;
    distinct = Distinct-receive id u sys.store.subscribers rest r h.distinct;
    bounded =
        All-receive _ (λ s. length s.pending ≤ subscriber_buffer) id u
          (λ s us here queue t. omega (arith, ap length queue)) (λ s other t. t)
          sys.store.subscribers rest r h.bounded h.distinct;
  }

  hang_up-InSync :
      (sys : System V) (id : ℕ)
      → InSync sys
      → InSync
          (record sys { store = with_subscribers sys.store (hang_up sys.store.subscribers id) })
  hang_up-InSync sys id h = record {
    tracks =
        All-hang_up _ id
          (λ s b.
            Follows-map sys.failed _ _ _ _ _ _ s _ refl
              (λ t. record { seen = t.seen; same = t.same }))
          sys.store.subscribers h.tracks;
    numbered = All-hang_up _ id (λ s b t. t) sys.store.subscribers h.numbered;
    distinct = Distinct-hang_up id sys.store.subscribers h.distinct;
    bounded = All-hang_up _ id (λ s b t. t) sys.store.subscribers h.bounded;
  }

  stop-InSync :
      (sys : System V) (id : ℕ) → InSync sys → InSync (record sys { failed = id ∷ sys.failed })
  stop-InSync sys id h = record {
    tracks = All-map _ _ (λ s. fail-Follows sys.failed id _ _ _ s) sys.store.subscribers h.tracks;
    numbered = h.numbered;
    distinct = h.distinct;
    bounded = h.bounded;
  }

  fail-InSync :
      (sys : System V) (id : ℕ) (u : Update V) (rest : List (Subscriber V))
      → receive sys.store.subscribers id ≡ some (u, rest)
      → InSync sys
      → InSync (record sys { store = with_subscribers sys.store rest; failed = id ∷ sys.failed })
  fail-InSync sys id u rest r h = record {
    tracks =
        All-receive _ _ id u (λ s us here queue t. inl (ground (arith, here)))
          (λ s other t. fail-Follows sys.failed id _ _ _ s t) sys.store.subscribers rest r h.tracks
          h.distinct;
    numbered =
        All-receive _ (λ s. s.id ≤ sys.store.next_sub_id) id u (λ s us here queue t. t)
          (λ s other t. t) sys.store.subscribers rest r h.numbered h.distinct;
    distinct = Distinct-receive id u sys.store.subscribers rest r h.distinct;
    bounded =
        All-receive _ (λ s. length s.pending ≤ subscriber_buffer) id u
          (λ s us here queue t. omega (arith, ap length queue)) (λ s other t. t)
          sys.store.subscribers rest r h.bounded h.distinct;
  }

  connect_in_vain-InSync : (sys : System V) → InSync sys → InSync (connect_in_vain sys)
  unfolding subscribe
  connect_in_vain-InSync sys h = record {
    tracks =
        All-append _ sys.store.subscribers _
          (All-map _ _ (λ s. fail-Follows sys.failed (sys.store.next_sub_id + 1) _ _ _ s)
            sys.store.subscribers h.tracks)
          (inl (ground arith), tt);
    numbered =
        All-append _ sys.store.subscribers _
          (All-map _ _ (λ s small. omega arith) sys.store.subscribers h.numbered) (omega arith);
    distinct =
        Distinct-snoc sys.store.subscribers _
          (All-map _ _ (λ s small. omega arith) sys.store.subscribers h.numbered) h.distinct;
    bounded = All-append _ sys.store.subscribers _ h.bounded (omega arith);
  }

  unsubscribe-InSync :
      (sys : System V) (id : ℕ)
      → InSync sys
      → InSync (record sys { store = unsubscribe sys.store id })
  unfolding unsubscribe
  unsubscribe-InSync sys id h =
      let p = λ (s : Subscriber V). not (nat_beq s.id id) in
      record {
        tracks = All-keep_if _ p sys.store.subscribers h.tracks;
        numbered = All-keep_if _ p sys.store.subscribers h.numbered;
        distinct = Distinct-keep_if p sys.store.subscribers h.distinct;
        bounded = All-keep_if _ p sys.store.subscribers h.bounded;
      }

  start-InSync : InSync (start {V = V})
  start-InSync = record { tracks = tt; numbered = tt; distinct = tt; bounded = tt }

module _ (J : Json) where
  open J use {Value}

  pub Step-InSync : {sys sys' : System Value} → Step J sys sys' → InSync sys → InSync sys'
  Step-InSync {sys} (calls c) h =
      Announces-InSync sys (call J sys.store c) (call-Announces J sys.store c) h
  Step-InSync {sys} (connects build) h = connect-InSync build sys h
  Step-InSync {sys} connects_in_vain h = connect_in_vain-InSync sys h
  Step-InSync {sys} (fails id u rest ok r) h = fail-InSync sys id u rest r h
  Step-InSync {sys} (stops id given) h = stop-InSync sys id h
  Step-InSync {sys} (receives id u rest ok r) h = receive-InSync sys id u rest r h
  Step-InSync {sys} (hangs_up id) h = hang_up-InSync sys id h
  Step-InSync {sys} (leaves id) h = unsubscribe-InSync sys id h

  -- In every state that the daemon and its sidebars can reach: a subscriber that the store still has
  -- holds at most 256 updates, and, unless a write to its connection has failed, reading them brings
  -- its replica to the store's sequence number and, pane by pane, to what the store shows its clients.
  -- Identifiers are distinct, and none is above the last one given out.
  pub Reach-InSync : {sys : System Value} → Reach J sys → InSync sys
  Reach-InSync started = start-InSync
  Reach-InSync (next r st) = Step-InSync st (Reach-InSync r)
