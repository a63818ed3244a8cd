-- ===== src/Daemon/Mirror.antt =====
-- The daemon and its subscribers together: the store of src/daemon/store.rs, one connection of
-- src/daemon/state_server.rs for each subscriber, and the sidebar's replica at its other end
-- (src/sidebar/reducer.rs). A step is one call of the store, a new connection, one update taken from
-- a channel and applied to the replica, a write that fails, a receiver that goes away, or the end of a
-- connection.
pub mod Channels
pub mod Tracks
pub mod Sync
use herdr_agent_watcher.Prelude.{
  ℕ, String, Option, none, some, List, [], ◌∷◌, Bool, true, false, nat_beq, any, if◌then◌else◌, ◌≡◌,
  ◌≤◌,
}
use herdr_agent_watcher.Json.{Json}
use herdr_agent_watcher.Daemon.Store.Types.{Update, Subscriber, TelemetryStore, empty_store}
use herdr_agent_watcher.Daemon.Store.Broadcast.{subscribe, unsubscribe}
use herdr_agent_watcher.Daemon.Store.Call.{Call, call}
use herdr_agent_watcher.Daemon.StateServer.{hello, delta}
use herdr_agent_watcher.Sidebar.Reducer.{State, empty_state, apply_hello, apply_delta}

pub record System (V : Type 0) : Type 0 where
  pub store : TelemetryStore V
  -- the replica behind each connection, by the subscriber's identifier
  pub replica : ℕ → State V
  -- the subscribers whose connection has failed in a write: nothing more is written to them
  pub failed : List ℕ

abbrev pub has_failed : List ℕ → ℕ → Bool
has_failed failed id = any (nat_beq id) failed

module _ {V : Type 0} where
  abbrev pub set_replica : (ℕ → State V) → ℕ → State V → ℕ → State V
  set_replica replica id s j = if nat_beq j id then s else replica j

  -- `recv`: the oldest update of a channel, and the channels without it.
  unfoldable pub receive : List (Subscriber V) → ℕ → Option (Update V × List (Subscriber V))
  receive [] id = none
  receive (s ∷ ss) id =
      let later : Option (Update V × List (Subscriber V)) = elim (receive ss id) [
        | none ↦ none
        | some (u, rest) ↦ some (u, s ∷ rest)
      ] in
      let here : Option (Update V × List (Subscriber V)) = elim s.pending [
        | [] ↦ none
        | u ∷ us ↦ some (u, record s { pending = us } ∷ ss)
      ] in
      if nat_beq s.id id then here else later

  -- The receiver of one channel is dropped; its sender learns that at the next `try_send`.
  unfoldable pub hang_up : List (Subscriber V) → ℕ → List (Subscriber V)
  hang_up [] id = []
  hang_up (s ∷ ss) id =
      (if nat_beq s.id id then record s { connected = false } else s) ∷ hang_up ss id

  abbrev pub with_subscribers : TelemetryStore V → List (Subscriber V) → TelemetryStore V
  with_subscribers st ss = record st { subscribers = ss }

  abbrev pub start : System V
  start = record { store = empty_store; replica = λ id. empty_state; failed = [] }

  -- `subscribe_full`, then the hello line read by a new sidebar.
  abbrev pub connect : String → System V → System V
  connect build sys =
      let (st, id, seq, panes) = subscribe sys.store in
      record {
        store = st;
        replica = set_replica sys.replica id (apply_hello empty_state (hello build seq panes)).0;
        failed = sys.failed;
      }

  -- `subscribe_full`, then a hello line that cannot be written.
  abbrev pub connect_in_vain : System V → System V
  connect_in_vain sys =
      let (st, id, seq, panes) = subscribe sys.store in
      record { store = st; replica = sys.replica; failed = id ∷ sys.failed }

module _ (J : Json) where
  open J use {Value}

  pub data Step (sys : System Value) : System Value → Type 0 where
    calls : (c : Call Value) → Step sys (record sys { store = call J sys.store c })
    connects : (build : String) → Step sys (connect build sys)
    connects_in_vain : Step sys (connect_in_vain sys)
    receives :
        (id : ℕ) (u : Update Value) (rest : List (Subscriber Value))
        → has_failed sys.failed id ≡ false
        → receive sys.store.subscribers id ≡ some (u, rest)
        → Step sys (record sys {
          store = with_subscribers sys.store rest;
          replica = set_replica sys.replica id (apply_delta (sys.replica id) (delta u));
        })
    -- The update is taken from the channel, and lost.
    fails :
        (id : ℕ) (u : Update Value) (rest : List (Subscriber Value))
        → has_failed sys.failed id ≡ false
        → receive sys.store.subscribers id ≡ some (u, rest)
        → Step sys
            (record sys { store = with_subscribers sys.store rest; failed = id ∷ sys.failed })
    -- A heartbeat cannot be written.
    stops :
        (id : ℕ) → id ≤ sys.store.next_sub_id → Step sys (record sys { failed = id ∷ sys.failed })
    hangs_up :
        (id : ℕ)
        → Step sys
            (record sys { store = with_subscribers sys.store (hang_up sys.store.subscribers id) })
    leaves : (id : ℕ) → Step sys (record sys { store = unsubscribe sys.store id })

  pub data Reach : System Value → Type 0 where
    started : Reach start
    next : {sys sys' : System Value} → Reach sys → Step sys sys' → Reach sys'
