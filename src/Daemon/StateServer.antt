-- ===== src/Daemon/StateServer.antt =====
-- What src/daemon/state_server.rs writes to a subscriber: the panes as they stand, then each update.
-- Serialising skips the fields that the store keeps to itself (`wire`).
use mathlib.Core.Option
use herdr_agent_watcher.Prelude.{String, ◌≡◌, refl, some, [], ◌∷◌, arith}
use herdr_agent_watcher.Prelude.Map
use herdr_agent_watcher.Prelude.Map.{Map}
use herdr_agent_watcher.Daemon.Store.Types.{PaneTelemetry, Update, wire}
use herdr_agent_watcher.Sidebar.Reducer.{Hello, Delta, wire_version}
use herdr_agent_watcher.Prelude.{ℕ}

module _ {V : Type 0} where
  unfoldable pub wire_panes : Map (PaneTelemetry V) → Map (PaneTelemetry V)
  wire_panes [] = []
  wire_panes ((k, t) ∷ m) = (k, wire t) ∷ wire_panes m

  abbrev pub hello : String → ℕ → Map (PaneTelemetry V) → Hello V
  hello build seq panes = record {
    version = wire_version;
    seq = seq;
    panes = wire_panes panes;
    build = some build;
  }

  abbrev pub delta : Update V → Delta V
  delta u = record { seq = u.seq; pane_id = u.pane_id; telemetry = Option.map wire u.telemetry }

  pub get-wire_panes :
      (m : Map (PaneTelemetry V)) (k : String)
      → Map.get (wire_panes m) k ≡ Option.map wire (Map.get m k)
  unfolding wire_panes Map.get
  get-wire_panes [] k = refl
  get-wire_panes ((j, t) ∷ m) k = ground (arith, get-wire_panes m k)
