-- ===== src/Sidebar/Reducer.antt =====
-- The sidebar's replica of the daemon's panes, src/sidebar/reducer.rs, and the two messages of
-- src/daemon/state_wire.rs.
pub mod Lines
use herdr_agent_watcher.Prelude.{
  ℕ, String, Option, none, some, Bool, true, false, leb, nat_beq, is_some, if◌then◌else◌, List, [],
}
use herdr_agent_watcher.Prelude.Map
use herdr_agent_watcher.Prelude.Map.{Map}
use herdr_agent_watcher.Text.{trim, is_empty}
use herdr_agent_watcher.Json.{Json}
use herdr_agent_watcher.Daemon.Store.Types.{PaneTelemetry}

abbrev pub wire_version : ℕ
wire_version = 2

-- `refused` is not read by the sidebar, and is left out.
pub record Hello (V : Type 0) : Type 0 where
  pub version : ℕ
  pub seq : ℕ
  pub panes : Map (PaneTelemetry V)
  pub build : Option String

pub record Delta (V : Type 0) : Type 0 where
  pub seq : ℕ
  pub pane_id : String
  pub telemetry : Option (PaneTelemetry V)

pub record State (V : Type 0) : Type 0 where
  pub panes : Map (PaneTelemetry V)
  pub last_seq : ℕ
  pub daemon_build : Option String

abbrev pub empty_state : {V : Type 0} → State V
empty_state = record { panes = []; last_seq = 0; daemon_build = none }

pub data LineError : Type 0 where
  bad_json : String → LineError
  other_version : ℕ → LineError

pub data Result {ℓ} (A : Type ℓ) : Type ℓ where
  ok : A → Result A
  err : LineError → Result A

-- The serde_json crate's reading of a line, and the derived reading of the two messages.
pub record Codec (J : Json) : Type 1 where
  pub from_str : String → Result (Json.Value J)
  pub hello_of : Json.Value J → Result (Hello (Json.Value J))
  pub delta_of : Json.Value J → Result (Delta (Json.Value J))

module _ {V : Type 0} where
  unfoldable pub apply_hello : State V → Hello V → State V × Result (Unit {0})
  apply_hello state hello =
      if nat_beq hello.version wire_version
      then (record { panes = hello.panes; last_seq = hello.seq; daemon_build = hello.build }, ok tt)
      else (state, err (other_version hello.version))

  unfoldable pub apply_delta : State V → Delta V → State V
  apply_delta state delta = if leb delta.seq state.last_seq then state else record state {
    last_seq = delta.seq;
    panes = elim delta.telemetry [
      | some telemetry ↦ Map.insert state.panes delta.pane_id telemetry
      | none ↦ Map.remove state.panes delta.pane_id
    ];
  }

module _ (J : Json) (codec : Codec J) where
  open J use {Value, get}
  open codec use {from_str, hello_of, delta_of}

  unfoldable pub apply_value : State Value → Value → State Value × Result (Unit {0})
  apply_value state value =
      if is_some (get value "version")
      then elim (hello_of value) [ ok hello ↦ apply_hello state hello | err e ↦ (state, err e) ]
      else if is_some (get value "pane_id")
      then elim (delta_of value) [
        | ok delta ↦ (apply_delta state delta, ok tt)
        | err e ↦ (state, err e)
      ]
      else (state, ok tt)

  unfoldable pub apply_line : State Value → String → State Value × Result (Unit {0})
  unfolding apply_value
  apply_line state raw =
      let line = trim raw in
      if is_empty line
      then (state, ok tt)
      else elim (from_str line) [ ok value ↦ apply_value state value | err e ↦ (state, err e) ]
