-- ===== src/Daemon/Store/Types.antt =====
-- The data of src/daemon/store.rs. `V` is the type of JSON values.
use herdr_agent_watcher.Prelude.{ℕ, String, Option, List, [], Bool, true, false, ltb}
use herdr_agent_watcher.Prelude.Map.{Map}
use herdr_agent_watcher.Prelude.BTree.{BTreeMap}
use herdr_agent_watcher.Prelude.StrSet.{StrSet}

abbrev pub subscriber_buffer : ℕ
subscriber_buffer = 256

abbrev pub tool_call_ring : ℕ
tool_call_ring = 50

pub data CardState : Type 0 where
  idle running attention finished error : CardState

-- `PartialEq` of `CardState`
abbrev pub card_eq : CardState → CardState → Bool
card_eq CardState.idle CardState.idle = true
card_eq CardState.running CardState.running = true
card_eq CardState.attention CardState.attention = true
card_eq CardState.finished CardState.finished = true
card_eq CardState.error CardState.error = true
card_eq _ _ = false

pub data CwdSource : Type 0 where
  none pane_list transcript : CwdSource

-- The derived order of the variants.
abbrev source_rank : CwdSource → ℕ
source_rank CwdSource.none = 0
source_rank CwdSource.pane_list = 1
source_rank CwdSource.transcript = 2

abbrev pub source_lt : CwdSource → CwdSource → Bool
source_lt a b = ltb (source_rank a) (source_rank b)

abbrev pub is_transcript : CwdSource → Bool
is_transcript CwdSource.transcript = true
is_transcript _ = false

abbrev pub is_pane_list : CwdSource → Bool
is_pane_list CwdSource.pane_list = true
is_pane_list _ = false

-- Oldest tool call first.
pub record PaneTelemetry (V : Type 0) : Type 0 where
  pub agent : Option String
  pub cwd : Option String
  pub cwd_source : CwdSource
  pub position : Option ℕ
  pub workspace_id : Option String
  pub tool_counts : BTreeMap ℕ
  pub card_state : CardState
  pub status : Option V
  pub lifecycle : Option V
  pub title : Option V
  pub tool_calls : List V
  pub tool_call_total : ℕ
  pub updated_seq : ℕ
  pub open_tools : StrSet
  pub settled_tools : StrSet

-- `Default`
abbrev pub default_pane : {V : Type 0} → PaneTelemetry V
default_pane = record {
  agent = Option.none;
  cwd = Option.none;
  cwd_source = CwdSource.none;
  position = Option.none;
  workspace_id = Option.none;
  tool_counts = [];
  card_state = CardState.idle;
  status = Option.none;
  lifecycle = Option.none;
  title = Option.none;
  tool_calls = [];
  tool_call_total = 0;
  updated_seq = 0;
  open_tools = [];
  settled_tools = [];
}

abbrev pub with_agent : {V : Type 0} → String → PaneTelemetry V
with_agent name = record default_pane { agent = Option.some name }

-- What a pane is on the other side of the state socket: the fields marked `serde(skip)` are their
-- defaults there.
abbrev pub wire : {V : Type 0} → PaneTelemetry V → PaneTelemetry V
wire t = record t { cwd_source = CwdSource.none; open_tools = []; settled_tools = [] }

pub record Update (V : Type 0) : Type 0 where
  pub seq : ℕ
  pub pane_id : String
  pub telemetry : Option (PaneTelemetry V)

-- A sender with its channel: the updates that the receiver has not taken yet, oldest first, and
-- whether the receiver is still there.
pub record Subscriber (V : Type 0) : Type 0 where
  pub id : ℕ
  pub pending : List (Update V)
  pub connected : Bool

pub record TelemetryStore (V : Type 0) : Type 0 where
  pub panes : Map (PaneTelemetry V)
  pub seq : ℕ
  pub next_sub_id : ℕ
  pub subscribers : List (Subscriber V)

abbrev pub empty_store : {V : Type 0} → TelemetryStore V
empty_store = record { panes = []; seq = 0; next_sub_id = 0; subscribers = [] }
