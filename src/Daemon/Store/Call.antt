-- ===== src/Daemon/Store/Call.antt =====
-- The calls that change the panes of the store, as data.
use herdr_agent_watcher.Prelude.{ℕ, String, Option}
use herdr_agent_watcher.Json.{Json}
use herdr_agent_watcher.Daemon.Store.Types.{TelemetryStore}
use herdr_agent_watcher.Daemon.Store.Broadcast.{remove}
use herdr_agent_watcher.Daemon.Store.Record.{record_event}
use herdr_agent_watcher.Daemon.Store.Ops.{
  set_agent, set_pane_list_cwd, set_pane_position, set_pane_workspace, replace_session,
}

pub data Call (V : Type 0) : Type 0 where
  agent : String → String → Call V
  cwd : String → Option String → Call V
  position : String → ℕ → Call V
  workspace : String → Option String → Call V
  session : String → String → Call V
  event : String → String → V → Call V
  drop : String → Call V

module _ (J : Json) where
  open J use {Value}

  unfoldable pub call : TelemetryStore Value → Call Value → TelemetryStore Value
  call st (Call.agent pane_id name) = set_agent st pane_id name
  call st (Call.cwd pane_id dir) = set_pane_list_cwd st pane_id dir
  call st (Call.position pane_id n) = set_pane_position st pane_id n
  call st (Call.workspace pane_id w) = set_pane_workspace st pane_id w
  call st (Call.session pane_id name) = replace_session st pane_id name
  call st (Call.event pane_id name payload) = record_event J st pane_id name payload
  call st (Call.drop pane_id) = remove st pane_id
