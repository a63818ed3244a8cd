-- ===== src/Herdr.antt =====
-- What Herdr reports of a pane: the records of src/herdr/api.rs.
use herdr_agent_watcher.Prelude.{String, Option, and_then}

pub record AgentSessionInfo : Type 0 where
  pub source : Option String
  pub agent : Option String
  pub kind : Option String
  pub value : Option String

pub record PaneInfo : Type 0 where
  pub pane_id : String
  pub workspace_id : String
  pub agent : Option String
  pub agent_session : Option AgentSessionInfo
  pub cwd : Option String
  pub foreground_cwd : Option String

unfoldable pub session_value : PaneInfo → Option String
session_value pane = and_then pane.agent_session (λ s. s.value)
