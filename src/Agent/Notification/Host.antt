-- ===== src/Agent/Notification/Host.antt =====
-- What the notification watcher of src/agent/notification.rs asks of the world around it, and the
-- events that it sends.
use herdr_agent_watcher.Prelude.{ℕ, String, Option, List, Bool, true, false}

pub data AgentNotificationReason : Type 0 where
  turn_complete approval_requested question_requested agent_error : AgentNotificationReason

abbrev pub reason_eq : AgentNotificationReason → AgentNotificationReason → Bool
reason_eq AgentNotificationReason.turn_complete AgentNotificationReason.turn_complete = true
reason_eq AgentNotificationReason.approval_requested AgentNotificationReason.approval_requested =
    true
reason_eq AgentNotificationReason.question_requested AgentNotificationReason.question_requested =
    true
reason_eq AgentNotificationReason.agent_error AgentNotificationReason.agent_error = true
reason_eq _ _ = false

pub record AgentNotificationEvent : Type 0 where
  pub pty_id : String
  pub agent_session_id : Option String
  pub reason : AgentNotificationReason
  pub title : String
  pub body : Option String
  pub occurred_at : ℕ
  pub dedupe_key : Option String

-- An event that was given to the sink, and whether the sink took it.
pub record Sent : Type 0 where
  pub event : AgentNotificationEvent
  pub taken : Bool

-- A file that has been opened: its length by its metadata, its bytes by now, and whether a read fails
-- behind them rather than meeting the end.
pub record File : Type 0 where
  pub length : ℕ
  pub content : List ℕ
  pub fails : Bool

-- The clock, the sink (which may go by all that it was given), the file system, and the standard
-- library's UTF-8 and printing of numbers.
pub record Host : Type 0 where
  pub now_millis : ℕ
  pub takes : List Sent → AgentNotificationEvent → Bool
  pub metadata_length : String → Option ℕ
  pub open_file : String → Option File
  pub validate_transcript_path : String → Option String
  pub utf8 : List ℕ → Option String
  pub decimal : ℕ → String
