-- ===== src/Agent/Notification/Envelopes.antt =====
-- The records of transcripts that src/agent/notification.rs reads, and their reading by the crates
-- serde_json and chrono, which is a parameter.
use herdr_agent_watcher.Prelude.{ℕ, String, Option, List}

pub record CodexPayload : Type 0 where
  pub id : Option String
  pub kind : Option String
  pub turn_id : Option String
  pub approval_id : Option String
  pub call_id : Option String
  pub request_id : Option String
  pub name : Option String
  pub last_agent_message : Option String

pub record CodexEnvelope : Type 0 where
  pub timestamp : Option String
  pub record_type : String
  pub payload : CodexPayload

pub record ClaudeMessage (V : Type 0) : Type 0 where
  pub content : V
  pub stop_reason : Option String

pub record ClaudeEnvelope (V : Type 0) : Type 0 where
  pub line_type : Option String
  pub timestamp : Option String
  pub uuid : Option String
  pub message : Option (ClaudeMessage V)
  pub hook_event_name : Option String
  pub tool_name : Option String
  pub tool_use_id : Option String
  pub session_id : Option String
  pub transcript_path : Option String
  pub error : V
  pub error_details : Option String

pub record ClaudeTranscriptBodyLine (V : Type 0) : Type 0 where
  pub line_type : Option String
  pub message : Option (ClaudeMessage V)

pub record KimiPart : Type 0 where
  pub kind : Option String
  pub text : Option String

pub record KimiEvent : Type 0 where
  pub kind : Option String
  pub uuid : Option String
  pub turn_id : Option String
  pub finish_reason : Option String
  pub part : Option KimiPart

pub record KimiOrigin : Type 0 where
  pub kind : Option String

pub record KimiEnvelope : Type 0 where
  pub record_type : String
  pub time : Option ℕ
  pub origin : Option KimiOrigin
  pub event : Option KimiEvent

pub record OpenCodeStatus : Type 0 where
  pub kind : Option String

pub record OpenCodeData (V : Type 0) : Type 0 where
  pub id : Option String
  pub session_id : Option String
  pub status : Option OpenCodeStatus
  pub text : Option String
  pub error : V

-- `ts` is the time where it is not negative: the source drops any other.
pub record OpenCodeEnvelope (V : Type 0) : Type 0 where
  pub ts : Option ℕ
  pub kind : Option String
  pub event_type : Option String
  pub event_data : OpenCodeData V

-- `serde_json::from_slice` and `from_str` for each of them, and `parse_from_rfc3339` with
-- `timestamp_millis` where that is not negative.
pub record Codecs (V : Type 0) : Type 0 where
  pub codex_envelope : List ℕ → Option CodexEnvelope
  pub claude_envelope : List ℕ → Option (ClaudeEnvelope V)
  pub kimi_envelope : List ℕ → Option KimiEnvelope
  pub open_code_envelope : List ℕ → Option (OpenCodeEnvelope V)
  pub claude_body_line : String → Option (ClaudeTranscriptBodyLine V)
  pub rfc3339_millis : String → Option ℕ
