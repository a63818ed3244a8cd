-- ===== src/Agent/Notification/Turns.antt =====
-- What a classified line does to a registration: `apply_signal` of src/agent/notification.rs, with the
-- titles, the bodies and the events that it sends.
use Prim.Native.String
use herdr_agent_watcher.Prelude.{
  ℕ, ◌+◌, String, Option, none, some, List, Bool, true, false, ◌&&◌, not, is_some, opt_eq,
  if◌then◌else◌,
}
use herdr_agent_watcher.Agent.Notification.{
  NotificationProvider, PendingOpenCodeIdle, Registration, remember_dedupe_key,
}
use herdr_agent_watcher.Agent.Notification.Host.{AgentNotificationReason, reason_eq, Sent}

-- The fields of `ClassifiedSignal::Notification`.
pub record NotificationSignal : Type 0 where
  pub reason : AgentNotificationReason
  pub occurred_at : ℕ
  pub dedupe_key : Option String
  pub turn_id : Option String
  pub agent_session_id : Option String
  pub body : Option String
  pub transcript_path : Option String
  pub requires_active_turn : Bool
  pub ends_turn : Bool

-- `turn_started` carries the turn's identifier and the session's.
pub data ClassifiedSignal : Type 0 where
  session : String → ClassifiedSignal
  assistant_text : String → ClassifiedSignal
  open_code_status_idle : PendingOpenCodeIdle → ClassifiedSignal
  turn_started : Option String → Option String → ClassifiedSignal
  turn_ended : ClassifiedSignal
  notification : NotificationSignal → ClassifiedSignal
  irrelevant : ClassifiedSignal

-- Of `MutableDiagnostics`, what the scanning of a source writes.
pub record Diagnostics : Type 0 where
  pub bytes_scanned : ℕ
  pub records_scanned : ℕ
  pub notifications_emitted : AgentNotificationReason → ℕ
  pub parse_failures : ℕ
  pub replay_suppressions : ℕ
  pub duplicate_suppressions : ℕ
  pub last_successful_event_at : Option ℕ

-- A registration that is scanned, with the diagnostics and with what the sink was given.
pub record Scan : Type 0 where
  pub registration : Registration
  pub diagnostics : Diagnostics
  pub sent : List Sent

unfoldable pub notification_action_body : AgentNotificationReason → Option String
notification_action_body AgentNotificationReason.approval_requested = some "Awaiting your approval"
notification_action_body AgentNotificationReason.question_requested = some "Awaiting your response"
notification_action_body AgentNotificationReason.turn_complete = none
notification_action_body AgentNotificationReason.agent_error = none

unfoldable pub notification_title : NotificationProvider → AgentNotificationReason → String
notification_title NotificationProvider.claude_code AgentNotificationReason.turn_complete =
    "Claude finished"
notification_title NotificationProvider.claude_code AgentNotificationReason.approval_requested =
    "Claude needs approval"
notification_title NotificationProvider.claude_code AgentNotificationReason.question_requested =
    "Claude has a question"
notification_title NotificationProvider.claude_code AgentNotificationReason.agent_error =
    "Claude failed"
notification_title NotificationProvider.codex AgentNotificationReason.turn_complete =
    "Codex finished"
notification_title NotificationProvider.codex AgentNotificationReason.approval_requested =
    "Codex needs approval"
notification_title NotificationProvider.codex AgentNotificationReason.question_requested =
    "Codex has a question"
notification_title NotificationProvider.codex AgentNotificationReason.agent_error = "Codex failed"
notification_title NotificationProvider.kimi AgentNotificationReason.turn_complete = "Kimi finished"
notification_title NotificationProvider.kimi AgentNotificationReason.approval_requested =
    "Kimi needs approval"
notification_title NotificationProvider.kimi AgentNotificationReason.question_requested =
    "Kimi has a question"
notification_title NotificationProvider.kimi AgentNotificationReason.agent_error = "Kimi failed"
notification_title NotificationProvider.open_code AgentNotificationReason.turn_complete =
    "OpenCode finished"
notification_title NotificationProvider.open_code AgentNotificationReason.approval_requested =
    "OpenCode needs approval"
notification_title NotificationProvider.open_code AgentNotificationReason.question_requested =
    "OpenCode has a question"
notification_title NotificationProvider.open_code AgentNotificationReason.agent_error =
    "OpenCode failed"

unfoldable pub is_open_code : NotificationProvider → Bool
is_open_code NotificationProvider.open_code = true
is_open_code _ = false

-- `*entry(reason).or_insert(0) += 1`
unfoldable pub count_emitted :
    (AgentNotificationReason → ℕ) → AgentNotificationReason → AgentNotificationReason → ℕ
count_emitted counts reason r = if reason_eq reason r then counts r + 1 else counts r

abbrev pub replay_suppressed : Scan → Scan
replay_suppressed s = record s {
  diagnostics = record s.diagnostics {
    replay_suppressions = s.diagnostics.replay_suppressions + 1;
  };
}

abbrev pub duplicate_suppressed : Scan → Scan
duplicate_suppressed s = record s {
  diagnostics = record s.diagnostics {
    duplicate_suppressions = s.diagnostics.duplicate_suppressions + 1;
  };
}

abbrev pub with_session : Registration → Option String → Registration
with_session r id = if is_some id then record r { agent_session_id = id } else r

-- The registration's turn is another one than the signal's.
abbrev pub is_mismatched : Registration → NotificationSignal → Bool
is_mismatched r n = is_some r.turn_id && (is_some n.turn_id && not (opt_eq r.turn_id n.turn_id))

-- The turn ends: it is no longer active, and its body is taken.
abbrev pub end_turn : Registration → Registration
end_turn r = record r {
  turn_active = false;
  turn_id = none;
  pending_opencode_idle = none;
  notification_body = none;
}

-- `remember_dedupe_key` of the key, if there is one; false for a repeated one.
unfoldable pub admit_key : Registration → Option String → Registration × Bool
admit_key r none = (r, true)
admit_key r (some key) = remember_dedupe_key r key

-- `decimal` prints a number.
unfoldable pub opencode_completion : (ℕ → String) → ℕ → Option String → NotificationSignal
opencode_completion decimal occurred_at agent_session_id = record {
  reason = AgentNotificationReason.turn_complete;
  occurred_at = occurred_at;
  dedupe_key = elim agent_session_id [
    | none ↦ none
    | some id ↦ some (String.◌++◌ "turn:" (String.◌++◌ id (String.◌++◌ ":" (decimal occurred_at))))
  ];
  turn_id = none;
  agent_session_id = agent_session_id;
  body = none;
  transcript_path = none;
  requires_active_turn = true;
  ends_turn = true;
}
