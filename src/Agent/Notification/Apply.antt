-- ===== src/Agent/Notification/Apply.antt =====
-- `apply_signal` and `flush_pending_opencode_idle` of src/agent/notification.rs.
use herdr_agent_watcher.Prelude.{
  String, Option, none, some, [], ◌∷◌, ◌++◌, true, ◌&&◌, ◌||◌, not, or_else, and_then,
  if◌then◌else◌,
}
use herdr_agent_watcher.Json.{Json}
use herdr_agent_watcher.Agent.Notification.{Registration, PendingOpenCodeIdle}
use herdr_agent_watcher.Agent.Notification.Body.{normalize_notification_body}
use herdr_agent_watcher.Agent.Notification.Envelopes.{Codecs}
use herdr_agent_watcher.Agent.Notification.Host.{AgentNotificationEvent, Host}
use herdr_agent_watcher.Agent.Notification.Transcript.{claude_hook_body}
use herdr_agent_watcher.Agent.Notification.Turns.{
  ClassifiedSignal, NotificationSignal, session, assistant_text, open_code_status_idle,
  turn_started, turn_ended, notification, irrelevant, Scan, notification_action_body,
  notification_title, is_open_code, count_emitted, replay_suppressed, duplicate_suppressed,
  with_session, is_mismatched, end_turn, admit_key, opencode_completion,
}

-- The registration is changed, the rest is not.
abbrev pub with_registration : Scan → Registration → Scan
with_registration s r = record s { registration = r }

module _ (J : Json) (codecs : Codecs J.Value) (host : Host) where
  -- The event is given to the sink, and counted if the sink takes it.
  unfoldable pub emit : Scan → AgentNotificationEvent → Scan
  emit s event =
      let taken = host.takes s.sent event in
      record s {
        sent = s.sent ++ record { event = event; taken = taken } ∷ [];
        diagnostics =
            if taken
            then record s.diagnostics {
              notifications_emitted =
                  count_emitted s.diagnostics.notifications_emitted event.reason;
              last_successful_event_at = some host.now_millis;
            }
            else s.diagnostics;
      }

  -- The body: the signal's, the transcript's, the turn's, or what the reason says.
  abbrev pub choose_body : NotificationSignal → Option String → Option String → Option String
  choose_body n transcript_body buffered_body =
      or_else
        (or_else (or_else (and_then n.body normalize_notification_body) transcript_body)
          buffered_body)
        (notification_action_body n.reason)

  abbrev pub event_of : Registration → NotificationSignal → Option String → AgentNotificationEvent
  event_of r n body = record {
    pty_id = r.pty_id;
    agent_session_id = r.agent_session_id;
    reason = n.reason;
    title = notification_title r.provider n.reason;
    body = body;
    occurred_at = n.occurred_at;
    dedupe_key = n.dedupe_key;
  }

  -- The turn's text, which a signal that ends the turn takes.
  abbrev pub buffered : Registration → NotificationSignal → Option String
  buffered r n = if n.ends_turn then r.notification_body else none

  -- A notification that belongs to the turn.
  unfoldable pub notify : Scan → NotificationSignal → Scan
  notify s n =
      let ended = if n.ends_turn then end_turn s.registration else s.registration in
      let (read, transcript_body) =
        claude_hook_body J codecs host ended n.reason n.transcript_path in
      let (admitted, is_new) = admit_key read n.dedupe_key in
      if is_new
      then emit (with_registration s admitted)
          (event_of admitted n (choose_body n transcript_body (buffered s.registration n)))
      else duplicate_suppressed (with_registration s admitted)

  unfoldable pub apply_notification : Scan → NotificationSignal → Scan
  apply_notification s n =
      let s' = with_registration s (with_session s.registration n.agent_session_id) in
      if is_mismatched s'.registration n
        || (n.requires_active_turn && not s'.registration.turn_active)
      then replay_suppressed s'
      else notify s' n

  abbrev pub without_pending : Registration → Registration
  without_pending r = record r { pending_opencode_idle = none }

  -- The idle status that was waiting, if one was, completes the turn.
  unfoldable pub complete_idle : Scan → Option PendingOpenCodeIdle → Scan
  complete_idle s none = s
  complete_idle s (some pending) =
      apply_notification (with_registration s (without_pending s.registration))
        (opencode_completion host.decimal pending.occurred_at pending.agent_session_id)

  unfoldable pub flush_pending_opencode_idle : Scan → Scan
  flush_pending_opencode_idle s =
      if is_open_code s.registration.provider
      then complete_idle s s.registration.pending_opencode_idle
      else s

  abbrev pub start_turn : Registration → Option String → Option String → Registration
  start_turn r turn_id agent_session_id = record (with_session r agent_session_id) {
    turn_active = true;
    turn_id = turn_id;
    notification_body = none;
  }

  unfoldable pub apply_signal : Scan → ClassifiedSignal → Scan
  apply_signal s (session id) =
      with_registration s (record s.registration { agent_session_id = some id })
  apply_signal s (assistant_text text) = elim (normalize_notification_body text) [
    | none ↦ s
    | some body ↦
        flush_pending_opencode_idle
          (with_registration s (record s.registration { notification_body = some body }))
  ]
  apply_signal s (open_code_status_idle pending) =
      with_registration s (record (with_session s.registration pending.agent_session_id) {
        pending_opencode_idle = some pending;
      })
  apply_signal s (turn_started turn_id agent_session_id) =
      let s' = flush_pending_opencode_idle s in
      with_registration s' (start_turn s'.registration turn_id agent_session_id)
  apply_signal s turn_ended = with_registration s (end_turn s.registration)
  apply_signal s (notification n) = apply_notification s n
  apply_signal s irrelevant = s
