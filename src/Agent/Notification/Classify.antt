-- ===== src/Agent/Notification/Classify.antt =====
-- The reading of transcript lines, `classify_codex`, `classify_claude`, `classify_kimi` and
-- `classify_opencode` of src/agent/notification.rs; `none` is `Err(())`.
use Prim.Native.String
use mathlib.Core.Option
use herdr_agent_watcher.Prelude.{
  ℕ, String, Option, none, some, List, [], ◌∷◌, Bool, true, false, ◌&&◌, ◌||◌, not, ◌==◌, any,
  opt_eq, or_else, and_then, unwrap_or, if◌then◌else◌,
}
use herdr_agent_watcher.Json.{Json, str_field}
use herdr_agent_watcher.Text.{is_empty, trim}
use herdr_agent_watcher.Agent.Notification.{NotificationProvider}
use herdr_agent_watcher.Agent.Notification.Host.{AgentNotificationReason, Host}
use herdr_agent_watcher.Agent.Notification.Envelopes.{
  CodexPayload, ClaudeEnvelope, KimiEnvelope, KimiEvent, OpenCodeEnvelope, Codecs,
}
use herdr_agent_watcher.Agent.Notification.Turns.{
  ClassifiedSignal, session, assistant_text, open_code_status_idle, turn_started, turn_ended,
  notification, irrelevant, opencode_completion,
}

-- `join("\n")`
unfoldable pub join_lines : List String → String
join_lines [] = ""
join_lines (line ∷ rest) = elim rest [
  | [] ↦ line
  | next ∷ more ↦ String.◌++◌ line (String.◌++◌ "\n" (join_lines rest))
]

-- `format!("turn:{id}")`
abbrev pub turn_key : String → String
turn_key id = String.◌++◌ "turn:" id

-- A text that is not empty.
abbrev pub text_signal : Option String → ClassifiedSignal
text_signal none = irrelevant
text_signal (some text) = if is_empty text then irrelevant else assistant_text text

-- A question or a request for approval: it does not need a turn, and does not end one.
abbrev pub request_signal :
    AgentNotificationReason → ℕ → Option String → Option String → ClassifiedSignal
request_signal reason occurred_at key agent_session_id = notification record {
  reason = reason;
  occurred_at = occurred_at;
  dedupe_key = key;
  turn_id = none;
  agent_session_id = agent_session_id;
  body = none;
  transcript_path = none;
  requires_active_turn = false;
  ends_turn = false;
}

unfoldable pub codex_event_msg : ℕ → CodexPayload → ClassifiedSignal
codex_event_msg occurred_at p =
    if opt_eq p.kind (some "task_started")
    then turn_started p.turn_id none
    else if opt_eq p.kind (some "task_complete")
    then notification record {
      reason = AgentNotificationReason.turn_complete;
      occurred_at = occurred_at;
      dedupe_key = Option.map turn_key p.turn_id;
      turn_id = p.turn_id;
      agent_session_id = none;
      body = p.last_agent_message;
      transcript_path = none;
      requires_active_turn = false;
      ends_turn = true;
    }
    else if opt_eq p.kind (some "turn_aborted")
    then turn_ended
    else if opt_eq p.kind (some "exec_approval_request")
        || (opt_eq p.kind (some "apply_patch_approval_request")
            || opt_eq p.kind (some "request_permissions"))
    then request_signal AgentNotificationReason.approval_requested occurred_at
        (or_else p.approval_id p.call_id) none
    else if opt_eq p.kind (some "elicitation_request")
    then request_signal AgentNotificationReason.question_requested occurred_at p.request_id none
    else irrelevant

-- A reason, whether it requires an active turn, and whether it ends the turn.
abbrev pub claude_hook_kind :
    String → Option String → Option (AgentNotificationReason × Bool × Bool)
claude_hook_kind hook tool_name =
    if hook == "Stop"
    then some (AgentNotificationReason.turn_complete, true, true)
    else if hook == "PermissionRequest"
    then some (AgentNotificationReason.approval_requested, false, false)
    else if (hook == "PreToolUse") && opt_eq tool_name (some "AskUserQuestion")
    then some (AgentNotificationReason.question_requested, false, false)
    else if hook == "StopFailure"
    then some (AgentNotificationReason.agent_error, false, true)
    else none

-- The stop reasons of a message that ends a turn.
abbrev pub is_final : Option String → Bool
is_final stop_reason =
    opt_eq stop_reason (some "end_turn")
    || (opt_eq stop_reason (some "stop_sequence") || opt_eq stop_reason (some "max_tokens"))

-- The turn of a text event of Kimi's.
abbrev pub is_kimi_text : KimiEvent → Bool
is_kimi_text e =
    opt_eq e.kind (some "content.part")
    && opt_eq (and_then e.part (λ part. part.kind)) (some "text")

module _ (J : Json) (codecs : Codecs J.Value) (host : Host) where
  open J use {Value, get, as_str, as_array}

  unfoldable pub timestamp_millis : Option String → ℕ
  timestamp_millis timestamp = unwrap_or (and_then timestamp codecs.rfc3339_millis) host.now_millis

  unfoldable pub classify_codex : List ℕ → Option ClassifiedSignal
  unfolding codex_event_msg timestamp_millis
  classify_codex line = elim (codecs.codex_envelope line) [
    | none ↦ none
    | some envelope ↦
        let occurred_at = timestamp_millis envelope.timestamp in
        let p = envelope.payload in
        some (
          if envelope.record_type == "session_meta"
          then unwrap_or (Option.map session p.id) irrelevant
          else if (envelope.record_type == "response_item")
              && (opt_eq p.kind (some "function_call") && opt_eq p.name (some "request_user_input"))
          then request_signal AgentNotificationReason.question_requested occurred_at p.call_id none
          else if envelope.record_type == "event_msg"
          then codex_event_msg occurred_at p
          else irrelevant)
  ]

  -- The texts of a message's blocks, one to a line.
  unfoldable pub text_blocks : List Value → List String
  text_blocks [] = []
  text_blocks (block ∷ blocks) =
      let rest = text_blocks blocks in
      if opt_eq (str_field J block "type") (some "text")
      then elim (str_field J block "text") [ none ↦ rest | some text ↦ text ∷ rest ]
      else rest

  unfoldable pub claude_message_text : Value → Option String
  unfolding text_blocks join_lines
  claude_message_text content = elim (as_array content) [
    | none ↦ none
    | some blocks ↦
        let text = join_lines (text_blocks blocks) in if is_empty text then none else some text
  ]

  unfoldable pub is_non_empty_user_block : Value → Bool
  is_non_empty_user_block item =
      if opt_eq (str_field J item "type") (some "tool_result")
      then false
      else if opt_eq (str_field J item "type") (some "text")
      then elim (str_field J item "text") [ none ↦ false | some text ↦ not (is_empty (trim text)) ]
      else true

  unfoldable pub is_user_prompt : Value → Bool
  unfolding is_non_empty_user_block
  is_user_prompt content = elim (as_str content) [
    | some text ↦ not (is_empty (trim text))
    | none ↦ elim (as_array content) [
      | none ↦ false
      | some items ↦ any is_non_empty_user_block items
    ]
  ]

  -- The text of an error, which is a text, or has a message, or stands in the details.
  unfoldable pub claude_error_body : ClaudeEnvelope Value → Option String
  claude_error_body e =
      or_else (or_else (as_str e.error) (str_field J e.error "message")) e.error_details

  unfoldable pub classify_claude_hook : ClaudeEnvelope Value → ℕ → String → ClassifiedSignal
  unfolding claude_error_body
  classify_claude_hook e occurred_at hook =
      if hook == "UserPromptSubmit"
      then turn_started none e.session_id
      else elim (claude_hook_kind hook e.tool_name) [
        | none ↦ irrelevant
        | some (reason, requires_active_turn, ends_turn) ↦ notification record {
          reason = reason;
          occurred_at = occurred_at;
          dedupe_key = e.tool_use_id;
          turn_id = none;
          agent_session_id = e.session_id;
          body = elim reason [
            | AgentNotificationReason.agent_error ↦ claude_error_body e
            | _ ↦ none
          ];
          transcript_path = e.transcript_path;
          requires_active_turn = requires_active_turn;
          ends_turn = ends_turn;
        }
      ]

  unfoldable pub classify_claude_line : ClaudeEnvelope Value → ℕ → ClassifiedSignal
  unfolding is_user_prompt claude_message_text
  classify_claude_line e occurred_at = elim e.message [
    | none ↦ irrelevant
    | some message ↦
        if opt_eq e.line_type (some "user") && is_user_prompt message.content
        then turn_started none none
        else if opt_eq e.line_type (some "assistant") && is_final message.stop_reason
        then notification record {
          reason = AgentNotificationReason.turn_complete;
          occurred_at = occurred_at;
          dedupe_key = Option.map turn_key (or_else e.uuid e.timestamp);
          turn_id = none;
          agent_session_id = none;
          body = claude_message_text message.content;
          transcript_path = none;
          requires_active_turn = true;
          ends_turn = true;
        }
        else irrelevant
  ]

  unfoldable pub classify_claude : List ℕ → Option ClassifiedSignal
  unfolding classify_claude_hook classify_claude_line timestamp_millis
  classify_claude line = elim (codecs.claude_envelope line) [
    | none ↦ none
    | some e ↦
        let occurred_at = timestamp_millis e.timestamp in
        elim e.hook_event_name [
          | some hook ↦ some (classify_claude_hook e occurred_at hook)
          | none ↦ some (classify_claude_line e occurred_at)
        ]
  ]

  unfoldable pub classify_kimi_event : KimiEnvelope → KimiEvent → ClassifiedSignal
  classify_kimi_event envelope event =
      if (envelope.record_type == "context.append_loop_event") && is_kimi_text event
      then text_signal (and_then event.part (λ part. part.text))
      else if (envelope.record_type == "context.append_loop_event")
          && (opt_eq event.kind (some "step.end") && opt_eq event.finish_reason (some "end_turn"))
      then notification record {
        reason = AgentNotificationReason.turn_complete;
        occurred_at = unwrap_or envelope.time host.now_millis;
        dedupe_key = Option.map turn_key event.uuid;
        turn_id = event.turn_id;
        agent_session_id = none;
        body = none;
        transcript_path = none;
        requires_active_turn = true;
        ends_turn = true;
      }
      else irrelevant

  unfoldable pub classify_kimi : List ℕ → Option ClassifiedSignal
  unfolding classify_kimi_event
  classify_kimi line = elim (codecs.kimi_envelope line) [
    | none ↦ none
    | some envelope ↦ some (
        if (envelope.record_type == "turn.prompt")
          && opt_eq (and_then envelope.origin (λ origin. origin.kind)) (some "user")
        then turn_started none none
        else elim envelope.event [
          | none ↦ irrelevant
          | some event ↦ classify_kimi_event envelope event
        ])
  ]

  -- `data.id`, or a key of the session and the time.
  unfoldable pub open_code_error_key : OpenCodeEnvelope Value → ℕ → Option String
  open_code_error_key e occurred_at = or_else e.event_data.id (
      Option.map
        (λ id. String.◌++◌ "error:" (String.◌++◌ id (String.◌++◌ ":" (host.decimal occurred_at))))
        e.event_data.session_id)

  unfoldable pub open_code_event : OpenCodeEnvelope Value → ℕ → ClassifiedSignal
  unfolding open_code_error_key opencode_completion
  open_code_event e occurred_at =
      let status_kind = and_then e.event_data.status (λ status. status.kind) in
      let agent_session_id = e.event_data.session_id in
      if opt_eq e.event_type (some "session.status")
        && (opt_eq status_kind (some "busy") || opt_eq status_kind (some "retry"))
      then turn_started none agent_session_id
      else if opt_eq e.event_type (some "session.status") && opt_eq status_kind (some "idle")
      then open_code_status_idle
          record { occurred_at = occurred_at; agent_session_id = agent_session_id }
      else if opt_eq e.event_type (some "assistant.text")
      then text_signal e.event_data.text
      else if opt_eq e.event_type (some "session.idle")
      then notification (opencode_completion host.decimal occurred_at agent_session_id)
      else if opt_eq e.event_type (some "session.error")
      then notification record {
        reason = AgentNotificationReason.agent_error;
        occurred_at = occurred_at;
        dedupe_key = open_code_error_key e occurred_at;
        turn_id = none;
        agent_session_id = agent_session_id;
        body = str_field J e.event_data.error "message";
        transcript_path = none;
        requires_active_turn = true;
        ends_turn = true;
      }
      else if opt_eq e.event_type (some "permission.asked")
      then request_signal AgentNotificationReason.approval_requested occurred_at e.event_data.id
          agent_session_id
      else if opt_eq e.event_type (some "question.asked")
      then request_signal AgentNotificationReason.question_requested occurred_at e.event_data.id
          agent_session_id
      else irrelevant

  unfoldable pub classify_opencode : List ℕ → Option ClassifiedSignal
  unfolding open_code_event
  classify_opencode line = elim (codecs.open_code_envelope line) [
    | none ↦ none
    | some e ↦ some (
        if opt_eq e.kind (some "event")
        then open_code_event e (unwrap_or e.ts host.now_millis)
        else irrelevant)
  ]

  -- The classifier of the registration's provider.
  unfoldable pub classify : NotificationProvider → List ℕ → Option ClassifiedSignal
  classify NotificationProvider.codex line = classify_codex line
  classify NotificationProvider.kimi line = classify_kimi line
  classify NotificationProvider.open_code line = classify_opencode line
  classify NotificationProvider.claude_code line = classify_claude line
