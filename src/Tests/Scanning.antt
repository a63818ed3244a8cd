-- ===== src/Tests/Scanning.antt =====
-- Runs and uses of the theorems on the scanning of sources for notifications.
use herdr_agent_watcher.Prelude.{
  ℕ, String, ◌≡◌, ◌≤◌, ◌+◌, refl, Option, none, some, List, [], ◌∷◌, map, false, true, arith,
  length, nat_beq, if◌then◌else◌,
}
use herdr_agent_watcher.Prelude.StrSet
use herdr_agent_watcher.Text.{is_control, is_whitespace, is_empty, trim}
use herdr_agent_watcher.Text.Bytes.{count}
use herdr_agent_watcher.Text.Lines.{lines, trim_matches, filter_chars, collapse_whitespace}
use herdr_agent_watcher.Json.Model.{Tree, tree_json, null}
use herdr_agent_watcher.Agent.Notification.{
  NotificationProvider, new_registration, remember_dedupe_key,
}
use herdr_agent_watcher.Agent.Notification.Host.{File, Host}
use herdr_agent_watcher.Agent.Notification.Envelopes.{Codecs, OpenCodeEnvelope}
use herdr_agent_watcher.Agent.Notification.Turns.{
  Scan, Diagnostics, ClassifiedSignal, notification, opencode_completion, is_open_code, admit_key,
  notification_action_body,
}
use herdr_agent_watcher.Agent.Notification.Scan.{
  scan_source, scan_to, scan_opened, scan_file, scan_bytes, scan_byte, finish_line, take_line,
  keep_byte, pop_returns, count_bytes,
}
use herdr_agent_watcher.Agent.Notification.Apply.{
  apply_signal, apply_notification, notify, emit, complete_idle, flush_pending_opencode_idle,
}
use herdr_agent_watcher.Agent.Notification.Body.{
  normalize_notification_body, first_line, plain_line, shorten,
}
use herdr_agent_watcher.Agent.Notification.Classify.{classify, classify_opencode, open_code_event}
use herdr_agent_watcher.Agent.Notification.Transcript.{claude_hook_body}
use herdr_agent_watcher.Agent.Notification.Sends.{ScanIsValid, count_taken}
use herdr_agent_watcher.Agent.Notification.Worker.{
  Worker, Surroundings, WorkerCommand, register, source_changed, Round, run_worker,
}
use herdr_agent_watcher.Agent.Notification.Worker.Valid.{WorkerIsValid, run_worker-WorkerIsValid}
use herdr_agent_watcher.Agent.Notification.Completions.{apply_signals, turn_reported_once}

-- An event of OpenCode's, told by the first byte of its line: busy, a text, or idle.
abbrev open_code_line : Option String → Option String → Option String → OpenCodeEnvelope Tree
open_code_line event_type status text = record {
  ts = some 5;
  kind = some "event";
  event_type = event_type;
  event_data = record {
    id = none;
    session_id = some "s1";
    status = some record { kind = status };
    text = text;
    error = null;
  };
}

abbrev open_code_envelope : List ℕ → Option (OpenCodeEnvelope Tree)
open_code_envelope [] = none
open_code_envelope (b ∷ bs) =
    if nat_beq b b'b'
    then some (open_code_line (some "session.status") (some "busy") none)
    else if nat_beq b b't'
    then some (open_code_line (some "assistant.text") none (some "All *done*"))
    else if nat_beq b b'i'
    then some (open_code_line (some "session.status") (some "idle") none)
    else none

abbrev codecs : Codecs Tree
codecs = record {
  codex_envelope = λ line. none;
  claude_envelope = λ line. none;
  kimi_envelope = λ line. none;
  open_code_envelope = open_code_envelope;
  claude_body_line = λ line. none;
  rfc3339_millis = λ time. none;
}

-- "b", "t", "i", and a line that is no record.
abbrev journal : File
journal = record {
  length = 8;
  content = b'b' ∷ 10 ∷ b't' ∷ 10 ∷ b'i' ∷ 10 ∷ b'x' ∷ 10 ∷ [];
  fails = false;
}

abbrev host : Host
host = record {
  now_millis = 7;
  takes = λ sent event. true;
  metadata_length = λ path. some 8;
  open_file = λ path. some journal;
  validate_transcript_path = λ path. none;
  utf8 = λ bytes. none;
  decimal = λ n. "5";
}

abbrev no_diagnostics : Diagnostics
no_diagnostics = record {
  bytes_scanned = 0;
  records_scanned = 0;
  notifications_emitted = λ reason. 0;
  parse_failures = 0;
  replay_suppressions = 0;
  duplicate_suppressions = 0;
  last_successful_event_at = none;
}

abbrev open_code_scan : Scan
open_code_scan = record {
  registration = new_registration "p1" 1 NotificationProvider.open_code "/journal" 0;
  diagnostics = no_diagnostics;
  sent = [];
}

open_code_scan-ScanIsValid : ScanIsValid open_code_scan
unfolding StrSet.contains count_taken
open_code_scan-ScanIsValid = record {
  registration = record {
    keys = record { same = λ k. refl; distinct = tt; few = omega arith };
    turn = λ h. refl;
    line = omega arith;
    dropped = λ h. refl;
    body = λ b h. absurd (cc h);
  };
  counted = λ reason. refl;
  presentable = tt;
}

-- The text completes the turn that the idle status ends.
scan_source_run :
    map (λ x. x.event.body) (scan_source tree_json codecs host open_code_scan).0.sent
    ≡ some "All *done" ∷ []
unfolding scan_source scan_to scan_opened scan_file scan_bytes scan_byte finish_line take_line
    keep_byte pop_returns count_bytes apply_signal apply_notification notify emit complete_idle
    flush_pending_opencode_idle is_open_code admit_key remember_dedupe_key claude_hook_body classify
    classify_opencode open_code_event opencode_completion notification_action_body
    normalize_notification_body lines first_line plain_line trim trim_matches filter_chars
    collapse_whitespace shorten is_control is_whitespace is_empty count StrSet.contains
scan_source_run = refl

abbrev idle : ClassifiedSignal
idle = notification (opencode_completion (λ n. "5") 5 (some "s1"))

turn_reported_once_example :
    (length (apply_signals tree_json codecs host open_code_scan (idle ∷ idle ∷ [])).sent ≤ 0 + 1)
    × (open_code_scan.registration.turn_active ≡ false
        → (apply_signals tree_json codecs host open_code_scan (idle ∷ idle ∷ [])).sent ≡ [])
unfolding opencode_completion
turn_reported_once_example =
    turn_reported_once tree_json codecs host open_code_scan (idle ∷ idle ∷ []) (refl, (refl, tt))

-- The worker with that source registered; the watcher of the crate notify refuses no path.
abbrev idle_worker : Worker
idle_worker = record {
  sources = record {
    registrations = [];
    watched = [];
    stopped_total = 0;
    active_registrations = 0;
    active_by_provider = λ p. 0;
  };
  counts = no_diagnostics;
  started_total = 0;
  rebound_total = 0;
  sent = [];
  outside = [];
  alive = true;
}

abbrev quiet_surroundings : Surroundings
quiet_surroundings = record {
  generation = λ pty_id. some 1;
  watch_fails = λ path. none;
  transfer_kimi_transcript = λ pty_id. true;
}

abbrev round : WorkerCommand → Round
round command = record { host = host; around = quiet_surroundings; command = some command }

idle_worker-WorkerIsValid : WorkerIsValid idle_worker
unfolding count_taken
idle_worker-WorkerIsValid = record {
  registrations = tt;
  counted = λ reason. refl;
  presentable = tt;
}

run_worker-WorkerIsValid_example : WorkerIsValid (
    run_worker tree_json codecs idle_worker (
      round (register open_code_scan.registration) ∷ round (source_changed ("/journal" ∷ [])) ∷ []))
run_worker-WorkerIsValid_example =
    run_worker-WorkerIsValid tree_json codecs idle_worker
      (round (register open_code_scan.registration) ∷ round (source_changed ("/journal" ∷ [])) ∷ [])
      (open_code_scan-ScanIsValid.registration, (tt, tt)) idle_worker-WorkerIsValid
