-- ===== src/Agent/Notification/Transcript.antt =====
-- The body of a notification of Claude's hooks, from the transcript: `claude_hook_body` and
-- `latest_claude_transcript_body_at_path` of src/agent/notification.rs.
use herdr_agent_watcher.Prelude.{
  ℕ, ◌+◌, ◌-◌, ◌*◌, String, Option, none, some, List, [], ◌∷◌, Bool, true, false, ◌&&◌, opt_eq,
  or_else, and_then, unwrap_or, ltb, nat_beq, length, drop, if◌then◌else◌,
}
use herdr_agent_watcher.Prelude.Map
use herdr_agent_watcher.Json.{Json}
use herdr_agent_watcher.Agent.Tail.{Read, bytes, failed, empty_buffer, for_each_bounded_line}
use herdr_agent_watcher.Agent.Notification.{Registration}
use herdr_agent_watcher.Agent.Notification.Body.{normalize_notification_body}
use herdr_agent_watcher.Agent.Notification.Classify.{claude_message_text, is_final}
use herdr_agent_watcher.Agent.Notification.Envelopes.{Codecs}
use herdr_agent_watcher.Agent.Notification.Host.{AgentNotificationReason, File, Host}

abbrev pub claude_transcript_initial_tail_bytes : ℕ
claude_transcript_initial_tail_bytes = 256 * 1024

-- What a reader of the file returns from a position on. How it cuts the bytes is of no consequence.
abbrev pub reads_from : File → ℕ → List Read
reads_from file cursor = bytes (drop cursor file.content) ∷ (if file.fails then failed ∷ [] else [])

-- The bytes up to the first newline, counted one by one; `none` where a read fails before it.
unfoldable pub skip_line : List ℕ → Bool → Option ℕ
skip_line [] fails = if fails then none else some 0
skip_line (b ∷ bs) fails =
    if nat_beq b 10
    then some 1
    else elim (skip_line bs fails) [ none ↦ none | some n ↦ some (n + 1) ]

-- A first lookup in a long transcript starts near its end.
abbrev pub starts_late : File → ℕ → Bool
starts_late file cursor = nat_beq cursor 0 && ltb claude_transcript_initial_tail_bytes file.length

-- The cursor of a file that has become shorter is reset.
abbrev pub reset_cursor : File → ℕ → ℕ
reset_cursor file cursor = if ltb file.length cursor then 0 else cursor

unfoldable pub start_cursor : File → ℕ → ℕ
start_cursor file cursor =
    if starts_late file (reset_cursor file cursor)
    then file.length - claude_transcript_initial_tail_bytes
    else reset_cursor file cursor

-- The cursor behind the line that a late start may cut.
unfoldable pub aligned_cursor : File → ℕ → Option ℕ
unfolding start_cursor skip_line
aligned_cursor file cursor =
    let start = start_cursor file cursor in
    if starts_late file (reset_cursor file cursor)
    then elim (skip_line (drop start file.content) file.fails) [
      | none ↦ none
      | some n ↦ some (start + n)
    ]
    else some start

-- The bytes that the skipping has passed when a read fails.
abbrev pub passed : File → ℕ → ℕ
passed file cursor =
    start_cursor file cursor + length (drop (start_cursor file cursor) file.content)

module _ (J : Json) (codecs : Codecs J.Value) (host : Host) where
  -- The body that a line of the transcript gives.
  unfoldable pub line_body : String → Option String
  line_body line = elim (codecs.claude_body_line line) [
    | none ↦ none
    | some dto ↦
        if opt_eq dto.line_type (some "assistant")
        then elim dto.message [
          | none ↦ none
          | some message ↦
              if is_final message.stop_reason
              then claude_message_text J codecs host message.content
              else none
        ]
        else none
  ]

  -- The last body that the lines give.
  unfoldable pub latest_body : Option String → List String → Option String
  latest_body latest [] = latest
  latest_body latest (line ∷ rest) = latest_body (or_else (line_body line) latest) rest

  -- The cursor as it is left, and the body.
  unfoldable pub latest_claude_transcript_body_at_path : String → ℕ → ℕ × Option String
  latest_claude_transcript_body_at_path path cursor = elim (host.open_file path) [
    | none ↦ (cursor, none)
    | some file ↦ elim (aligned_cursor file cursor) [
      | none ↦ (passed file cursor, none)
      | some start ↦ elim (for_each_bounded_line host.utf8 empty_buffer (reads_from file start)) [
        | none ↦ (start, none)
        | some (lines, ok) ↦
            if ok
            then (file.length, and_then (latest_body none lines) normalize_notification_body)
            else (start, none)
      ]
    ]
  ]

  abbrev pub takes_body : AgentNotificationReason → Bool
  takes_body AgentNotificationReason.turn_complete = true
  takes_body AgentNotificationReason.agent_error = true
  takes_body _ = false

  unfoldable pub transcript_body : Registration → String → Registration × Option String
  transcript_body r path =
      let (cursor, body) =
        latest_claude_transcript_body_at_path path
          (unwrap_or (Map.get r.claude_transcript_cursors path) 0) in
      (
        record r { claude_transcript_cursors = Map.insert r.claude_transcript_cursors path cursor },
        body,
      )

  unfoldable pub claude_hook_body :
      Registration → AgentNotificationReason → Option String → Registration × Option String
  claude_hook_body r reason transcript_path =
      if takes_body reason
      then elim (and_then transcript_path host.validate_transcript_path) [
        | none ↦ (r, none)
        | some path ↦ transcript_body r path
      ]
      else (r, none)
