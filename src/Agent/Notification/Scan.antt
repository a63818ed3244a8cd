-- ===== src/Agent/Notification/Scan.antt =====
-- The reading of a growing source: `finish_line` and `scan_source` of src/agent/notification.rs.
use herdr_agent_watcher.Prelude.{
  ℕ, ◌+◌, ◌*◌, Option, none, some, List, [], ◌∷◌, ◌++◌, Bool, true, false, ltb, nat_beq, length,
  drop, if◌then◌else◌,
}
use herdr_agent_watcher.Json.{Json}
use herdr_agent_watcher.Agent.Notification.{Registration}
use herdr_agent_watcher.Agent.Notification.Classify.{classify}
use herdr_agent_watcher.Agent.Notification.Envelopes.{Codecs}
use herdr_agent_watcher.Agent.Notification.Host.{File, Host}
use herdr_agent_watcher.Agent.Notification.Apply.{
  with_registration, apply_signal, flush_pending_opencode_idle,
}
use herdr_agent_watcher.Agent.Notification.Turns.{Scan, replay_suppressed}

abbrev pub max_partial_line_bytes : ℕ
max_partial_line_bytes = 256 * 1024

-- The carriage returns at the end are popped.
unfoldable pub pop_returns : List ℕ → List ℕ
pop_returns [] = []
pop_returns (b ∷ bs) = elim (pop_returns bs) [
  | [] ↦ if nat_beq b 13 then [] else b ∷ []
  | c ∷ cs ↦ b ∷ c ∷ cs
]

abbrev pub parse_failed : Scan → Scan
parse_failed s = record s {
  diagnostics = record s.diagnostics { parse_failures = s.diagnostics.parse_failures + 1 };
}

-- The file has become shorter: reading starts anew from its end.
abbrev pub restart : Registration → ℕ → Registration
restart r length = record r {
  cursor = length;
  partial_line = [];
  dropping_oversize_line = false;
  turn_active = false;
  turn_id = none;
  pending_opencode_idle = none;
  claude_transcript_cursors = [];
}

-- One byte that is no newline.
unfoldable pub keep_byte : Registration → ℕ → Registration
keep_byte r byte =
    if r.dropping_oversize_line
    then r
    else if ltb (length r.partial_line) max_partial_line_bytes
    then record r { partial_line = r.partial_line ++ byte ∷ [] }
    else record r { partial_line = []; dropping_oversize_line = true }

module _ (J : Json) (codecs : Codecs J.Value) (host : Host) where
  -- A line that is complete and within the bound.
  unfoldable pub take_line : Scan → List ℕ → Scan
  take_line s line =
      let s' = record s {
        registration = record s.registration { partial_line = [] };
        diagnostics = record s.diagnostics { records_scanned = s.diagnostics.records_scanned + 1 };
      } in
      elim (classify J codecs host s.registration.provider line) [
        | none ↦ parse_failed s'
        | some signal ↦ apply_signal J codecs host s' signal
      ]

  unfoldable pub finish_line : Scan → Scan
  finish_line s =
      if s.registration.dropping_oversize_line
      then parse_failed
          (with_registration s (record s.registration { dropping_oversize_line = false }))
      else elim (pop_returns s.registration.partial_line) [
        | [] ↦ with_registration s (record s.registration { partial_line = [] })
        | b ∷ bs ↦ take_line s (b ∷ bs)
      ]

  unfoldable pub scan_byte : Scan → ℕ → Scan
  scan_byte s byte =
      if nat_beq byte 10 then finish_line s else with_registration s (keep_byte s.registration byte)

  unfoldable pub scan_bytes : Scan → List ℕ → Scan
  scan_bytes s [] = s
  scan_bytes s (byte ∷ rest) = scan_bytes (scan_byte s byte) rest

  -- What a read has brought is counted before it is scanned.
  unfoldable pub count_bytes : Scan → ℕ → Scan
  count_bytes s read = record s {
    registration = record s.registration { cursor = s.registration.cursor + read };
    diagnostics = record s.diagnostics { bytes_scanned = s.diagnostics.bytes_scanned + read };
  }

  -- The reads of a file from the cursor on, all of them at once; the result is false for `Err`.
  unfoldable pub scan_file : Scan → File → Scan × Bool
  scan_file s file =
      let input = drop s.registration.cursor file.content in
      let s' = scan_bytes (count_bytes s (length input)) input in
      if file.fails then (s', false) else (flush_pending_opencode_idle J codecs host s', true)

  unfoldable pub scan_opened : Scan → Option File → Scan × Bool
  scan_opened s none = (s, false)
  scan_opened s (some file) = scan_file s file

  -- The file's length decides: it is shorter than what was read, as long, or has grown.
  unfoldable pub scan_to : Scan → Option ℕ → Scan × Bool
  scan_to s none = (s, false)
  scan_to s (some length) =
      if ltb length s.registration.cursor
      then (replay_suppressed (with_registration s (restart s.registration length)), true)
      else if nat_beq length s.registration.cursor
      then (s, true)
      else scan_opened s (host.open_file s.registration.source_path)

  unfoldable pub scan_source : Scan → Scan × Bool
  scan_source s = scan_to s (host.metadata_length s.registration.source_path)
