-- ===== src/Tests/Tailing.antt =====
-- Runs and uses of the theorems on the tailing of transcripts, on titles and on bodies.
use herdr_agent_watcher.Prelude.{
  ℕ, Char, String, ◌≡◌, refl, Option, some, List, [], ◌∷◌, true, arith, any, nat_beq, if◌then◌else◌,
}
use herdr_agent_watcher.Text.{is_control, is_whitespace, is_empty, trim, map_chars}
use herdr_agent_watcher.Text.Bytes.{count, len, len_utf8}
use herdr_agent_watcher.Text.Lines.{
  lines, trim_line_end, trim_matches, filter_chars, collapse_whitespace,
}
use herdr_agent_watcher.Agent.Tail.{
  Read, bytes, failed, Poll, Reading, Signal, line, caught_up, watch_stale, poll_end, poll_step,
  empty_buffer, split_newline, finish_line, keep_rest, process_loop, process_chunk, line_of,
  for_each_bounded_line, run,
}
use herdr_agent_watcher.Agent.Tail.Splitting.{absorb}
use herdr_agent_watcher.Agent.Tail.Chunks.{
  buffer_of, deliver_all, bytes_of, ends_well, for_each_bounded_line_lem,
}
use herdr_agent_watcher.Agent.Tail.Watchdog.{
  Begun, reading_of, turns, is_caught_up, run-turns, run_unblocks,
}
use herdr_agent_watcher.Agent.Tail.Whole.{is_steady, input_of, lines_told, run_whole_lines}
use herdr_agent_watcher.Agent.Title.{
  sanitize_title, collapsed, cut_title, blank_control, IsTitle, sanitize_title-IsTitle,
}
use herdr_agent_watcher.Agent.Notification.Body.{
  normalize_notification_body, first_line, plain_line, shorten,
}

abbrev letter : ℕ → Char
letter b = if nat_beq b 97 then "a" else if nat_beq b 10 then "\n" else "?"

abbrev ascii : List ℕ → String
ascii [] = ""
ascii (b ∷ bs) = String.◌∷◌ (letter b) (ascii bs)

abbrev utf8 : List ℕ → Option String
utf8 bs = some (ascii bs)

-- Two lines in three reads, and the start of a third.
abbrev three_reads : List Read
three_reads = bytes (97 ∷ 97 ∷ []) ∷ bytes (10 ∷ 97 ∷ []) ∷ bytes (10 ∷ 97 ∷ []) ∷ []

for_each_bounded_line_run :
    for_each_bounded_line utf8 empty_buffer three_reads ≡ some ("aa" ∷ "a" ∷ [], true)
unfolding for_each_bounded_line process_chunk process_loop split_newline finish_line keep_rest
    line_of trim_line_end trim is_empty is_whitespace
for_each_bounded_line_run = refl

for_each_bounded_line_example :
    for_each_bounded_line utf8 (buffer_of []) three_reads
    ≡ some (deliver_all utf8 (absorb [] (bytes_of three_reads)).0, ends_well three_reads)
for_each_bounded_line_example = for_each_bounded_line_lem utf8 [] three_reads

abbrev half_line : Begun
half_line = record { text = 97 ∷ []; since = 0 }

abbrev at : ℕ → Read → Poll
at now read = record { read = read; now = now }

run-turns_example :
    run utf8 30 (reading_of half_line) (at 1 (bytes (10 ∷ [])) ∷ at 2 failed ∷ [])
    ≡ some (
      reading_of (turns utf8 30 half_line (at 1 (bytes (10 ∷ [])) ∷ at 2 failed ∷ [])).0,
      (turns utf8 30 half_line (at 1 (bytes (10 ∷ [])) ∷ at 2 failed ∷ [])).1,
    )
run-turns_example = run-turns utf8 30 half_line (at 1 (bytes (10 ∷ [])) ∷ at 2 failed ∷ [])

-- The rest of a line that stalled is told as a line of its own.
stalled_run :
    run utf8 30 (reading_of half_line) (at 31 (bytes []) ∷ at 32 (bytes (97 ∷ 97 ∷ 10 ∷ [])) ∷ [])
    ≡ some (record { buffer = empty_buffer; last_byte_at = 32 }, caught_up ∷ line "aa" ∷ [])
unfolding run poll_step poll_end watch_stale reading_of buffer_of process_chunk process_loop
    split_newline finish_line keep_rest line_of trim_line_end trim is_empty is_whitespace
stalled_run = refl

abbrev steady_polls : List Poll
steady_polls = at 1 (bytes (97 ∷ [])) ∷ at 9 failed ∷ at 29 (bytes (10 ∷ 97 ∷ [])) ∷ []

run_whole_lines_example :
    (t : Reading) × (signals : List Signal) × (run utf8 30 (reading_of half_line) steady_polls
      ≡ some (t, signals))
    × (t.buffer ≡ buffer_of (absorb half_line.text (input_of steady_polls)).1)
    × (lines_told signals ≡ deliver_all utf8 (absorb half_line.text (input_of steady_polls)).0)
unfolding is_steady
run_whole_lines_example = run_whole_lines utf8 30 half_line steady_polls refl

run_unblocks_example :
    (t : Reading) × (signals : List Signal) × (run utf8 30
        (reading_of half_line)
        (at 10 failed ∷ at 31 (bytes []) ∷ [])
      ≡ some (t, signals))
    × (t.buffer ≡ empty_buffer)
    × (any is_caught_up signals ≡ true)
run_unblocks_example =
    run_unblocks utf8 30 half_line (at 10 failed ∷ []) (at 31 (bytes [])) refl (refl, tt) refl
      (omega arith)

title_run : sanitize_title "  a\tb  " ≡ some "a b"
unfolding sanitize_title collapsed cut_title blank_control map_chars collapse_whitespace
    is_whitespace is_empty len len_utf8
title_run = refl

sanitize_title-IsTitle_example : IsTitle "a b"
sanitize_title-IsTitle_example = sanitize_title-IsTitle "  a\tb  " "a b" title_run

body_run : normalize_notification_body "\n## Done: `x`\nmore" ≡ some "Done: `x"
unfolding normalize_notification_body lines first_line plain_line trim trim_matches filter_chars
    collapse_whitespace shorten is_control is_whitespace is_empty count
body_run = refl
