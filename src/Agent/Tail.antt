-- ===== src/Agent/Tail.antt =====
-- The engine that reads growing transcripts, src/agent/adapter/base/transcript_tail_service.rs. A
-- byte is a number. The standard library's reading of bytes as UTF-8 is a parameter.
pub mod Splitting
pub mod Chunks
pub mod Watchdog
pub mod Whole
use herdr_agent_watcher.Prelude.{
  ℕ, suc, zero, ◌+◌, ◌-◌, ◌*◌, String, Option, none, some, List, [], ◌∷◌, ◌++◌, Bool, true, false,
  ◌&&◌, ◌||◌, not, ltb, leb, nat_beq, length, map, if◌then◌else◌,
}
use herdr_agent_watcher.Text.{is_empty, trim}
use herdr_agent_watcher.Text.Lines.{trim_line_end}

abbrev pub max_partial_bytes : ℕ
max_partial_bytes = 4 * 1024 * 1024

-- The buffered start of a line, and whether the rest of an over-long line is being dropped.
pub record Buffer : Type 0 where
  pub partial : List ℕ
  pub skip_until_newline : Bool

abbrev pub empty_buffer : Buffer
empty_buffer = record { partial = []; skip_until_newline = false }

-- What one `read` returns: bytes, none of them at the end of the file, or an error.
pub data Read : Type 0 where
  bytes : List ℕ → Read
  failed : Read

-- One turn of the loop of `run`: what `read` returned, and the clock.
pub record Poll : Type 0 where
  pub read : Read
  pub now : ℕ

-- What the decoder is told.
pub data Signal : Type 0 where
  line : String → Signal
  caught_up : Signal

-- The local variables of `run`.
pub record Reading : Type 0 where
  pub buffer : Buffer
  pub last_byte_at : ℕ

-- Nothing is half-buffered.
abbrev pub is_idle : Buffer → Bool
is_idle buffer = nat_beq (length buffer.partial) 0 && not buffer.skip_until_newline

-- The end of a turn without new bytes: a line that is stuck for the watchdog's time is discarded.
unfoldable pub watch_stale : ℕ → ℕ → Reading → Reading × List Signal
watch_stale watchdog now t =
    if not (is_idle t.buffer) && leb watchdog (now - t.last_byte_at)
    then (record { buffer = empty_buffer; last_byte_at = now }, caught_up ∷ [])
    else (t, [])

-- The turn at the end of the file.
unfoldable pub poll_end : ℕ → ℕ → Reading → Reading × List Signal
poll_end watchdog now t =
    let (t', stale) = watch_stale watchdog now t in
    (t', (if is_idle t.buffer then caught_up ∷ [] else []) ++ stale)

-- `position` of the first newline, and `split_at` behind it.
unfoldable pub split_newline : List ℕ → Option (List ℕ × List ℕ)
split_newline [] = none
split_newline (b ∷ bs) =
    if nat_beq b 10
    then some (b ∷ [], bs)
    else elim (split_newline bs) [ none ↦ none | some (head, rest) ↦ some (b ∷ head, rest) ]

-- The end of a chunk, without a newline.
unfoldable pub keep_rest : Buffer → List ℕ → Buffer
keep_rest buffer input =
    if buffer.skip_until_newline
    then buffer
    else if ltb max_partial_bytes (length buffer.partial + length input)
    then record { partial = []; skip_until_newline = true }
    else record buffer { partial = buffer.partial ++ input }

module _ (utf8 : List ℕ → Option String) where
  -- The line that a complete buffer is decoded as, if it is one and not blank.
  unfoldable pub line_of : List ℕ → List String
  unfolding trim_line_end
  line_of partial = elim (utf8 partial) [
    | none ↦ []
    | some text ↦
        let trimmed = trim_line_end text in if is_empty (trim trimmed) then [] else trimmed ∷ []
  ]

  -- One line that ends in the chunk: the buffer is empty after it.
  unfoldable pub finish_line : Buffer → List ℕ → List String
  unfolding line_of
  finish_line buffer head =
      if buffer.skip_until_newline
      then []
      else if ltb max_partial_bytes (length buffer.partial + length head)
      then []
      else line_of (buffer.partial ++ head)

  -- The loop on fuel; the lines go to the decoder in this order. Without fuel there is no result.
  unfoldable pub process_loop : ℕ → Buffer → List ℕ → Option (Buffer × List String)
  process_loop zero buffer [] = some (buffer, [])
  process_loop zero buffer (b ∷ bs) = none
  process_loop (suc fuel) buffer [] = some (buffer, [])
  process_loop (suc fuel) buffer (b ∷ bs) = elim (split_newline (b ∷ bs)) [
    | none ↦ some (keep_rest buffer (b ∷ bs), [])
    | some (head, rest) ↦ elim (process_loop fuel empty_buffer rest) [
      | none ↦ none
      | some (buffer', lines) ↦ some (buffer', finish_line buffer head ++ lines)
    ]
  ]

  unfoldable pub process_chunk : Buffer → List ℕ → Option (Buffer × List String)
  process_chunk buffer input = process_loop (length input) buffer input

  -- `for_each_bounded_line` on what the reader returns, with the lines visited and whether the result is
  -- `Ok`. A reader without further bytes is at its end.
  unfoldable pub for_each_bounded_line : Buffer → List Read → Option (List String × Bool)
  for_each_bounded_line buffer [] = some ([], true)
  for_each_bounded_line buffer (failed ∷ reads) = some ([], false)
  for_each_bounded_line buffer (bytes input ∷ reads) =
      if nat_beq (length input) 0 then some ([], true) else elim (process_chunk buffer input) [
        | none ↦ none
        | some (buffer', lines) ↦ elim (for_each_bounded_line buffer' reads) [
          | none ↦ none
          | some (more, ok) ↦ some (lines ++ more, ok)
        ]
      ]

  unfoldable pub poll_step : ℕ → Reading → Poll → Option (Reading × List Signal)
  poll_step watchdog t p = elim p.read [
    | failed ↦ some (watch_stale watchdog p.now t)
    | bytes input ↦
        if nat_beq (length input) 0
        then some (poll_end watchdog p.now t)
        else elim (process_chunk t.buffer input) [
          | none ↦ none
          | some (buffer', lines) ↦
              some (record { buffer = buffer'; last_byte_at = p.now }, map line lines)
        ]
  ]

  -- `run` until it is stopped, on the turns that it takes.
  unfoldable pub run : ℕ → Reading → List Poll → Option (Reading × List Signal)
  run watchdog t [] = some (t, [])
  run watchdog t (p ∷ polls) = elim (poll_step watchdog t p) [
    | none ↦ none
    | some (t', signals) ↦ elim (run watchdog t' polls) [
      | none ↦ none
      | some (t'', more) ↦ some (t'', signals ++ more)
    ]
  ]
