-- ===== src/Agent/Tail/Whole.antt =====
-- `run` of src/agent/adapter/base/transcript_tail_service.rs on a source that does not stall.
use herdr_agent_watcher.Prelude.{
  ℕ, ◌-◌, ◌≡◌, refl, sym, ◌∙◌, ap, String, Option, some, List, [], ◌∷◌, ◌++◌, Bool, true, false,
  not, ◌&&◌, leb, map, arith, if◌then◌else◌, Bool-cases, inl, inr,
}
use herdr_agent_watcher.Agent.Tail.{
  Read, bytes, failed, Poll, Signal, line, caught_up, Reading, run,
}
use herdr_agent_watcher.Agent.Tail.Splitting.{absorb, absorb_nil, absorb-append}
use herdr_agent_watcher.Agent.Tail.Chunks.{buffer_of, deliver_all, deliver_all-append}
use herdr_agent_watcher.Agent.Tail.Watchdog.{
  Begun, reading_of, is_silent, drop_stale, turn_end, turn, turns, run-turns,
}

-- No turn without bytes comes the watchdog's time or more after the last byte.
unfoldable pub is_steady : ℕ → ℕ → List Poll → Bool
is_steady watchdog since [] = true
is_steady watchdog since (p ∷ polls) =
    let waiting = is_steady watchdog since polls in
    let fed = is_steady watchdog p.now polls in
    if is_silent p then not (leb watchdog (p.now - since)) && waiting else fed

abbrev pub bytes_read : Read → List ℕ
bytes_read failed = []
bytes_read (bytes input) = input

-- All bytes that the turns read.
unfoldable pub input_of : List Poll → List ℕ
input_of [] = []
input_of (p ∷ polls) = bytes_read p.read ++ input_of polls

-- The lines among the signals.
unfoldable pub lines_told : List Signal → List String
lines_told [] = []
lines_told (line text ∷ signals) = text ∷ lines_told signals
lines_told (caught_up ∷ signals) = lines_told signals

lines_told-append : (xs ys : List Signal) → lines_told (xs ++ ys) ≡ lines_told xs ++ lines_told ys
unfolding lines_told
lines_told-append [] ys = refl
lines_told-append (line text ∷ xs) ys = rw (lines_told-append xs ys)
lines_told-append (caught_up ∷ xs) ys = lines_told-append xs ys

lines_told-map : (texts : List String) → lines_told (map line texts) ≡ texts
unfolding lines_told
lines_told-map [] = refl
lines_told-map (t ∷ texts) = rw (lines_told-map texts)

module _ (utf8 : List ℕ → Option String) where
  -- A silent turn before the watchdog's time changes nothing and tells no line.
  silent_turn_lem :
      (watchdog : ℕ) (b : Begun) (read : Read) (now : ℕ)
      → let p : Poll = record { read = read; now = now } in
        is_silent p ≡ true
        → leb watchdog (now - b.since) ≡ false
        → ((turn utf8 watchdog b p).0 ≡ b) × (lines_told (turn utf8 watchdog b p).1 ≡ [])
  unfolding turn turn_end drop_stale lines_told
  silent_turn_lem watchdog b failed now s h = ground (arith, h)
  silent_turn_lem watchdog b (bytes input) now s h = rw s (ground (arith, h))

  silent-bytes_read :
      (read : Read) (now : ℕ)
      → is_silent (record { read = read; now = now }) ≡ true
      → bytes_read read ≡ []
  silent-bytes_read failed now s = refl
  silent-bytes_read (bytes []) now s = refl
  silent-bytes_read (bytes (x ∷ xs)) now s = absurd (ground (arith, s))

  fed_turn_lem :
      (watchdog : ℕ) (b : Begun) (read : Read) (now : ℕ)
      → let p : Poll = record { read = read; now = now } in
        is_silent p ≡ false
        → ((turn utf8 watchdog b p).0
            ≡ record { text = (absorb b.text (bytes_read read)).1; since = now })
          × (lines_told (turn utf8 watchdog b p).1
              ≡ deliver_all utf8 (absorb b.text (bytes_read read)).0)
  unfolding turn
  fed_turn_lem watchdog b failed now s = absurd (ground (arith, s))
  fed_turn_lem watchdog b (bytes input) now s = rw s (refl, lines_told-map _)

  turns_whole :
      (watchdog : ℕ) (b : Begun) (polls : List Poll)
      → is_steady watchdog b.since polls ≡ true
      → ((turns utf8 watchdog b polls).0.text ≡ (absorb b.text (input_of polls)).1)
        × (lines_told (turns utf8 watchdog b polls).1
            ≡ deliver_all utf8 (absorb b.text (input_of polls)).0)
  unfolding turns is_steady input_of lines_told deliver_all
  turns_whole watchdog b [] h = rw (absorb_nil b.text) (refl, refl)
  turns_whole watchdog b (p ∷ polls) h = elim (Bool-cases (is_silent p)) [
    | inl s ↦
        let (same, told) = silent_turn_lem watchdog b p.read p.now s (ground (arith, s, h)) in
        let (rest, lines) = turns_whole watchdog b polls (ground (arith, s, h)) in
        rw (silent-bytes_read p.read p.now s)
          (rw same rest, lines_told-append (turn utf8 watchdog b p).1 _ ∙ rw told (rw same lines))
    | inr s ↦
        let (fed, told) = fed_turn_lem watchdog b p.read p.now s in
        let b' : Begun = record { text = (absorb b.text (bytes_read p.read)).1; since = p.now } in
        let (rest, lines) = turns_whole watchdog b' polls (ground (arith, s, h)) in
        rw (absorb-append b.text (bytes_read p.read) (input_of polls)) (
          rw fed rest,
          lines_told-append (turn utf8 watchdog b p).1 _
              ∙ rw told (
                  rw fed (
                    rw lines
                      (sym (deliver_all-append utf8 (absorb b.text (bytes_read p.read)).0 _)))),
        )
  ]

  -- Where no silent turn comes the watchdog's time or more after the last byte, the tail engine
  -- returns, and then the lines that it has told are the lines of all bytes read, in order,
  -- whole, and however the reads cut them: the complete ones of at most 4 MiB that are UTF-8 and
  -- not blank. What it holds is the rest behind the last newline.
  pub run_whole_lines :
      (watchdog : ℕ) (b : Begun) (polls : List Poll)
      → is_steady watchdog b.since polls ≡ true
      → (t : Reading) × (signals : List Signal) × (run utf8 watchdog (reading_of b) polls
          ≡ some (t, signals))
        × (t.buffer ≡ buffer_of (absorb b.text (input_of polls)).1)
        × (lines_told signals ≡ deliver_all utf8 (absorb b.text (input_of polls)).0)
  unfolding reading_of
  run_whole_lines watchdog b polls h =
      let result = turns utf8 watchdog b polls in
      let (rest, lines) = turns_whole watchdog b polls h in
      (reading_of result.0, result.1, run-turns utf8 watchdog b polls, ap buffer_of rest, lines)
