-- ===== src/Agent/Tail/Watchdog.antt =====
-- `run` of src/agent/adapter/base/transcript_tail_service.rs against a reader without bounds or
-- chunks that has the same watchdog.
use herdr_agent_watcher.Prelude.{
  ℕ, ◌-◌, ◌≤◌, ◌≡◌, refl, String, Option, some, List, [], ◌∷◌, ◌++◌, Bool, true, false, not, ◌&&◌,
  leb, nat_beq, length, map, arith, All, All-append, any, if◌then◌else◌, Bool-cases, inl, inr, ◌⊎◌,
}
use herdr_agent_watcher.Agent.Tail.{
  Read, bytes, failed, Poll, Signal, line, caught_up, Reading, empty_buffer, is_idle, watch_stale,
  poll_end, poll_step, run,
}
use herdr_agent_watcher.Agent.Tail.Splitting.{absorb}
use herdr_agent_watcher.Agent.Tail.Chunks.{buffer_of, buffer_of_nil, deliver_all, process_chunk_lem}

-- The line that has begun, of any length, and when its last byte came.
pub record Begun : Type 0 where
  pub text : List ℕ
  pub since : ℕ

unfoldable pub reading_of : Begun → Reading
reading_of b = record { buffer = buffer_of b.text; last_byte_at = b.since }

-- A turn that brings no byte.
abbrev pub is_silent : Poll → Bool
is_silent p = elim p.read [ failed ↦ true | bytes input ↦ nat_beq (length input) 0 ]

abbrev pub is_caught_up : Signal → Bool
is_caught_up (line text) = false
is_caught_up caught_up = true

abbrev pub has_text : Begun → Bool
has_text b = not (nat_beq (length b.text) 0)

-- A line that has begun and is stuck is dropped.
unfoldable pub drop_stale : ℕ → ℕ → Begun → Begun × List Signal
drop_stale watchdog now b =
    if has_text b && leb watchdog (now - b.since)
    then (record { text = []; since = now }, caught_up ∷ [])
    else (b, [])

unfoldable pub turn_end : ℕ → ℕ → Begun → Begun × List Signal
unfolding drop_stale
turn_end watchdog now b = if has_text b then drop_stale watchdog now b else (b, caught_up ∷ [])

is_idle-buffer_of : (r : List ℕ) → is_idle (buffer_of r) ≡ nat_beq (length r) 0
unfolding buffer_of
is_idle-buffer_of r = ground arith

watch_stale-reading_of :
    (watchdog now : ℕ) (b : Begun)
    → watch_stale watchdog now (reading_of b)
      ≡ (reading_of (drop_stale watchdog now b).0, (drop_stale watchdog now b).1)
unfolding watch_stale reading_of drop_stale buffer_of
watch_stale-reading_of watchdog now b = ground (arith, is_idle-buffer_of b.text)

poll_end-reading_of :
    (watchdog now : ℕ) (b : Begun)
    → poll_end watchdog now (reading_of b)
      ≡ (reading_of (turn_end watchdog now b).0, (turn_end watchdog now b).1)
unfolding poll_end watch_stale reading_of turn_end drop_stale buffer_of
poll_end-reading_of watchdog now b = ground (arith, is_idle-buffer_of b.text)

any-append_left :
    (xs ys : List Signal) → any is_caught_up xs ≡ true → any is_caught_up (xs ++ ys) ≡ true
any-append_left [] ys h = ground arith
any-append_left (x ∷ xs) ys h = ground (arith, any-append_left xs ys)

any-append_right :
    (xs ys : List Signal) → any is_caught_up ys ≡ true → any is_caught_up (xs ++ ys) ≡ true
any-append_right [] ys h = h
any-append_right (x ∷ xs) ys h = ground (arith, any-append_right xs ys)

module _ (utf8 : List ℕ → Option String) where
  -- A turn over the unbounded line.
  unfoldable pub turn : ℕ → Begun → Poll → Begun × List Signal
  turn watchdog b p = elim p.read [
    | failed ↦ drop_stale watchdog p.now b
    | bytes input ↦ if nat_beq (length input) 0 then turn_end watchdog p.now b else (
      record { text = (absorb b.text input).1; since = p.now },
      map line (deliver_all utf8 (absorb b.text input).0),
    )
  ]

  unfoldable pub turns : ℕ → Begun → List Poll → Begun × List Signal
  turns watchdog b [] = (b, [])
  turns watchdog b (p ∷ polls) =
      let (b', signals) = turn watchdog b p in
      let (b'', more) = turns watchdog b' polls in (b'', signals ++ more)

  poll_step-turn :
      (watchdog : ℕ) (b : Begun) (read : Read) (now : ℕ)
      → let p : Poll = record { read = read; now = now } in
        poll_step utf8 watchdog (reading_of b) p
        ≡ some (reading_of (turn watchdog b p).0, (turn watchdog b p).1)
  unfolding poll_step turn reading_of
  poll_step-turn watchdog b failed now = rw (watch_stale-reading_of watchdog now b)
  poll_step-turn watchdog b (bytes input) now = elim (Bool-cases (nat_beq (length input) 0)) [
    | inl e ↦ rw e (rw (poll_end-reading_of watchdog now b))
    | inr e ↦ rw e (rw (process_chunk_lem utf8 b.text input))
  ]

  -- For every sequence of reads the tail engine returns, and what it tells the decoder and holds
  -- at the end is what a reader without chunks or bounds on lines tells and holds, with complete
  -- lines of more than 4 MiB left out. That reader gives up, as the engine does, a line that has
  -- begun and gets no byte for the watchdog's time; what comes after it, be it the rest of the
  -- same line, is read as the start of a new line.
  pub run-turns :
      (watchdog : ℕ) (b : Begun) (polls : List Poll)
      → run utf8 watchdog (reading_of b) polls
        ≡ some (reading_of (turns watchdog b polls).0, (turns watchdog b polls).1)
  unfolding run turns
  run-turns watchdog b [] = refl
  run-turns watchdog b (p ∷ polls) =
      rw (poll_step-turn watchdog b p.read p.now, run)
        (rw (run-turns watchdog (turn watchdog b p).0 polls))

  -- A silent turn drops the line, or leaves it while the watchdog waits.
  silent_turn_cases :
      (watchdog : ℕ) (b : Begun) (read : Read) (now : ℕ)
      → let p : Poll = record { read = read; now = now } in
        is_silent p ≡ true
        → has_text b ≡ true
        → (((turn watchdog b p).0.text ≡ []) × (any is_caught_up (turn watchdog b p).1 ≡ true))
          ⊎ (((turn watchdog b p).0 ≡ b) × (leb watchdog (now - b.since) ≡ false))
  unfolding turn turn_end drop_stale
  silent_turn_cases watchdog b failed now s h = elim (Bool-cases (leb watchdog (now - b.since))) [
    | inl e ↦ inl (rw (h, e), rw (h, e))
    | inr e ↦ inr (rw (h, e), e)
  ]
  silent_turn_cases watchdog b (bytes input) now s h =
      elim (Bool-cases (leb watchdog (now - b.since))) [
        | inl e ↦ inl (rw (s, h, e), rw (s, h, e))
        | inr e ↦ inr (rw (s, h, e), e)
      ]

  silent_turn-text :
      (watchdog : ℕ) (b : Begun) (read : Read) (now : ℕ)
      → let p : Poll = record { read = read; now = now } in
        is_silent p ≡ true → b.text ≡ [] → (turn watchdog b p).0.text ≡ []
  unfolding turn turn_end drop_stale
  silent_turn-text watchdog b failed now s h = ground arith
  silent_turn-text watchdog b (bytes input) now s h = ground arith

  silent_turns-text :
      (watchdog : ℕ) (b : Begun) (polls : List Poll)
      → All (λ p. is_silent p ≡ true) polls
      → b.text ≡ []
      → (turns watchdog b polls).0.text ≡ []
  unfolding turns
  silent_turns-text watchdog b [] s h = h
  silent_turns-text watchdog b (p ∷ polls) s h =
      silent_turns-text watchdog (turn watchdog b p).0 polls s.1
        (silent_turn-text watchdog b p.read p.now s.0 h)

  -- A line that has begun does not hold the decoder back for ever.
  turns_unblock :
      (watchdog : ℕ) (b : Begun) (polls : List Poll) (p : Poll)
      → has_text b ≡ true
      → All (λ q. is_silent q ≡ true) polls
      → is_silent p ≡ true
      → watchdog ≤ p.now - b.since
      → ((turns watchdog b (polls ++ p ∷ [])).0.text ≡ [])
        × (any is_caught_up (turns watchdog b (polls ++ p ∷ [])).1 ≡ true)
  unfolding turns
  turns_unblock watchdog b [] p h s sp late =
      elim (silent_turn_cases watchdog b p.read p.now sp h) [
        | inl (gone, told) ↦ (gone, any-append_left (turn watchdog b p).1 [] told)
        | inr (same, waits) ↦ absurd (ground (arith, late, waits))
      ]
  turns_unblock watchdog b (q ∷ polls) p h s sp late =
      let b' = (turn watchdog b q).0 in
      elim (silent_turn_cases watchdog b q.read q.now s.0 h) [
        | inl (gone, told) ↦ (
          silent_turns-text watchdog b' (polls ++ p ∷ []) (All-append _ polls (p ∷ []) s.1 (sp, tt))
              gone,
          any-append_left (turn watchdog b q).1 (turns watchdog b' (polls ++ p ∷ [])).1 told,
        )
        | inr (same, waits) ↦
            let (gone, told) =
              turns_unblock watchdog b' polls p (rw same h) s.1 sp (rw same late) in
            (
              gone,
              any-append_right (turn watchdog b q).1 (turns watchdog b' (polls ++ p ∷ [])).1 told,
            )
      ]

  -- Where a line has begun and no read brings a byte, be it at the end of the file or by errors,
  -- then by the first turn that ends the watchdog's time the tail engine has emptied its buffer
  -- and has told the decoder that it has caught up.
  pub run_unblocks :
      (watchdog : ℕ) (b : Begun) (polls : List Poll) (p : Poll)
      → has_text b ≡ true
      → All (λ q. is_silent q ≡ true) polls
      → is_silent p ≡ true
      → watchdog ≤ p.now - b.since
      → (t : Reading) × (signals : List Signal) × (run utf8 watchdog
            (reading_of b)
            (polls ++ p ∷ [])
          ≡ some (t, signals))
        × (t.buffer ≡ empty_buffer)
        × (any is_caught_up signals ≡ true)
  unfolding reading_of
  run_unblocks watchdog b polls p h s sp late =
      let result = turns watchdog b (polls ++ p ∷ []) in
      let (gone, told) = turns_unblock watchdog b polls p h s sp late in
      (
        reading_of result.0,
        result.1,
        run-turns watchdog b (polls ++ p ∷ []),
        rw gone buffer_of_nil,
        told,
      )
