-- ===== src/Agent/Tail/Chunks.antt =====
-- However a stream is cut into chunks, the engine of
-- src/agent/adapter/base/transcript_tail_service.rs delivers its lines.
use mathlib.Core.List.{append_assoc}
use herdr_agent_watcher.Prelude.{
  ℕ, suc, zero, ◌≤◌, ◌≡◌, refl, sym, String, Option, some, List, [], ◌∷◌, ◌++◌, Bool, true, false,
  ltb, nat_beq, length, length-append, arith, if◌then◌else◌, Bool-cases, Option-cases, inl, inr,
}
use herdr_agent_watcher.Agent.Tail.{
  Buffer, Read, bytes, failed, empty_buffer, max_partial_bytes, line_of, finish_line, keep_rest,
  split_newline, process_loop, process_chunk, for_each_bounded_line,
}
use herdr_agent_watcher.Agent.Tail.Splitting.{
  absorb, absorb_nil, absorb_newline, absorb_no_newline, absorb-append, length-split_newline,
}

-- The buffer of a line that has begun with `r`: the line itself, or skipping when it is too long.
unfoldable pub buffer_of : List ℕ → Buffer
buffer_of r =
    if ltb max_partial_bytes (length r)
    then record { partial = []; skip_until_newline = true }
    else record { partial = r; skip_until_newline = false }

pub buffer_of_nil : buffer_of [] ≡ empty_buffer
unfolding buffer_of
buffer_of_nil = refl

keep_rest-buffer_of : (r input : List ℕ) → keep_rest (buffer_of r) input ≡ buffer_of (r ++ input)
unfolding keep_rest buffer_of
keep_rest-buffer_of r input = ground (arith, length-append r input)

-- What a finite source holds: its bytes up to the first empty read or error, and whether it ends
-- without an error.
unfoldable pub bytes_of : List Read → List ℕ
bytes_of [] = []
bytes_of (failed ∷ reads) = []
bytes_of (bytes input ∷ reads) = if nat_beq (length input) 0 then [] else input ++ bytes_of reads

unfoldable pub ends_well : List Read → Bool
ends_well [] = true
ends_well (failed ∷ reads) = false
ends_well (bytes input ∷ reads) = if nat_beq (length input) 0 then true else ends_well reads

module _ (utf8 : List ℕ → Option String) where
  -- A line is decoded if it is within the bound.
  unfoldable pub deliver : List ℕ → List String
  deliver line = if ltb max_partial_bytes (length line) then [] else line_of utf8 line

  unfoldable pub deliver_all : List (List ℕ) → List String
  deliver_all [] = []
  deliver_all (line ∷ lines) = deliver line ++ deliver_all lines

  pub deliver_all-append :
      (xs ys : List (List ℕ)) → deliver_all (xs ++ ys) ≡ deliver_all xs ++ deliver_all ys
  unfolding deliver_all
  deliver_all-append [] ys = refl
  deliver_all-append (x ∷ xs) ys =
      rw (deliver_all-append xs ys)
        (sym (append_assoc (deliver x) (deliver_all xs) (deliver_all ys)))

  finish_line-buffer_of :
      (r head : List ℕ) → finish_line utf8 (buffer_of r) head ≡ deliver (r ++ head)
  unfolding finish_line buffer_of deliver
  finish_line-buffer_of r head = ground (arith, length-append r head)

  -- With fuel for its bytes the loop returns, with the lines that end in the chunk.
  process_loop_lem :
      (fuel : ℕ) (r input : List ℕ)
      → length input ≤ fuel
      → process_loop utf8 fuel (buffer_of r) input
        ≡ some (buffer_of (absorb r input).1, deliver_all (absorb r input).0)
  unfolding process_loop deliver_all
  process_loop_lem zero r [] h = rw (absorb_nil r)
  process_loop_lem zero r (b ∷ bs) h = absurd (omega arith)
  process_loop_lem (suc fuel) r [] h = rw (absorb_nil r)
  process_loop_lem (suc fuel) r (b ∷ bs) h = elim (Option-cases (split_newline (b ∷ bs))) [
    | inl n ↦
        rw (n, process_loop)
          (rw (absorb_no_newline r (b ∷ bs) n) (rw (keep_rest-buffer_of r (b ∷ bs)) refl))
    | inr ((head, rest), s) ↦
        let shorter = length-split_newline (b ∷ bs) head rest s in
        let deeper = process_loop_lem fuel [] rest (omega (arith, h, shorter)) in
        rw (s, process_loop)
          (rw (absorb_newline r (b ∷ bs) head rest s)
            (rw (← buffer_of_nil) (rw deeper (rw (finish_line-buffer_of r head) refl))))
  ]

  -- A chunk of any length is worked off: the lines that end in it go out in order, each that is within
  -- the bound, and the buffer is that of the line that has begun.
  pub process_chunk_lem :
      (r input : List ℕ)
      → process_chunk utf8 (buffer_of r) input
        ≡ some (buffer_of (absorb r input).1, deliver_all (absorb r input).0)
  unfolding process_chunk
  process_chunk_lem r input = process_loop_lem (length input) r input (omega arith)

  -- From the buffer of a line that has begun, the scan of a finite source returns, for every
  -- sequence of reads: it visits the lines of the bytes up to the first empty read or error, in
  -- order and however they are cut into reads, the complete ones of at most 4 MiB that are UTF-8
  -- and not blank; and it fails exactly where a read fails before the end.
  pub for_each_bounded_line_lem :
      (r : List ℕ) (reads : List Read)
      → for_each_bounded_line utf8 (buffer_of r) reads
        ≡ some (deliver_all (absorb r (bytes_of reads)).0, ends_well reads)
  unfolding for_each_bounded_line bytes_of ends_well deliver_all
  for_each_bounded_line_lem r [] = rw (absorb_nil r)
  for_each_bounded_line_lem r (failed ∷ reads) = rw (absorb_nil r)
  for_each_bounded_line_lem r (bytes input ∷ reads) = elim (Bool-cases (nat_beq (length input) 0)) [
    | inl e ↦ rw e (rw (absorb_nil r))
    | inr e ↦
        let deeper = for_each_bounded_line_lem (absorb r input).1 reads in
        rw e (
          rw (process_chunk_lem r input) (
            rw deeper (
              rw (absorb-append r input (bytes_of reads)) (
                rw (
                  deliver_all-append (absorb r input).0
                    (absorb (absorb r input).1 (bytes_of reads)).0)))))
  ]
