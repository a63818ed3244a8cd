-- ===== src/Agent/Tail/Splitting.antt =====
-- The lines of a stream of bytes, without chunks or bounds: what
-- src/agent/adapter/base/transcript_tail_service.rs is compared with.
use mathlib.Core.List.{append-nil, append_assoc}
use herdr_agent_watcher.Prelude.{
  ℕ, ◌<◌, ◌≡◌, refl, sym, ap, none, some, List, [], ◌∷◌, ◌++◌, nat_beq, length, arith,
  if◌then◌else◌, Bool-cases, Option-cases, inl, inr,
}
use herdr_agent_watcher.Agent.Tail.{split_newline}

-- The complete lines, each with its newline, of a stream whose current line has begun with `r`, and
-- what is left of the last line.
unfoldable pub absorb : List ℕ → List ℕ → List (List ℕ) × List ℕ
absorb r [] = ([], r)
absorb r (b ∷ bs) =
    let line = r ++ b ∷ [] in
    let rest = absorb (if nat_beq b 10 then [] else line) bs in
    (if nat_beq b 10 then line ∷ rest.0 else rest.0, rest.1)

pub absorb_nil : (r : List ℕ) → absorb r [] ≡ ([], r)
unfolding absorb
absorb_nil r = refl

pub absorb_no_newline :
    (r input : List ℕ) → split_newline input ≡ none → absorb r input ≡ ([], r ++ input)
unfolding absorb split_newline
absorb_no_newline r [] h = ap (λ s. ([], s)) (sym (append-nil r))
absorb_no_newline r (b ∷ bs) h = elim (Bool-cases (nat_beq b 10)) [
  | inl e ↦ ground (arith, e, h)
  | inr e ↦
      let deeper = absorb_no_newline (r ++ b ∷ []) bs (ground (arith, e, h)) in
      rw (e, absorb) (rw deeper (ap (λ s. ([], s)) (append_assoc r (b ∷ []) bs)))
]

pub absorb_newline :
    (r input head rest : List ℕ)
    → split_newline input ≡ some (head, rest)
    → absorb r input ≡ ((r ++ head) ∷ (absorb [] rest).0, (absorb [] rest).1)
unfolding absorb split_newline
absorb_newline r [] head rest h = ground arith
absorb_newline r (b ∷ bs) head rest h = elim (Bool-cases (nat_beq b 10)) [
  | inl e ↦
      let ends : (b ∷ [] ≡ head) × (bs ≡ rest) = ground (arith, e, h) in
      rw (← ends.0) (rw (← ends.1) (rw (e, absorb)))
  | inr e ↦ elim (Option-cases (split_newline bs)) [
    | inl n ↦ ground (arith, e, n, h)
    | inr ((head', rest'), s) ↦
        let deeper = absorb_newline (r ++ b ∷ []) bs head' rest' s in
        rw (e, absorb) (rw deeper (rw (append_assoc r (b ∷ []) head') (ground (arith, e, s, h))))
  ]
]

pub length-split_newline :
    (input head rest : List ℕ)
    → split_newline input ≡ some (head, rest)
    → length rest < length input
unfolding split_newline
length-split_newline [] head rest h = ground arith
length-split_newline (b ∷ bs) head rest h = elim (Bool-cases (nat_beq b 10)) [
  | inl e ↦ ground (arith, e, h)
  | inr e ↦ elim (Option-cases (split_newline bs)) [
    | inl n ↦ ground (arith, e, n, h)
    | inr ((head', rest'), s) ↦ ground (arith, e, s, h, length-split_newline bs head' rest' s)
  ]
]

-- A stream is absorbed in parts as it is at once.
pub absorb-append :
    (r xs ys : List ℕ)
    → absorb r (xs ++ ys)
      ≡ ((absorb r xs).0 ++ (absorb (absorb r xs).1 ys).0, (absorb (absorb r xs).1 ys).1)
unfolding absorb
absorb-append r [] ys = refl
absorb-append r (b ∷ xs) ys = elim (Bool-cases (nat_beq b 10)) [
  | inl e ↦ rw (e, absorb) (ground (arith, e, absorb-append [] xs ys))
  | inr e ↦ rw (e, absorb) (ground (arith, e, absorb-append (r ++ b ∷ []) xs ys))
]
