-- ===== src/Sidebar/Live/Steps.antt =====
-- What a step of a setting may do: src/sidebar/live.rs.
use herdr_agent_watcher.Prelude.{
  ℕ, ◌≤◌, ◌<◌, ◌≡◌, inl, inr, String, Option, some, List, [], ◌∷◌, Bool, true, false, arith, ltb,
  nat_beq, any, unwrap_or, Bool-cases, Option-cases,
}
use herdr_agent_watcher.Sidebar.Live.{
  Live, Setting, next_rung, previous_rung, last_rung, step_ladder, cycle_scope, cycle, cycle_back,
}

-- The rungs rise.
abbrev pub IsLadder : ℕ → List ℕ → Type 0
IsLadder r [] = Unit
IsLadder r (s ∷ rs) = (r < s) × IsLadder s rs

abbrev pub on_ladder : ℕ → List ℕ → ℕ → Bool
on_ladder first rest r = any (nat_beq r) (first ∷ rest)

next_rung-any :
    (rs : List ℕ) (current r : ℕ) → next_rung rs current ≡ some r → any (nat_beq r) rs ≡ true
unfolding next_rung
next_rung-any [] current r h = ground arith
next_rung-any (s ∷ rs) current r h = ground (arith, next_rung-any rs current r)

previous_rung-any :
    (rs : List ℕ) (current r : ℕ) → previous_rung rs current ≡ some r → any (nat_beq r) rs ≡ true
unfolding previous_rung
previous_rung-any [] current r h = ground arith
previous_rung-any (s ∷ rs) current r h = ground (arith, previous_rung-any rs current r)

last_rung-any : (first : ℕ) (rest : List ℕ) → on_ladder first rest (last_rung first rest) ≡ true
last_rung-any first [] = ground arith
last_rung-any first (s ∷ rest) = ground (arith, last_rung-any s rest)

-- A step, from any value and in either direction, ends on the ladder.
pub step_ladder_on :
    (first : ℕ) (rest : List ℕ) (current : ℕ) (up : Bool)
    → on_ladder first rest (step_ladder first rest current up) ≡ true
unfolding step_ladder
step_ladder_on first rest current true = elim (Option-cases (next_rung (first ∷ rest) current)) [
  | inl e ↦ ground (arith, e, last_rung-any first rest)
  | inr (r, e) ↦ ground (arith, e, next_rung-any (first ∷ rest) current r e)
]
step_ladder_on first rest current false =
    elim (Option-cases (previous_rung (first ∷ rest) current)) [
      | inl e ↦ ground (arith, e)
      | inr (r, e) ↦ ground (arith, e, previous_rung-any (first ∷ rest) current r e)
    ]

rung_above : (s : ℕ) (rs : List ℕ) (r : ℕ) → IsLadder s rs → any (nat_beq r) (s ∷ rs) ≡ true → s ≤ r
rung_above s [] r ladder there = ground arith
rung_above s (t ∷ rs) r ladder there = ground (arith, ladder.0, rung_above t rs r ladder.1)

next_rung_least :
    (s : ℕ) (rs : List ℕ) (current r : ℕ)
    → IsLadder s rs
    → any (nat_beq r) (s ∷ rs) ≡ true
    → current < r
    → (current < unwrap_or (next_rung (s ∷ rs) current) (last_rung s rs))
      × (unwrap_or (next_rung (s ∷ rs) current) (last_rung s rs) ≤ r)
unfolding next_rung
next_rung_least s [] current r ladder there above = ground arith
next_rung_least s (t ∷ rs) current r ladder there above = elim (Bool-cases (ltb current s)) [
  | inl e ↦ ground (arith, e, rung_above s (t ∷ rs) r ladder there)
  | inr e ↦ ground (arith, e, ladder.0, next_rung_least t rs current r ladder.1)
]

-- On a ladder whose rungs rise, a step up from a value with a rung above it goes to the lowest rung above it.
pub step_ladder_up :
    (first : ℕ) (rest : List ℕ) (current r : ℕ)
    → IsLadder first rest
    → on_ladder first rest r ≡ true
    → current < r
    → (current < step_ladder first rest current true) × (step_ladder first rest current true ≤ r)
unfolding step_ladder
step_ladder_up first rest current r ladder there above =
    next_rung_least first rest current r ladder there above

-- The range that the configuration file is held to.
pub record IsInRange (live : Live) : Type 0 where
  pub few_lines : live.trace_lines ≤ 20
  pub some_lines : 1 ≤ live.trace_lines

-- Where the number of trace lines is from 1 to 20, neither key takes it out of that range, whichever
-- setting it steps.
pub cycle-IsInRange :
    (live : Live) (s : Setting) (here : Option String)
    → IsInRange live
    → IsInRange (cycle live s here) × IsInRange (cycle_back live s here)
unfolding cycle_back cycle cycle_scope
cycle-IsInRange live s here h = (
  record {
    few_lines = ground (arith, h.few_lines, h.some_lines);
    some_lines = ground (arith, h.few_lines, h.some_lines);
  },
  record {
    few_lines = ground (arith, h.few_lines, h.some_lines);
    some_lines = ground (arith, h.few_lines, h.some_lines);
  },
)
