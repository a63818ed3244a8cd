-- ===== src/Terminal/Generations.antt =====
-- A generation number belongs to one stay of one pane in the registry.
use herdr_agent_watcher.Prelude.{
  ℕ, ◌+◌, ◌≤◌, ◌<◌, String, ◌≡◌, Option, none, some, List, [], ◌∷◌, ◌==◌, arith, eq_iff, eq_refl,
  or_else, if◌then◌else◌, Option-cases, inl, inr,
}
use herdr_agent_watcher.Prelude.Map
use herdr_agent_watcher.Prelude.Map.{get-insert, get-remove, get-empty}
use herdr_agent_watcher.Terminal.{PaneRuntime, PtyState, new, upsert_pane, remove_pane, generation}

pub data Op : Type 0 where
  upsert : String → Option ℕ → Option String → ℕ → Op
  leave : String → Op

unfoldable pub step : PtyState → Op → PtyState
step st (upsert p pid cwd now) = upsert_pane st p pid cwd now
step st (leave p) = remove_pane st p

unfoldable pub run : PtyState → List Op → PtyState
run st [] = st
run st (o ∷ os) = run (step st o) os

-- The generation of a pane after one more call.
pub generation-step :
    (st : PtyState) (o : Op) (k : String)
    → generation (step st o) k ≡ (elim o [
      | upsert p pid cwd now ↦
          if p == k then or_else (generation st k) (some (st.counter + 1)) else generation st k
      | leave p ↦ if p == k then none else generation st k
    ])
unfolding step upsert_pane remove_pane generation
generation-step st (upsert p pid cwd now) k = elim (Option-cases (Map.get st.panes p)) [
  | inl e ↦
      rw (e, upsert_pane)
        (ground (
          arith,
          e,
          eq_iff p k,
          get-insert st.panes p k
              (record { pid = pid; cwd = cwd; started_at = now; generation = st.counter + 1 }),
        ))
  | inr (a, e) ↦
      rw (e, upsert_pane)
        (ground (
          arith,
          e,
          eq_iff p k,
          get-insert st.panes p k (record a { pid = or_else pid a.pid; cwd = or_else cwd a.cwd }),
        ))
]
generation-step st (leave p) k = ground (arith, get-remove st.panes p k)

counter-step : (st : PtyState) (o : Op) → st.counter ≤ (step st o).counter
unfolding step upsert_pane remove_pane
counter-step st (upsert p pid cwd now) = ground arith
counter-step st (leave p) = omega arith

pub counter-run : (st : PtyState) (os : List Op) → st.counter ≤ (run st os).counter
unfolding run
counter-run st [] = omega arith
counter-run st (o ∷ os) = omega (arith, counter-step st o, counter-run (step st o) os)

-- The generation is above `n` wherever the pane is in the registry.
abbrev IsAbove : ℕ → String → PtyState → Type 0
IsAbove n k st = (g : ℕ) → generation st k ≡ some g → n < g

IsAbove-step :
    (n : ℕ) (k : String) (st : PtyState) (o : Op)
    → n ≤ st.counter
    → IsAbove n k st
    → IsAbove n k (step st o)
IsAbove-step n k st (upsert p pid cwd now) b h g e =
    ground (arith, generation-step st (upsert p pid cwd now) k, h g)
IsAbove-step n k st (leave p) b h g e = ground (arith, generation-step st (leave p) k, h g)

IsAbove-run :
    (n : ℕ) (k : String) (st : PtyState) (os : List Op)
    → n ≤ st.counter
    → IsAbove n k st
    → IsAbove n k (run st os)
unfolding run
IsAbove-run n k st [] b h = h
IsAbove-run n k st (o ∷ os) b h =
    IsAbove-run n k (step st o) os (omega (arith, counter-step st o)) (IsAbove-step n k st o b h)

-- Generations lie at most at the counter, and no two panes share one.
record IsNumbered (st : PtyState) : Type 0 where
  below : (k : String) (g : ℕ) → generation st k ≡ some g → g ≤ st.counter
  apart : (j k : String) (g : ℕ) → generation st j ≡ some g → generation st k ≡ some g → j ≡ k

counter-upsert :
    (st : PtyState) (p : String) (pid : Option ℕ) (cwd : Option String) (now : ℕ)
    → (step st (upsert p pid cwd now)).counter
      ≡ (elim (generation st p) [ none ↦ st.counter + 1 | some g ↦ st.counter ])
unfolding step upsert_pane generation
counter-upsert st p pid cwd now = ground arith

below-step :
    (st : PtyState) (o : Op) (k : String) (g : ℕ)
    → IsNumbered st
    → generation (step st o) k ≡ some g
    → g ≤ (step st o).counter
below-step st (upsert p pid cwd now) k g v e = ground (
  arith,
  generation-step st (upsert p pid cwd now) k,
  counter-upsert st p pid cwd now,
  counter-step st (upsert p pid cwd now),
  v.below k g,
  eq_iff p k,
)
below-step st (leave p) k g v e =
    ground (arith, generation-step st (leave p) k, counter-step st (leave p), v.below k g)

apart-step :
    (st : PtyState) (o : Op) (j k : String) (g : ℕ)
    → IsNumbered st
    → generation (step st o) j ≡ some g
    → generation (step st o) k ≡ some g
    → j ≡ k
apart-step st (upsert p pid cwd now) j k g v e f = ground (
  arith,
  generation-step st (upsert p pid cwd now) j,
  generation-step st (upsert p pid cwd now) k,
  v.below j g,
  v.below k g,
  v.apart j k g,
  eq_iff p j,
  eq_iff p k,
)
apart-step st (leave p) j k g v e f =
    ground (arith, generation-step st (leave p) j, generation-step st (leave p) k, v.apart j k g)

IsNumbered-step : (st : PtyState) (o : Op) → IsNumbered st → IsNumbered (step st o)
IsNumbered-step st o v = record {
  below = λ k g e. below-step st o k g v e;
  apart = λ j k g e f. apart-step st o j k g v e f;
}

new-IsNumbered : IsNumbered new
unfolding generation
new-IsNumbered = record {
  below = λ k g e. cc (get-empty {V = PaneRuntime} k);
  apart = λ j k g e f. cc (get-empty {V = PaneRuntime} k);
}

run-IsNumbered : (st : PtyState) (os : List Op) → IsNumbered st → IsNumbered (run st os)
unfolding run
run-IsNumbered st [] v = v
run-IsNumbered st (o ∷ os) v = run-IsNumbered (step st o) os (IsNumbered-step st o v)

-- After any calls, no two panes of the registry have one generation.
pub generations_differ :
    (os : List Op) (j k : String) (g : ℕ)
    → generation (run new os) j ≡ some g
    → generation (run new os) k ≡ some g
    → j ≡ k
generations_differ os j k g = (run-IsNumbered new os new-IsNumbered).apart j k g

-- A pane that was removed and has come back has a generation above the one it had before, so what
-- was registered under the old one is known to be stale.
pub generation_again :
    (before after : List Op) (k : String) (g g' : ℕ)
    → generation (run new before) k ≡ some g
    → generation (run (step (run new before) (leave k)) after) k ≡ some g'
    → g < g'
generation_again before after k g g' e e' =
    let st = run new before in
    IsAbove-run g k (step st (leave k)) after
      (omega
        (arith, (run-IsNumbered new before new-IsNumbered).below k g e, counter-step st (leave k)))
      (λ h f. ground (arith, generation-step st (leave k) k, eq_refl k)) g' e'
