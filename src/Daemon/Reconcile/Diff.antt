-- ===== src/Daemon/Reconcile/Diff.antt =====
-- What `diff` decides, pane by pane, against a description that does not mention its loops.
use mathlib.Core.Option
use herdr_agent_watcher.Prelude.{
  String, ◌≡◌, refl, ◌∙◌, Option, none, some, List, [], ◌∷◌, ◌++◌, Bool, true, false, ◌==◌, arith,
  eq_iff, eq_refl, any, and_then, or_else, is_some, if◌then◌else◌, Bool-cases, Option-cases, inl,
  inr,
}
use herdr_agent_watcher.Prelude.Map
use herdr_agent_watcher.Prelude.Map.{Map, HasUniqueKeys, get-insert, insert-HasUniqueKeys}
use herdr_agent_watcher.Prelude.StrSet
use herdr_agent_watcher.Prelude.StrSet.{StrSet, contains-insert}
use herdr_agent_watcher.Prelude.Sort.{IsSorted, sort-IsSorted}
use herdr_agent_watcher.Herdr.{PaneInfo}
use herdr_agent_watcher.Daemon.Reconcile.{
  Binding, Action, bind, rebind, unbind, target, action_le, binding_eq, present_of, live_of,
  reported, review, changes, arrivals, diff,
}
use herdr_agent_watcher.Daemon.Reconcile.Actions.{
  action_for, HasDistinctTargets, action_for-sort, sort-HasDistinctTargets, action_for-append,
}

-- The pane is in Herdr's list.
abbrev pub listed : List PaneInfo → String → Bool
listed panes p = any (λ pane. pane.pane_id == p) panes

-- What the last entry for the pane that reports an agent and a session says.
unfoldable pub wanted : List PaneInfo → String → Option Binding
wanted [] p = none
wanted (pane ∷ panes) p =
    or_else (wanted panes p) (if pane.pane_id == p then reported pane else none)

-- What is to be done for a pane, from what it is bound to, whether it is listed, and what it wants.
abbrev pub decision : String → Option Binding → Bool → Option Binding → Option Action
decision p none here none = none
decision p none here (some b) = some (bind p b)
decision p (some old) false new = some (unbind p)
decision p (some old) true none = none
decision p (some old) true (some b) = if binding_eq old b then none else some (rebind p b)

contains-present_of :
    (seen : StrSet) (panes : List PaneInfo) (p : String)
    → StrSet.contains (present_of seen panes) p
      ≡ (if StrSet.contains seen p then true else listed panes p)
unfolding present_of
contains-present_of seen [] p = ground arith
contains-present_of seen (x ∷ panes) p = ground (
  arith,
  contains-present_of (StrSet.insert seen x.pane_id) panes p,
  contains-insert seen x.pane_id p,
)

get-live_of :
    (live : Map Binding) (panes : List PaneInfo) (p : String)
    → Map.get (live_of live panes) p ≡ or_else (wanted panes p) (Map.get live p)
unfolding live_of wanted
get-live_of live [] p = refl
get-live_of live (x ∷ panes) p = elim (Option-cases (reported x)) [
  | inl e ↦ rw (e, live_of, wanted) (ground (arith, get-live_of live panes p))
  | inr (b, e) ↦
      rw (e, live_of, wanted)
        (ground
          (arith, get-live_of (Map.insert live x.pane_id b) panes p, get-insert live x.pane_id p b))
]

live_of-HasUniqueKeys :
    (live : Map Binding) (panes : List PaneInfo)
    → HasUniqueKeys live
    → HasUniqueKeys (live_of live panes)
unfolding live_of
live_of-HasUniqueKeys live [] u = u
live_of-HasUniqueKeys live (x ∷ panes) u = elim (Option-cases (reported x)) [
  | inl e ↦ rw (e, live_of) (live_of-HasUniqueKeys live panes u)
  | inr (b, e) ↦
      rw (e, live_of)
        (live_of-HasUniqueKeys (Map.insert live x.pane_id b) panes
          (insert-HasUniqueKeys live x.pane_id b u))
]

-- A pane that wants a binding is listed.
pub listed_of_wanted :
    (panes : List PaneInfo) (p : String) (b : Binding)
    → wanted panes p ≡ some b
    → listed panes p ≡ true
unfolding wanted
listed_of_wanted [] p b h = ground arith
listed_of_wanted (x ∷ panes) p b h = ground (arith, listed_of_wanted panes p b)

target-review :
    (present : StrSet) (live : Map Binding) (p : String) (b : Binding) (a : Action)
    → review present live p b ≡ some a
    → target a ≡ p
unfolding review
target-review present live p b a h = ground arith

module _ (present : StrSet) (live : Map Binding) where
  action_for-changes :
      (bound : Map Binding) (p : String)
      → HasUniqueKeys bound
      → action_for (changes present live bound) p
        ≡ and_then (Map.get bound p) (review present live p)
  unfolding changes action_for Map.get
  action_for-changes [] p u = refl
  action_for-changes ((q, b) ∷ rest) p u = elim (Option-cases (review present live q b)) [
    | inl e ↦ rw (e, changes) (ground (arith, e, eq_iff q p, action_for-changes rest p u.1, u.0))
    | inr (a, e) ↦
        rw (e, changes)
          (ground (
            arith,
            e,
            target-review present live q b a e,
            eq_iff q p,
            action_for-changes rest p u.1,
          ))
  ]

  changes-HasDistinctTargets :
      (bound : Map Binding) → HasUniqueKeys bound → HasDistinctTargets (changes present live bound)
  unfolding changes
  changes-HasDistinctTargets [] u = tt
  changes-HasDistinctTargets ((q, b) ∷ rest) u = elim (Option-cases (review present live q b)) [
    | inl e ↦ rw (e, changes) (changes-HasDistinctTargets rest u.1)
    | inr (a, e) ↦
        rw (e, changes)
          (
            ground (arith, target-review present live q b a e, action_for-changes rest q u.1, u.0),
            changes-HasDistinctTargets rest u.1,
          )
  ]

module _ (bound : Map Binding) where
  action_for-arrivals :
      (live : Map Binding) (p : String)
      → action_for (arrivals bound live) p
        ≡ (if Map.has bound p then none else Option.map (bind p) (Map.get live p))
  unfolding arrivals action_for Map.get
  action_for-arrivals [] p = ground arith
  action_for-arrivals ((q, b) ∷ rest) p = ground (arith, eq_iff q p, action_for-arrivals rest p)

  arrivals-HasDistinctTargets :
      (live : Map Binding) → HasUniqueKeys live → HasDistinctTargets (arrivals bound live)
  unfolding arrivals
  arrivals-HasDistinctTargets [] u = tt
  arrivals-HasDistinctTargets ((q, b) ∷ rest) u =
      let deeper = arrivals-HasDistinctTargets rest u.1 in
      elim (Bool-cases (Map.has bound q)) [
        | inl e ↦ rw (e, arrivals) deeper
        | inr e ↦ rw (e, arrivals) (ground (arith, action_for-arrivals rest q, u.0), deeper)
      ]

append-HasDistinctTargets :
    (xs ys : List Action)
    → HasDistinctTargets xs
    → HasDistinctTargets ys
    → ((p : String) → is_some (action_for xs p) ≡ true → action_for ys p ≡ none)
    → HasDistinctTargets (xs ++ ys)
unfolding action_for
append-HasDistinctTargets [] ys dx dy apart = dy
append-HasDistinctTargets (x ∷ xs) ys dx dy apart = (
  rw (action_for-append xs ys (target x), dx.0) (apart (target x) (rw (eq_refl (target x)) refl)),
  append-HasDistinctTargets xs ys dx.1 dy (λ p h. apart p (ground (arith, h))),
)

module _ (bound : Map Binding) (panes : List PaneInfo) (unique : HasUniqueKeys bound) where
  abbrev unsorted : List Action
  unsorted =
      changes (present_of [] panes) (live_of [] panes) bound ++ arrivals bound (live_of [] panes)

  unsorted-HasDistinctTargets : HasDistinctTargets unsorted
  unsorted-HasDistinctTargets =
      append-HasDistinctTargets (changes (present_of [] panes) (live_of [] panes) bound)
        (arrivals bound (live_of [] panes)) (changes-HasDistinctTargets _ _ bound unique)
        (arrivals-HasDistinctTargets bound (live_of [] panes) (live_of-HasUniqueKeys [] panes tt))
        (λ p h. ground (
          arith,
          h,
          action_for-changes (present_of [] panes) (live_of [] panes) bound p unique,
          action_for-arrivals bound (live_of [] panes) p,
        ))

  -- Where no pane is bound twice, no pane is named by two actions.
  pub diff-HasDistinctTargets : HasDistinctTargets (diff bound panes)
  unfolding diff
  diff-HasDistinctTargets = sort-HasDistinctTargets unsorted unsorted-HasDistinctTargets

  -- Where no pane is bound twice, the action that `diff` has for a pane follows from three facts about it: what it is bound to,
  -- whether it is listed, and what the last of its entries that reports an agent and a session
  -- says.
  pub action_for-diff :
      (p : String)
      → action_for (diff bound panes) p
        ≡ decision p (Map.get bound p) (listed panes p) (wanted panes p)
  unfolding diff review StrSet.contains Map.get
  action_for-diff p =
      action_for-sort unsorted p unsorted-HasDistinctTargets
      ∙ action_for-append (changes (present_of [] panes) (live_of [] panes) bound)
          (arrivals bound (live_of [] panes)) p
      ∙ ground (
        arith,
        action_for-changes (present_of [] panes) (live_of [] panes) bound p unique,
        action_for-arrivals bound (live_of [] panes) p,
        contains-present_of [] panes p,
        get-live_of [] panes p,
      )

-- Which action may stand before which: what is unbound before all, what is bound anew before what is
-- bound for the first time.
abbrev pub GoesBefore : Action → Action → Type 0
GoesBefore (unbind p) b = Unit
GoesBefore (rebind p x) (unbind q) = ⊥
GoesBefore (rebind p x) (rebind q y) = Unit
GoesBefore (rebind p x) (bind q y) = Unit
GoesBefore (bind p x) (unbind q) = ⊥
GoesBefore (bind p x) (rebind q y) = ⊥
GoesBefore (bind p x) (bind q y) = Unit

-- No binding stands before an unbinding or before the binding anew of a pane, and no binding anew
-- before an unbinding.
pub diff-IsSorted :
    (bound : Map Binding) (panes : List PaneInfo) → IsSorted action_le GoesBefore (diff bound panes)
unfolding diff
diff-IsSorted bound panes = sort-IsSorted action_le GoesBefore below above chain _
  where
    below : (a b : Action) → action_le a b ≡ true → GoesBefore a b
    below (unbind p) b h = tt
    below (rebind p x) (unbind q) h = absurd (ground (arith, h))
    below (rebind p x) (rebind q y) h = tt
    below (rebind p x) (bind q y) h = tt
    below (bind p x) (unbind q) h = absurd (ground (arith, h))
    below (bind p x) (rebind q y) h = absurd (ground (arith, h))
    below (bind p x) (bind q y) h = tt

    above : (a b : Action) → action_le a b ≡ false → GoesBefore b a
    above a (unbind q) h = tt
    above (unbind p) (rebind q y) h = absurd (ground (arith, h))
    above (unbind p) (bind q y) h = absurd (ground (arith, h))
    above (rebind p x) (rebind q y) h = tt
    above (rebind p x) (bind q y) h = absurd (ground (arith, h))
    above (bind p x) (rebind q y) h = tt
    above (bind p x) (bind q y) h = tt

    chain : (a b c : Action) → GoesBefore a b → GoesBefore b c → GoesBefore a c
    chain (unbind p) b c h k = tt
    chain (rebind p x) b (rebind q z) h k = tt
    chain (rebind p x) b (bind q z) h k = tt
    chain (rebind p x) (unbind q) (unbind r) h k = absurd h
    chain (rebind p x) (rebind q y) (unbind r) h k = absurd k
    chain (rebind p x) (bind q y) (unbind r) h k = absurd k
    chain (bind p x) b (bind q z) h k = tt
    chain (bind p x) (unbind q) (unbind r) h k = absurd h
    chain (bind p x) (unbind q) (rebind r z) h k = absurd h
    chain (bind p x) (rebind q y) (unbind r) h k = absurd h
    chain (bind p x) (rebind q y) (rebind r z) h k = absurd h
    chain (bind p x) (bind q y) (unbind r) h k = absurd k
    chain (bind p x) (bind q y) (rebind r z) h k = absurd k
