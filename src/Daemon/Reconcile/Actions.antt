-- ===== src/Daemon/Reconcile/Actions.antt =====
-- Lists of actions in which no pane is named twice.
use herdr_agent_watcher.Prelude.{
  String, ◌≡◌, refl, ◌∙◌, Option, none, some, List, [], ◌∷◌, ◌++◌, ◌==◌, arith, eq_iff, or_else,
  if◌then◌else◌, Bool-cases, inl, inr,
}
use herdr_agent_watcher.Prelude.Map
use herdr_agent_watcher.Prelude.Map.{Map, get-insert, get-remove}
use herdr_agent_watcher.Prelude.Sort.{insert_sorted, sort}
use herdr_agent_watcher.Daemon.Reconcile.{
  Binding, Action, bind, rebind, unbind, target, action_le, apply_action, apply,
}

-- The action that names the pane.
unfoldable pub action_for : List Action → String → Option Action
action_for [] p = none
action_for (a ∷ as') p = if target a == p then some a else action_for as' p

abbrev pub HasDistinctTargets : List Action → Type 0
HasDistinctTargets [] = Unit
HasDistinctTargets (a ∷ as') = (action_for as' (target a) ≡ none) × HasDistinctTargets as'

action_for-insert_sorted :
    (a : Action) (bs : List Action) (p : String)
    → action_for bs (target a) ≡ none
    → action_for (insert_sorted action_le a bs) p ≡ action_for (a ∷ bs) p
unfolding insert_sorted action_for
action_for-insert_sorted a [] p h = refl
action_for-insert_sorted a (b ∷ bs) p h = elim (Bool-cases (action_le a b)) [
  | inl e ↦ rw (e, insert_sorted) refl
  | inr e ↦
      rw (e, insert_sorted)
        (ground (
          arith,
          eq_iff (target b) (target a),
          eq_iff (target a) p,
          eq_iff (target b) p,
          action_for-insert_sorted a bs p,
        ))
]

insert_sorted-HasDistinctTargets :
    (a : Action) (bs : List Action)
    → action_for bs (target a) ≡ none
    → HasDistinctTargets bs
    → HasDistinctTargets (insert_sorted action_le a bs)
unfolding insert_sorted action_for
insert_sorted-HasDistinctTargets a [] h d = (refl, tt)
insert_sorted-HasDistinctTargets a (b ∷ bs) h d = elim (Bool-cases (action_le a b)) [
  | inl e ↦ rw (e, insert_sorted) (h, d)
  | inr e ↦
      let deeper = insert_sorted-HasDistinctTargets a bs (ground arith) d.1 in
      rw (e, insert_sorted)
        (
          ground (
            arith,
            eq_iff (target b) (target a),
            eq_iff (target a) (target b),
            action_for-insert_sorted a bs (target b),
          ),
          deeper,
        )
]

pub action_for-sort :
    (xs : List Action) (p : String)
    → HasDistinctTargets xs
    → action_for (sort action_le xs) p ≡ action_for xs p
unfolding sort action_for
action_for-sort [] p d = refl
action_for-sort (a ∷ xs) p d = ground (
  arith,
  action_for-insert_sorted a (sort action_le xs) p,
  action_for-sort xs (target a),
  action_for-sort xs p,
)

pub sort-HasDistinctTargets :
    (xs : List Action) → HasDistinctTargets xs → HasDistinctTargets (sort action_le xs)
unfolding sort
sort-HasDistinctTargets [] d = tt
sort-HasDistinctTargets (a ∷ xs) d =
    insert_sorted-HasDistinctTargets a (sort action_le xs) (action_for-sort xs (target a) d.1 ∙ d.0)
      (sort-HasDistinctTargets xs d.1)

pub action_for-append :
    (xs ys : List Action) (p : String)
    → action_for (xs ++ ys) p ≡ or_else (action_for xs p) (action_for ys p)
unfolding action_for
action_for-append [] ys p = refl
action_for-append (x ∷ xs) ys p = ground (arith, action_for-append xs ys p)

-- What an action leaves its pane bound to.
abbrev pub outcome : Option Action → Option Binding → Option Binding
outcome none old = old
outcome (some (bind p b)) old = some b
outcome (some (rebind p b)) old = some b
outcome (some (unbind p)) old = none

get-apply_action :
    (m : Map Binding) (a : Action) (p : String)
    → Map.get (apply_action m a) p
      ≡ (if target a == p then outcome (some a) (Map.get m p) else Map.get m p)
unfolding apply_action
get-apply_action m (bind q b) p = get-insert m q p b
get-apply_action m (rebind q b) p = get-insert m q p b
get-apply_action m (unbind q) p = get-remove m q p

-- Where no pane is named twice, each pane's action alone decides its binding.
pub get-apply :
    (m : Map Binding) (xs : List Action) (p : String)
    → HasDistinctTargets xs
    → Map.get (apply m xs) p ≡ outcome (action_for xs p) (Map.get m p)
unfolding apply action_for
get-apply m [] p d = refl
get-apply m (a ∷ xs) p d = elim (Bool-cases (target a == p)) [
  | inl e ↦
      rw (e, action_for)
        (ground
          (arith, get-apply_action m a p, get-apply (apply_action m a) xs p, eq_iff (target a) p))
  | inr e ↦
      rw (e, action_for) (ground (arith, get-apply_action m a p, get-apply (apply_action m a) xs p))
]
