-- ===== src/Daemon/Reconcile/Converge.antt =====
-- One round of `diff` and `apply` brings the bindings to what Herdr's list asks for, and a second
-- round has nothing left to do.
use herdr_agent_watcher.Prelude.{
  String, ◌≡◌, refl, ◌∙◌, Option, none, some, List, [], ◌∷◌, Bool, true, false, arith, eq_iff,
  eq_refl,
}
use herdr_agent_watcher.Prelude.Map
use herdr_agent_watcher.Prelude.Map.{Map, HasUniqueKeys, insert-HasUniqueKeys, remove-HasUniqueKeys}
use herdr_agent_watcher.Herdr.{PaneInfo}
use herdr_agent_watcher.Daemon.Reconcile.{
  Binding, Action, bind, rebind, unbind, target, binding_eq, diff, apply, apply_action,
}
use herdr_agent_watcher.Daemon.Reconcile.Actions.{action_for, get-apply, outcome}
use herdr_agent_watcher.Daemon.Reconcile.Diff.{
  listed, wanted, decision, listed_of_wanted, diff-HasDistinctTargets, action_for-diff,
}

apply_action-HasUniqueKeys :
    (m : Map Binding) (a : Action) → HasUniqueKeys m → HasUniqueKeys (apply_action m a)
unfolding apply_action
apply_action-HasUniqueKeys m (bind p b) u = insert-HasUniqueKeys m p b u
apply_action-HasUniqueKeys m (rebind p b) u = insert-HasUniqueKeys m p b u
apply_action-HasUniqueKeys m (unbind p) u = remove-HasUniqueKeys m p u

pub apply-HasUniqueKeys :
    (m : Map Binding) (xs : List Action) → HasUniqueKeys m → HasUniqueKeys (apply m xs)
unfolding apply
apply-HasUniqueKeys m [] u = u
apply-HasUniqueKeys m (a ∷ xs) u =
    apply-HasUniqueKeys (apply_action m a) xs (apply_action-HasUniqueKeys m a u)

binding_eq→eq : (a b : Binding) → binding_eq a b ≡ true → a ≡ b
binding_eq→eq (a, x) (b, y) h = ground (arith, eq_iff a b, eq_iff x y)

binding_eq_refl : (a : Binding) → binding_eq a a ≡ true
binding_eq_refl (a, x) = ground (arith, eq_refl a, eq_refl x)

-- What a pane is bound to in the end: what it wants, or else its old binding while it is listed.
abbrev pub settled : Option Binding → Bool → Option Binding → Option Binding
settled old here (some b) = some b
settled old true none = old
settled old false none = none

outcome-decision :
    (p : String) (old new : Option Binding) (here : Bool)
    → ((b : Binding) → new ≡ some b → here ≡ true)
    → outcome (decision p old here new) old ≡ settled old here new
outcome-decision p none none here h = ground arith
outcome-decision p none (some b) here h = ground arith
outcome-decision p (some a) none here h = ground arith
outcome-decision p (some a) (some b) true h = ground (arith, binding_eq→eq a b)
outcome-decision p (some a) (some b) false h = ground (arith, h b refl)

decision-settled :
    (p : String) (old new : Option Binding) (here : Bool)
    → ((b : Binding) → new ≡ some b → here ≡ true)
    → decision p (settled old here new) here new ≡ none
decision-settled p old none true h = ground arith
decision-settled p old none false h = ground arith
decision-settled p old (some b) true h = ground (arith, binding_eq_refl b)
decision-settled p old (some b) false h = ground (arith, h b refl)

no_actions : (xs : List Action) → ((p : String) → action_for xs p ≡ none) → xs ≡ []
unfolding action_for
no_actions [] h = refl
no_actions (a ∷ xs) h = ground (arith, h (target a), eq_refl (target a))

module _ (bound : Map Binding) (panes : List PaneInfo) (unique : HasUniqueKeys bound) where
  -- After the actions of `diff`, where no pane was bound twice, every pane is bound to what the list asks for: to its reported agent
  -- and session where it reports both, to what it was bound to where it is listed without them, and
  -- to nothing where it is not listed.
  pub apply-diff :
      (p : String)
      → Map.get (apply bound (diff bound panes)) p
        ≡ settled (Map.get bound p) (listed panes p) (wanted panes p)
  apply-diff p =
      get-apply bound (diff bound panes) p (diff-HasDistinctTargets bound panes unique)
      ∙ ground (
        arith,
        action_for-diff bound panes unique p,
        outcome-decision p (Map.get bound p) (wanted panes p) (listed panes p)
            (listed_of_wanted panes p),
      )

  -- After the actions of `diff` have been applied, where no pane was bound twice, the same pane list
  -- asks for no action.
  pub diff-apply : diff (apply bound (diff bound panes)) panes ≡ []
  diff-apply = no_actions _ λ p.
      action_for-diff (apply bound (diff bound panes)) panes
        (apply-HasUniqueKeys bound (diff bound panes) unique) p
      ∙ ground (
        arith,
        apply-diff p,
        decision-settled p (Map.get bound p) (wanted panes p) (listed panes p)
            (listed_of_wanted panes p),
      )
