-- ===== src/Prelude/BTree.antt =====
-- `BTreeMap<String, V>`: the entries in the order of their keys, so that equal maps are equal lists.
use Prim.Native.Nat.{ℕ, Ordering}
use Prim.Native.String.{String, compare}
use mathlib.Core.Path.{◌≡◌, refl}
use mathlib.Core.Bool.{Bool, true, false, ◌&&◌}
use mathlib.Core.Option.{Option, none, some}
use mathlib.Core.List.{List, [], ◌∷◌}
use native.Mathlib.Omega.{arith}
use text.Mathlib.Text.{◌==◌}
use text.Mathlib.TextEquality.{eq_iff}
use herdr_agent_watcher.Prelude.Tests.{if◌then◌else◌, nat_beq}

abbrev pub BTreeMap {ℓ} : Type ℓ → Type ℓ
BTreeMap V = List (String × V)

module _ {ℓ} {V : Type ℓ} where
  unfoldable pub get : BTreeMap V → String → Option V
  get [] k = none
  get ((j, v) ∷ m) k = if j == k then some v else get m k

  unfoldable pub insert : BTreeMap V → String → V → BTreeMap V
  insert [] k v = (k, v) ∷ []
  insert ((j, w) ∷ m) k v =
      let rest = insert m k v in
      elim (compare k j) [
        | Ordering.lt ↦ (k, v) ∷ (j, w) ∷ m
        | Ordering.eq ↦ (k, v) ∷ m
        | Ordering.gt ↦ (j, w) ∷ rest
      ]

-- `PartialEq` of `BTreeMap<String, u64>`
unfoldable pub counts_eq : BTreeMap ℕ → BTreeMap ℕ → Bool
counts_eq [] [] = true
counts_eq ((j, m) ∷ a) ((k, n) ∷ b) = (j == k) && (nat_beq m n && counts_eq a b)
counts_eq _ _ = false

pub counts_eq→eq : (a b : BTreeMap ℕ) → counts_eq a b ≡ true → a ≡ b
unfolding counts_eq
counts_eq→eq [] [] h = refl
counts_eq→eq ((j, m) ∷ a) ((k, n) ∷ b) h = ground (arith, eq_iff j k, counts_eq→eq a b)
counts_eq→eq [] (y ∷ b) h = ground arith
counts_eq→eq (x ∷ a) [] h = ground arith
