-- ===== src/Prelude/Map.antt =====
-- `HashMap<String, V>`: an association list, read and written through the laws below. The order of
-- the entries is one that the source's iteration may take; nothing else depends on it.
use Prim.Native.String.{String}
use mathlib.Core.Path.{◌≡◌, refl}
use mathlib.Core.Bool.{Bool}
use mathlib.Core.Option.{Option, none, some}
use mathlib.Core.List.{List, [], ◌∷◌}
use native.Mathlib.Omega.{arith}
use text.Mathlib.Text.{◌==◌}
use text.Mathlib.TextEquality.{eq_iff}
use herdr_agent_watcher.Prelude.Tests.{if◌then◌else◌, is_some}

abbrev pub Map {ℓ} : Type ℓ → Type ℓ
Map V = List (String × V)

module _ {ℓ} {V : Type ℓ} where
  unfoldable pub get : Map V → String → Option V
  get [] k = none
  get ((j, v) ∷ m) k = if j == k then some v else get m k

  unfoldable pub insert : Map V → String → V → Map V
  insert [] k v = (k, v) ∷ []
  insert ((j, w) ∷ m) k v = if j == k then (k, v) ∷ m else (j, w) ∷ insert m k v

  unfoldable pub remove : Map V → String → Map V
  remove [] k = []
  remove ((j, w) ∷ m) k = let rest = remove m k in if j == k then rest else (j, w) ∷ rest

  -- `contains_key`
  abbrev pub has : Map V → String → Bool
  has m k = is_some (get m k)

  pub get-insert :
      (m : Map V) (k j : String) (v : V)
      → get (insert m k v) j ≡ (if k == j then some v else get m j)
  unfolding get insert
  get-insert [] k j v = refl
  get-insert ((i, w) ∷ m) k j v =
      ground (arith, eq_iff k j, eq_iff i k, eq_iff i j, get-insert m k j v)

  pub get-remove :
      (m : Map V) (k j : String) → get (remove m k) j ≡ (if k == j then none else get m j)
  unfolding get remove
  get-remove [] k j = ground arith
  get-remove ((i, w) ∷ m) k j = ground (arith, eq_iff k j, eq_iff i k, eq_iff i j, get-remove m k j)

  -- No key stands twice.
  abbrev pub HasUniqueKeys : Map V → Type ℓ
  HasUniqueKeys [] = Unit
  HasUniqueKeys ((k, v) ∷ m) = (get m k ≡ none) × HasUniqueKeys m

  pub insert-HasUniqueKeys :
      (m : Map V) (k : String) (v : V) → HasUniqueKeys m → HasUniqueKeys (insert m k v)
  unfolding get insert
  insert-HasUniqueKeys [] k v u = (refl, tt)
  insert-HasUniqueKeys ((i, w) ∷ m) k v u =
      ground (arith, eq_iff i k, eq_iff k i, get-insert m k i v, insert-HasUniqueKeys m k v u.1)

  pub remove-HasUniqueKeys : (m : Map V) (k : String) → HasUniqueKeys m → HasUniqueKeys (remove m k)
  unfolding remove
  remove-HasUniqueKeys [] k u = tt
  remove-HasUniqueKeys ((i, w) ∷ m) k u =
      ground (arith, eq_iff k i, get-remove m k i, remove-HasUniqueKeys m k u.1)

pub get-empty {ℓ} : {V : Type ℓ} (k : String) → get {V = V} [] k ≡ none
unfolding get
get-empty k = refl

pub ruleset map_laws = (get-insert, get-remove, get-empty)
