-- ===== src/Prelude/StrSet.antt =====
-- `HashSet<String>`: a list without repetition, read and written through the laws below.
use Prim.Native.String.{String}
use mathlib.Core.Path.{◌≡◌}
use mathlib.Core.Bool.{Bool, true, false}
use mathlib.Core.List.{List, [], ◌∷◌}
use native.Mathlib.Omega.{arith}
use text.Mathlib.Text.{◌==◌}
use text.Mathlib.TextEquality.{eq_iff}
use herdr_agent_watcher.Prelude.Tests.{if◌then◌else◌}

abbrev pub StrSet : Type 0
StrSet = List String

unfoldable pub contains : StrSet → String → Bool
contains [] k = false
contains (j ∷ s) k = if j == k then true else contains s k

unfoldable pub insert : StrSet → String → StrSet
insert s k = if contains s k then s else k ∷ s

unfoldable pub remove : StrSet → String → StrSet
remove [] k = []
remove (j ∷ s) k = let rest = remove s k in if j == k then rest else j ∷ rest

-- `extend`
unfoldable pub extend : StrSet → List String → StrSet
extend s [] = s
extend s (k ∷ ks) = extend (insert s k) ks

pub contains-insert :
    (s : StrSet) (k j : String) → contains (insert s k) j ≡ (if k == j then true else contains s j)
unfolding contains insert
contains-insert s k j = ground (arith, eq_iff k j)

pub contains-remove :
    (s : StrSet) (k j : String) → contains (remove s k) j ≡ (if k == j then false else contains s j)
unfolding contains remove
contains-remove [] k j = ground arith
contains-remove (i ∷ s) k j =
    ground (arith, eq_iff k j, eq_iff i k, eq_iff i j, contains-remove s k j)
