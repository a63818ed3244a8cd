-- ===== src/Prelude/Sort.antt =====
-- A stable sort by a Boolean comparison, as `sort_by` and `sort_by_key` have it.
use mathlib.Core.Path.{◌≡◌}
use mathlib.Core.Bool.{Bool, true, false}
use mathlib.Core.Logic.{inl, inr}
use mathlib.Core.List.{List, [], ◌∷◌, Perm}
use mathlib.Core.List.Perm
use herdr_agent_watcher.Prelude.Tests.{if◌then◌else◌, Bool-cases}
use herdr_agent_watcher.Prelude.Lists.{All, All-map}

module _ {ℓ} {A : Type ℓ} (le : A → A → Bool) where
  unfoldable pub insert_sorted : A → List A → List A
  insert_sorted a [] = a ∷ []
  insert_sorted a (b ∷ bs) = if le a b then a ∷ b ∷ bs else b ∷ insert_sorted a bs

  unfoldable pub sort : List A → List A
  unfolding insert_sorted
  sort [] = []
  sort (a ∷ as') = insert_sorted a (sort as')

  pub All-insert_sorted {κ} :
      (P : A → Type κ) (a : A) (bs : List A) → P a → All P bs → All P (insert_sorted a bs)
  unfolding insert_sorted
  All-insert_sorted P a [] pa h = (pa, tt)
  All-insert_sorted P a (b ∷ bs) pa h = elim (Bool-cases (le a b)) [
    | inl e ↦ rw (e, insert_sorted) (pa, h)
    | inr e ↦ rw (e, insert_sorted) (h.0, All-insert_sorted P a bs pa h.1)
  ]

  pub All-sort {κ} : (P : A → Type κ) (xs : List A) → All P xs → All P (sort xs)
  unfolding sort
  All-sort P [] h = tt
  All-sort P (x ∷ xs) h = All-insert_sorted P x (sort xs) h.0 (All-sort P xs h.1)

  pub insert_sorted-perm : (a : A) (bs : List A) → Perm (insert_sorted a bs) (a ∷ bs)
  unfolding insert_sorted
  insert_sorted-perm a [] = Perm.refl (a ∷ [])
  insert_sorted-perm a (b ∷ bs) = elim (Bool-cases (le a b)) [
    | inl e ↦ rw (e, insert_sorted) (Perm.refl (a ∷ b ∷ bs))
    | inr e ↦
        rw (e, insert_sorted)
          (Perm.trans (Perm.cons b (insert_sorted-perm a bs)) (Perm.swap a b bs))
  ]

  pub sort-perm : (xs : List A) → Perm (sort xs) xs
  unfolding sort
  sort-perm [] = Perm.refl []
  sort-perm (x ∷ xs) = Perm.trans (insert_sorted-perm x (sort xs)) (Perm.cons x (sort-perm xs))

  -- Every element stands in the relation to all that follow it.
  abbrev pub IsSorted {κ} : (A → A → Type κ) → List A → Type κ
  IsSorted R [] = Unit
  IsSorted R (x ∷ xs) = All (R x) xs × IsSorted R xs

  module _ {κ} (R : A → A → Type κ) (below : (a b : A) → le a b ≡ true → R a b)
      (above : (a b : A) → le a b ≡ false → R b a)
      (chain : (a b c : A) → R a b → R b c → R a c) where
    pub insert_sorted-IsSorted :
        (a : A) (bs : List A) → IsSorted R bs → IsSorted R (insert_sorted a bs)
    unfolding insert_sorted
    insert_sorted-IsSorted a [] s = (tt, tt)
    insert_sorted-IsSorted a (b ∷ bs) s = elim (Bool-cases (le a b)) [
      | inl e ↦
          rw (e, insert_sorted)
            ((below a b e, All-map (R b) (R a) (λ c h. chain a b c (below a b e) h) bs s.0), s)
      | inr e ↦
          rw (e, insert_sorted)
            (All-insert_sorted (R b) a bs (above a b e) s.0, insert_sorted-IsSorted a bs s.1)
    ]

    pub sort-IsSorted : (xs : List A) → IsSorted R (sort xs)
    unfolding sort
    sort-IsSorted [] = tt
    sort-IsSorted (x ∷ xs) = insert_sorted-IsSorted x (sort xs) (sort-IsSorted xs)
