-- ===== src/Sidebar/Select/Shown.antt =====
-- Which cards are shown, how many are counted as hidden, and their order: src/sidebar/select.rs.
use mathlib.Core.List.{Perm, append_assoc, append-nil}
use herdr_agent_watcher.Prelude.{
  ℕ, ◌+◌, ◌-◌, ◌^◌, ◌≤◌, ◌<◌, ◌⊎◌, subst, ◌≡◌, sym, ◌∙◌, String, Option, none, some, unwrap_or, [],
  ◌∷◌, ◌++◌, Bool, ◌&&◌, not, arith, length, keep_if, Bool-cases, inl, inr,
}
use herdr_agent_watcher.Prelude.Map.{Map}
use herdr_agent_watcher.Prelude.Sort.{sort, sort-perm, IsSorted, sort-IsSorted}
use herdr_agent_watcher.Daemon.Store.Types.{PaneTelemetry}
use herdr_agent_watcher.Sidebar.Select.{
  SortMode, Card, Visible, rank, is_le, is_idle, out_of_scope, smart_cmp, card_cmp, sift, visible,
}

-- Which position may stand before which: the smaller first, and none last, where only a position
-- that is the largest of 32 bits ties with none.
abbrev pub InPlace : Option ℕ → Option ℕ → Type 0
InPlace (some p) (some q) = p ≤ q
InPlace (some p) none = p ≤ 4294967295
InPlace none (some q) = 4294967295 ≤ q
InPlace none none = Unit

module _ {V : Type 0} where
  abbrev pub is_shown : Bool → Option String → Card V → Bool
  is_shown hide_idle scope c = not (out_of_scope scope c.1) && not (hide_idle && is_idle c.1)

  abbrev pub is_hidden : Bool → Option String → Card V → Bool
  is_hidden hide_idle scope c = not (out_of_scope scope c.1) && (hide_idle && is_idle c.1)

  panes-sift :
      (panes : Map (PaneTelemetry V)) (hide_idle : Bool) (scope : Option String) (v : Visible V)
      → (sift panes hide_idle scope v).panes ≡ v.panes ++ keep_if (is_shown hide_idle scope) panes
  unfolding sift
  panes-sift [] hide_idle scope v = sym (append-nil v.panes)
  panes-sift ((id, t) ∷ panes) hide_idle scope v = elim (Bool-cases (out_of_scope scope t)) [
    | inl out ↦ rw (out, sift) (panes-sift panes hide_idle scope v)
    | inr here ↦ elim (Bool-cases (hide_idle && is_idle t)) [
      | inl idle ↦
          rw (here, idle, sift)
            (panes-sift panes hide_idle scope (record v { hidden_idle = v.hidden_idle + 1 }))
      | inr busy ↦
          rw (here, busy, sift)
            (panes-sift panes hide_idle scope (record v { panes = v.panes ++ (id, t) ∷ [] })
              ∙ append_assoc v.panes ((id, t) ∷ []) (keep_if (is_shown hide_idle scope) panes))
    ]
  ]

  hidden-sift :
      (panes : Map (PaneTelemetry V)) (hide_idle : Bool) (scope : Option String) (v : Visible V)
      → (sift panes hide_idle scope v).hidden_idle
        ≡ v.hidden_idle + length (keep_if (is_hidden hide_idle scope) panes)
  unfolding sift
  hidden-sift [] hide_idle scope v = omega arith
  hidden-sift ((id, t) ∷ panes) hide_idle scope v = elim (Bool-cases (out_of_scope scope t)) [
    | inl out ↦ rw (out, sift) (hidden-sift panes hide_idle scope v)
    | inr here ↦ elim (Bool-cases (hide_idle && is_idle t)) [
      | inl idle ↦
          rw (here, idle, sift)
            (omega (
              arith,
              hidden-sift panes hide_idle scope (record v { hidden_idle = v.hidden_idle + 1 }),
            ))
      | inr busy ↦
          rw (here, busy, sift)
            (hidden-sift panes hide_idle scope (record v { panes = v.panes ++ (id, t) ∷ [] }))
    ]
  ]

  -- The cards shown are, in some order, the panes that are in scope and not hidden as idle; the count
  -- is of the panes in scope that are hidden as idle.
  pub visible-shown :
      (panes : Map (PaneTelemetry V)) (mode : SortMode) (hide_idle : Bool) (scope : Option String)
      → Perm (visible panes mode hide_idle scope).panes (keep_if (is_shown hide_idle scope) panes)
        × ((visible panes mode hide_idle scope).hidden_idle
            ≡ length (keep_if (is_hidden hide_idle scope) panes))
  unfolding visible
  visible-shown panes mode hide_idle scope =
      let none_yet : Visible V = record { panes = []; hidden_idle = 0 } in
      (
        subst
            (Perm
              (sort (λ a b. is_le (card_cmp mode a b)) (sift panes hide_idle scope none_yet).panes))
            (panes-sift panes hide_idle scope none_yet)
            (sort-perm _ (sift panes hide_idle scope none_yet).panes),
        omega (arith, hidden-sift panes hide_idle scope none_yet),
      )

  -- By position, no card stands before one of a smaller position, and none without a position before
  -- one with a position below 4294967295.
  pub visible-by_position :
      (panes : Map (PaneTelemetry V)) (hide_idle : Bool) (scope : Option String)
      → IsSorted
          (λ a b. is_le (card_cmp SortMode.position a b))
          (λ (a b : Card V). InPlace a.1.position b.1.position)
          (visible panes SortMode.position hide_idle scope).panes
  unfolding visible card_cmp
  visible-by_position panes hide_idle scope =
      sort-IsSorted (λ a b. is_le (card_cmp SortMode.position a b))
        (λ (a b : Card V). InPlace a.1.position b.1.position)
        (λ a b h. in_place a.1.position b.1.position (ground (arith, h)))
        (λ a b h. in_place b.1.position a.1.position (ground (arith, h)))
        (λ a b c h k. chain a.1.position b.1.position c.1.position h k) _
    where
      in_place :
          (p q : Option ℕ) → unwrap_or p (2 ^ 32 - 1) ≤ unwrap_or q (2 ^ 32 - 1) → InPlace p q
      in_place none none h = tt
      in_place none (some q) h = omega (arith, h)
      in_place (some p) none h = omega (arith, h)
      in_place (some p) (some q) h = h

      chain : (p q r : Option ℕ) → InPlace p q → InPlace q r → InPlace p r
      chain none q none h k = tt
      chain none none (some r) h k = k
      chain none (some q) (some r) h k = omega (arith, h, k)
      chain (some p) none none h k = h
      chain (some p) none (some r) h k = omega (arith, h, k)
      chain (some p) (some q) none h k = omega (arith, h, k)
      chain (some p) (some q) (some r) h k = omega (arith, h, k)

  -- In the smart order, what needs attention comes first: no card stands before one of a smaller
  -- rank, and among cards of one rank none stands before one that was announced later.
  pub visible-smart :
      (panes : Map (PaneTelemetry V)) (hide_idle : Bool) (scope : Option String)
      → IsSorted
          (λ a b. is_le (card_cmp SortMode.smart a b))
          (λ (a b : Card V).
            (rank a.1.card_state < rank b.1.card_state)
            ⊎ ((rank a.1.card_state ≡ rank b.1.card_state) × (b.1.updated_seq ≤ a.1.updated_seq)))
          (visible panes SortMode.smart hide_idle scope).panes
  unfolding visible card_cmp smart_cmp
  visible-smart panes hide_idle scope =
      sort-IsSorted (λ a b. is_le (card_cmp SortMode.smart a b)) _ (λ a b h. ground arith)
        (λ a b h. ground arith) (λ a b c h k. ground arith) _
