-- ===== src/Sidebar/Layout/Scroll.antt =====
-- What scrolling shows, and which card a line belongs to: src/sidebar/layout.rs.
use herdr_agent_watcher.Prelude.{
  ℕ, ◌+◌, ◌-◌, ◌≤◌, ◌<◌, min, String, ◌≡◌, ◌⊎◌, some, List, [], ◌∷◌, ◌++◌, arith, All, nat_beq,
  if◌then◌else◌,
}
use herdr_agent_watcher.Sidebar.Layout.{
  LineSpan, u16_max, clamp_scroll, ensure_visible, reanchor, header, body, card_at,
}

-- The lines of the card lie in the window.
pub record IsShown (offset viewport : ℕ) (card : LineSpan) : Type 0 where
  pub top : offset ≤ card.start
  pub bottom : card.start + card.height ≤ offset + viewport

module _ (offset viewport total_lines : ℕ) (card : LineSpan) (u16_offset : offset ≤ u16_max)
    (content : total_lines ≤ u16_max) (inside : card.start + card.height ≤ total_lines) where
  -- A card within a content of at most 65535 lines that fits into a window of at least one line is
  -- shown in full.
  pub ensure_visible-IsShown :
      0 < viewport
      → card.height ≤ viewport
      → IsShown (ensure_visible offset card viewport total_lines) viewport card
  unfolding ensure_visible clamp_scroll
  ensure_visible-IsShown nonzero fits = record { top = ground arith; bottom = ground arith }

  -- A card within a content of at most 65535 lines that is taller than a window of at least one line
  -- is shown from its first line.
  pub ensure_visible_tall :
      0 < viewport
      → viewport < card.height
      → ensure_visible offset card viewport total_lines ≡ card.start
  unfolding ensure_visible clamp_scroll
  ensure_visible_tall nonzero tall = ground arith

  -- No offset within the content that shows the card in full lies nearer to the old offset: the new
  -- one is on the way to it.
  pub ensure_visible_nearest :
      (other : ℕ)
      → 0 < viewport
      → card.height ≤ viewport
      → other ≤ total_lines - viewport
      → IsShown other viewport card
      → ((offset ≤ ensure_visible offset card viewport total_lines)
          × (ensure_visible offset card viewport total_lines ≤ other))
        ⊎ ((other ≤ ensure_visible offset card viewport total_lines)
            × (ensure_visible offset card viewport total_lines ≤ offset))
  unfolding ensure_visible clamp_scroll
  ensure_visible_nearest other nonzero fits within shown = ground (arith, shown.top, shown.bottom)

-- `reanchor` answers with an offset within the content, and no offset within the content lies nearer
-- to the one at which the window has its old distance from the card's first line, above it or below
-- it: that one and the answer differ in the direction of all others, or not at all. The content
-- counts for at most 65535 lines.
pub reanchor_nearest :
    (offset viewport total_lines : ℕ) (old new : LineSpan) (other : ℕ)
    → other ≤ min total_lines 65535 - viewport
    → (reanchor offset old new viewport total_lines ≤ min total_lines 65535 - viewport)
      × (((new.start + offset ≤ reanchor offset old new viewport total_lines + old.start)
            × (reanchor offset old new viewport total_lines ≤ other))
          ⊎ ((other ≤ reanchor offset old new viewport total_lines)
              × (reanchor offset old new viewport total_lines + old.start ≤ new.start + offset)))
unfolding reanchor clamp_scroll
reanchor_nearest offset viewport total_lines old new other within = (ground arith, ground arith)

-- The line of a card at distance `i` from its first line finds that card, where the cards before it
-- end above it: its header at distance 0, its body below.
pub card_at_line :
    (before after : List (String × LineSpan)) (id : String) (span : LineSpan) (i : ℕ)
    → All (λ s. s.1.start + s.1.height ≤ span.start) before
    → i < span.height
    → card_at (before ++ (id, span) ∷ after) (span.start + i)
      ≡ some (id, (if nat_beq i 0 then header else body))
unfolding card_at
card_at_line [] after id span i above within = ground arith
card_at_line ((k, s) ∷ before) after id span i above within =
    ground (arith, above.0, card_at_line before after id span i above.1 within)
