-- ===== src/Sidebar/Layout.antt =====
-- The scroll geometry of src/sidebar/layout.rs. A `u16` is a natural number up to 65535; where the
-- source saturates, so do the definitions.
pub mod Scroll
use herdr_agent_watcher.Prelude.{
  ℕ, ◌+◌, ◌-◌, min, String, Option, none, some, List, [], ◌∷◌, Bool, ◌&&◌, leb, ltb, nat_beq,
  if◌then◌else◌,
}

pub record LineSpan : Type 0 where
  pub start : ℕ
  pub height : ℕ

abbrev pub u16_max : ℕ
u16_max = 65535

-- `u16::try_from(n).unwrap_or(u16::MAX)`
abbrev pub narrow : ℕ → ℕ
narrow n = min n u16_max

abbrev pub saturating_add : ℕ → ℕ → ℕ
saturating_add a b = min (a + b) u16_max

unfoldable pub clamp_scroll : ℕ → ℕ → ℕ → ℕ
clamp_scroll offset total_lines viewport_height = min offset (narrow total_lines - viewport_height)

unfoldable pub ensure_visible : ℕ → LineSpan → ℕ → ℕ → ℕ
ensure_visible offset card viewport total_lines =
    let start = narrow card.start in
    let height = narrow card.height in
    let end = saturating_add start height in
    if nat_beq viewport 0
    then 0
    else if ltb viewport height
    then clamp_scroll start total_lines viewport
    else clamp_scroll
        (if ltb start offset
          then start
          else if ltb (saturating_add offset viewport) end
          then end - viewport
          else offset)
        total_lines viewport

-- The difference may be negative; cut at 0 on both sides, it is one subtraction.
unfoldable pub reanchor : ℕ → LineSpan → LineSpan → ℕ → ℕ → ℕ
reanchor offset old new viewport total_lines =
    clamp_scroll (narrow ((new.start + offset) - old.start)) total_lines viewport

pub data Hit : Type 0 where
  header body : Hit

abbrev pub covers : LineSpan → ℕ → Bool
covers span line = leb span.start line && ltb line (span.start + span.height)

unfoldable pub card_at : List (String × LineSpan) → ℕ → Option (String × Hit)
card_at [] line = none
card_at ((id, span) ∷ spans) line =
    if covers span line
    then some (id, (if nat_beq line span.start then header else body))
    else card_at spans line

unfoldable pub trace_at : List (String × (String × LineSpan)) → ℕ → Option (String × String)
trace_at [] line = none
trace_at ((card, (id, span)) ∷ spans) line =
    if covers span line then some (card, id) else trace_at spans line
