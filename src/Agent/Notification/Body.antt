-- ===== src/Agent/Notification/Body.antt =====
-- `normalize_notification_body` of src/agent/notification.rs.
pub mod Presentable
use Prim.Native.Char.{Char, code}
use Prim.Native.String
use text.Mathlib.Text.{starts_with}
use herdr_agent_watcher.Prelude.{
  ℕ, ◌-◌, String, Option, none, some, List, [], ◌∷◌, Bool, true, false, ◌||◌, not, nat_beq, ltb,
  if◌then◌else◌, Option-cases, arith,
}
use herdr_agent_watcher.Text.{is_control, is_empty, trim}
use herdr_agent_watcher.Text.Bytes.{count, push}
use herdr_agent_watcher.Text.Lines.{
  lines, trim_matches, filter_chars, collapse_whitespace, take_chars,
}

abbrev pub max_notification_body_chars : ℕ
max_notification_body_chars = 80

-- `#`, `-`, `*`, `>` and the back quote
abbrev pub is_markdown : Char → Bool
is_markdown c =
    nat_beq (code c) 0x23
    || (nat_beq (code c) 0x2d
        || (nat_beq (code c) 0x2a || (nat_beq (code c) 0x3e || nat_beq (code c) 0x60)))

-- A line without its Markdown, controls and repeated white space.
unfoldable pub plain_line : String → String
plain_line line =
    collapse_whitespace
      (filter_chars (λ c. not (is_control c)) (trim (trim_matches is_markdown line)))

-- The first line that is not empty, before the first that starts a marker.
unfoldable pub first_line : List String → Option String
first_line [] = none
first_line (line ∷ rest) =
    let later = first_line rest in
    if starts_with (trim line) "<<<VIMEFLOW_"
    then none
    else let plain = plain_line (trim line) in if is_empty plain then later else some plain

-- The first 80 characters; where there are more, the last of them gives way to an ellipsis.
unfoldable pub shorten : String → String
shorten s =
    if ltb max_notification_body_chars (count s)
    then push (take_chars (max_notification_body_chars - 1) s) "…"
    else s

unfoldable pub normalize_notification_body : String → Option String
normalize_notification_body message = elim (first_line (lines message)) [
  | none ↦ none
  | some normalized ↦ some (shorten normalized)
]
