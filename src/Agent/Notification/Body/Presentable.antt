-- ===== src/Agent/Notification/Body/Presentable.antt =====
-- What `normalize_notification_body` of src/agent/notification.rs guarantees of a body.
use text.Mathlib.Text.{starts_with}
use herdr_agent_watcher.Prelude.{
  Char, sym, ◌∙◌, ◌≡◌, ◌≤◌, refl, String, some, List, [], ◌∷◌, true, false, not, ltb, Bool-cases,
  Option-cases, arith, inl, inr,
}
use herdr_agent_watcher.Text.{is_control, is_empty, trim}
use herdr_agent_watcher.Text.Bytes.{count, push}
use herdr_agent_watcher.Text.Lines.{
  lines, filter_chars, take_chars, collapse_whitespace, trim_matches,
}
use herdr_agent_watcher.Text.Sanitise.{AllChars, is_printable}
use herdr_agent_watcher.Text.Words.{
  filter_chars-AllChars, collapse_from-AllChars, take_chars-AllChars, push-AllChars,
  count-take_chars, count-push,
}
use herdr_agent_watcher.Agent.Notification.Body.{
  max_notification_body_chars, plain_line, first_line, shorten, normalize_notification_body,
  is_markdown,
}

-- One line of at most 80 characters, without control characters, and not empty.
pub record IsPresentable (body : String) : Type 0 where
  pub short : count body ≤ max_notification_body_chars
  pub printable : AllChars is_printable body
  pub present : is_empty body ≡ false

ellipsis_printable : is_printable "…" ≡ true
unfolding is_control
ellipsis_printable = refl

push_present : (s : String) (c : Char) → is_empty (push s c) ≡ false
unfolding push is_empty
push_present String.[] c = refl
push_present (String.◌∷◌ d s) c = refl

filter_printable : (s : String) → AllChars is_printable (filter_chars (λ c. not (is_control c)) s)
filter_printable s = filter_chars-AllChars is_printable s

plain_line-printable : (s : String) → AllChars is_printable (plain_line s)
unfolding plain_line collapse_whitespace is_control
plain_line-printable s =
    collapse_from-AllChars is_printable false false _ refl
      (filter_printable (trim (trim_matches is_markdown s)))

first_line_lem :
    (ls : List String) (line : String)
    → first_line ls ≡ some line
    → AllChars is_printable line × (is_empty line ≡ false)
unfolding first_line
first_line_lem [] line h = ground arith
first_line_lem (l ∷ ls) line h = elim (Bool-cases (starts_with (trim l) "<<<VIMEFLOW_")) [
  | inl m ↦ ground (arith, m, h)
  | inr m ↦ elim (Bool-cases (is_empty (plain_line (trim l)))) [
    | inl e ↦ first_line_lem ls line (sym (rw (m, e, first_line) refl) ∙ h)
    | inr e ↦
        let same : plain_line (trim l) ≡ line = ground (arith, m, e, h) in
        rw (← same) (plain_line-printable (trim l), e)
  ]
]

shorten-IsPresentable :
    (s : String) → AllChars is_printable s → is_empty s ≡ false → IsPresentable (shorten s)
unfolding shorten
shorten-IsPresentable s p e = elim (Bool-cases (ltb max_notification_body_chars (count s))) [
  | inl long ↦
      let kept = take_chars 79 s in
      rw long (record {
        short = ground (arith, count-push kept "…", count-take_chars 79 s);
        printable =
            push-AllChars is_printable kept "…" (take_chars-AllChars is_printable 79 s p)
              ellipsis_printable;
        present = push_present kept "…";
      })
  | inr fits ↦ rw fits (record { short = ground (arith, fits); printable = p; present = e })
]

pub normalize_notification_body-IsPresentable :
    (message body : String) → normalize_notification_body message ≡ some body → IsPresentable body
unfolding normalize_notification_body
normalize_notification_body-IsPresentable message body h =
    elim (Option-cases (first_line (lines message))) [
      | inl e ↦ ground (arith, e, h)
      | inr (line, e) ↦
          let (p, present) = first_line_lem (lines message) line e in
          let same : shorten line ≡ body = ground (arith, e, h) in
          rw (← same) (shorten-IsPresentable line p present)
    ]
