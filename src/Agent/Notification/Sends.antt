-- ===== src/Agent/Notification/Sends.antt =====
-- What src/agent/notification.rs gives to its sink: well-formed bodies, and as many events of each
-- reason as the diagnostics count.
use herdr_agent_watcher.Prelude.{
  ℕ, ◌+◌, String, ◌≡◌, refl, Option, none, some, List, [], ◌∷◌, ◌++◌, true, false, ◌&&◌, All,
  All-append, or_else, and_then, unwrap_or, arith, if◌then◌else◌, Bool-cases, Option-cases, inl,
  inr,
}
use herdr_agent_watcher.Json.{Json}
use herdr_agent_watcher.Text.{is_control, is_whitespace, is_empty, trim}
use herdr_agent_watcher.Text.Lines.{lines, trim_matches, filter_chars, collapse_whitespace}
use herdr_agent_watcher.Text.Bytes.{count}
use herdr_agent_watcher.Agent.Notification.{Registration}
use herdr_agent_watcher.Agent.Notification.Body.{
  normalize_notification_body, first_line, plain_line, shorten,
}
use herdr_agent_watcher.Agent.Notification.Body.Presentable.{
  IsPresentable, normalize_notification_body-IsPresentable,
}
use herdr_agent_watcher.Agent.Notification.Envelopes.{Codecs}
use herdr_agent_watcher.Agent.Notification.Host.{
  AgentNotificationReason, reason_eq, AgentNotificationEvent, Sent, Host,
}
use herdr_agent_watcher.Prelude.Map
use herdr_agent_watcher.Agent.Tail.{for_each_bounded_line, empty_buffer}
use herdr_agent_watcher.Agent.Notification.Transcript.{
  aligned_cursor, reads_from, latest_body, takes_body, claude_hook_body, transcript_body,
  latest_claude_transcript_body_at_path,
}
use herdr_agent_watcher.Agent.Notification.Turns.{
  Scan, NotificationSignal, notification_action_body, count_emitted,
}
use herdr_agent_watcher.Agent.Notification.Apply.{emit, choose_body}
use herdr_agent_watcher.Agent.Notification.Valid.{IsValid, keep_keys}

-- The events of a reason that the sink took.
unfoldable pub count_taken : AgentNotificationReason → List Sent → ℕ
count_taken reason [] = 0
count_taken reason (x ∷ xs) =
    let rest = count_taken reason xs in
    if x.taken && reason_eq x.event.reason reason then rest + 1 else rest

abbrev pub BodyIsPresentable : Option String → Type 0
BodyIsPresentable none = Unit
BodyIsPresentable (some body) = IsPresentable body

-- A scan in good order: the registration's, the diagnostics count the events that the sink took, and
-- each event has a body that is fit to be shown, or none.
pub record ScanIsValid (s : Scan) : Type 0 where
  pub registration : IsValid s.registration
  pub counted :
      (reason : AgentNotificationReason)
      → s.diagnostics.notifications_emitted reason ≡ count_taken reason s.sent
  pub presentable : All (λ x. BodyIsPresentable x.event.body) s.sent

count_taken-append :
    (reason : AgentNotificationReason) (xs ys : List Sent)
    → count_taken reason (xs ++ ys) ≡ count_taken reason xs + count_taken reason ys
unfolding count_taken
count_taken-append reason [] ys = omega arith
count_taken-append reason (x ∷ xs) ys = ground (arith, count_taken-append reason xs ys)

or_else-BodyIsPresentable :
    (a b : Option String)
    → BodyIsPresentable a
    → BodyIsPresentable b
    → BodyIsPresentable (or_else a b)
or_else-BodyIsPresentable none b ha hb = hb
or_else-BodyIsPresentable (some a) b ha hb = ha

and_then-BodyIsPresentable :
    (a : Option String) → BodyIsPresentable (and_then a normalize_notification_body)
and_then-BodyIsPresentable none = tt
and_then-BodyIsPresentable (some text) = elim (Option-cases (normalize_notification_body text)) [
  | inl e ↦ rw e tt
  | inr (body, e) ↦ rw e (normalize_notification_body-IsPresentable text body e)
]

-- The two texts are as `normalize_notification_body` leaves them.
approval_normal :
    normalize_notification_body "Awaiting your approval" ≡ some "Awaiting your approval"
unfolding normalize_notification_body lines first_line plain_line trim trim_matches filter_chars
    collapse_whitespace shorten is_control is_whitespace is_empty count
approval_normal = refl

question_normal :
    normalize_notification_body "Awaiting your response" ≡ some "Awaiting your response"
unfolding normalize_notification_body lines first_line plain_line trim trim_matches filter_chars
    collapse_whitespace shorten is_control is_whitespace is_empty count
question_normal = refl

action_body-BodyIsPresentable :
    (reason : AgentNotificationReason) → BodyIsPresentable (notification_action_body reason)
unfolding notification_action_body
action_body-BodyIsPresentable AgentNotificationReason.turn_complete = tt
action_body-BodyIsPresentable AgentNotificationReason.agent_error = tt
action_body-BodyIsPresentable AgentNotificationReason.approval_requested =
    normalize_notification_body-IsPresentable _ _ approval_normal
action_body-BodyIsPresentable AgentNotificationReason.question_requested =
    normalize_notification_body-IsPresentable _ _ question_normal

module _ (J : Json) (codecs : Codecs J.Value) (host : Host) where
  transcript_body-BodyIsPresentable :
      (path : String) (cursor : ℕ)
      → BodyIsPresentable (latest_claude_transcript_body_at_path J codecs host path cursor).1
  unfolding latest_claude_transcript_body_at_path
  transcript_body-BodyIsPresentable path cursor = elim (Option-cases (host.open_file path)) [
    | inl e ↦ rw (e, BodyIsPresentable) tt
    | inr (file, e) ↦ elim (Option-cases (aligned_cursor file cursor)) [
      | inl a ↦ rw (e, a, BodyIsPresentable) tt
      | inr (start, a) ↦
          elim (Option-cases
            (for_each_bounded_line host.utf8 empty_buffer (reads_from file start))) [
              | inl l ↦ rw (e, a, l, BodyIsPresentable) tt
              | inr ((ls, true), l) ↦
                  rw (e, a, l, BodyIsPresentable)
                    (and_then-BodyIsPresentable (latest_body J codecs host none ls))
              | inr ((ls, false), l) ↦ rw (e, a, l, BodyIsPresentable) tt
            ]
    ]
  ]

  pub claude_hook_body-BodyIsPresentable :
      (r : Registration) (reason : AgentNotificationReason) (path : Option String)
      → BodyIsPresentable (claude_hook_body J codecs host r reason path).1
  unfolding claude_hook_body transcript_body
  claude_hook_body-BodyIsPresentable r reason path =
      elim (Bool-cases (takes_body J codecs host reason)) [
        | inl t ↦ elim (Option-cases (and_then path host.validate_transcript_path)) [
          | inl e ↦ rw (t, e) tt
          | inr (p, e) ↦
              rw (t, e)
                (transcript_body-BodyIsPresentable p
                  (unwrap_or (Map.get r.claude_transcript_cursors p) 0))
        ]
        | inr t ↦ rw t tt
      ]

  pub claude_hook_body-IsValid :
      (r : Registration) (reason : AgentNotificationReason) (path : Option String)
      → IsValid r
      → IsValid (claude_hook_body J codecs host r reason path).0
  unfolding claude_hook_body transcript_body
  claude_hook_body-IsValid r reason path v = elim (Bool-cases (takes_body J codecs host reason)) [
    | inl t ↦ elim (Option-cases (and_then path host.validate_transcript_path)) [
      | inl e ↦ rw (t, e) v
      | inr (p, e) ↦
          rw (t, e)
            (record {
              keys = keep_keys refl refl v.keys;
              turn = v.turn;
              line = v.line;
              dropped = v.dropped;
              body = v.body;
            })
    ]
    | inr t ↦ rw t v
  ]

  pub choose_body-BodyIsPresentable :
      (n : NotificationSignal) (transcript_body buffered_body : Option String)
      → BodyIsPresentable transcript_body
      → BodyIsPresentable buffered_body
      → BodyIsPresentable (choose_body J codecs host n transcript_body buffered_body)
  choose_body-BodyIsPresentable n a b ha hb =
      or_else-BodyIsPresentable _ _
        (or_else-BodyIsPresentable _ _
          (or_else-BodyIsPresentable _ _ (and_then-BodyIsPresentable n.body) ha) hb)
        (action_body-BodyIsPresentable n.reason)

  pub emit-ScanIsValid :
      (s : Scan) (event : AgentNotificationEvent)
      → BodyIsPresentable event.body
      → ScanIsValid s
      → ScanIsValid (emit J codecs host s event)
  unfolding emit count_taken count_emitted
  emit-ScanIsValid s event h v = elim (Bool-cases (host.takes s.sent event)) [
    | inl t ↦ record {
      registration = v.registration;
      counted = λ reason. rw t (
          rw (count_taken-append reason s.sent (record { event = event; taken = true } ∷ []))
            (ground (arith, v.counted reason)));
      presentable = All-append _ s.sent _ v.presentable (h, tt);
    }
    | inr t ↦ record {
      registration = v.registration;
      counted = λ reason. rw t (
          rw (count_taken-append reason s.sent (record { event = event; taken = false } ∷ []))
            (ground (arith, v.counted reason)));
      presentable = All-append _ s.sent _ v.presentable (h, tt);
    }
  ]
