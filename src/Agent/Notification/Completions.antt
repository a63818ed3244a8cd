-- ===== src/Agent/Notification/Completions.antt =====
-- How often a turn is reported: `apply_signal` of src/agent/notification.rs over a sequence of
-- signals.
use herdr_agent_watcher.Prelude.{
  ◌⊎◌, ℕ, ◌+◌, ◌≤◌, String, ◌≡◌, refl, ◌∙◌, Option, none, some, List, [], ◌∷◌, Bool, true, false,
  ◌&&◌, ◌||◌, not, All, and_then, length, length-append, arith, if◌then◌else◌, Bool-cases,
  Option-cases, inl, inr,
}
use herdr_agent_watcher.Json.{Json}
use herdr_agent_watcher.Agent.Notification.{Registration, PendingOpenCodeIdle}
use herdr_agent_watcher.Agent.Notification.Body.{normalize_notification_body}
use herdr_agent_watcher.Agent.Notification.Envelopes.{Codecs}
use herdr_agent_watcher.Agent.Notification.Host.{AgentNotificationReason, Host}
use herdr_agent_watcher.Agent.Notification.Transcript.{
  claude_hook_body, transcript_body, takes_body,
}
use herdr_agent_watcher.Agent.Notification.Turns.{
  Scan, ClassifiedSignal, session, assistant_text, open_code_status_idle, turn_started, turn_ended,
  notification, irrelevant, NotificationSignal, with_session, is_mismatched, end_turn, admit_key,
  is_open_code, opencode_completion,
}
use herdr_agent_watcher.Agent.Notification.Apply.{
  with_registration, without_pending, emit, notify, apply_notification, complete_idle,
  flush_pending_opencode_idle, apply_signal,
}
use herdr_agent_watcher.Agent.Notification.Valid.{admit_key-SameTurn}

-- The signal does not start a turn, and if it notifies, it needs an active turn and ends it.
abbrev pub needs_turn : ClassifiedSignal → Bool
needs_turn (turn_started turn_id agent_session_id) = false
needs_turn (notification n) = n.requires_active_turn && n.ends_turn
needs_turn _ = true

-- Nothing is sent and no turn is active.
record IsQuiet (s s' : Scan) : Type 0 where
  sent : s'.sent ≡ s.sent
  inactive : s'.registration.turn_active ≡ false

-- At most one event is sent, and after it no turn is active.
record SendsOne (s s' : Scan) : Type 0 where
  few : length s'.sent ≤ length s.sent + 1
  last : (s'.sent ≡ s.sent) ⊎ (s'.registration.turn_active ≡ false)

suppressed : (m q a : Bool) → (m || (q && not a)) ≡ false → q ≡ true → a ≡ false → ⊥
suppressed m q a e h k = ground (arith, e, h, k)

ended_inactive :
    (r : Registration) (n : NotificationSignal)
    → n.ends_turn ≡ true
    → (if n.ends_turn then end_turn r else r).turn_active ≡ false
ended_inactive r n e = rw e

with_session-active :
    (r : Registration) (id : Option String) → (with_session r id).turn_active ≡ r.turn_active
with_session-active r none = refl
with_session-active r (some id) = refl

completes :
    (decimal : ℕ → String) (pending : PendingOpenCodeIdle)
    → (opencode_completion decimal pending.occurred_at
        pending.agent_session_id).requires_active_turn
      ≡ true
unfolding opencode_completion
completes decimal pending = refl

ends :
    (decimal : ℕ → String) (pending : PendingOpenCodeIdle)
    → (opencode_completion decimal pending.occurred_at pending.agent_session_id).ends_turn ≡ true
unfolding opencode_completion
ends decimal pending = refl

module _ (J : Json) (codecs : Codecs J.Value) (host : Host) where
  -- The signals of a sequence of lines.
  unfoldable pub apply_signals : Scan → List ClassifiedSignal → Scan
  apply_signals s [] = s
  apply_signals s (signal ∷ rest) = apply_signals (apply_signal J codecs host s signal) rest

  claude_hook_body-active :
      (r : Registration) (reason : AgentNotificationReason) (path : Option String)
      → (claude_hook_body J codecs host r reason path).0.turn_active ≡ r.turn_active
  unfolding claude_hook_body transcript_body
  claude_hook_body-active r reason path = elim (Bool-cases (takes_body J codecs host reason)) [
    | inl t ↦ elim (Option-cases (and_then path host.validate_transcript_path)) [
      | inl e ↦ rw (t, e)
      | inr (p, e) ↦ rw (t, e)
    ]
    | inr t ↦ rw t
  ]

  notify_inactive :
      (s : Scan) (n : NotificationSignal)
      → n.ends_turn ≡ true
      → (notify J codecs host s n).registration.turn_active ≡ false
  unfolding notify emit
  notify_inactive s n e =
      let ended = if n.ends_turn then end_turn s.registration else s.registration in
      let read = claude_hook_body J codecs host ended n.reason n.transcript_path in
      let kept =
        (admit_key-SameTurn read.0 n.dedupe_key).turn_active
        ∙ claude_hook_body-active ended n.reason n.transcript_path
        ∙ ended_inactive s.registration n e in
      elim (Bool-cases (admit_key read.0 n.dedupe_key).1) [
        | inl new ↦ rw new kept
        | inr old ↦ rw old kept
      ]

  notify_few :
      (s : Scan) (n : NotificationSignal)
      → length (notify J codecs host s n).sent ≤ length s.sent + 1
  unfolding notify emit
  notify_few s n =
      let ended = if n.ends_turn then end_turn s.registration else s.registration in
      let read = claude_hook_body J codecs host ended n.reason n.transcript_path in
      elim (Bool-cases (admit_key read.0 n.dedupe_key).1) [
        | inl new ↦ rw new (omega (arith, length-append s.sent (_ ∷ [])))
        | inr old ↦ rw old (omega arith)
      ]

  apply_notification-IsQuiet :
      (s : Scan) (n : NotificationSignal)
      → n.requires_active_turn ≡ true
      → s.registration.turn_active ≡ false
      → IsQuiet s (apply_notification J codecs host s n)
  unfolding apply_notification
  apply_notification-IsQuiet s n q h =
      let r = with_session s.registration n.agent_session_id in
      let still = with_session-active s.registration n.agent_session_id ∙ h in
      elim (Bool-cases (is_mismatched r n || (n.requires_active_turn && not r.turn_active))) [
        | inl e ↦ rw e (record { sent = refl; inactive = still })
        | inr e ↦
            absurd (suppressed (is_mismatched r n) n.requires_active_turn r.turn_active e q still)
      ]

  apply_notification-SendsOne :
      (s : Scan) (n : NotificationSignal)
      → n.ends_turn ≡ true
      → SendsOne s (apply_notification J codecs host s n)
  unfolding apply_notification
  apply_notification-SendsOne s n e =
      let r = with_session s.registration n.agent_session_id in
      let s' = with_registration s r in
      elim (Bool-cases (is_mismatched r n || (n.requires_active_turn && not r.turn_active))) [
        | inl m ↦ rw m (record { few = omega arith; last = inl refl })
        | inr m ↦ rw m (record { few = notify_few s' n; last = inr (notify_inactive s' n e) })
      ]

  complete_idle-IsQuiet :
      (s : Scan) (pending : Option PendingOpenCodeIdle)
      → s.registration.turn_active ≡ false
      → IsQuiet s (complete_idle J codecs host s pending)
  unfolding complete_idle
  complete_idle-IsQuiet s none h = record { sent = refl; inactive = h }
  complete_idle-IsQuiet s (some pending) h =
      let q =
        apply_notification-IsQuiet
          (with_registration s (without_pending J codecs host s.registration))
          (opencode_completion host.decimal pending.occurred_at pending.agent_session_id)
          (completes host.decimal pending) h in
      record { sent = q.sent; inactive = q.inactive }

  complete_idle-SendsOne :
      (s : Scan) (pending : Option PendingOpenCodeIdle)
      → SendsOne s (complete_idle J codecs host s pending)
  unfolding complete_idle
  complete_idle-SendsOne s none = record { few = omega arith; last = inl refl }
  complete_idle-SendsOne s (some pending) =
      let o =
        apply_notification-SendsOne
          (with_registration s (without_pending J codecs host s.registration))
          (opencode_completion host.decimal pending.occurred_at pending.agent_session_id)
          (ends host.decimal pending) in
      record { few = o.few; last = o.last }

  -- The text of a turn may complete it, where an idle status waits for the text.
  text_flush : Scan → String → Scan
  text_flush s body =
      flush_pending_opencode_idle J codecs host
        (with_registration s (record s.registration { notification_body = some body }))

  text_flush-IsQuiet :
      (s : Scan) (body : String)
      → s.registration.turn_active ≡ false
      → IsQuiet s (text_flush s body)
  unfolding text_flush flush_pending_opencode_idle
  text_flush-IsQuiet s body h =
      let s' = with_registration s (record s.registration { notification_body = some body }) in
      let q = complete_idle-IsQuiet s' s.registration.pending_opencode_idle h in
      elim (Bool-cases (is_open_code s.registration.provider)) [
        | inl o ↦ rw o (record { sent = q.sent; inactive = q.inactive })
        | inr o ↦ rw o (record { sent = refl; inactive = h })
      ]

  text_flush-SendsOne : (s : Scan) (body : String) → SendsOne s (text_flush s body)
  unfolding text_flush flush_pending_opencode_idle
  text_flush-SendsOne s body =
      let s' = with_registration s (record s.registration { notification_body = some body }) in
      let q = complete_idle-SendsOne s' s.registration.pending_opencode_idle in
      elim (Bool-cases (is_open_code s.registration.provider)) [
        | inl o ↦ rw o (record { few = q.few; last = q.last })
        | inr o ↦ rw o (record { few = omega arith; last = inl refl })
      ]

  apply_signal-IsQuiet :
      (s : Scan) (signal : ClassifiedSignal)
      → needs_turn signal ≡ true
      → s.registration.turn_active ≡ false
      → IsQuiet s (apply_signal J codecs host s signal)
  unfolding apply_signal text_flush
  apply_signal-IsQuiet s (session id) n h = record { sent = refl; inactive = h }
  apply_signal-IsQuiet s (assistant_text text) n h =
      elim (Option-cases (normalize_notification_body text)) [
        | inl e ↦ rw (e, apply_signal) (record { sent = refl; inactive = h })
        | inr (body, e) ↦ rw (e, apply_signal) (text_flush-IsQuiet s body h)
      ]
  apply_signal-IsQuiet s (open_code_status_idle pending) n h = record {
    sent = refl;
    inactive = with_session-active s.registration pending.agent_session_id ∙ h;
  }
  apply_signal-IsQuiet s (turn_started turn_id agent_session_id) n h = absurd (cc n)
  apply_signal-IsQuiet s turn_ended n h = record { sent = refl; inactive = refl }
  apply_signal-IsQuiet s (notification m) n h = apply_notification-IsQuiet s m (ground (arith, n)) h
  apply_signal-IsQuiet s irrelevant n h = record { sent = refl; inactive = h }

  apply_signal-SendsOne :
      (s : Scan) (signal : ClassifiedSignal)
      → needs_turn signal ≡ true
      → SendsOne s (apply_signal J codecs host s signal)
  unfolding apply_signal text_flush
  apply_signal-SendsOne s (session id) n = record { few = omega arith; last = inl refl }
  apply_signal-SendsOne s (assistant_text text) n =
      elim (Option-cases (normalize_notification_body text)) [
        | inl e ↦ rw (e, apply_signal) (record { few = omega arith; last = inl refl })
        | inr (body, e) ↦ rw (e, apply_signal) (text_flush-SendsOne s body)
      ]
  apply_signal-SendsOne s (open_code_status_idle pending) n = record {
    few = omega arith;
    last = inl refl;
  }
  apply_signal-SendsOne s (turn_started turn_id agent_session_id) n = absurd (cc n)
  apply_signal-SendsOne s turn_ended n = record { few = omega arith; last = inl refl }
  apply_signal-SendsOne s (notification m) n = apply_notification-SendsOne s m (ground (arith, n))
  apply_signal-SendsOne s irrelevant n = record { few = omega arith; last = inl refl }

  apply_signals_quiet :
      (s : Scan) (signals : List ClassifiedSignal)
      → All (λ signal. needs_turn signal ≡ true) signals
      → s.registration.turn_active ≡ false
      → (apply_signals s signals).sent ≡ s.sent
  unfolding apply_signals
  apply_signals_quiet s [] n h = refl
  apply_signals_quiet s (signal ∷ rest) n h =
      let q = apply_signal-IsQuiet s signal n.0 h in
      apply_signals_quiet (apply_signal J codecs host s signal) rest n.1 q.inactive ∙ q.sent

  -- Signals none of which starts a turn, and which notify only of the end of an active turn, send
  -- at most one event, and none if no turn is active.
  pub turn_reported_once :
      (s : Scan) (signals : List ClassifiedSignal)
      → All (λ signal. needs_turn signal ≡ true) signals
      → (length (apply_signals s signals).sent ≤ length s.sent + 1)
        × (s.registration.turn_active ≡ false → (apply_signals s signals).sent ≡ s.sent)
  unfolding apply_signals
  turn_reported_once s [] n = (omega arith, λ h. refl)
  turn_reported_once s (signal ∷ rest) n =
      let s' = apply_signal J codecs host s signal in
      let o = apply_signal-SendsOne s signal n.0 in
      let deeper = turn_reported_once s' rest n.1 in
      (
        elim o.last [
          | inl same ↦ ground (arith, same, deeper.0)
          | inr stopped ↦ ground (arith, apply_signals_quiet s' rest n.1 stopped, o.few)
        ],
        apply_signals_quiet s (signal ∷ rest) n,
      )
