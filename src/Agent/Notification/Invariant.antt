-- ===== src/Agent/Notification/Invariant.antt =====
-- Every step of the scanning in src/agent/notification.rs keeps a scan in good order.
use herdr_agent_watcher.Prelude.{
  ℕ, ◌+◌, String, ◌≡◌, refl, subst, Option, none, some, List, [], ◌∷◌, true, ◌&&◌, ◌||◌, not,
  length, drop, ltb, nat_beq, arith, if◌then◌else◌, Bool-cases, Option-cases, inl, inr,
}
use herdr_agent_watcher.Json.{Json}
use herdr_agent_watcher.Agent.Notification.{Registration, PendingOpenCodeIdle}
use herdr_agent_watcher.Agent.Notification.Body.{normalize_notification_body}
use herdr_agent_watcher.Agent.Notification.Body.Presentable.{
  IsPresentable, normalize_notification_body-IsPresentable,
}
use herdr_agent_watcher.Agent.Notification.Classify.{classify}
use herdr_agent_watcher.Agent.Notification.Envelopes.{Codecs}
use herdr_agent_watcher.Agent.Notification.Host.{File, Host}
use herdr_agent_watcher.Agent.Notification.Transcript.{claude_hook_body}
use herdr_agent_watcher.Agent.Notification.Turns.{
  Scan, ClassifiedSignal, session, assistant_text, open_code_status_idle, turn_started, turn_ended,
  notification, irrelevant, NotificationSignal, with_session, is_mismatched, end_turn, admit_key,
  is_open_code,
}
use herdr_agent_watcher.Agent.Notification.Apply.{
  buffered, notify, apply_notification, flush_pending_opencode_idle, apply_signal,
  with_registration, without_pending, complete_idle,
}
use herdr_agent_watcher.Agent.Notification.Keys.{list_cases}
use herdr_agent_watcher.Agent.Notification.Scan.{
  keep_byte, take_line, finish_line, scan_byte, scan_bytes, scan_file, scan_source, scan_to,
  scan_opened, count_bytes, pop_returns,
}
use herdr_agent_watcher.Agent.Notification.Valid.{
  IsValid, keep_keys, with_session-IsValid, end_turn-IsValid, admit_key-IsValid, keep_byte-IsValid,
  restart-IsValid,
}
use herdr_agent_watcher.Agent.Notification.Sends.{
  ScanIsValid, BodyIsPresentable, claude_hook_body-BodyIsPresentable, claude_hook_body-IsValid,
  choose_body-BodyIsPresentable, emit-ScanIsValid,
}

with_registration-ScanIsValid :
    (s : Scan) (r : Registration) → IsValid r → ScanIsValid s → ScanIsValid (with_registration s r)
with_registration-ScanIsValid s r vr v = record {
  registration = vr;
  counted = v.counted;
  presentable = v.presentable;
}

ended-IsValid :
    (r : Registration) (n : NotificationSignal)
    → IsValid r
    → IsValid (if n.ends_turn then end_turn r else r)
ended-IsValid r n v = elim (Bool-cases n.ends_turn) [
  | inl e ↦ rw e (end_turn-IsValid r v)
  | inr e ↦ rw e v
]

body_of : (o : Option String) → ((b : String) → o ≡ some b → IsPresentable b) → BodyIsPresentable o
body_of none h = tt
body_of (some b) h = h b refl

pending_any-IsValid :
    (r : Registration) (pending : Option PendingOpenCodeIdle)
    → IsValid r
    → IsValid (record r { pending_opencode_idle = pending })
pending_any-IsValid r pending v = record {
  keys = keep_keys refl refl v.keys;
  turn = v.turn;
  line = v.line;
  dropped = v.dropped;
  body = v.body;
}

text-IsValid :
    (r : Registration) (body : String)
    → IsPresentable body
    → IsValid r
    → IsValid (record r { notification_body = some body })
text-IsValid r body p v = record {
  keys = keep_keys refl refl v.keys;
  turn = v.turn;
  line = v.line;
  dropped = v.dropped;
  body = λ b h. subst IsPresentable (ground (arith, h)) p;
}

start_turn-IsValid :
    (r : Registration) (turn_id : Option String)
    → IsValid r
    → IsValid (record r { turn_active = true; turn_id = turn_id; notification_body = none })
start_turn-IsValid r turn_id v = record {
  keys = keep_keys refl refl v.keys;
  turn = λ h. absurd (cc h);
  line = v.line;
  dropped = v.dropped;
  body = λ b h. absurd (cc h);
}

cursor-IsValid :
    (r : Registration) (cursor : ℕ) → IsValid r → IsValid (record r { cursor = cursor })
cursor-IsValid r cursor v = record {
  keys = keep_keys refl refl v.keys;
  turn = v.turn;
  line = v.line;
  dropped = v.dropped;
  body = v.body;
}

no_line-IsValid : (r : Registration) → IsValid r → IsValid (record r { partial_line = [] })
no_line-IsValid r v = record {
  keys = keep_keys refl refl v.keys;
  turn = v.turn;
  line = omega arith;
  dropped = λ h. refl;
  body = v.body;
}

module _ (J : Json) (codecs : Codecs J.Value) (host : Host) where
  buffered-BodyIsPresentable :
      (r : Registration) (n : NotificationSignal)
      → IsValid r
      → BodyIsPresentable (buffered J codecs host r n)
  buffered-BodyIsPresentable r n v = elim (Bool-cases n.ends_turn) [
    | inl e ↦ rw e (body_of r.notification_body v.body)
    | inr e ↦ rw e tt
  ]

  notify-ScanIsValid :
      (s : Scan) (n : NotificationSignal) → ScanIsValid s → ScanIsValid (notify J codecs host s n)
  unfolding notify
  notify-ScanIsValid s n v =
      let ended = if n.ends_turn then end_turn s.registration else s.registration in
      let read = claude_hook_body J codecs host ended n.reason n.transcript_path in
      let valid = admit_key-IsValid read.0 n.dedupe_key (
        claude_hook_body-IsValid J codecs host ended n.reason n.transcript_path
          (ended-IsValid s.registration n v.registration)) in
      let s' = with_registration s (admit_key read.0 n.dedupe_key).0 in
      let v' = with_registration-ScanIsValid s (admit_key read.0 n.dedupe_key).0 valid v in
      elim (Bool-cases (admit_key read.0 n.dedupe_key).1) [
        | inl e ↦ rw e (
            emit-ScanIsValid J codecs host s' _
              (choose_body-BodyIsPresentable J codecs host n read.1
                (buffered J codecs host s.registration n)
                (claude_hook_body-BodyIsPresentable J codecs host ended n.reason n.transcript_path)
                (buffered-BodyIsPresentable s.registration n v.registration))
              v')
        | inr e ↦
            rw e (record { registration = valid; counted = v.counted; presentable = v.presentable })
      ]

  apply_notification-ScanIsValid :
      (s : Scan) (n : NotificationSignal)
      → ScanIsValid s
      → ScanIsValid (apply_notification J codecs host s n)
  unfolding apply_notification
  apply_notification-ScanIsValid s n v =
      let r = with_session s.registration n.agent_session_id in
      let valid = with_session-IsValid s.registration n.agent_session_id v.registration in
      elim (Bool-cases (is_mismatched r n || (n.requires_active_turn && not r.turn_active))) [
        | inl e ↦
            rw e (record { registration = valid; counted = v.counted; presentable = v.presentable })
        | inr e ↦ rw e (
            notify-ScanIsValid (with_registration s r) n
              (with_registration-ScanIsValid s r valid v))
      ]

  -- A registration that differs in what validity does not read.
  complete_idle-ScanIsValid :
      (s : Scan) (pending : Option PendingOpenCodeIdle)
      → ScanIsValid s
      → ScanIsValid (complete_idle J codecs host s pending)
  unfolding complete_idle
  complete_idle-ScanIsValid s none v = v
  complete_idle-ScanIsValid s (some pending) v = apply_notification-ScanIsValid _ _ (
      with_registration-ScanIsValid s (without_pending J codecs host s.registration)
        (pending_any-IsValid s.registration none v.registration) v)

  flush-ScanIsValid :
      (s : Scan) → ScanIsValid s → ScanIsValid (flush_pending_opencode_idle J codecs host s)
  unfolding flush_pending_opencode_idle
  flush-ScanIsValid s v = elim (Bool-cases (is_open_code s.registration.provider)) [
    | inl o ↦ rw o (complete_idle-ScanIsValid s s.registration.pending_opencode_idle v)
    | inr o ↦ rw o v
  ]

  pub apply_signal-ScanIsValid :
      (s : Scan) (signal : ClassifiedSignal)
      → ScanIsValid s
      → ScanIsValid (apply_signal J codecs host s signal)
  unfolding apply_signal
  apply_signal-ScanIsValid s (session id) v =
      with_registration-ScanIsValid s _
        (with_session-IsValid s.registration (some id) v.registration) v
  apply_signal-ScanIsValid s (assistant_text text) v =
      elim (Option-cases (normalize_notification_body text)) [
        | inl e ↦ rw (e, apply_signal) v
        | inr (body, e) ↦
            let r = record s.registration { notification_body = some body } in
            rw (e, apply_signal)
              (flush-ScanIsValid (with_registration s r) (
                with_registration-ScanIsValid s r
                  (text-IsValid s.registration body
                    (normalize_notification_body-IsPresentable text body e) v.registration)
                  v))
      ]
  apply_signal-ScanIsValid s (open_code_status_idle pending) v =
      with_registration-ScanIsValid s _
        (pending_any-IsValid _ (some pending)
          (with_session-IsValid s.registration pending.agent_session_id v.registration))
        v
  apply_signal-ScanIsValid s (turn_started turn_id agent_session_id) v =
      let s' = flush_pending_opencode_idle J codecs host s in
      let v' = flush-ScanIsValid s v in
      with_registration-ScanIsValid s' _
        (start_turn-IsValid (with_session s'.registration agent_session_id) turn_id
          (with_session-IsValid s'.registration agent_session_id v'.registration))
        v'
  apply_signal-ScanIsValid s turn_ended v =
      with_registration-ScanIsValid s _ (end_turn-IsValid s.registration v.registration) v
  apply_signal-ScanIsValid s (notification n) v = apply_notification-ScanIsValid s n v
  apply_signal-ScanIsValid s irrelevant v = v

  take_line-ScanIsValid :
      (s : Scan) (line : List ℕ) → ScanIsValid s → ScanIsValid (take_line J codecs host s line)
  unfolding take_line
  take_line-ScanIsValid s line v =
      let valid = no_line-IsValid s.registration v.registration in
      elim (Option-cases (classify J codecs host s.registration.provider line)) [
        | inl e ↦
            rw (e, take_line)
              (record { registration = valid; counted = v.counted; presentable = v.presentable })
        | inr (signal, e) ↦
            rw (e, take_line)
              (apply_signal-ScanIsValid _ signal
                (record { registration = valid; counted = v.counted; presentable = v.presentable }))
      ]

  finish_line-ScanIsValid : (s : Scan) → ScanIsValid s → ScanIsValid (finish_line J codecs host s)
  unfolding finish_line
  finish_line-ScanIsValid s v = elim (Bool-cases s.registration.dropping_oversize_line) [
    | inl d ↦ rw d (record {
      registration = record {
        keys = keep_keys refl refl v.registration.keys;
        turn = v.registration.turn;
        line = v.registration.line;
        dropped = λ h. absurd (cc h);
        body = v.registration.body;
      };
      counted = v.counted;
      presentable = v.presentable;
    })
    | inr d ↦ elim (list_cases (pop_returns s.registration.partial_line)) [
      | inl e ↦
          rw (d, e)
            (record {
              registration = record {
                keys = keep_keys refl refl v.registration.keys;
                turn = v.registration.turn;
                line = omega arith;
                dropped = λ h. refl;
                body = v.registration.body;
              };
              counted = v.counted;
              presentable = v.presentable;
            })
      | inr (b, bs, e) ↦ rw (d, e) (take_line-ScanIsValid s (b ∷ bs) v)
    ]
  ]

  scan_byte-ScanIsValid :
      (s : Scan) (byte : ℕ) → ScanIsValid s → ScanIsValid (scan_byte J codecs host s byte)
  unfolding scan_byte
  scan_byte-ScanIsValid s byte v = elim (Bool-cases (nat_beq byte 10)) [
    | inl e ↦ rw e (finish_line-ScanIsValid s v)
    | inr e ↦ rw e (
        with_registration-ScanIsValid s (keep_byte s.registration byte)
          (keep_byte-IsValid s.registration byte v.registration) v)
  ]

  pub scan_bytes-ScanIsValid :
      (s : Scan) (input : List ℕ) → ScanIsValid s → ScanIsValid (scan_bytes J codecs host s input)
  unfolding scan_bytes
  scan_bytes-ScanIsValid s [] v = v
  scan_bytes-ScanIsValid s (byte ∷ rest) v =
      scan_bytes-ScanIsValid (scan_byte J codecs host s byte) rest (scan_byte-ScanIsValid s byte v)

  scan_file-ScanIsValid :
      (s : Scan) (file : File) → ScanIsValid s → ScanIsValid (scan_file J codecs host s file).0
  unfolding scan_file count_bytes
  scan_file-ScanIsValid s file v =
      let input = drop s.registration.cursor file.content in
      let v' = scan_bytes-ScanIsValid (count_bytes J codecs host s (length input)) input (record {
        registration =
            cursor-IsValid s.registration (s.registration.cursor + length input) v.registration;
        counted = v.counted;
        presentable = v.presentable;
      }) in
      elim (Bool-cases file.fails) [ inl e ↦ rw e v' | inr e ↦ rw e (flush-ScanIsValid _ v') ]

  scan_opened-ScanIsValid :
      (s : Scan) (file : Option File)
      → ScanIsValid s
      → ScanIsValid (scan_opened J codecs host s file).0
  unfolding scan_opened
  scan_opened-ScanIsValid s none v = v
  scan_opened-ScanIsValid s (some file) v = scan_file-ScanIsValid s file v

  scan_to-ScanIsValid :
      (s : Scan) (size : Option ℕ) → ScanIsValid s → ScanIsValid (scan_to J codecs host s size).0
  unfolding scan_to
  scan_to-ScanIsValid s none v = v
  scan_to-ScanIsValid s (some size) v = elim (Bool-cases (ltb size s.registration.cursor)) [
    | inl shorter ↦ rw shorter (record {
      registration = restart-IsValid s.registration size v.registration;
      counted = v.counted;
      presentable = v.presentable;
    })
    | inr other ↦ elim (Bool-cases (nat_beq size s.registration.cursor)) [
      | inl same ↦ rw (other, same) v
      | inr longer ↦
          rw (other, longer)
            (scan_opened-ScanIsValid s (host.open_file s.registration.source_path) v)
    ]
  ]

  -- Whatever a source holds and however it has changed since the last look, a scan of it leaves the
  -- registration and the diagnostics in good order: each event that it gives to the sink has a body
  -- of one line of at most 80 printable characters, or none, the diagnostics count the events that
  -- the sink took, no more than 256 KiB of a line are held, and at most 128 keys are remembered.
  pub scan_source-ScanIsValid :
      (s : Scan) → ScanIsValid s → ScanIsValid (scan_source J codecs host s).0
  unfolding scan_source
  scan_source-ScanIsValid s v =
      scan_to-ScanIsValid s (host.metadata_length s.registration.source_path) v
