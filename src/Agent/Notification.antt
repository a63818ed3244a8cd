-- ===== src/Agent/Notification.antt =====
-- The notification watcher of src/agent/notification.rs: its registrations, the files that it
-- watches for them, and the keys by which it tells repeated notifications.
pub mod Body
pub mod Host
pub mod Envelopes
pub mod Classify
pub mod Keys
pub mod Turns
pub mod Transcript
pub mod Apply
pub mod Scan
pub mod Valid
pub mod Sends
pub mod Invariant
pub mod Completions
pub mod Worker
pub mod Watches
use Prim.Native.String
use herdr_agent_watcher.Prelude.{
  ℕ, ◌+◌, String, Option, none, some, List, [], ◌∷◌, ◌++◌, Bool, true, false, ◌&&◌, not, ◌==◌, any,
  nat_beq, length, is_some, if◌then◌else◌,
}
use herdr_agent_watcher.Prelude.Map
use herdr_agent_watcher.Prelude.Map.{Map}
use herdr_agent_watcher.Prelude.StrSet
use herdr_agent_watcher.Prelude.StrSet.{StrSet}

abbrev pub recent_dedupe_keys : ℕ
recent_dedupe_keys = 128

pub data NotificationProvider : Type 0 where
  claude_code codex kimi open_code : NotificationProvider

abbrev pub provider_eq : NotificationProvider → NotificationProvider → Bool
provider_eq NotificationProvider.claude_code NotificationProvider.claude_code = true
provider_eq NotificationProvider.codex NotificationProvider.codex = true
provider_eq NotificationProvider.kimi NotificationProvider.kimi = true
provider_eq NotificationProvider.open_code NotificationProvider.open_code = true
provider_eq _ _ = false

abbrev pub is_kimi : NotificationProvider → Bool
is_kimi NotificationProvider.kimi = true
is_kimi _ = false

pub record PendingOpenCodeIdle : Type 0 where
  pub occurred_at : ℕ
  pub agent_session_id : Option String

pub record Registration : Type 0 where
  pub pty_id : String
  pub pty_generation : ℕ
  pub provider : NotificationProvider
  pub source_path : String
  pub cursor : ℕ
  pub partial_line : List ℕ
  pub dropping_oversize_line : Bool
  pub agent_session_id : Option String
  pub turn_active : Bool
  pub turn_id : Option String
  pub notification_body : Option String
  pub claude_transcript_cursors : Map ℕ
  pub pending_opencode_idle : Option PendingOpenCodeIdle
  pub dedupe_keys : StrSet
  pub dedupe_order : List String

abbrev pub new_registration : String → ℕ → NotificationProvider → String → ℕ → Registration
new_registration pty_id pty_generation provider source_path cursor = record {
  pty_id = pty_id;
  pty_generation = pty_generation;
  provider = provider;
  source_path = source_path;
  cursor = cursor;
  partial_line = [];
  dropping_oversize_line = false;
  agent_session_id = none;
  turn_active = false;
  turn_id = none;
  notification_body = none;
  claude_transcript_cursors = [];
  pending_opencode_idle = none;
  dedupe_keys = [];
  dedupe_order = [];
}

-- `pop_front`, and the key out of the set.
unfoldable pub forget_oldest : Registration → Registration
forget_oldest r = elim r.dedupe_order [
  | [] ↦ r
  | oldest ∷ rest ↦ record r {
    dedupe_order = rest;
    dedupe_keys = StrSet.remove r.dedupe_keys oldest;
  }
]

unfoldable pub remember_dedupe_key : Registration → String → Registration × Bool
unfolding forget_oldest
remember_dedupe_key r key =
    if StrSet.contains r.dedupe_keys key
    then (r, false)
    else let r' =
        if nat_beq (length r.dedupe_order) recent_dedupe_keys then forget_oldest r else r in
      (
        record r' {
          dedupe_keys = StrSet.insert r'.dedupe_keys key;
          dedupe_order = r'.dedupe_order ++ key ∷ [];
        },
        true,
      )

pub data RegisterOutcome : Type 0 where
  started rebound noop : RegisterOutcome

-- `Result<RegisterOutcome, String>`
pub data RegisterResult : Type 0 where
  ok : RegisterOutcome → RegisterResult
  err : String → RegisterResult

-- The registrations by terminal, the paths that the watcher of the crate notify has been told to
-- watch, and the diagnostics that both functions write.
pub record Sources : Type 0 where
  pub registrations : Map Registration
  pub watched : StrSet
  pub stopped_total : ℕ
  pub active_registrations : ℕ
  pub active_by_provider : NotificationProvider → ℕ

-- The registration is one for which the watcher watches the path; Kimi's follow their files
-- themselves.
abbrev pub follows : String → Registration → Bool
follows path r = not (is_kimi r.provider) && (r.source_path == path)

abbrev pub any_follows : Map Registration → String → Bool
any_follows m path = any (λ e. follows path e.1) m

-- `unwatch`, where no registration is left for the path.
unfoldable pub release : Sources → Registration → Sources
release s r =
    if not (is_kimi r.provider) && not (any_follows s.registrations r.source_path)
    then record s { watched = StrSet.remove s.watched r.source_path }
    else s

-- The terminal has a registration of the same provider and path.
unfoldable pub is_registered : Sources → Registration → Bool
is_registered s r = elim (Map.get s.registrations r.pty_id) [
  | none ↦ false
  | some c ↦ provider_eq c.provider r.provider && (c.source_path == r.source_path)
]

unfoldable pub needs_watch : Sources → Registration → Bool
needs_watch s r = not (is_kimi r.provider) && not (any_follows s.registrations r.source_path)

unfoldable pub admit : Sources → Registration → Sources
unfolding needs_watch
admit s r = record s {
  registrations = Map.insert s.registrations r.pty_id r;
  watched = if needs_watch s r then StrSet.insert s.watched r.source_path else s.watched;
}

-- `watch` may refuse a path: `fails` says with what error.
unfoldable pub register_source :
    (String → Option String) → Sources → Registration → Sources × RegisterResult
unfolding is_registered admit release
register_source fails s r =
    if is_registered s r
    then (s, ok RegisterOutcome.noop)
    else elim (if needs_watch s r then fails r.source_path else none) [
      | some error ↦ (s, err (String.◌++◌ "watch notification source: " error))
      | none ↦ elim (Map.get s.registrations r.pty_id) [
        | none ↦ (admit s r, ok RegisterOutcome.started)
        | some previous ↦ (release (admit s r) previous, ok RegisterOutcome.rebound)
      ]
    ]

abbrev pub count_provider : NotificationProvider → Map Registration → ℕ
count_provider p [] = 0
count_provider p ((pty_id, r) ∷ m) =
    let rest = count_provider p m in if provider_eq r.provider p then rest + 1 else rest

unfoldable pub refresh_registration_diagnostics : Sources → Sources
refresh_registration_diagnostics s = record s {
  active_registrations = length s.registrations;
  active_by_provider = λ p. count_provider p s.registrations;
}

unfoldable pub remove_source : Sources → String → Sources × Option NotificationProvider
unfolding release refresh_registration_diagnostics
remove_source s pty_id = elim (Map.get s.registrations pty_id) [
  | none ↦ (s, none)
  | some removed ↦
      let s' = record s { registrations = Map.remove s.registrations pty_id } in
      (
        refresh_registration_diagnostics
            (record (release s' removed) { stopped_total = s.stopped_total + 1 }),
        some removed.provider,
      )
]
