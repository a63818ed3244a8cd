-- ===== src/Daemon/Store/Silent.antt =====
-- A closure that reports no change of its pane has changed nothing that a client of the state socket
-- can see.
use herdr_agent_watcher.Prelude.{
  String, ◌≡◌, Option, none, some, Bool, true, false, ◌||◌, arith, eq_iff, ◌∙◌,
}
use herdr_agent_watcher.Json.{Json}
use herdr_agent_watcher.Daemon.Store.Types.{PaneTelemetry, CardState, card_eq, wire}
use herdr_agent_watcher.Daemon.Store.Record.{
  opt_is, same_value, on_status, on_title, on_lifecycle, on_state, on_notification, on_cwd,
  on_tool_call, replay_total, replay_counts, replay_recent, replay_cwd, then_also,
  on_replay_summary, on_event,
}
use herdr_agent_watcher.Daemon.Store.Ops.{
  agent_change, cwd_change, position_change, workspace_change,
}

abbrev pub SilentAt : {V : Type 0} → PaneTelemetry V → PaneTelemetry V × Bool → Type 0
SilentAt e r = r.1 ≡ false → wire r.0 ≡ wire e

opt_is→eq : (o : Option String) (k : String) → opt_is o k ≡ true → o ≡ some k
opt_is→eq none k h = ground arith
opt_is→eq (some s) k h = ground (arith, eq_iff s k)

card_eq→eq : (a b : CardState) → card_eq a b ≡ true → a ≡ b
card_eq→eq a b h = ground arith

or-false : (x y : Bool) → (x || y) ≡ false → (x ≡ false) × (y ≡ false)
or-false x y h = ground arith

module _ {V : Type 0} where
  pub agent_change-silent :
      (agent : String) (e : PaneTelemetry V) → SilentAt e (agent_change agent e)
  unfolding agent_change
  agent_change-silent agent e h = ground (arith, opt_is→eq e.agent agent)

  pub cwd_change-silent : (cwd : String) (e : PaneTelemetry V) → SilentAt e (cwd_change cwd e)
  unfolding cwd_change
  cwd_change-silent cwd e h = ground arith

  pub position_change-silent : (n : _) (e : PaneTelemetry V) → SilentAt e (position_change n e)
  unfolding position_change
  position_change-silent n e h = ground arith

  pub workspace_change-silent :
      (w : Option String) (e : PaneTelemetry V) → SilentAt e (workspace_change w e)
  unfolding workspace_change
  workspace_change-silent w e h = ground arith

module _ (J : Json) where
  open J use {Value, value_eq, value_eq_iff, get, as_u64, as_object, as_array}

  same_value→eq : (o : Option Value) (v : Value) → same_value J o v ≡ true → o ≡ some v
  same_value→eq none v h = ground arith
  same_value→eq (some w) v h = ground (arith, value_eq_iff w v)

  pub on_status-silent : (v : Value) (e : PaneTelemetry Value) → SilentAt e (on_status J v e)
  unfolding on_status
  on_status-silent v e h = ground (arith, same_value→eq e.status v)

  on_title-silent : (v : Value) (e : PaneTelemetry Value) → SilentAt e (on_title J v e)
  unfolding on_title
  on_title-silent v e h = ground (arith, same_value→eq e.title v)

  on_state-silent : (c : CardState) (e : PaneTelemetry Value) → SilentAt e (on_state J c e)
  unfolding on_state
  on_state-silent c e h = ground (arith, card_eq→eq e.card_state c)

  on_notification-silent :
      (v : Value) (e : PaneTelemetry Value) → SilentAt e (on_notification J v e)
  unfolding on_notification
  on_notification-silent v e h =
      ground
        (arith, card_eq→eq e.card_state CardState.finished, card_eq→eq e.card_state CardState.error)

  on_cwd-silent : (v : Value) (e : PaneTelemetry Value) → SilentAt e (on_cwd J v e)
  unfolding on_cwd
  on_cwd-silent v e h = ground arith

  on_tool_call-silent : (v : Value) (e : PaneTelemetry Value) → SilentAt e (on_tool_call J v e)
  unfolding on_tool_call
  on_tool_call-silent v e h = ground arith

  replay_total-silent : (v : Value) (e : PaneTelemetry Value) → SilentAt e (replay_total J v e)
  unfolding replay_total
  replay_total-silent v e h = ground arith

  replay_counts-silent : (v : Value) (e : PaneTelemetry Value) → SilentAt e (replay_counts J v e)
  unfolding replay_counts
  replay_counts-silent v e h = ground arith

  replay_recent-silent : (v : Value) (e : PaneTelemetry Value) → SilentAt e (replay_recent J v e)
  unfolding replay_recent
  replay_recent-silent v e h = ground arith

  replay_cwd-silent : (v : Value) (e : PaneTelemetry Value) → SilentAt e (replay_cwd J v e)
  unfolding replay_cwd
  replay_cwd-silent v e h = ground arith

  on_lifecycle-silent : (v : Value) (e : PaneTelemetry Value) → SilentAt e (on_lifecycle J v e)
  unfolding on_lifecycle
  on_lifecycle-silent v e h = ground (arith, same_value→eq e.lifecycle v)

  then_also-silent :
      (f g : PaneTelemetry Value → PaneTelemetry Value × Bool)
      → ((e : PaneTelemetry Value) → SilentAt e (f e))
      → ((e : PaneTelemetry Value) → SilentAt e (g e))
      → (e : PaneTelemetry Value) → SilentAt e (then_also J f g e)
  unfolding then_also
  then_also-silent f g hf hg e h =
      hg (f e).0 (or-false (f e).1 (g (f e).0).1 h).1 ∙ hf e (or-false (f e).1 (g (f e).0).1 h).0

  on_replay_summary-silent :
      (v : Value) (e : PaneTelemetry Value) → SilentAt e (on_replay_summary J v e)
  unfolding on_replay_summary
  on_replay_summary-silent v =
      let last = then_also J (replay_recent J v) (replay_cwd J v) in
      then_also-silent (replay_total J v) (then_also J (replay_counts J v) last)
        (replay_total-silent v)
        (then_also-silent (replay_counts J v) last (replay_counts-silent v) (
          then_also-silent (replay_recent J v) (replay_cwd J v) (replay_recent-silent v)
            (replay_cwd-silent v)))

  -- Whatever the event and its payload: where `record` announces nothing, the fields that go over
  -- the state socket are what they were.
  pub on_event-silent :
      (event : String) (v : Value) (e : PaneTelemetry Value) → SilentAt e (on_event J event v e)
  unfolding on_event
  on_event-silent event v e = ground (
    arith,
    on_status-silent v e,
    on_title-silent v e,
    on_lifecycle-silent v e,
    on_state-silent CardState.attention e,
    on_notification-silent v e,
    on_cwd-silent v e,
    on_tool_call-silent v e,
    on_replay_summary-silent v e,
  )
