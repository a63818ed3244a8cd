-- ===== src/Daemon/Store/Domain.antt =====
-- Which panes have a card: a call creates one or removes one only where it is meant to.
use herdr_agent_watcher.Prelude.{
  ℕ, ◌+◌, String, ◌≡◌, refl, Option, none, some, Bool, true, false, not, ◌==◌, arith, eq_iff,
  unwrap_or, if◌then◌else◌, Bool-cases, Option-cases, inl, inr,
}
use herdr_agent_watcher.Prelude.Map
use herdr_agent_watcher.Prelude.Map.{get-insert, get-remove}
use herdr_agent_watcher.Text.{is_empty, sanitise}
use herdr_agent_watcher.Json.{Json}
use herdr_agent_watcher.Daemon.Store.Types.{PaneTelemetry, TelemetryStore, default_pane}
use herdr_agent_watcher.Daemon.Store.Broadcast.{
  publish, settle, mutate_existing, mutate_creating, remove,
}
use herdr_agent_watcher.Daemon.Store.Record.{on_event, record_event}
use herdr_agent_watcher.Daemon.Store.Normalise.{normalise_event}
use herdr_agent_watcher.Daemon.Store.Ops.{
  agent_change, set_agent, cwd_change, set_pane_list_cwd, position_change, set_pane_position,
  workspace_change, nonempty, set_pane_workspace, fresh_session, replace_session,
}
use herdr_agent_watcher.Daemon.Store.Call.{Call, call}

abbrev pub has_card : {V : Type 0} → TelemetryStore V → String → Bool
has_card st k = Map.has st.panes k

-- Whether a pane has a card after a call, from whether it had one before.
abbrev pub card_after : {V : Type 0} → Call V → String → Bool → Bool
card_after (Call.agent p name) k old = if p == k then true else old
card_after (Call.session p name) k old = if p == k then true else old
card_after (Call.drop p) k old = if p == k then false else old
card_after (Call.cwd p d) k old = old
card_after (Call.position p n) k old = old
card_after (Call.workspace p w) k old = old
card_after (Call.event p name v) k old = old

module _ {V : Type 0} where
  has_card-publish :
      (st : TelemetryStore V) (p : String) (e : PaneTelemetry V) (k : String)
      → has_card (publish st p e) k ≡ (if p == k then true else has_card st k)
  unfolding publish
  has_card-publish st p e k =
      ground (arith, get-insert st.panes p k (record e { updated_seq = st.seq + 1 }))

  has_card-settle :
      (st : TelemetryStore V) (p : String) (r : PaneTelemetry V × Bool) (b : Bool) (k : String)
      → has_card (settle st p r b) k ≡ (if p == k then true else has_card st k)
  unfolding settle publish
  has_card-settle st p (e, changed) b k =
      ground (arith, get-insert st.panes p k e, has_card-publish st p e k)

  pub has_card-mutate_existing :
      (st : TelemetryStore V) (p : String) (f : PaneTelemetry V → PaneTelemetry V × Bool)
      (k : String)
      → has_card (mutate_existing st p f) k ≡ has_card st k
  unfolding mutate_existing
  has_card-mutate_existing st p f k = elim (Option-cases (Map.get st.panes p)) [
    | inl e ↦ rw (e, mutate_existing) refl
    | inr (a, e) ↦
        rw (e, mutate_existing) (ground (arith, e, eq_iff p k, has_card-settle st p (f a) false k))
  ]

  pub has_card-set_agent :
      (st : TelemetryStore V) (p name k : String)
      → has_card (set_agent st p name) k ≡ (if p == k then true else has_card st k)
  unfolding set_agent mutate_creating
  has_card-set_agent st p name k =
      has_card-settle st p (agent_change name (unwrap_or (Map.get st.panes p) default_pane))
        (not (Map.has st.panes p)) k

  pub has_card-replace_session :
      (st : TelemetryStore V) (p name k : String)
      → has_card (replace_session st p name) k ≡ (if p == k then true else has_card st k)
  unfolding replace_session
  has_card-replace_session st p name k =
      has_card-publish st p (fresh_session (Map.get st.panes p) name) k

  pub has_card-remove :
      (st : TelemetryStore V) (p k : String)
      → has_card (remove st p) k ≡ (if p == k then false else has_card st k)
  unfolding remove
  has_card-remove st p k = elim (Option-cases (Map.get st.panes p)) [
    | inl e ↦ rw (e, remove) (ground (arith, e, eq_iff p k))
    | inr (a, e) ↦ rw (e, remove) (ground (arith, get-remove st.panes p k))
  ]

  pub has_card-set_pane_list_cwd :
      (st : TelemetryStore V) (p : String) (d : Option String) (k : String)
      → has_card (set_pane_list_cwd st p d) k ≡ has_card st k
  unfolding set_pane_list_cwd
  has_card-set_pane_list_cwd st p none k = refl
  has_card-set_pane_list_cwd st p (some raw) k = elim (Bool-cases (is_empty (sanitise raw))) [
    | inl e ↦ rw e refl
    | inr e ↦ rw e (has_card-mutate_existing st p (cwd_change (sanitise raw)) k)
  ]

  pub has_card-set_pane_position :
      (st : TelemetryStore V) (p : String) (n : ℕ) (k : String)
      → has_card (set_pane_position st p n) k ≡ has_card st k
  unfolding set_pane_position
  has_card-set_pane_position st p n k = has_card-mutate_existing st p (position_change n) k

  pub has_card-set_pane_workspace :
      (st : TelemetryStore V) (p : String) (w : Option String) (k : String)
      → has_card (set_pane_workspace st p w) k ≡ has_card st k
  unfolding set_pane_workspace
  has_card-set_pane_workspace st p w k =
      has_card-mutate_existing st p (workspace_change (nonempty w)) k

module _ (J : Json) where
  open J use {Value}

  pub has_card-record_event :
      (st : TelemetryStore Value) (p name : String) (v : Value) (k : String)
      → has_card (record_event J st p name v) k ≡ has_card st k
  unfolding record_event
  has_card-record_event st p name v k =
      has_card-mutate_existing st p (on_event J name (normalise_event J name v)) k

  -- A card comes into being by `set_agent` and `replace_session` alone, and goes by `remove` alone,
  -- each at its own pane; no event, directory, position or workspace makes one or removes one.
  pub has_card-call :
      (st : TelemetryStore Value) (c : Call Value) (k : String)
      → has_card (call J st c) k ≡ card_after c k (has_card st k)
  unfolding call
  has_card-call st (Call.agent p name) k = has_card-set_agent st p name k
  has_card-call st (Call.cwd p d) k = has_card-set_pane_list_cwd st p d k
  has_card-call st (Call.position p n) k = has_card-set_pane_position st p n k
  has_card-call st (Call.workspace p w) k = has_card-set_pane_workspace st p w k
  has_card-call st (Call.session p name) k = has_card-replace_session st p name k
  has_card-call st (Call.event p name v) k = has_card-record_event st p name v k
  has_card-call st (Call.drop p) k = has_card-remove st p k
