-- ===== src/Daemon/Store/Ops.antt =====
-- The setters of src/daemon/store.rs that the reconcile loop calls, and `replace_session`.
use herdr_agent_watcher.Prelude.{
  ℕ, String, Option, none, some, Bool, true, false, ◌&&◌, not, nat_beq, opt_eq, if◌then◌else◌,
  and_then, is_some,
}
use herdr_agent_watcher.Prelude.Map
use herdr_agent_watcher.Text.{sanitise, is_empty}
use herdr_agent_watcher.Daemon.Store.Types.{
  PaneTelemetry, TelemetryStore, CwdSource, source_lt, is_pane_list, with_agent,
}
use herdr_agent_watcher.Daemon.Store.Broadcast.{mutate_existing, mutate_creating, publish}
use herdr_agent_watcher.Daemon.Store.Record.{opt_is}

abbrev pub same_position : Option ℕ → ℕ → Bool
same_position none n = false
same_position (some m) n = nat_beq m n

-- `workspace.filter(|id| !id.is_empty())`
abbrev pub nonempty : Option String → Option String
nonempty none = none
nonempty (some id) = if is_empty id then none else some id

module _ {V : Type 0} where
  unfoldable pub agent_change : String → PaneTelemetry V → PaneTelemetry V × Bool
  agent_change agent e = (record e { agent = some agent }, not (opt_is e.agent agent))

  unfoldable pub set_agent : TelemetryStore V → String → String → TelemetryStore V
  set_agent st pane_id agent = mutate_creating st pane_id (agent_change agent)

  unfoldable pub cwd_change : String → PaneTelemetry V → PaneTelemetry V × Bool
  cwd_change cwd e =
      if source_lt CwdSource.pane_list e.cwd_source
      then (e, false)
      else if opt_is e.cwd cwd && is_pane_list e.cwd_source
      then (e, false)
      else (record e { cwd = some cwd; cwd_source = CwdSource.pane_list }, true)

  unfoldable pub set_pane_list_cwd : TelemetryStore V → String → Option String → TelemetryStore V
  set_pane_list_cwd st pane_id none = st
  set_pane_list_cwd st pane_id (some raw) =
      let cwd = sanitise raw in
      if is_empty cwd then st else mutate_existing st pane_id (cwd_change cwd)

  unfoldable pub position_change : ℕ → PaneTelemetry V → PaneTelemetry V × Bool
  position_change position e =
      if same_position e.position position
      then (e, false)
      else (record e { position = some position }, true)

  unfoldable pub set_pane_position : TelemetryStore V → String → ℕ → TelemetryStore V
  set_pane_position st pane_id position = mutate_existing st pane_id (position_change position)

  unfoldable pub workspace_change : Option String → PaneTelemetry V → PaneTelemetry V × Bool
  workspace_change workspace e =
      if opt_eq e.workspace_id workspace
      then (e, false)
      else (record e { workspace_id = workspace }, true)

  unfoldable pub set_pane_workspace : TelemetryStore V → String → Option String → TelemetryStore V
  set_pane_workspace st pane_id workspace =
      mutate_existing st pane_id (workspace_change (nonempty workspace))

  -- Only the directory is carried over, as a value that the pane list may refresh.
  unfoldable pub fresh_session : Option (PaneTelemetry V) → String → PaneTelemetry V
  fresh_session old agent =
      let carried = and_then old (λ e. e.cwd) in
      record (with_agent agent) {
        cwd = carried;
        cwd_source = if is_some carried then CwdSource.pane_list else CwdSource.none;
      }

  unfoldable pub replace_session : TelemetryStore V → String → String → TelemetryStore V
  replace_session st pane_id agent =
      publish st pane_id (fresh_session (Map.get st.panes pane_id) agent)
