-- ===== src/Daemon/Store/Record.antt =====
-- `TelemetryStore::record` of src/daemon/store.rs: what each event does to its pane. The Boolean
-- beside the pane is the closure's answer: whether the change is to be announced.
use herdr_agent_watcher.Prelude.{
  ℕ, ◌+◌, String, Option, none, some, List, [], ◌∷◌, ◌++◌, Bool, true, false, ◌&&◌, ◌||◌, not, ltb,
  nat_beq, take, length, ◌==◌, if◌then◌else◌, and_then, unwrap_or,
}
use mathlib.Core.List.{reverse, filter_map}
use herdr_agent_watcher.Prelude.BTree
use herdr_agent_watcher.Prelude.BTree.{BTreeMap, counts_eq}
use herdr_agent_watcher.Prelude.StrSet
use herdr_agent_watcher.Text.{is_empty}
use herdr_agent_watcher.Json.{Json, str_field}
use herdr_agent_watcher.Daemon.Store.Types.{
  PaneTelemetry, TelemetryStore, CardState, CwdSource, card_eq, is_transcript, tool_call_ring,
}
use herdr_agent_watcher.Daemon.Store.Normalise.{normalise_event}
use herdr_agent_watcher.Daemon.Store.Broadcast.{mutate_existing}

-- `field == Some(text)`
abbrev pub opt_is : Option String → String → Bool
opt_is none k = false
opt_is (some s) k = s == k

-- `while calls.len() > TOOL_CALL_RING { calls.pop_front() }`
unfoldable pub trim_ring {ℓ} : {A : Type ℓ} → List A → List A
trim_ring [] = []
trim_ring (x ∷ xs) =
    let rest = trim_ring xs in if ltb tool_call_ring (length (x ∷ xs)) then rest else x ∷ xs

module _ (J : Json) where
  open J use {Value, value_eq, get, as_str, as_u64, as_array, as_object}

  abbrev pub Pane : Type 0
  Pane = PaneTelemetry Value

  -- `PartialEq` of `Option<Value>` against `Some(payload)`
  abbrev pub same_value : Option Value → Value → Bool
  same_value none v = false
  same_value (some w) v = value_eq w v

  -- `PartialEq` of the rings
  unfoldable pub values_eq : List Value → List Value → Bool
  values_eq [] [] = true
  values_eq (v ∷ vs) (w ∷ ws) = value_eq v w && values_eq vs ws
  values_eq _ _ = false

  unfoldable pub on_status : Value → Pane → Pane × Bool
  on_status v e = (record e { status = some v }, not (same_value e.status v))

  unfoldable pub on_title : Value → Pane → Pane × Bool
  on_title v e = (record e { title = some v }, not (same_value e.title v))

  abbrev pub phase_state : Option String → CardState → CardState
  phase_state phase before =
      if opt_is phase "running"
      then CardState.running
      else if opt_is phase "idle" && card_eq before CardState.running
      then CardState.idle
      else before

  unfoldable pub on_lifecycle : Value → Pane → Pane × Bool
  on_lifecycle v e =
      let after = phase_state (str_field J v "phase") e.card_state in
      (
        record e { card_state = after; lifecycle = some v },
        not (card_eq e.card_state after) || not (same_value e.lifecycle v),
      )

  unfoldable pub on_state : CardState → Pane → Pane × Bool
  on_state c e = (record e { card_state = c }, not (card_eq e.card_state c))

  unfoldable pub on_notification : Value → Pane → Pane × Bool
  unfolding on_state
  on_notification v e =
      let reason = str_field J v "reason" in
      if opt_is reason "turn-complete"
      then on_state CardState.finished e
      else if opt_is reason "agent-error"
      then on_state CardState.error e
      else (e, false)

  unfoldable pub on_cwd : Value → Pane → Pane × Bool
  on_cwd v e = elim (str_field J v "cwd") [
    | none ↦ (e, false)
    | some dir ↦
        if opt_is e.cwd dir && is_transcript e.cwd_source
        then (e, false)
        else (record e { cwd = some dir; cwd_source = CwdSource.transcript }, true)
  ]

  unfoldable pub on_tool_running : Value → Pane → Pane × Bool
  on_tool_running v e = elim (str_field J v "toolUseId") [
    | none ↦ (e, false)
    | some id ↦
        if StrSet.contains e.settled_tools id
        then (e, false)
        else (record e { open_tools = StrSet.insert e.open_tools id }, false)
  ]

  -- `payload["tool"].as_str().filter(|t| !t.is_empty()).unwrap_or("unknown")`
  unfoldable pub tool_name : Value → String
  tool_name v = elim (str_field J v "tool") [
    | none ↦ "unknown"
    | some name ↦ if is_empty name then "unknown" else name
  ]

  unfoldable pub on_tool_settled : Value → Pane → Pane × Bool
  unfolding trim_ring tool_name
  on_tool_settled v e =
      let id = unwrap_or (str_field J v "toolUseId") "" in
      let tool = tool_name v in
      if is_empty id || StrSet.contains e.settled_tools id then (e, false) else (
        record e {
          settled_tools = StrSet.insert e.settled_tools id;
          open_tools = StrSet.remove e.open_tools id;
          tool_calls = trim_ring (e.tool_calls ++ v ∷ []);
          tool_call_total = e.tool_call_total + 1;
          tool_counts =
              BTree.insert e.tool_counts tool (unwrap_or (BTree.get e.tool_counts tool) 0 + 1);
        },
        true,
      )

  unfoldable pub on_tool_call : Value → Pane → Pane × Bool
  unfolding on_tool_running on_tool_settled
  on_tool_call v e =
      let status = str_field J v "status" in
      if opt_is status "running"
      then on_tool_running v e
      else if opt_is status "done" || opt_is status "failed"
      then on_tool_settled v e
      else (e, false)

  unfoldable pub replay_total : Value → Pane → Pane × Bool
  replay_total v e = elim (and_then (get v "toolCallTotal") as_u64) [
    | none ↦ (e, false)
    | some total ↦
        if nat_beq e.tool_call_total total
        then (e, false)
        else (record e { tool_call_total = total }, true)
  ]

  -- `map.iter().filter_map(|(k, v)| v.as_u64().map(|n| (k.clone(), n))).collect()`
  unfoldable pub collect_counts : BTreeMap ℕ → List (String × Value) → BTreeMap ℕ
  collect_counts counts [] = counts
  collect_counts counts ((k, v) ∷ rest) =
      collect_counts (elim (as_u64 v) [ none ↦ counts | some n ↦ BTree.insert counts k n ]) rest

  unfoldable pub replay_counts : Value → Pane → Pane × Bool
  unfolding collect_counts
  replay_counts v e = elim (and_then (get v "toolCallByType") as_object) [
    | none ↦ (e, false)
    | some entries ↦
        let counts = collect_counts [] entries in
        if counts_eq e.tool_counts counts
        then (e, false)
        else (record e { tool_counts = counts }, true)
  ]

  unfoldable pub replay_recent : Value → Pane → Pane × Bool
  replay_recent v e = elim (and_then (get v "recentToolCalls") as_array) [
    | none ↦ (e, false)
    | some recent ↦
        let calls = reverse (take tool_call_ring recent) in
        let same = values_eq e.tool_calls calls in
        let kept = if same then e.tool_calls else calls in
        (
          record e {
            tool_calls = kept;
            settled_tools =
                StrSet.extend e.settled_tools
                  (filter_map (λ call. str_field J call "toolUseId") kept);
          },
          not same,
        )
  ]

  unfoldable pub replay_cwd : Value → Pane → Pane × Bool
  replay_cwd v e = elim (str_field J v "cwd") [
    | none ↦ (e, false)
    | some dir ↦
        if not (opt_is e.cwd dir) || not (is_transcript e.cwd_source)
        then (record e { cwd = some dir; cwd_source = CwdSource.transcript }, true)
        else (e, false)
  ]

  -- One step after another; the answer is whether any of them changed something.
  unfoldable pub then_also : (Pane → Pane × Bool) → (Pane → Pane × Bool) → Pane → Pane × Bool
  then_also f g e = let (a, x) = f e in let (b, y) = g a in (b, x || y)

  unfoldable pub on_replay_summary : Value → Pane → Pane × Bool
  unfolding then_also
  on_replay_summary v =
      then_also (replay_total v)
        (then_also (replay_counts v) (then_also (replay_recent v) (replay_cwd v)))

  unfoldable pub on_event : String → Value → Pane → Pane × Bool
  on_event event v e =
      if event == "agent-status"
      then on_status v e
      else if event == "agent-session-title"
      then on_title v e
      else if event == "agent-lifecycle"
      then on_lifecycle v e
      else if event == "agent-attention"
      then on_state CardState.attention e
      else if event == "agent-notification"
      then on_notification v e
      else if event == "agent-cwd"
      then on_cwd v e
      else if event == "agent-tool-call"
      then on_tool_call v e
      else if event == "agent-replay-summary"
      then on_replay_summary v e
      else (e, false)

  unfoldable pub record_event :
      TelemetryStore Value → String → String → Value → TelemetryStore Value
  record_event st pane_id event payload =
      mutate_existing st pane_id (on_event event (normalise_event J event payload))
