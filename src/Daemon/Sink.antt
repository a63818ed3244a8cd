-- ===== src/Daemon/Sink.antt =====
-- src/daemon/sink.rs: what the daemon does with an event of an adapter, for the store and for Herdr.
pub mod Effects
use mathlib.Core.Option
use herdr_agent_watcher.Prelude.{
  String, Option, none, some, List, [], ◌∷◌, ◌++◌, Bool, true, false, ◌||◌, ◌==◌, or_else, and_then,
  unwrap_or, if◌then◌else◌,
}
use herdr_agent_watcher.Json.{Json, str_field}
use herdr_agent_watcher.Daemon.Store.Types.{TelemetryStore}
use herdr_agent_watcher.Daemon.Store.Normalise.{normalise_event}
use herdr_agent_watcher.Daemon.Store.Record.{record_event}

-- `HashMap<String, Option<String>>`, of which the sink builds one for each report.
abbrev pub Tokens : Type 0
Tokens = List (String × Option String)

-- A call of the port to Herdr.
pub data PortCall : Type 0 where
  notify : String → String → PortCall
  report_metadata : String → Tokens → PortCall

-- What serde_json and the standard library make of a number or a Boolean: the text of the number, its
-- text with one decimal where it fits a `f64`, and the Boolean.
pub record Scalars (V : Type 0) : Type 0 where
  pub number_text : V → Option String
  pub decimal_text : V → Option String
  pub as_bool : V → Option Bool

-- The store, and the calls of the port so far.
pub record HerdrSink (V : Type 0) : Type 0 where
  pub store : TelemetryStore V
  pub calls : List PortCall

abbrev pub bool_text : Bool → String
bool_text b = if b then "true" else "false"

-- An error, if there is one, is the result.
module _ (J : Json) (scalars : Scalars J.Value) (fails : PortCall → Option String) where
  open J use {Value, get, as_str}

  unfoldable pub token : Value → Option String
  token v =
      or_else (as_str v)
        (or_else (scalars.number_text v) (Option.map bool_text (scalars.as_bool v)))

  unfoldable pub token_pct : Value → Option String
  token_pct v = elim (scalars.number_text v) [
    | none ↦ token v
    | some text ↦ some (unwrap_or (scalars.decimal_text v) text)
  ]

  -- `token(&payload[key])`; a missing key reads as null.
  abbrev pub token_of : Value → String → Option String
  token_of v key = and_then (get v key) token

  -- The port is called; the result is its error.
  unfoldable pub port : HerdrSink Value → PortCall → HerdrSink Value × Option String
  port s c = (record s { calls = s.calls ++ c ∷ [] }, fails c)

  unfoldable pub store_event : HerdrSink Value → String → String → Value → HerdrSink Value
  store_event s pane_id event payload = record s {
    store = record_event J s.store pane_id event payload;
  }

  -- The event is stored where it names a pane.
  unfoldable pub store_if : HerdrSink Value → Option String → String → Value → HerdrSink Value
  store_if s none event payload = s
  store_if s (some pane_id) event payload = store_event s pane_id event payload

  abbrev pub notice : String → Value → PortCall
  notice event payload =
      notify (unwrap_or (str_field J payload "title") "Agent Watcher")
        (unwrap_or (str_field J payload "body") event)

  unfoldable pub on_notification :
      HerdrSink Value → String → Value → HerdrSink Value × Option String
  on_notification s event payload =
      port (store_if s (str_field J payload "ptyId") event payload) (notice event payload)

  -- A report that fails is logged and nothing else.
  unfoldable pub on_attention : HerdrSink Value → String → Value → HerdrSink Value × Option String
  on_attention s event payload =
      let (s', result) = port s (notice event payload) in
      elim (str_field J payload "ptyId") [
        | none ↦ (s', result)
        | some pane_id ↦ (
          (port (store_event s' pane_id event payload)
              (report_metadata pane_id (("agent_watcher_attention", some "true") ∷ []))).0,
          result,
        )
      ]

  -- The tokens of an event that is reported.
  unfoldable pub tokens_of : String → Value → Option Tokens
  tokens_of event payload =
      if event == "agent-status"
      then some (
          ("agent_watcher_state", some "active")
          ∷ ("agent_watcher_model", token_of payload "modelDisplayName")
          ∷ (
            "agent_watcher_context_pct",
            and_then (and_then (get payload "contextWindow") (λ v. get v "usedPercentage"))
                token_pct,
          )
          ∷ (
            "agent_watcher_cost_usd",
            and_then (get payload "cost") (λ v. token_of v "totalCostUsd"),
          )
          ∷ [])
      else if event == "agent-lifecycle"
      then some (("agent_watcher_phase", token_of payload "phase") ∷ [])
      else if event == "agent-session-title"
      then some (("agent_watcher_title", token_of payload "title") ∷ [])
      else none

  unfoldable pub report : HerdrSink Value → String → Option Tokens → HerdrSink Value × Option String
  report s pane_id none = (s, none)
  report s pane_id (some tokens) = port s (report_metadata pane_id tokens)

  -- An event of a session: it is stored, and reported if it has tokens.
  unfoldable pub on_session : HerdrSink Value → String → Value → HerdrSink Value × Option String
  on_session s event payload = elim (str_field J payload "sessionId") [
    | none ↦ (s, none)
    | some pane_id ↦ report (store_event s pane_id event payload) pane_id (tokens_of event payload)
  ]

  abbrev pub is_session_event : String → Bool
  is_session_event event =
      (event == "agent-status")
      || ((event == "agent-lifecycle")
          || ((event == "agent-session-title")
              || ((event == "agent-cwd")
                  || ((event == "agent-tool-call") || (event == "agent-replay-summary")))))

  unfoldable pub emit_normal : HerdrSink Value → String → Value → HerdrSink Value × Option String
  emit_normal s event payload =
      if event == "agent-notification"
      then on_notification s event payload
      else if event == "agent-attention"
      then on_attention s event payload
      else if is_session_event event
      then on_session s event payload
      else (s, none)

  unfoldable pub emit_json : HerdrSink Value → String → Value → HerdrSink Value × Option String
  emit_json s event payload = emit_normal s event (normalise_event J event payload)
