-- ===== src/Daemon/Sink/Effects.antt =====
-- What src/daemon/sink.rs does to the store, and when it fails.
use herdr_agent_watcher.Prelude.{
  String, ◌≡◌, refl, Option, none, some, ◌||◌, ◌==◌, and_then, if◌then◌else◌, Bool-cases,
  Option-cases, inl, inr,
}
use herdr_agent_watcher.Json.{Json, str_field}
use herdr_agent_watcher.Daemon.Store.Types.{TelemetryStore}
use herdr_agent_watcher.Daemon.Store.Normalise.{normalise_event}
use herdr_agent_watcher.Daemon.Store.Record.{record_event}
use herdr_agent_watcher.Daemon.Sink.{
  Tokens, PortCall, Scalars, HerdrSink, port, store_event, store_if, on_notification, on_attention,
  tokens_of, report, on_session, is_session_event, emit_normal, emit_json,
}

module _ (J : Json) (scalars : Scalars J.Value) (fails : PortCall → Option String) where
  open J use {Value}

  -- The key under which an event names its pane, if it is one that the store takes.
  abbrev pub pane_key : String → Option String
  pane_key event =
      if (event == "agent-notification") || (event == "agent-attention")
      then some "ptyId"
      else if is_session_event J scalars fails event
      then some "sessionId"
      else none

  -- The store after an event for a pane, if there is one.
  unfoldable pub stored :
      TelemetryStore Value → Option String → String → Value → TelemetryStore Value
  stored st none event payload = st
  stored st (some pane_id) event payload = record_event J st pane_id event payload

  store-on_notification :
      (s : HerdrSink Value) (event : String) (payload : Value)
      → (on_notification J scalars fails s event payload).0.store
        ≡ stored s.store (str_field J payload "ptyId") event payload
  unfolding on_notification store_if store_event port stored
  store-on_notification s event payload = elim (Option-cases (str_field J payload "ptyId")) [
    | inl e ↦ rw e
    | inr (pane_id, e) ↦ rw e
  ]

  store-on_attention :
      (s : HerdrSink Value) (event : String) (payload : Value)
      → (on_attention J scalars fails s event payload).0.store
        ≡ stored s.store (str_field J payload "ptyId") event payload
  unfolding on_attention store_event port stored
  store-on_attention s event payload = elim (Option-cases (str_field J payload "ptyId")) [
    | inl e ↦ rw (e, on_attention)
    | inr (pane_id, e) ↦ rw (e, on_attention)
  ]

  store-report :
      (s : HerdrSink Value) (pane_id : String) (tokens : Option Tokens)
      → (report J scalars fails s pane_id tokens).0.store ≡ s.store
  unfolding report port
  store-report s pane_id none = refl
  store-report s pane_id (some tokens) = refl

  store-on_session :
      (s : HerdrSink Value) (event : String) (payload : Value)
      → (on_session J scalars fails s event payload).0.store
        ≡ stored s.store (str_field J payload "sessionId") event payload
  unfolding on_session store_event stored
  store-on_session s event payload = elim (Option-cases (str_field J payload "sessionId")) [
    | inl e ↦ rw (e, on_session)
    | inr (pane_id, e) ↦
        rw (e, on_session)
          (store-report (store_event J scalars fails s pane_id event payload) pane_id
            (tokens_of J scalars fails event payload))
  ]

  -- The store takes an event exactly if it is one of the eight kinds and its payload, with its
  -- texts sanitised, names its pane under the key of its kind; whatever Herdr answers.
  pub store-emit_json :
      (s : HerdrSink Value) (event : String) (payload : Value)
      → (emit_json J scalars fails s event payload).0.store ≡ (
          let payload' = normalise_event J event payload in
          stored s.store (and_then (pane_key event) (str_field J payload')) event payload')
  unfolding emit_json emit_normal stored
  store-emit_json s event payload =
      let payload' = normalise_event J event payload in
      elim (Bool-cases (event == "agent-notification")) [
        | inl e ↦ rw e (store-on_notification s event payload')
        | inr e ↦ elim (Bool-cases (event == "agent-attention")) [
          | inl f ↦ rw (e, f) (store-on_attention s event payload')
          | inr f ↦ elim (Bool-cases (is_session_event J scalars fails event)) [
            | inl g ↦ rw (e, f, g) (store-on_session s event payload')
            | inr g ↦ rw (e, f, g)
          ]
        ]
      ]
