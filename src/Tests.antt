-- ===== src/Tests.antt =====
-- Runs of the model at concrete inputs, and uses of its theorems there.
mod Screen
mod Scanning
mod Sinking
mod Tailing
mod Watcher
use herdr_agent_watcher.Prelude.{
  ℕ, ◌<◌, ◌≤◌, ◌+◌, ◌==◌, if◌then◌else◌, arith, String, ◌≡◌, any, ◌||◌, true, ◌≢◌, refl, Option,
  none, some, List, [], ◌∷◌, ◌↔◌,
}
use herdr_agent_watcher.Prelude.Map
use herdr_agent_watcher.Prelude.Map.{Map, HasUniqueKeys}
use herdr_agent_watcher.Prelude.StrSet
use herdr_agent_watcher.Text.{
  is_empty, is_whitespace, is_control, map_chars, spaced, trim, sanitise,
}
use herdr_agent_watcher.Text.Sanitise.{
  AllChars, is_printable, StartsSolid, EndsSolid, sanitise_clean, sanitise-sanitise,
}
use herdr_agent_watcher.Json.Model.{Tree, str, object_of, tree_json}
use herdr_agent_watcher.Herdr.{PaneInfo, session_value}
use herdr_agent_watcher.Terminal.{new, upsert_pane, remove_pane, generation}
use herdr_agent_watcher.Terminal.Generations.{
  Op, upsert, leave, step, run, generations_differ, generation_again,
}
use herdr_agent_watcher.Agents.{AgentAdapter, Registry, new_registry}
use herdr_agent_watcher.Sidebar.Reducer.{
  Delta, empty_state, bad_json, err, Codec, apply_delta, apply_line,
}
use herdr_agent_watcher.Sidebar.Reducer.Lines.{
  last_seq_max, apply_delta-apply_delta, apply_line_err,
}
use herdr_agent_watcher.Daemon.Store.Types.{TelemetryStore, empty_store, with_agent}
use herdr_agent_watcher.Daemon.Store.Call.{Call, call}
use herdr_agent_watcher.Daemon.Store.Announce.{Announces, call-Announces}
use herdr_agent_watcher.Daemon.Store.Domain.{has_card, card_after, has_card-call}
use herdr_agent_watcher.Daemon.Store.WellFormed.{
  AllWellFormed, call-AllWellFormed, empty-AllWellFormed,
}
use herdr_agent_watcher.Daemon.Store.Record.{on_event}
use herdr_agent_watcher.Daemon.Store.Silent.{SilentAt, on_event-silent}
use herdr_agent_watcher.Daemon.Mirror.{System, connect, start, connects, calls, started, next}
use herdr_agent_watcher.Daemon.Mirror.Sync.{InSync, Reach-InSync}
use herdr_agent_watcher.Daemon.Reconcile.{Binding, Action, rank, action_le, diff, apply}
use herdr_agent_watcher.Daemon.Reconcile.Actions.{action_for, HasDistinctTargets}
use herdr_agent_watcher.Daemon.Reconcile.Diff.{
  listed, wanted, decision, diff-HasDistinctTargets, action_for-diff,
}
use herdr_agent_watcher.Prelude.Sort.{sort, IsSorted}
use herdr_agent_watcher.Daemon.Reconcile.Converge.{settled, apply-diff, diff-apply}
use herdr_agent_watcher.Daemon.Routes.{
  Refusal, BridgeRoutes, no_routes, bind, drop_session, drop_refusal, settle, resolve,
}
use herdr_agent_watcher.Daemon.Routes.Refused.{resolve_path, refusals-resolve}
use herdr_agent_watcher.Daemon.Routes.Threads
use herdr_agent_watcher.Daemon.Routes.Threads.{
  binds, resolves, unbinds, Event, starts, goes_on, at_rest,
}
use herdr_agent_watcher.Daemon.Routes.Interleaved.{is_bind, is_offer, is_unbind, refusals-run}
use herdr_agent_watcher.Daemon.Loop.{Daemon, tick}
use herdr_agent_watcher.Daemon.Loop.Invariant.{CardsMatch, tick-CardsMatch, tick-HasUniqueKeys}

sanitise_run : sanitise "  a\tb  " ≡ "a b"
unfolding sanitise trim is_empty is_whitespace is_control map_chars spaced
sanitise_run = refl

sanitise_clean_example :
    AllChars is_printable (sanitise " a\tb")
    × StartsSolid (sanitise " a\tb")
    × EndsSolid (sanitise " a\tb")
sanitise_clean_example = sanitise_clean " a\tb"

sanitise-sanitise_example : sanitise (sanitise " a\tb") ≡ sanitise " a\tb"
sanitise-sanitise_example = sanitise-sanitise " a\tb"

-- A pane that Herdr lists with the agent and the session given.
abbrev listed_pane : String → String → String → PaneInfo
listed_pane p agent session = record {
  pane_id = p;
  workspace_id = "w1";
  agent = some agent;
  agent_session =
      some (record { source = none; agent = some agent; kind = none; value = some session });
  cwd = some "/src";
  foreground_cwd = none;
}

abbrev two_bound : Map Binding
two_bound = ("p1", ("claude", "s1")) ∷ ("p2", ("codex", "s2")) ∷ []

two_bound-HasUniqueKeys : HasUniqueKeys two_bound
unfolding Map.get
two_bound-HasUniqueKeys = (refl, (refl, tt))

-- `p1` has a new session, `p2` is gone, `p3` is new.
abbrev two_panes : List PaneInfo
two_panes = listed_pane "p1" "claude" "s9" ∷ listed_pane "p3" "codex" "s3" ∷ []

diff_run :
    diff two_bound two_panes
    ≡ Action.unbind "p2"
      ∷ Action.rebind "p1" ("claude", "s9")
      ∷ Action.bind "p3" ("codex", "s3")
      ∷ []
unfolding diff sort StrSet.contains StrSet.insert Map.get session_value Map.insert
diff_run = refl

action_for-diff_example :
    action_for (diff two_bound two_panes) "p2"
    ≡ decision "p2" (Map.get two_bound "p2") (listed two_panes "p2") (wanted two_panes "p2")
action_for-diff_example = action_for-diff two_bound two_panes two_bound-HasUniqueKeys "p2"

apply-diff_example :
    Map.get (apply two_bound (diff two_bound two_panes)) "p1"
    ≡ settled (Map.get two_bound "p1") (listed two_panes "p1") (wanted two_panes "p1")
apply-diff_example = apply-diff two_bound two_panes two_bound-HasUniqueKeys "p1"

diff-apply_example : diff (apply two_bound (diff two_bound two_panes)) two_panes ≡ []
diff-apply_example = diff-apply two_bound two_panes two_bound-HasUniqueKeys

abbrev one_card : TelemetryStore Tree
one_card = call tree_json empty_store (Call.agent "p1" "claude")

abbrev title : Call Tree
title = Call.event "p1" "agent-session-title" (object_of (("title", str "fix") ∷ []))

call-Announces_example : Announces one_card (call tree_json one_card title)
call-Announces_example = call-Announces tree_json one_card title

has_card-call_example :
    has_card (call tree_json one_card title) "p2" ≡ card_after title "p2" (has_card one_card "p2")
has_card-call_example = has_card-call tree_json one_card title "p2"

call-AllWellFormed_example : AllWellFormed one_card
call-AllWellFormed_example =
    call-AllWellFormed tree_json empty_store (Call.agent "p1" "claude") empty-AllWellFormed

on_event-silent_example :
    SilentAt
      (with_agent "claude")
      (on_event tree_json "agent-cwd" (object_of (("cwd", str "/src") ∷ [])) (with_agent "claude"))
on_event-silent_example =
    on_event-silent tree_json "agent-cwd" (object_of (("cwd", str "/src") ∷ []))
      (with_agent "claude")

abbrev watched : System Tree
watched = connect "0.9.0" start

Reach-InSync_example :
    InSync (record watched { store = call tree_json watched.store (Call.agent "p1" "claude") })
Reach-InSync_example =
    Reach-InSync tree_json
      (next (next started (connects "0.9.0")) (calls (Call.agent "p1" "claude")))

abbrev gone : Delta Tree
gone = record { seq = 4; pane_id = "p1"; telemetry = none }

apply_delta-apply_delta_example :
    apply_delta (apply_delta empty_state gone) gone ≡ apply_delta empty_state gone
apply_delta-apply_delta_example = apply_delta-apply_delta empty_state gone gone (omega arith)

-- A reader that refuses every line.
abbrev no_codec : Codec tree_json
no_codec = record {
  from_str = λ s. err (bad_json s);
  hello_of = λ v. err (bad_json "hello");
  delta_of = λ v. err (bad_json "delta");
}

refused_line : (apply_line tree_json no_codec empty_state "x").1 ≡ err (bad_json "x")
unfolding apply_line trim is_empty is_whitespace
refused_line = refl

apply_line_err_example : (apply_line tree_json no_codec empty_state "x").0 ≡ empty_state
apply_line_err_example =
    apply_line_err tree_json no_codec empty_state "x" (bad_json "x") refused_line

abbrev some_path : String → Option String
some_path p = some "/status"

abbrev one_route : BridgeRoutes
one_route = bind no_routes "p1" "s1"

resolve_path_example :
    ((resolve some_path one_route "p1" "s1").1 ≡ some "/status")
    ↔ ((Map.get one_route.sessions "p1" ≡ some "s1") × (some_path "p1" ≡ some "/status"))
resolve_path_example = resolve_path some_path one_route "p1" "s1" "/status"

refusals-resolve_example :
    (Map.get (resolve some_path one_route "p1" "s9").0.refusals "p1"
      ≡ some (record { offered = "s9"; bound = "s1" }))
    × ((resolve some_path one_route "p1" "s9").0.sessions ≡ one_route.sessions)
unfolding Map.get bind Map.insert
refusals-resolve_example = refusals-resolve some_path one_route "p1" "s9" "p1"

-- A worker resolves while the daemon unbinds the pane: the refusal comes last, and stays.
abbrev route_events : List Event
route_events =
    starts "daemon" (binds "p1" "s1")
    ∷ starts "worker" (resolves "p1" "s9")
    ∷ starts "daemon" (unbinds "p1")
    ∷ goes_on "daemon" none
    ∷ goes_on "worker" none
    ∷ []

abbrev late_refusal : Refusal
late_refusal = record { offered = "s9"; bound = "s1" }

route_run :
    (Map.get (Threads.run at_rest route_events).routes.refusals "p1" ≡ some late_refusal)
    × (Map.get (Threads.run at_rest route_events).routes.sessions "p1" ≡ none)
unfolding Threads.run Threads.step Threads.begin Threads.finish bind drop_session drop_refusal
    settle Map.get Map.insert Map.remove
route_run = (refl, refl)

refusals-run_example :
    (late_refusal.offered ≢ late_refusal.bound)
    × (any (is_offer "p1" "s9") route_events ≡ true)
    × (any (is_bind "p1" "s1") route_events ≡ true)
    × ((Map.has (Threads.run at_rest route_events).routes.sessions "p1"
          || any (is_unbind "p1") route_events)
        ≡ true)
refusals-run_example = refusals-run route_events "p1" late_refusal route_run.0

abbrev two_upserts : List Op
two_upserts = upsert "p1" (some 7) none 0 ∷ upsert "p2" none none 1 ∷ []

generation_run : generation (run new two_upserts) "p2" ≡ some 2
unfolding run step upsert_pane generation Map.get Map.insert
generation_run = refl

generations_differ_example : ◌≡◌ {A = String} "p2" "p2"
generations_differ_example =
    generations_differ two_upserts "p2" "p2" 2 generation_run generation_run

generation_back :
    generation (run (step (run new two_upserts) (leave "p2")) (upsert "p2" none none 3 ∷ [])) "p2"
    ≡ some 3
unfolding run step upsert_pane remove_pane generation Map.get Map.remove Map.insert
generation_back = refl

generation_again_example : 2 < 3
generation_again_example =
    generation_again two_upserts (upsert "p2" none none 3 ∷ []) "p2" 2 3 generation_run
      generation_back

-- An adapter whose watchers start for "claude" and fail for "codex". Its world is the number of its
-- calls.
abbrev fake_adapter : AgentAdapter ℕ Tree
fake_adapter = record {
  ids = "claude" ∷ "codex" ∷ [];
  bind = λ n pane. record {
    world = n + 1;
    events =
        record {
          pane_id = pane.pane_id;
          event = "agent-cwd";
          payload = object_of (("cwd", str "/src") ∷ []);
        }
        ∷ [];
    error = if pane.agent_id == "codex" then some "no transcript" else none;
  };
  unbind = λ n pane_id. record { world = n + 1; events = []; error = none };
}

abbrev fake_registry : Registry ℕ Tree
fake_registry = new_registry (fake_adapter ∷ [])

abbrev new_daemon : Daemon ℕ Tree
new_daemon = record { bindings = []; store = empty_store; pty = new; skipped = []; world = 0 }

new_daemon-CardsMatch : CardsMatch new_daemon
unfolding Map.get
new_daemon-CardsMatch = record { card_iff_bound = λ k. refl }

tick-CardsMatch_example :
    CardsMatch (tick tree_json fake_registry (λ p. none) 0 new_daemon two_panes)
tick-CardsMatch_example =
    tick-CardsMatch tree_json fake_registry (λ p. none) 0 new_daemon two_panes tt
      new_daemon-CardsMatch
