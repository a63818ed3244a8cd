-- ===== src/Tests/Sinking.antt =====
-- Runs and uses of the theorems on the sink and on the sweep.
use herdr_agent_watcher.Prelude.{List, true, refl}
use herdr_agent_watcher.Prelude.Sort.{sort}
use herdr_agent_watcher.Daemon.Prune.{
  SessionView, WorkspaceView, sweep, sweep_each, stale_sessions, inventory, found, sessions_of,
  session_of, last_write, newest_of, dir_size,
}
use herdr_agent_watcher.Prelude.{String, ◌≡◌, Option, none, some, [], ◌∷◌, and_then}
use herdr_agent_watcher.Json.{str_field}
use herdr_agent_watcher.Json.Model.{Tree, tree_json, str, object_of}
use herdr_agent_watcher.Daemon.Store.Types.{empty_store}
use herdr_agent_watcher.Daemon.Store.Normalise.{normalise_event}
use herdr_agent_watcher.Daemon.Sink.{PortCall, Scalars, HerdrSink, emit_json}
use herdr_agent_watcher.Daemon.Sink.Effects.{pane_key, stored, store-emit_json}

abbrev no_scalars : Scalars Tree
no_scalars = record { number_text = λ v. none; decimal_text = λ v. none; as_bool = λ v. none }

-- Herdr answers nothing.
abbrev unreachable : PortCall → Option String
unreachable c = some "no answer"

abbrev cwd_payload : Tree
cwd_payload = object_of (("sessionId", str "p1") ∷ ("cwd", str "/src") ∷ [])

abbrev empty_sink : HerdrSink Tree
empty_sink = record { store = empty_store; calls = [] }

store-emit_json_example :
    (emit_json tree_json no_scalars unreachable empty_sink "agent-cwd" cwd_payload).0.store
    ≡ stored tree_json no_scalars unreachable empty_store
        (and_then
          (pane_key tree_json no_scalars unreachable "agent-cwd")
          (str_field tree_json (normalise_event tree_json "agent-cwd" cwd_payload)))
        "agent-cwd"
        (normalise_event tree_json "agent-cwd" cwd_payload)
store-emit_json_example =
    store-emit_json tree_json no_scalars unreachable empty_sink "agent-cwd" cwd_payload

-- Two sessions, of which one was written lately in place.
abbrev old_session : SessionView
old_session = record {
  path = "/s/1";
  name = "p1";
  is_dir = true;
  metadata = some record { modified = some 10; len = 0 };
  entries = some (some record { modified = some 20; len = 5 } ∷ []);
}

abbrev used_session : SessionView
used_session = record old_session {
  path = "/s/2";
  entries = some (some record { modified = some 90; len = 7 } ∷ none ∷ []);
}

abbrev workspaces : List WorkspaceView
workspaces = record { name = "w"; sessions = some (old_session ∷ used_session ∷ []) } ∷ []

sweep_run : sweep (λ path. true) (some workspaces) 50 100 ≡ ("/s/1" ∷ [], 5)
unfolding sweep sweep_each stale_sessions inventory found sessions_of session_of last_write
    newest_of dir_size sort
sweep_run = refl
