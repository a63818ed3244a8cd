-- ===== src/Daemon/Routes/Threads.antt =====
-- The calls of src/daemon/routes.rs from several threads: the daemon binds and unbinds, the workers of
-- the bridge resolve. A thread is known by a name. Each of its steps runs under one lock.
use herdr_agent_watcher.Prelude.{String, Option, none, some, List, [], ◌∷◌, if◌then◌else◌}
use herdr_agent_watcher.Prelude.Map
use herdr_agent_watcher.Prelude.Map.{Map}
use herdr_agent_watcher.Daemon.Routes.{
  BridgeRoutes, no_routes, bind, drop_session, drop_refusal, settle,
}

pub data Call : Type 0 where
  binds resolves : String → String → Call
  unbinds : String → Call

-- What a thread still has to do after its first lock.
pub data Pending : Type 0 where
  resolving : String → String → String → Pending
  unbinding : String → Pending

pub record Shared : Type 0 where
  pub routes : BridgeRoutes
  pub pending : Map Pending

abbrev pub at_rest : Shared
at_rest = record { routes = no_routes; pending = [] }

-- A thread makes a call, or goes on with the one that it has made; the watchers are asked for a path
-- only then.
pub data Event : Type 0 where
  starts : String → Call → Event
  goes_on : String → Option String → Event

-- The first lock of a call.
unfoldable pub begin : Shared → String → Call → Shared
begin s thread (binds pane_id session) = record s { routes = bind s.routes pane_id session }
begin s thread (resolves pane_id session) = elim (Map.get s.routes.sessions pane_id) [
  | none ↦ s
  | some bound ↦ record s {
    pending = Map.insert s.pending thread (resolving pane_id session bound);
  }
]
begin s thread (unbinds pane_id) = record {
  routes = drop_session s.routes pane_id;
  pending = Map.insert s.pending thread (unbinding pane_id);
}

-- The second lock of a call.
unfoldable pub finish : Shared → String → Option String → Pending → Shared
finish s thread path (resolving pane_id session bound) = record {
  routes = (settle s.routes pane_id session bound path).0;
  pending = Map.remove s.pending thread;
}
finish s thread path (unbinding pane_id) = record {
  routes = drop_refusal s.routes pane_id;
  pending = Map.remove s.pending thread;
}

-- A thread in the middle of a call makes no other one.
unfoldable pub step : Shared → Event → Shared
step s (starts thread call) = if Map.has s.pending thread then s else begin s thread call
step s (goes_on thread path) = elim (Map.get s.pending thread) [
  | none ↦ s
  | some p ↦ finish s thread path p
]

unfoldable pub run : Shared → List Event → Shared
run s [] = s
run s (e ∷ events) = run (step s e) events
