-- ===== src/Daemon/Routes.antt =====
-- The routes of the status-line bridge, src/daemon/routes.rs. The watchers answer which status file
-- a pane has; `resolve` takes that answer as an argument. A call takes the locks of the sessions and
-- of the refusals one after the other: Threads interleaves the calls of several threads there.
pub mod Refused
pub mod Threads
pub mod Interleaved
use herdr_agent_watcher.Prelude.{String, Option, none, some, [], not, ◌==◌, if◌then◌else◌, is_some}
use herdr_agent_watcher.Prelude.Map
use herdr_agent_watcher.Prelude.Map.{Map}

pub record Refusal : Type 0 where
  pub offered : String
  pub bound : String

pub record BridgeRoutes : Type 0 where
  pub sessions : Map String
  pub refusals : Map Refusal

abbrev pub no_routes : BridgeRoutes
no_routes = record { sessions = []; refusals = [] }

unfoldable pub bind : BridgeRoutes → String → String → BridgeRoutes
bind r pane_id agent_session = record r { sessions = Map.insert r.sessions pane_id agent_session }

-- What `unbind` does under its first lock, and under its second.
unfoldable pub drop_session : BridgeRoutes → String → BridgeRoutes
drop_session r pane_id = record r { sessions = Map.remove r.sessions pane_id }

unfoldable pub drop_refusal : BridgeRoutes → String → BridgeRoutes
drop_refusal r pane_id = record r { refusals = Map.remove r.refusals pane_id }

-- A call that no other interrupts.
unfoldable pub unbind : BridgeRoutes → String → BridgeRoutes
unfolding drop_session drop_refusal
unbind r pane_id = drop_refusal (drop_session r pane_id) pane_id

-- What `resolve` does after its first lock, under which it has read the session that the pane is bound
-- to, with the path that the watchers name for the pane.
unfoldable pub settle :
    BridgeRoutes → String → String → String → Option String → BridgeRoutes × Option String
settle r pane_id agent_session bound path =
    if not (bound == agent_session)
    then (
      record r {
        refusals =
            Map.insert r.refusals pane_id (record { offered = agent_session; bound = bound });
      },
      none,
    )
    else (
      record r { refusals = if is_some path then Map.remove r.refusals pane_id else r.refusals },
      path,
    )

-- A call that no other interrupts.
unfoldable pub resolve :
    (String → Option String) → BridgeRoutes → String → String → BridgeRoutes × Option String
unfolding settle
resolve current_status_path r pane_id agent_session = elim (Map.get r.sessions pane_id) [
  | none ↦ (r, none)
  | some bound ↦ settle r pane_id agent_session bound (current_status_path pane_id)
]
