-- ===== src/Terminal.antt =====
-- The registry of panes, src/terminal/state.rs. The process-wide counter of generations is a field
-- of the state; the test-only sessions are left out. A time is a number.
pub mod Generations
use herdr_agent_watcher.Prelude.{ℕ, ◌+◌, String, Option, none, some, List, [], and_then, or_else}
use mathlib.Core.Option
use herdr_agent_watcher.Prelude.Map
use herdr_agent_watcher.Prelude.Map.{Map}

pub record PaneRuntime : Type 0 where
  pub pid : Option ℕ
  pub cwd : Option String
  pub started_at : ℕ
  pub generation : ℕ

pub record PtyState : Type 0 where
  pub panes : Map PaneRuntime
  pub counter : ℕ

abbrev pub new : PtyState
new = record { panes = []; counter = 0 }

unfoldable pub upsert_pane : PtyState → String → Option ℕ → Option String → ℕ → PtyState
upsert_pane st pane_id pid cwd now = elim (Map.get st.panes pane_id) [
  | some pane ↦ record st {
    panes =
        Map.insert st.panes pane_id
          (record pane { pid = or_else pid pane.pid; cwd = or_else cwd pane.cwd });
  }
  | none ↦ record {
    panes =
        Map.insert st.panes pane_id
          (record { pid = pid; cwd = cwd; started_at = now; generation = st.counter + 1 });
    counter = st.counter + 1;
  }
]

unfoldable pub remove_pane : PtyState → String → PtyState
remove_pane st pane_id = record st { panes = Map.remove st.panes pane_id }

unfoldable pub get_pid : PtyState → String → Option ℕ
get_pid st id = and_then (Map.get st.panes id) (λ pane. pane.pid)

unfoldable pub get_cwd : PtyState → String → Option String
get_cwd st id = and_then (Map.get st.panes id) (λ pane. pane.cwd)

unfoldable pub get_started_at : PtyState → String → Option ℕ
get_started_at st id = Option.map (λ pane. pane.started_at) (Map.get st.panes id)

unfoldable pub generation : PtyState → String → Option ℕ
generation st id = Option.map (λ pane. pane.generation) (Map.get st.panes id)
