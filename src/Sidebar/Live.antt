-- ===== src/Sidebar/Live.antt =====
-- The settings in force, and the keys that step them: src/sidebar/live.rs, with the choices of
-- src/sidebar/config.rs.
pub mod Steps
use herdr_agent_watcher.Prelude.{
  ℕ, ◌+◌, ◌-◌, ◌%◌, ◌^◌, min, max, String, Option, List, [], ◌∷◌, Bool, true, false, not, ltb,
  or_else, unwrap_or, if◌then◌else◌,
}
use mathlib.Core.Option
use herdr_agent_watcher.Sidebar.Select.{SortMode}

pub data Theme : Type 0 where
  inherit lumon : Theme

pub data AgentMark : Type 0 where
  dot initial symbol : AgentMark

pub data AutoExpand : Type 0 where
  none all : AutoExpand

pub data ToolCallStyle : Type 0 where
  bars jar : ToolCallStyle

pub data Scope : Type 0 where
  all workspace : Scope

pub record Live : Type 0 where
  pub sort : SortMode
  pub scope : Scope
  pub workspace : Option String
  pub hide_idle : Bool
  pub auto_expand : AutoExpand
  pub tool_calls : ToolCallStyle
  pub trace_lines : ℕ
  pub plan_usage : Bool
  pub mouse : Bool
  pub theme : Theme
  pub agent_mark : AgentMark
  pub interval_ms : ℕ
  pub prune_after_days : ℕ

-- The first rung above the value.
unfoldable pub next_rung : List ℕ → ℕ → Option ℕ
next_rung [] current = Option.none
next_rung (r ∷ rs) current = if ltb current r then Option.some r else next_rung rs current

-- The last rung below the value: the search from the end.
unfoldable pub previous_rung : List ℕ → ℕ → Option ℕ
previous_rung [] current = Option.none
previous_rung (r ∷ rs) current =
    or_else (previous_rung rs current) (if ltb r current then Option.some r else Option.none)

abbrev pub last_rung : ℕ → List ℕ → ℕ
last_rung r [] = r
last_rung r (s ∷ rs) = last_rung s rs

-- A ladder has a first rung; the direction is up or down.
unfoldable pub step_ladder : ℕ → List ℕ → ℕ → Bool → ℕ
unfolding next_rung previous_rung
step_ladder first rest current true =
    unwrap_or (next_rung (first ∷ rest) current) (last_rung first rest)
step_ladder first rest current false = unwrap_or (previous_rung (first ∷ rest) current) first

abbrev pub intervals_ms : List ℕ
intervals_ms = 500 ∷ 1000 ∷ 2000 ∷ 3000 ∷ 5000 ∷ 10000 ∷ []

abbrev pub retentions_days : List ℕ
retentions_days = 7 ∷ 14 ∷ 30 ∷ []

unfoldable pub workspace_filter : Live → Option String
workspace_filter live = elim live.scope [
  | Scope.all ↦ Option.none
  | Scope.workspace ↦ live.workspace
]

pub data Setting : Type 0 where
  sort scope hide_idle auto_expand tool_calls trace_lines plan_usage mouse theme agent_mark :
      Setting
  interval_ms prune_after_days : Setting

abbrev pub next_sort : SortMode → SortMode
next_sort SortMode.position = SortMode.smart
next_sort SortMode.smart = SortMode.group
next_sort SortMode.group = SortMode.position

abbrev pub next_mark : AgentMark → AgentMark
next_mark AgentMark.dot = AgentMark.initial
next_mark AgentMark.initial = AgentMark.symbol
next_mark AgentMark.symbol = AgentMark.dot

abbrev pub next_theme : Theme → Theme
next_theme Theme.inherit = Theme.lumon
next_theme Theme.lumon = Theme.inherit

abbrev pub next_expand : AutoExpand → AutoExpand
next_expand AutoExpand.none = AutoExpand.all
next_expand AutoExpand.all = AutoExpand.none

abbrev pub next_style : ToolCallStyle → ToolCallStyle
next_style ToolCallStyle.bars = ToolCallStyle.jar
next_style ToolCallStyle.jar = ToolCallStyle.bars

unfoldable pub cycle_scope : Live → Option String → Live
cycle_scope live here = elim live.scope [
  | Scope.all ↦ elim here [
    | Option.some id ↦ record live { scope = Scope.workspace; workspace = Option.some id }
    | Option.none ↦ live
  ]
  | Scope.workspace ↦ record live { scope = Scope.all; workspace = Option.none }
]

-- The number of trace lines is a `u8`, and its sum wraps.
unfoldable pub cycle : Live → Setting → Option String → Live
unfolding cycle_scope
cycle live Setting.sort here = record live { sort = next_sort live.sort }
cycle live Setting.scope here = cycle_scope live here
cycle live Setting.hide_idle here = record live { hide_idle = not live.hide_idle }
cycle live Setting.auto_expand here = record live { auto_expand = next_expand live.auto_expand }
cycle live Setting.tool_calls here = record live { tool_calls = next_style live.tool_calls }
cycle live Setting.trace_lines here = record live {
  trace_lines = min ((live.trace_lines + 1) % 2 ^ 8) 20;
}
cycle live Setting.plan_usage here = record live { plan_usage = not live.plan_usage }
cycle live Setting.mouse here = record live { mouse = not live.mouse }
cycle live Setting.theme here = record live { theme = next_theme live.theme }
cycle live Setting.agent_mark here = record live { agent_mark = next_mark live.agent_mark }
cycle live Setting.interval_ms here = record live {
  interval_ms = step_ladder 250 intervals_ms live.interval_ms true;
}
cycle live Setting.prune_after_days here = record live {
  prune_after_days = step_ladder 0 retentions_days live.prune_after_days true;
}

unfoldable pub cycle_back : Live → Setting → Option String → Live
unfolding cycle
cycle_back live Setting.trace_lines here = record live {
  trace_lines = max (live.trace_lines - 1) 1;
}
cycle_back live Setting.interval_ms here = record live {
  interval_ms = step_ladder 250 intervals_ms live.interval_ms false;
}
cycle_back live Setting.prune_after_days here = record live {
  prune_after_days = step_ladder 0 retentions_days live.prune_after_days false;
}
cycle_back live other here = cycle live other here
