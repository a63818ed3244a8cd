-- ===== src/Tests/Screen.antt =====
-- Runs and uses of the theorems on what the sidebar shows.
use mathlib.Core.List.{Perm}
use herdr_agent_watcher.Prelude.{
  ◌+◌, ◌≤◌, ◌<◌, ◌≡◌, ◌⊎◌, refl, sym, ◌∙◌, ap, String, Bool, Option, none, some, [], ◌∷◌, true,
  false, arith, length, keep_if,
}
use herdr_agent_watcher.Prelude.Map
use herdr_agent_watcher.Prelude.Map.{Map, HasUniqueKeys}
use herdr_agent_watcher.Prelude.Sort.{IsSorted}
use herdr_agent_watcher.Json.Model.{Tree}
use herdr_agent_watcher.Daemon.Store.Types.{PaneTelemetry, CardState, with_agent}
use herdr_agent_watcher.Sidebar.Layout.{
  LineSpan, ensure_visible, reanchor, clamp_scroll, body, card_at,
}
use herdr_agent_watcher.Sidebar.Layout.Scroll.{
  IsShown, ensure_visible-IsShown, ensure_visible_nearest, reanchor_nearest, card_at_line,
}
use herdr_agent_watcher.Sidebar.Select.{SortMode, Card, rank, is_le, card_cmp, visible}
use herdr_agent_watcher.Sidebar.Select.Shown.{
  InPlace, is_shown, is_hidden, visible-shown, visible-by_position, visible-smart,
}
use herdr_agent_watcher.Sidebar.Live.{
  Live, Setting, Scope, Theme, AgentMark, AutoExpand, ToolCallStyle, cycle, cycle_back,
}
use herdr_agent_watcher.Sidebar.SettingsFile.{
  Item, text, flag, whole, ℤ, pos, Toml, Loaded, set, from_toml, item_for, table_and_key,
}
use herdr_agent_watcher.Sidebar.SettingsFile.RoundTrip.{IsReadBack, set-from_toml}
use herdr_agent_watcher.Sidebar.Live.Steps.{IsInRange, cycle-IsInRange}

abbrev far_card : LineSpan
far_card = record { start = 30; height = 5 }

abbrev tall_card : LineSpan
tall_card = record { start = 30; height = 15 }

ensure_visible_run : ensure_visible 0 far_card 10 50 ≡ 25
unfolding ensure_visible clamp_scroll
ensure_visible_run = refl

ensure_visible-IsShown_example : IsShown (ensure_visible 0 far_card 10 50) 10 far_card
ensure_visible-IsShown_example =
    ensure_visible-IsShown 0 10 50 far_card (omega arith) (omega arith) (omega arith) (omega arith)
      (omega arith)

ensure_visible_nearest_example :
    ((0 ≤ ensure_visible 0 far_card 10 50) × (ensure_visible 0 far_card 10 50 ≤ 28))
    ⊎ ((28 ≤ ensure_visible 0 far_card 10 50) × (ensure_visible 0 far_card 10 50 ≤ 0))
ensure_visible_nearest_example =
    ensure_visible_nearest 0 10 50 far_card (omega arith) (omega arith) (omega arith) 28
      (omega arith) (omega arith) (omega arith) (record { top = omega arith; bottom = omega arith })

reanchor_nearest_example :
    (reanchor 32 far_card (record { start = 20; height = 5 }) 10 50 ≤ 40)
    × (((52 ≤ reanchor 32 far_card (record { start = 20; height = 5 }) 10 50 + 30)
          × (reanchor 32 far_card (record { start = 20; height = 5 }) 10 50 ≤ 40))
        ⊎ ((40 ≤ reanchor 32 far_card (record { start = 20; height = 5 }) 10 50)
            × (reanchor 32 far_card (record { start = 20; height = 5 }) 10 50 + 30 ≤ 52)))
reanchor_nearest_example =
    reanchor_nearest 32 10 50 far_card (record { start = 20; height = 5 }) 40 (omega arith)

card_at_line_example :
    card_at (("a", record { start = 0; height = 4 }) ∷ ("b", far_card) ∷ []) 32 ≡ some ("b", body)
card_at_line_example =
    card_at_line (("a", record { start = 0; height = 4 }) ∷ []) [] "b" far_card 2 (omega arith, tt)
      (omega arith)

abbrev busy : PaneTelemetry Tree
busy = record (with_agent "claude") {
  card_state = CardState.running;
  position = some 1;
  workspace_id = some "w1";
}

abbrev two_cards : Map (PaneTelemetry Tree)
two_cards = ("p1", with_agent "codex") ∷ ("p2", busy) ∷ []

visible-shown_example :
    Perm
      (visible two_cards SortMode.smart true (some "w1")).panes
      (keep_if (is_shown true (some "w1")) two_cards)
    × ((visible two_cards SortMode.smart true (some "w1")).hidden_idle
        ≡ length (keep_if (is_hidden true (some "w1")) two_cards))
visible-shown_example = visible-shown two_cards SortMode.smart true (some "w1")

visible-by_position_example :
    IsSorted
      (λ a b. is_le (card_cmp SortMode.position a b))
      (λ (a b : Card Tree). InPlace a.1.position b.1.position)
      (visible two_cards SortMode.position false none).panes
visible-by_position_example = visible-by_position two_cards false none

visible-smart_example :
    IsSorted
      (λ a b. is_le (card_cmp SortMode.smart a b))
      (λ (a b : Card Tree).
        (rank a.1.card_state < rank b.1.card_state)
        ⊎ ((rank a.1.card_state ≡ rank b.1.card_state) × (b.1.updated_seq ≤ a.1.updated_seq)))
      (visible two_cards SortMode.smart false none).panes
visible-smart_example = visible-smart two_cards false none

abbrev settings : Live
settings = record {
  sort = SortMode.position;
  scope = Scope.all;
  workspace = none;
  hide_idle = false;
  auto_expand = AutoExpand.none;
  tool_calls = ToolCallStyle.bars;
  trace_lines = 20;
  plan_usage = true;
  mouse = true;
  theme = Theme.inherit;
  agent_mark = AgentMark.dot;
  interval_ms = 1000;
  prune_after_days = 7;
}

cycle-IsInRange_example :
    IsInRange (cycle settings Setting.trace_lines none)
    × IsInRange (cycle_back settings Setting.trace_lines none)
cycle-IsInRange_example =
    cycle-IsInRange settings Setting.trace_lines none
      (record { few_lines = omega arith; some_lines = omega arith })

data Plain : Type 0 where
  item : Item → Plain
  end_table : Plain
  entry : String → Plain → Plain → Plain

abbrev plain_str : Plain → Option String
plain_str (item (text s)) = some s
plain_str (item (flag b)) = none
plain_str (item (whole n)) = none
plain_str end_table = none
plain_str (entry k v rest) = none

abbrev plain_bool : Plain → Option Bool
plain_bool (item (text s)) = none
plain_bool (item (flag b)) = some b
plain_bool (item (whole n)) = none
plain_bool end_table = none
plain_bool (entry k v rest) = none

abbrev plain_integer : Plain → Option ℤ
plain_integer (item (text s)) = none
plain_integer (item (flag b)) = none
plain_integer (item (whole n)) = some (pos n)
plain_integer end_table = none
plain_integer (entry k v rest) = none

abbrev plain_table : Plain → Option (Map Plain)
plain_table (item i) = none
plain_table end_table = some []
plain_table (entry k v rest) = elim (plain_table rest) [
  | none ↦ none
  | some entries ↦ some ((k, v) ∷ entries)
]

abbrev table_of : Map Plain → Plain
table_of [] = end_table
table_of ((k, v) ∷ entries) = entry k v (table_of entries)

table_of_lem : (entries : Map Plain) → plain_table (table_of entries) ≡ some entries
table_of_lem [] = refl
table_of_lem ((k, v) ∷ entries) = rw (table_of_lem entries, plain_table)

abbrev plain : Toml
plain = record {
  Value = Plain;
  as_str = plain_str;
  as_bool = plain_bool;
  as_integer = plain_integer;
  as_table = plain_table;
  value = item;
  table = table_of;
  as_str-value = λ s. refl;
  as_bool-value = λ b. refl;
  as_integer-value = λ n. refl;
  as_table-table = λ entries u. (entries, table_of_lem entries, u, λ key. refl);
}

abbrev old_list : Map Plain
old_list = ("sort", item (text "smart")) ∷ ("hide_idle", item (flag true)) ∷ []

abbrev old_document : Map Plain
old_document = ("keys", item (whole 3)) ∷ ("list", table_of old_list) ∷ []

abbrev new_document : Map Plain
new_document =
    ("keys", item (whole 3))
    ∷ ("list", table_of (("sort", item (text "position")) ∷ ("hide_idle", item (flag true)) ∷ []))
    ∷ []

abbrev loaded : Loaded
loaded = record {
  theme = Theme.inherit;
  agent_mark = AgentMark.dot;
  auto_expand = AutoExpand.none;
  tool_calls = ToolCallStyle.bars;
  trace_lines = 5;
  plan_usage = true;
  mouse = true;
  sort = SortMode.group;
  hide_idle = false;
  scope = Scope.all;
  prune_after_days = 30;
}

list_unique :
    (v : Plain) (entries : Map Plain)
    → Map.get old_document "list" ≡ some v
    → plain_table v ≡ some entries
    → HasUniqueKeys entries
unfolding Map.get
list_unique v entries h e =
    let value_is : v ≡ table_of old_list = cc h in
    let read : some entries ≡ some old_list = sym e ∙ ap plain_table value_is in
    let same : entries ≡ old_list = cc read in rw same (refl, (refl, tt))

set-from_toml_example : IsReadBack (from_toml plain loaded new_document) settings Setting.sort
unfolding set item_for table_and_key Map.get Map.insert
set-from_toml_example =
    set-from_toml plain loaded settings Setting.sort old_document new_document
      (record { few_lines = omega arith; some_lines = omega arith }) (omega arith)
      (refl, (refl, tt)) list_unique refl
