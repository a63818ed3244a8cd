-- ===== src/Sidebar/SettingsFile.antt =====
-- The settings in config.toml: how src/sidebar/settings_file.rs writes them and
-- src/sidebar/config.rs reads them. A document is the entries of its tables; the crates toml and
-- toml_edit, which read and print it, are a parameter. The problems that the reading counts, the
-- appearances of agents and the key of the sidebar are left out.
pub mod Entries
pub mod Tables
pub mod RoundTrip
use herdr_agent_watcher.Prelude.{
  ℕ, ◌≡◌, String, Option, none, some, List, [], ◌∷◌, Bool, true, false, ◌^◌, ltb, min, max, ◌==◌,
  and_then, if◌then◌else◌,
}
use herdr_agent_watcher.Prelude.Map
use herdr_agent_watcher.Prelude.Map.{Map, HasUniqueKeys}
use herdr_agent_watcher.Sidebar.Select.{SortMode}
use herdr_agent_watcher.Sidebar.Live.{
  Theme, AgentMark, AutoExpand, ToolCallStyle, Scope, Live, Setting,
}

-- An integer of TOML.
pub data ℤ : Type 0 where
  pos : ℕ → ℤ
  negsuc : ℕ → ℤ

-- What `toml_edit::value` is given.
pub data Item : Type 0 where
  text : String → Item
  flag : Bool → Item
  whole : ℕ → Item

-- `toml::Value`: what is asked of it, and the values that the settings panel writes.
pub record Toml : Type 1 where
  pub Value : Type 0
  pub as_str : Value → Option String
  pub as_bool : Value → Option Bool
  pub as_integer : Value → Option ℤ
  pub as_table : Value → Option (Map Value)
  pub value : Item → Value
  pub table : Map Value → Value
  pub as_str-value : (s : String) → as_str (value (text s)) ≡ some s
  pub as_bool-value : (b : Bool) → as_bool (value (flag b)) ≡ some b
  pub as_integer-value : (n : ℕ) → as_integer (value (whole n)) ≡ some (pos n)
  -- The entries come in an order of the crate's.
  pub as_table-table :
      (entries : Map Value)
      → HasUniqueKeys entries
      → (read : Map Value) × (as_table (table entries) ≡ some read)
        × HasUniqueKeys read
        × ((key : String) → Map.get read key ≡ Map.get entries key)

-- The settings of `Loaded`.
pub record Loaded : Type 0 where
  pub theme : Theme
  pub agent_mark : AgentMark
  pub auto_expand : AutoExpand
  pub tool_calls : ToolCallStyle
  pub trace_lines : ℕ
  pub plan_usage : Bool
  pub mouse : Bool
  pub sort : SortMode
  pub hide_idle : Bool
  pub scope : Scope
  pub prune_after_days : ℕ

unfoldable pub table_and_key : Setting → String × String
table_and_key Setting.sort = ("list", "sort")
table_and_key Setting.scope = ("list", "scope")
table_and_key Setting.hide_idle = ("list", "hide_idle")
table_and_key Setting.auto_expand = ("cards", "auto_expand")
table_and_key Setting.tool_calls = ("cards", "tool_calls")
table_and_key Setting.trace_lines = ("cards", "trace_lines")
table_and_key Setting.plan_usage = ("cards", "plan_usage")
table_and_key Setting.mouse = ("cards", "mouse")
table_and_key Setting.theme = ("appearance", "theme")
table_and_key Setting.agent_mark = ("appearance", "agent_mark")
table_and_key Setting.interval_ms = ("daemon", "interval_ms")
table_and_key Setting.prune_after_days = ("daemon", "prune_after_days")

abbrev pub sort_text : SortMode → String
sort_text SortMode.position = "position"
sort_text SortMode.smart = "smart"
sort_text SortMode.group = "group"

abbrev pub scope_text : Scope → String
scope_text Scope.all = "all"
scope_text Scope.workspace = "workspace"

abbrev pub expand_text : AutoExpand → String
expand_text AutoExpand.none = "none"
expand_text AutoExpand.all = "all"

abbrev pub style_text : ToolCallStyle → String
style_text ToolCallStyle.bars = "bars"
style_text ToolCallStyle.jar = "jar"

abbrev pub theme_text : Theme → String
theme_text Theme.inherit = "inherit"
theme_text Theme.lumon = "lumon"

abbrev pub mark_text : AgentMark → String
mark_text AgentMark.dot = "dot"
mark_text AgentMark.initial = "initial"
mark_text AgentMark.symbol = "symbol"

-- `item_for`, with the texts of `Live::value`.
unfoldable pub item_for : Live → Setting → Item
item_for live Setting.hide_idle = flag live.hide_idle
item_for live Setting.plan_usage = flag live.plan_usage
item_for live Setting.mouse = flag live.mouse
item_for live Setting.trace_lines = whole live.trace_lines
item_for live Setting.interval_ms = whole live.interval_ms
item_for live Setting.prune_after_days = whole live.prune_after_days
item_for live Setting.sort = text (sort_text live.sort)
item_for live Setting.scope = text (scope_text live.scope)
item_for live Setting.auto_expand = text (expand_text live.auto_expand)
item_for live Setting.tool_calls = text (style_text live.tool_calls)
item_for live Setting.theme = text (theme_text live.theme)
item_for live Setting.agent_mark = text (mark_text live.agent_mark)

-- A text that is no choice leaves the setting as it was.
abbrev pub read_sort : Option String → SortMode → SortMode
read_sort none old = old
read_sort (some s) old =
    if s == "position"
    then SortMode.position
    else if s == "smart"
    then SortMode.smart
    else if s == "group"
    then SortMode.group
    else old

abbrev pub read_scope : Option String → Scope → Scope
read_scope none old = old
read_scope (some s) old =
    if s == "all" then Scope.all else if s == "workspace" then Scope.workspace else old

abbrev pub read_expand : Option String → AutoExpand → AutoExpand
read_expand none old = old
read_expand (some s) old =
    if s == "none" then AutoExpand.none else if s == "all" then AutoExpand.all else old

abbrev pub read_style : Option String → ToolCallStyle → ToolCallStyle
read_style none old = old
read_style (some s) old =
    if s == "bars" then ToolCallStyle.bars else if s == "jar" then ToolCallStyle.jar else old

abbrev pub read_theme : Option String → Theme → Theme
read_theme none old = old
read_theme (some s) old =
    if s == "inherit" then Theme.inherit else if s == "lumon" then Theme.lumon else old

abbrev pub read_mark : Option String → AgentMark → AgentMark
read_mark none old = old
read_mark (some s) old =
    if s == "dot"
    then AgentMark.dot
    else if s == "initial"
    then AgentMark.initial
    else if s == "symbol"
    then AgentMark.symbol
    else old

abbrev pub read_flag : Option Bool → Bool → Bool
read_flag none old = old
read_flag (some b) old = b

-- Clamped to 1..=20.
abbrev pub read_lines : Option ℤ → ℕ → ℕ
read_lines none old = old
read_lines (some (pos n)) old = max 1 (min n 20)
read_lines (some (negsuc n)) old = 1

-- `u32::try_from`: what does not fit leaves the days as they were.
abbrev pub read_days : Option ℤ → ℕ → ℕ
read_days none old = old
read_days (some (pos n)) old = if ltb n (2 ^ 32) then n else old
read_days (some (negsuc n)) old = old

module _ (T : Toml) where
  open T use {Value, as_str, as_bool, as_integer, as_table, value, table}

  unfoldable pub read_appearance : Loaded → String → Value → Loaded
  read_appearance l k v =
      if k == "theme"
      then record l { theme = read_theme (as_str v) l.theme }
      else if k == "agent_mark"
      then record l { agent_mark = read_mark (as_str v) l.agent_mark }
      else l

  unfoldable pub read_cards : Loaded → String → Value → Loaded
  read_cards l k v =
      if k == "auto_expand"
      then record l { auto_expand = read_expand (as_str v) l.auto_expand }
      else if k == "tool_calls"
      then record l { tool_calls = read_style (as_str v) l.tool_calls }
      else if k == "trace_lines"
      then record l { trace_lines = read_lines (as_integer v) l.trace_lines }
      else if k == "plan_usage"
      then record l { plan_usage = read_flag (as_bool v) l.plan_usage }
      else if k == "mouse"
      then record l { mouse = read_flag (as_bool v) l.mouse }
      else l

  unfoldable pub read_list : Loaded → String → Value → Loaded
  read_list l k v =
      if k == "sort"
      then record l { sort = read_sort (as_str v) l.sort }
      else if k == "hide_idle"
      then record l { hide_idle = read_flag (as_bool v) l.hide_idle }
      else if k == "scope"
      then record l { scope = read_scope (as_str v) l.scope }
      else l

  -- The entries of a table, one after the other.
  unfoldable pub read_entries : (Loaded → String → Value → Loaded) → Loaded → Map Value → Loaded
  read_entries read l [] = l
  read_entries read l ((k, v) ∷ entries) = read_entries read (read l k v) entries

  unfoldable pub read_section : (Loaded → String → Value → Loaded) → Loaded → Value → Loaded
  read_section read l v = elim (as_table v) [
    | none ↦ l
    | some entries ↦ read_entries read l entries
  ]

  unfoldable pub read_daemon : Loaded → Value → Loaded
  read_daemon l v = elim (as_table v) [
    | none ↦ l
    | some t ↦ record l {
      prune_after_days =
          read_days (and_then (Map.get t "prune_after_days") as_integer) l.prune_after_days;
    }
  ]

  -- One table of the document.
  unfoldable pub read_table : Loaded → String → Value → Loaded
  read_table l k v =
      if k == "appearance"
      then read_section read_appearance l v
      else if k == "cards"
      then read_section read_cards l v
      else if k == "list"
      then read_section read_list l v
      else if k == "daemon"
      then read_daemon l v
      else l

  unfoldable pub from_toml : Loaded → Map Value → Loaded
  from_toml defaults doc = read_entries read_table defaults doc

  -- A table that is missing is made; what is no table is refused.
  unfoldable pub set : Map Value → String → String → Item → Option (Map Value)
  set doc section key item = elim (Map.get doc section) [
    | none ↦ some (Map.insert doc section (table ((key, value item) ∷ [])))
    | some v ↦ elim (as_table v) [
      | none ↦ none
      | some entries ↦ some (Map.insert doc section (table (Map.insert entries key (value item))))
    ]
  ]

  unfoldable pub edit : Map Value → Live → List Setting → Option (Map Value)
  edit doc live [] = some doc
  edit doc live (setting ∷ dirty) =
      let (section, key) = table_and_key setting in
      let rest = λ (d : Map Value). edit d live dirty in
      elim (set doc section key (item_for live setting)) [ none ↦ none | some doc' ↦ rest doc' ]
