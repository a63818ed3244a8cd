-- ===== src/Sidebar/SettingsFile/RoundTrip.antt =====
-- What is written into config.toml is read back.
use herdr_agent_watcher.Prelude.{ℕ, ◌≤◌, ◌<◌, ◌^◌, ◌≡◌, refl, some, Bool, arith, min, max}
use herdr_agent_watcher.Prelude.Map
use herdr_agent_watcher.Prelude.Map.{Map, HasUniqueKeys, insert-HasUniqueKeys, get-insert}
use herdr_agent_watcher.Sidebar.Select.{SortMode}
use herdr_agent_watcher.Sidebar.Live.{
  Theme, AgentMark, AutoExpand, ToolCallStyle, Scope, Live, Setting,
}
use herdr_agent_watcher.Sidebar.Live.Steps.{IsInRange}
use herdr_agent_watcher.Sidebar.SettingsFile.{
  text, flag, whole, Toml, Loaded, table_and_key, sort_text, scope_text, expand_text, style_text,
  theme_text, mark_text, item_for, read_sort, read_scope, read_expand, read_style, read_theme,
  read_mark, read_flag, read_lines, read_appearance, read_cards, read_list, read_table, from_toml,
  set,
}
use herdr_agent_watcher.Sidebar.SettingsFile.Entries.{part_found, set_lem, part-from_toml}
use herdr_agent_watcher.Sidebar.SettingsFile.Tables.{
  stays_outside_list, stays_outside_cards, stays_outside_appearance, part_daemon, days_outside,
  days_own,
}

-- The setting has the value that it is set to; the sidebar does not read the interval of the daemon.
unfoldable pub IsReadBack : Loaded → Live → Setting → Type 0
IsReadBack l live Setting.sort = l.sort ≡ live.sort
IsReadBack l live Setting.scope = l.scope ≡ live.scope
IsReadBack l live Setting.hide_idle = l.hide_idle ≡ live.hide_idle
IsReadBack l live Setting.auto_expand = l.auto_expand ≡ live.auto_expand
IsReadBack l live Setting.tool_calls = l.tool_calls ≡ live.tool_calls
IsReadBack l live Setting.trace_lines = l.trace_lines ≡ live.trace_lines
IsReadBack l live Setting.plan_usage = l.plan_usage ≡ live.plan_usage
IsReadBack l live Setting.mouse = l.mouse ≡ live.mouse
IsReadBack l live Setting.theme = l.theme ≡ live.theme
IsReadBack l live Setting.agent_mark = l.agent_mark ≡ live.agent_mark
IsReadBack l live Setting.interval_ms = Unit
IsReadBack l live Setting.prune_after_days = l.prune_after_days ≡ live.prune_after_days

module _ (T : Toml) where
  open T use {Value, as_str, as_bool, as_integer, as_table, value}

  -- The texts are read as the choices that they stand for.
  sort_own :
      (s : SortMode) (old : SortMode) → read_sort (as_str (value (text (sort_text s)))) old ≡ s
  sort_own SortMode.position old = rw (T.as_str-value)
  sort_own SortMode.smart old = rw (T.as_str-value)
  sort_own SortMode.group old = rw (T.as_str-value)

  scope_own : (s : Scope) (old : Scope) → read_scope (as_str (value (text (scope_text s)))) old ≡ s
  scope_own Scope.all old = rw (T.as_str-value)
  scope_own Scope.workspace old = rw (T.as_str-value)

  expand_own :
      (s : AutoExpand) (old : AutoExpand)
      → read_expand (as_str (value (text (expand_text s)))) old ≡ s
  expand_own AutoExpand.none old = rw (T.as_str-value)
  expand_own AutoExpand.all old = rw (T.as_str-value)

  style_own :
      (s : ToolCallStyle) (old : ToolCallStyle)
      → read_style (as_str (value (text (style_text s)))) old ≡ s
  style_own ToolCallStyle.bars old = rw (T.as_str-value)
  style_own ToolCallStyle.jar old = rw (T.as_str-value)

  theme_own : (s : Theme) (old : Theme) → read_theme (as_str (value (text (theme_text s)))) old ≡ s
  theme_own Theme.inherit old = rw (T.as_str-value)
  theme_own Theme.lumon old = rw (T.as_str-value)

  mark_own :
      (s : AgentMark) (old : AgentMark) → read_mark (as_str (value (text (mark_text s)))) old ≡ s
  mark_own AgentMark.dot old = rw (T.as_str-value)
  mark_own AgentMark.initial old = rw (T.as_str-value)
  mark_own AgentMark.symbol old = rw (T.as_str-value)

  flag_own : (b old : Bool) → read_flag (as_bool (value (flag b))) old ≡ b
  flag_own b old = rw (T.as_bool-value)

  lines_own : (n old : ℕ) → 1 ≤ n → n ≤ 20 → read_lines (as_integer (value (whole n))) old ≡ n
  lines_own n old h h' = rw (T.as_integer-value) (max_min n h h')
    where
      max_min : (n : ℕ) → 1 ≤ n → n ≤ 20 → max 1 (min n 20) ≡ n
      max_min n h h' = ground (arith, h, h')

  -- A setting that is written into a document, the interval of the daemon excepted, is what the
  -- next reading of that document by the sidebar gives, whatever else stands in it, when no
  -- table of it and no key of the table is there twice, the lines of the trace are one to twenty
  -- and the days of pruning fit in 32 bits.
  pub set-from_toml :
      (l : Loaded) (live : Live) (setting : Setting) (doc doc' : Map Value)
      → IsInRange live
      → live.prune_after_days < 2 ^ 32
      → HasUniqueKeys doc
      → ((v : Value) (entries : Map Value)
          → Map.get doc (table_and_key setting).0 ≡ some v
          → as_table v ≡ some entries
          → HasUniqueKeys entries)
      → set T doc (table_and_key setting).0 (table_and_key setting).1 (item_for live setting)
        ≡ some doc'
      → IsReadBack (from_toml T l doc') live setting
  unfolding table_and_key item_for IsReadBack read_table read_list read_cards read_appearance
      from_toml
  set-from_toml l live Setting.sort doc doc' range days u us h =
      part-from_toml T (λ l. l.sort) (read_list T) "list" "sort" (item_for live Setting.sort)
        live.sort (λ l k v e. ground (arith, e))
        (stays_outside_list T (λ l. l.sort) (λ l k v. ground (arith)) (λ l k v. ground (arith))
          (part_daemon T (λ l. l.sort) (λ l days. refl)))
        (λ l v. refl) (λ l. sort_own live.sort l.sort) l doc doc' u us h
  set-from_toml l live Setting.scope doc doc' range days u us h =
      part-from_toml T (λ l. l.scope) (read_list T) "list" "scope" (item_for live Setting.scope)
        live.scope (λ l k v e. ground (arith, e))
        (stays_outside_list T (λ l. l.scope) (λ l k v. ground (arith)) (λ l k v. ground (arith))
          (part_daemon T (λ l. l.scope) (λ l days. refl)))
        (λ l v. refl) (λ l. scope_own live.scope l.scope) l doc doc' u us h
  set-from_toml l live Setting.hide_idle doc doc' range days u us h =
      part-from_toml T (λ l. l.hide_idle) (read_list T) "list" "hide_idle"
        (item_for live Setting.hide_idle) live.hide_idle (λ l k v e. ground (arith, e))
        (stays_outside_list T (λ l. l.hide_idle) (λ l k v. ground (arith)) (λ l k v. ground (arith))
          (part_daemon T (λ l. l.hide_idle) (λ l days. refl)))
        (λ l v. refl) (λ l. flag_own live.hide_idle l.hide_idle) l doc doc' u us h
  set-from_toml l live Setting.auto_expand doc doc' range days u us h =
      part-from_toml T (λ l. l.auto_expand) (read_cards T) "cards" "auto_expand"
        (item_for live Setting.auto_expand) live.auto_expand (λ l k v e. ground (arith, e))
        (stays_outside_cards T (λ l. l.auto_expand) (λ l k v. ground (arith))
          (λ l k v. ground (arith)) (part_daemon T (λ l. l.auto_expand) (λ l days. refl)))
        (λ l v. refl) (λ l. expand_own live.auto_expand l.auto_expand) l doc doc' u us h
  set-from_toml l live Setting.tool_calls doc doc' range days u us h =
      part-from_toml T (λ l. l.tool_calls) (read_cards T) "cards" "tool_calls"
        (item_for live Setting.tool_calls) live.tool_calls (λ l k v e. ground (arith, e))
        (stays_outside_cards T (λ l. l.tool_calls) (λ l k v. ground (arith))
          (λ l k v. ground (arith)) (part_daemon T (λ l. l.tool_calls) (λ l days. refl)))
        (λ l v. refl) (λ l. style_own live.tool_calls l.tool_calls) l doc doc' u us h
  set-from_toml l live Setting.trace_lines doc doc' range days u us h =
      part-from_toml T (λ l. l.trace_lines) (read_cards T) "cards" "trace_lines"
        (item_for live Setting.trace_lines) live.trace_lines (λ l k v e. ground (arith, e))
        (stays_outside_cards T (λ l. l.trace_lines) (λ l k v. ground (arith))
          (λ l k v. ground (arith)) (part_daemon T (λ l. l.trace_lines) (λ l days. refl)))
        (λ l v. refl)
        (λ l. lines_own live.trace_lines l.trace_lines range.some_lines range.few_lines) l doc doc'
        u us h
  set-from_toml l live Setting.plan_usage doc doc' range days u us h =
      part-from_toml T (λ l. l.plan_usage) (read_cards T) "cards" "plan_usage"
        (item_for live Setting.plan_usage) live.plan_usage (λ l k v e. ground (arith, e))
        (stays_outside_cards T (λ l. l.plan_usage) (λ l k v. ground (arith))
          (λ l k v. ground (arith)) (part_daemon T (λ l. l.plan_usage) (λ l days. refl)))
        (λ l v. refl) (λ l. flag_own live.plan_usage l.plan_usage) l doc doc' u us h
  set-from_toml l live Setting.mouse doc doc' range days u us h =
      part-from_toml T (λ l. l.mouse) (read_cards T) "cards" "mouse" (item_for live Setting.mouse)
        live.mouse (λ l k v e. ground (arith, e))
        (stays_outside_cards T (λ l. l.mouse) (λ l k v. ground (arith)) (λ l k v. ground (arith))
          (part_daemon T (λ l. l.mouse) (λ l days. refl)))
        (λ l v. refl) (λ l. flag_own live.mouse l.mouse) l doc doc' u us h
  set-from_toml l live Setting.theme doc doc' range days u us h =
      part-from_toml T (λ l. l.theme) (read_appearance T) "appearance" "theme"
        (item_for live Setting.theme) live.theme (λ l k v e. ground (arith, e))
        (stays_outside_appearance T (λ l. l.theme) (λ l k v. ground (arith))
          (λ l k v. ground (arith)) (part_daemon T (λ l. l.theme) (λ l days. refl)))
        (λ l v. refl) (λ l. theme_own live.theme l.theme) l doc doc' u us h
  set-from_toml l live Setting.agent_mark doc doc' range days u us h =
      part-from_toml T (λ l. l.agent_mark) (read_appearance T) "appearance" "agent_mark"
        (item_for live Setting.agent_mark) live.agent_mark (λ l k v e. ground (arith, e))
        (stays_outside_appearance T (λ l. l.agent_mark) (λ l k v. ground (arith))
          (λ l k v. ground (arith)) (part_daemon T (λ l. l.agent_mark) (λ l days. refl)))
        (λ l v. refl) (λ l. mark_own live.agent_mark l.agent_mark) l doc doc' u us h
  set-from_toml l live Setting.interval_ms doc doc' range days u us h = tt
  set-from_toml l live Setting.prune_after_days doc doc' range days u us h =
      let (v, entries, ud, gd, e, ue, ge) =
        set_lem T doc doc' "daemon" "prune_after_days" (whole live.prune_after_days) u us h in
      part_found T (λ l. l.prune_after_days) (read_table T) "daemon" (days_outside T) l doc' v
        live.prune_after_days ud gd (λ l'. days_own T l' v entries live.prune_after_days e ge days)
