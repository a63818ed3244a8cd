-- ===== src/Daemon/Store/Normalise.antt =====
-- `sanitise_fields` and `normalise_event` of src/daemon/store.rs.
use herdr_agent_watcher.Prelude.{
  ◌+◌, String, none, some, List, [], ◌∷◌, map, ◌==◌, if◌then◌else◌, and_then, unwrap_or,
}
use herdr_agent_watcher.Prelude.Map
use herdr_agent_watcher.Prelude.Map.{Map}
use herdr_agent_watcher.Text.{sanitise, is_empty}
use herdr_agent_watcher.Json.{Json, str_field}

module _ (J : Json) where
  open J use {Value, get, set, as_u64, as_array, as_object, string, number, array, object}

  unfoldable pub sanitise_field : Value → String → Value
  sanitise_field v key = elim (str_field J v key) [
    | none ↦ v
    | some text ↦ set v key (string (sanitise text))
  ]

  unfoldable pub sanitise_fields : Value → List String → Value
  unfolding sanitise_field
  sanitise_fields v [] = v
  sanitise_fields v (key ∷ keys) = sanitise_fields (sanitise_field v key) keys

  -- Counts under keys that read alike after `sanitise` are added up; an empty key is dropped.
  unfoldable pub fold_counts : Map Value → List (String × Value) → Map Value
  fold_counts folded [] = folded
  fold_counts folded ((key, value) ∷ rest) =
      let key' = sanitise key in
      let n = unwrap_or (as_u64 value) 0 in
      let slot = unwrap_or (Map.get folded key') (number 0) in
      fold_counts
        (if is_empty key'
          then folded
          else Map.insert folded key' (number (unwrap_or (as_u64 slot) 0 + n)))
        rest

  unfoldable pub sanitise_recent : Value → Value
  unfolding sanitise_fields
  sanitise_recent v = elim (and_then (get v "recentToolCalls") as_array) [
    | none ↦ v
    | some calls ↦
        set v "recentToolCalls"
          (array (map (λ call. sanitise_fields call ("tool" ∷ "args" ∷ [])) calls))
  ]

  unfoldable pub fold_by_type : Value → Value
  unfolding fold_counts
  fold_by_type v = elim (and_then (get v "toolCallByType") as_object) [
    | none ↦ v
    | some entries ↦ set v "toolCallByType" (object (fold_counts [] entries))
  ]

  unfoldable pub normalise_event : String → Value → Value
  unfolding sanitise_fields sanitise_recent fold_by_type
  normalise_event event v =
      if event == "agent-status"
      then sanitise_fields v ("modelDisplayName" ∷ [])
      else if event == "agent-session-title"
      then sanitise_fields v ("title" ∷ [])
      else if event == "agent-cwd"
      then sanitise_fields v ("cwd" ∷ [])
      else if event == "agent-tool-call"
      then sanitise_fields v ("tool" ∷ "args" ∷ [])
      else if event == "agent-replay-summary"
      then fold_by_type (sanitise_recent (sanitise_fields v ("cwd" ∷ [])))
      else v
