-- ===== src/Daemon/Prune.antt =====
-- The sweep of session directories, src/daemon/prune.rs. What the file system shows is an input.
pub mod Quiet
use Prim.Native.Nat.{Ordering}
use Prim.Native.String
use herdr_agent_watcher.Prelude.{
  ℕ, ◌+◌, ◌-◌, String, Option, none, some, List, [], ◌∷◌, ◌++◌, map, Bool, true, false, leb, ltb,
  if◌then◌else◌, keep_if,
}
use herdr_agent_watcher.Prelude.Sort.{sort}

-- The metadata of a file: when it was written, where the system says so, and its length.
pub record FileMeta : Type 0 where
  pub modified : Option ℕ
  pub len : ℕ

-- A directory below `sessions`: its own metadata, and that of its entries, where they can be read.
pub record SessionView : Type 0 where
  pub path : String
  pub name : String
  pub is_dir : Bool
  pub metadata : Option FileMeta
  pub entries : Option (List (Option FileMeta))

-- A directory below `workspaces`; `sessions` is missing where it cannot be read.
pub record WorkspaceView : Type 0 where
  pub name : String
  pub sessions : Option (List SessionView)

pub record SessionDir : Type 0 where
  pub path : String
  pub workspace_id : String
  pub pane_id : String
  pub quiet_for : Option ℕ
  pub bytes : ℕ

-- The later of two times, where there is one.
abbrev pub later : Option ℕ → Option ℕ → Option ℕ
later newest none = newest
later none (some modified) = some modified
later (some current) (some modified) = if ltb current modified then some modified else some current

abbrev pub modified_of : Option FileMeta → Option ℕ
modified_of none = none
modified_of (some meta) = meta.modified

unfoldable pub newest_of : Option ℕ → List (Option FileMeta) → Option ℕ
newest_of newest [] = newest
newest_of newest (entry ∷ entries) = newest_of (later newest (modified_of entry)) entries

unfoldable pub last_write : SessionView → Option ℕ
last_write dir = elim dir.metadata [
  | none ↦ none
  | some meta ↦ elim dir.entries [
    | none ↦ meta.modified
    | some entries ↦ newest_of meta.modified entries
  ]
]

-- `duration_since(last).ok()`; a time in the future gives none.
abbrev pub since : ℕ → Option ℕ → Option ℕ
since now none = none
since now (some last) = if leb last now then some (now - last) else none

unfoldable pub sum_lens : List (Option FileMeta) → ℕ
sum_lens [] = 0
sum_lens (none ∷ entries) = sum_lens entries
sum_lens (some meta ∷ entries) = meta.len + sum_lens entries

unfoldable pub dir_size : SessionView → ℕ
unfolding sum_lens
dir_size dir = elim dir.entries [ none ↦ 0 | some entries ↦ sum_lens entries ]

unfoldable pub session_of : ℕ → String → SessionView → SessionDir
session_of now workspace_id dir = record {
  path = dir.path;
  workspace_id = workspace_id;
  pane_id = dir.name;
  quiet_for = since now (last_write dir);
  bytes = dir_size dir;
}

unfoldable pub sessions_of : ℕ → String → List SessionView → List SessionDir
sessions_of now workspace_id [] = []
sessions_of now workspace_id (dir ∷ dirs) =
    let rest = sessions_of now workspace_id dirs in
    if dir.is_dir then session_of now workspace_id dir ∷ rest else rest

-- A workspace whose `sessions` cannot be read is skipped.
abbrev pub dirs_of : WorkspaceView → List SessionView
dirs_of workspace = elim workspace.sessions [ none ↦ [] | some dirs ↦ dirs ]

unfoldable pub found : ℕ → List WorkspaceView → List SessionDir
found now [] = []
found now (workspace ∷ rest) = sessions_of now workspace.name (dirs_of workspace) ++ found now rest

-- `(workspace_id, pane_id)` in the order of tuples.
abbrev pub key_le : SessionDir → SessionDir → Bool
key_le a b = elim (String.compare a.workspace_id b.workspace_id) [
  | Ordering.lt ↦ true
  | Ordering.gt ↦ false
  | Ordering.eq ↦ elim (String.compare a.pane_id b.pane_id) [ Ordering.gt ↦ false | _ ↦ true ]
]

-- `workspaces` is missing where it cannot be read.
unfoldable pub inventory : ℕ → Option (List WorkspaceView) → List SessionDir
inventory now none = []
inventory now (some workspaces) = sort key_le (found now workspaces)

abbrev pub is_stale : ℕ → SessionDir → Bool
is_stale retention s = elim s.quiet_for [ none ↦ false | some quiet ↦ ltb retention quiet ]

unfoldable pub stale_sessions : Option (List WorkspaceView) → ℕ → ℕ → List SessionDir
stale_sessions root retention now = keep_if (is_stale retention) (inventory now root)

unfoldable pub stale : Option (List WorkspaceView) → ℕ → ℕ → List String
unfolding stale_sessions
stale root retention now = map (λ s. s.path) (stale_sessions root retention now)

-- The sweep measures each path that `stale` names; here that is the size in its session.
-- The paths that were removed, and how many bytes they held. Whether a directory can be removed is an
-- input.
unfoldable pub sweep_each : (String → Bool) → List SessionDir → List String × ℕ
sweep_each removes [] = ([], 0)
sweep_each removes (s ∷ rest) =
    let (removed, bytes) = sweep_each removes rest in
    if removes s.path then (s.path ∷ removed, s.bytes + bytes) else (removed, bytes)

unfoldable pub sweep : (String → Bool) → Option (List WorkspaceView) → ℕ → ℕ → List String × ℕ
sweep removes root retention now = sweep_each removes (stale_sessions root retention now)
