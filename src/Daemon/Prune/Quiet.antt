-- ===== src/Daemon/Prune/Quiet.antt =====
-- What is stale, in src/daemon/prune.rs.
use herdr_agent_watcher.Prelude.{
  ℕ, ◌+◌, ◌≤◌, ◌<◌, String, ◌≡◌, Option, none, some, List, [], ◌∷◌, All, ◌++◌, ◌⊎◌,
}
use herdr_agent_watcher.Daemon.Prune.{
  dirs_of, FileMeta, WorkspaceView, SessionView, SessionDir, modified_of, session_of,
}

-- A time that is known is not after the other one.
abbrev pub IsUpTo : ℕ → Option ℕ → Type 0
IsUpTo w none = Unit
IsUpTo w (some m) = m ≤ w

-- A time that is known lies more than the retention before now.
abbrev pub IsBefore : ℕ → ℕ → Option ℕ → Type 0
IsBefore retention now none = Unit
IsBefore retention now (some m) = m + retention < now

-- The entries of a directory that could be read.
abbrev pub entries_of : SessionView → List (Option FileMeta)
entries_of dir = elim dir.entries [ none ↦ [] | some entries ↦ entries ]

-- The directory is one of them.
abbrev pub Occurs : SessionView → List SessionView → Type 0
Occurs dir [] = ⊥
Occurs dir (x ∷ xs) = (x ≡ dir) ⊎ Occurs dir xs

-- The directories of sessions that the file system shows.
unfoldable pub views : List WorkspaceView → List SessionView
views [] = []
views (workspace ∷ rest) = dirs_of workspace ++ views rest

-- The session is that of one of the directories.
abbrev pub IsOf : ℕ → List SessionView → SessionDir → Type 0
IsOf now dirs s =
    (dir : SessionView) × (workspace_id : String) × Occurs dir dirs
    × (session_of now workspace_id dir ≡ s)

-- The path is that of a session directory, and neither the directory nor any of its entries was
-- written within the retention, as far as the times are known.
abbrev pub WasQuiet : ℕ → ℕ → List SessionView → String → Type 0
WasQuiet retention now dirs path =
    (dir : SessionView) × Occurs dir dirs
    × (dir.path ≡ path)
    × IsBefore retention now (modified_of dir.metadata)
    × All (λ e. IsBefore retention now (modified_of e)) (entries_of dir)
