-- ===== src/Lib.antt =====
-- A model of herdr-agent-watcher: a daemon that follows the agents in the panes of Herdr, and a
-- sidebar that shows them. The daemon asks Herdr for its panes once a round (src/daemon/run.rs),
-- compares the list with the panes it has bound (src/daemon/reconcile.rs), starts and stops
-- watchers through adapters (src/agents/mod.rs), and keeps one card per pane in a store
-- (src/daemon/store.rs). Each sidebar subscribes to the store over the state socket
-- (src/daemon/state_server.rs) and keeps a replica (src/sidebar/reducer.rs).
--
-- Prelude and its children: Boolean tests, lists, association lists as maps (`HashMap`, in one of
-- its iteration orders), sets and sorted maps of texts, and the stable sort.
--
-- Text: `sanitise` of src/sidebar/format.rs, with `trim` and the character classes of Rust's
-- standard library; Text.Lines and Text.Bytes hold what else the source takes from `str` and
-- `String` (lines, words, character boundaries), and Text.Words what they keep.
--
-- Json: `serde_json::Value` as an interface with the behaviour of the crate that the proofs rely
-- on; Json.Model is an instance on which the tests run. Values that the crate's `PartialEq` takes
-- for equal are equal.
--
-- Herdr: the records of src/herdr/api.rs. Terminal: the registry of panes of
-- src/terminal/state.rs, with its counter of generations. Agents: the registry of adapters of
-- src/agents/mod.rs; an adapter is a parameter, which may change a world of its own and send
-- events to the store, all of which arrive before its call returns.
--
-- Daemon.Store: src/daemon/store.rs, with one function per method (`set_agent`,
-- `set_pane_list_cwd`, `set_pane_position`, `set_pane_workspace`, `replace_session`, `remove`,
-- `subscribe_full` as `subscribe`, `record` as `record_event` with one function for each event). A
-- method holds the store's mutex from beginning to end, so that a call is one step. The closures
-- given to `mutate_existing` answer with the entry and whether it changed.
--
-- Daemon.StateServer and Daemon.Mirror: the subscribe branch of src/daemon/state_server.rs. The
-- system of Mirror is the store with one replica for each subscriber; a step is a call of the
-- store, a new connection, one update taken from a channel and applied, a write that fails (of the
-- hello line, of an update, which is lost, or of a heartbeat), a receiver that goes away, or the
-- end of a connection. After a write has failed nothing more is written to the connection, whose
-- subscriber the store has until its end. A subscriber that a full channel evicts is no longer in
-- the store, and its connection is no longer followed: it reads what its channel still holds and
-- then ends. The encoding of lines is left out there; Sidebar.Reducer takes the reading of a line
-- as a parameter.
--
-- Daemon.Prune: src/daemon/prune.rs on a view of the file system that does not change during a
-- sweep. Daemon.Sink: `emit_json` of src/daemon/sink.rs, with the calls of the port as a list and
-- their errors as a parameter. Daemon.Reconcile: src/daemon/reconcile.rs. Daemon.Routes:
-- src/daemon/routes.rs, where the watchers' answer to a path is a parameter; `unbind` and
-- `resolve` are calls that no other interrupts, and Threads interleaves the calls of several
-- threads, each of whose steps runs under one lock. Daemon.Loop: the body of the loop of
-- src/daemon/run.rs for a pane list that Herdr answered, with the process identifiers and the time
-- as parameters.
--
-- Sidebar.Reducer: src/sidebar/reducer.rs. The field `refused` of a hello line, which the sidebar
-- does not read, is left out.
--
-- Agent.Tail: src/agent/adapter/base/transcript_tail_service.rs, the engine that reads growing
-- transcripts. A read is bytes or an error, and a turn of `run` (`poll_step`) is a read with the
-- time of the clock; what the decoder is told comes out as a list. Splitting and Chunks compare it
-- with the lines of the whole stream, Watchdog with a reader that has no bounds.
--
-- Agent.Title: src/agent/sanitize_title.rs.
--
-- Agent.Notification: src/agent/notification.rs. The registrations, the paths that the watcher of
-- the notify crate is told to watch (a set of paths; whether it refuses a path is a parameter) and
-- the keys by which repeated notifications are told stand in Notification itself; Envelopes and
-- Classify are the records of the four providers and `classify_codex`, `classify_claude`,
-- `classify_kimi`, `classify_opencode`; Turns and Apply are `apply_signal`; Transcript is
-- `claude_hook_body`; Scan is `scan_source`; Worker is `run_worker`, a round of which is a command
-- or a reconciliation. Host gathers what lies outside: the clock, the files, the event sink, which
-- may go by all that it was given, and the standard library's UTF-8; serde_json's reading of the
-- records is the record Codecs. A file is read in one piece, since the scan goes byte by byte.
-- Valid, Sends, Invariant and Completions hold the proofs. A path is a text, and a byte is a
-- number.
--
-- Sidebar.Select, Sidebar.Layout and Sidebar.Live: src/sidebar/select.rs, src/sidebar/layout.rs
-- and src/sidebar/live.rs: the cards shown and their order, the arithmetic of scrolling on 16-bit
-- offsets with its saturation written out, and the steps of the settings (the texts of the choices
-- are with the file). Sidebar.SettingsFile: `edit` of src/sidebar/settings_file.rs and `from_toml`
-- of src/sidebar/config.rs on the entries of a document, which the record Toml reads for the
-- crates toml and toml_edit; the problems counted while reading, the appearances of agents and the
-- key of the sidebar are left out. The modules below a component prove what the list at the end
-- states; Tests, Tests.Screen, Tests.Tailing, Tests.Scanning, Tests.Sinking and Tests.Watcher run
-- the definitions.
--
-- Sequence numbers, identifiers of subscribers, generations and counts are natural numbers: the
-- source has 64 bits for each, and they are taken not to fill them, nor the sums of counts in a
-- payload. The position of a pane, which the source cuts to 32 bits, is cut here as well. A time
-- is a number. The loop of `process_chunk` runs on fuel, the length of the chunk, which is enough
-- since every turn consumes a byte; no other definition runs on fuel: the loops go through lists
-- or count down.
--
-- Not modelled: the rest of src/agent (the adapters that find and decode transcripts, and the
-- threads and channels of the notification service), the drawing and the input of the sidebar, the
-- configuration of the daemon, the installation of bridges, the process's start, and everything
-- that only reads or writes files, sockets and terminals.
pub mod Prelude
pub mod Text
pub mod Json
pub mod Herdr
pub mod Terminal
pub mod Agent
pub mod Agents
pub mod Daemon
pub mod Sidebar
pub mod Tests
