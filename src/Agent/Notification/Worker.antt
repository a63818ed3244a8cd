-- ===== src/Agent/Notification/Worker.antt =====
-- The worker of src/agent/notification.rs: `run_worker` with `reconcile_sources` and `scan_ids`. One
-- round of its loop is a command, or the reconciliation that is due; the command `Reconcile` of the
-- end-to-end tests is left out.
pub mod Valid
use Prim.Native.String
use herdr_agent_watcher.Prelude.{
  ℕ, ◌+◌, String, Option, none, some, List, [], ◌∷◌, ◌++◌, Bool, true, false, ◌&&◌, not, any, ◌==◌,
  nat_beq, if◌then◌else◌,
}
use herdr_agent_watcher.Prelude.Map
use herdr_agent_watcher.Prelude.Map.{Map}
use herdr_agent_watcher.Json.{Json}
use herdr_agent_watcher.Agent.Notification.{
  NotificationProvider, Registration, Sources, RegisterOutcome, RegisterResult, ok, err, is_kimi,
  register_source, remove_source, refresh_registration_diagnostics,
}
use herdr_agent_watcher.Agent.Notification.Envelopes.{Codecs}
use herdr_agent_watcher.Agent.Notification.Host.{Sent, Host}
use herdr_agent_watcher.Agent.Notification.Scan.{scan_source}
use herdr_agent_watcher.Agent.Notification.Turns.{Diagnostics, Scan}

-- What the worker tells the other watchers to do.
pub data Outside : Type 0 where
  -- `transcripts.stop`
  stop_transcript : String → Outside
  -- `full_watchers.remove`
  remove_watcher : String → Outside

-- `counts` and `sources` hold the diagnostics; `alive` is the flag that the service reads.
pub record Worker : Type 0 where
  pub sources : Sources
  pub counts : Diagnostics
  pub started_total : ℕ
  pub rebound_total : ℕ
  pub sent : List Sent
  pub outside : List Outside
  pub alive : Bool

-- What the worker asks of the other components: the terminals' generations, the paths that the
-- watcher of the crate notify refuses, and whether a watcher of Kimi's hands its transcript over.
pub record Surroundings : Type 0 where
  pub generation : String → Option ℕ
  pub watch_fails : String → Option String
  pub transfer_kimi_transcript : String → Bool

pub data WorkerCommand : Type 0 where
  register : Registration → WorkerCommand
  stop : String → WorkerCommand
  source_changed : List String → WorkerCommand
  shutdown : WorkerCommand

-- What is acknowledged: to `register`, whether it succeeded; to `stop`, whether a transcript of
-- Kimi's is to be stopped.
pub data Reply : Type 0 where
  registered : Reply
  refused : String → Reply
  stopped : Bool → Reply
  silent : Reply

-- The registration's terminal is still the one that it was made for.
abbrev pub is_current : Surroundings → Registration → Bool
is_current around r = elim (around.generation r.pty_id) [
  | none ↦ false
  | some generation ↦ nat_beq generation r.pty_generation
]

-- The terminals of the registrations that pass the test.
unfoldable pub ids_where : (Registration → Bool) → Map Registration → List String
ids_where p [] = []
ids_where p ((k, r) ∷ m) = let rest = ids_where p m in if p r then r.pty_id ∷ rest else rest

abbrev pub kimi_of : Option Registration → Bool
kimi_of none = false
kimi_of (some r) = is_kimi r.provider

-- A registration without its terminal goes, with its watchers.
unfoldable pub drop_one : Worker → String → Worker
drop_one w pty_id =
    let stops =
      if kimi_of (Map.get w.sources.registrations pty_id)
      then stop_transcript pty_id ∷ []
      else [] in
    record w {
      sources = (remove_source w.sources pty_id).0;
      outside = w.outside ++ stops ++ remove_watcher pty_id ∷ [];
    }

unfoldable pub drop_missing : Worker → List String → Worker
drop_missing w [] = w
drop_missing w (pty_id ∷ rest) = drop_missing (drop_one w pty_id) rest

abbrev pub is_empty_map : Map Registration → Bool
is_empty_map [] = true
is_empty_map (e ∷ m) = false

-- The worker stops when nothing is registered.
abbrev pub rest_if_empty : Worker → Worker
rest_if_empty w = if is_empty_map w.sources.registrations then record w { alive = false } else w

-- `outcome` in the totals.
abbrev pub count_outcome : Worker → RegisterOutcome → Worker
count_outcome w RegisterOutcome.started = record w { started_total = w.started_total + 1 }
count_outcome w RegisterOutcome.rebound = record w { rebound_total = w.rebound_total + 1 }
count_outcome w RegisterOutcome.noop = w

unfoldable pub settle : Worker → Sources × RegisterResult → Worker × Reply
settle w (s, err error) = (record w { sources = s }, refused error)
settle w (s, ok outcome) =
    (count_outcome (record w { sources = refresh_registration_diagnostics s }) outcome, registered)

unfoldable pub register_command : Surroundings → Worker → Registration → Worker × Reply
register_command around w r =
    if is_current around r
    then (if is_kimi r.provider && not (around.transfer_kimi_transcript r.pty_id)
        then (
          w,
          refused (
              String.◌++◌ "Kimi watcher missing during notification ownership transfer: " r.pty_id),
        )
        else settle w (register_source around.watch_fails w.sources r))
    else (w, refused "PTY changed before notification source registration")

abbrev pub kimi_removed : Option NotificationProvider → Bool
kimi_removed none = false
kimi_removed (some provider) = is_kimi provider

unfoldable pub stop_command : Worker → String → Worker × Reply
stop_command w pty_id =
    let (s, removed) = remove_source w.sources pty_id in
    (rest_if_empty (record w { sources = s }), stopped (kimi_removed removed))

module _ (J : Json) (codecs : Codecs J.Value) (host : Host) where
  -- The result of a scan goes back into the worker.
  unfoldable pub put_scan : Worker → String → Scan → Worker
  put_scan w pty_id s = record w {
    sources = record w.sources {
      registrations = Map.insert w.sources.registrations pty_id s.registration;
    };
    counts = s.diagnostics;
    sent = s.sent;
  }

  unfoldable pub scan_found : Worker → String → Option Registration → Worker
  scan_found w pty_id none = w
  scan_found w pty_id (some r) =
      put_scan w pty_id
        (scan_source J codecs host
          (record { registration = r; diagnostics = w.counts; sent = w.sent })).0

  unfoldable pub scan_ids : Worker → List String → Worker
  scan_ids w [] = w
  scan_ids w (pty_id ∷ rest) =
      scan_ids (scan_found w pty_id (Map.get w.sources.registrations pty_id)) rest

  unfoldable pub reconcile_sources : Surroundings → Worker → Worker
  reconcile_sources around w =
      let missing = ids_where (λ r. not (is_current around r)) w.sources.registrations in
      let w' = drop_missing w missing in
      scan_ids w' (ids_where (λ r. not (is_kimi r.provider)) w'.sources.registrations)

  -- The reconciliation that is due every three seconds.
  unfoldable pub reconcile_round : Surroundings → Worker → Worker
  reconcile_round around w = rest_if_empty (reconcile_sources around w)

  unfoldable pub source_changed_command : Worker → List String → Worker × Reply
  source_changed_command w paths =
      let ids =
        ids_where (λ r. not (is_kimi r.provider) && any (λ path. path == r.source_path) paths)
          w.sources.registrations in
      (scan_ids w ids, silent)

  unfoldable pub run_command : Surroundings → Worker → WorkerCommand → Worker × Reply
  run_command around w (register r) = register_command around w r
  run_command around w (stop pty_id) = stop_command w pty_id
  run_command around w (source_changed paths) = source_changed_command w paths
  run_command around w shutdown = (record w { alive = false }, silent)

-- One round of the loop, with the world as it is then: a command, or the reconciliation that is due.
pub record Round : Type 0 where
  pub host : Host
  pub around : Surroundings
  pub command : Option WorkerCommand

module _ (J : Json) (codecs : Codecs J.Value) where
  unfoldable pub run_round : Worker → Round → Worker
  run_round w t = elim t.command [
    | none ↦ reconcile_round J codecs t.host t.around w
    | some command ↦ (run_command J codecs t.host t.around w command).0
  ]

  -- The loop, which a round may end.
  unfoldable pub run_worker : Worker → List Round → Worker
  run_worker w [] = w
  run_worker w (t ∷ rounds) =
      let rest = run_worker (run_round w t) rounds in if w.alive then rest else w
