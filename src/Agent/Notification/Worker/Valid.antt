-- ===== src/Agent/Notification/Worker/Valid.antt =====
-- The worker of src/agent/notification.rs keeps every registration in good order.
use herdr_agent_watcher.Prelude.{
  String, ◌≡◌, refl, sym, subst, ◌⊎◌, Option, none, some, List, [], ◌∷◌, Bool, true, false, ◌&&◌,
  not, ◌==◌, All, Bool-cases, Option-cases, inl, inr, arith, if◌then◌else◌,
}
use herdr_agent_watcher.Prelude.Map
use herdr_agent_watcher.Prelude.Map.{Map}
use herdr_agent_watcher.Json.{Json}
use herdr_agent_watcher.Agent.Notification.{
  Registration, Sources, RegisterOutcome, RegisterResult, ok, err, is_kimi, is_registered,
  needs_watch, admit, release, register_source, remove_source, refresh_registration_diagnostics,
}
use herdr_agent_watcher.Agent.Notification.Envelopes.{Codecs}
use herdr_agent_watcher.Agent.Notification.Host.{AgentNotificationReason, Host}
use herdr_agent_watcher.Agent.Notification.Invariant.{scan_source-ScanIsValid}
use herdr_agent_watcher.Agent.Notification.Scan.{scan_source}
use herdr_agent_watcher.Agent.Notification.Sends.{ScanIsValid, BodyIsPresentable, count_taken}
use herdr_agent_watcher.Agent.Notification.Turns.{Scan}
use herdr_agent_watcher.Agent.Notification.Valid.{IsValid}
use herdr_agent_watcher.Agent.Notification.Watches.{remove_missing}
use herdr_agent_watcher.Agent.Notification.Worker.{
  Worker, Surroundings, WorkerCommand, register, stop, source_changed, shutdown, is_current,
  drop_one, drop_missing, is_empty_map, settle, register_command, stop_command, put_scan,
  scan_found, scan_ids, reconcile_sources, reconcile_round, source_changed_command, run_command,
  rest_if_empty, Round, run_round, run_worker,
}

abbrev pub AllValid : Map Registration → Type 0
AllValid m = All (λ e. IsValid e.1) m

-- Every registration is in good order, the diagnostics count the events that the sink took, and each
-- event has a body that is fit to be shown, or none.
pub record WorkerIsValid (w : Worker) : Type 0 where
  pub registrations : AllValid w.sources.registrations
  pub counted :
      (reason : AgentNotificationReason)
      → w.counts.notifications_emitted reason ≡ count_taken reason w.sent
  pub presentable : All (λ x. BodyIsPresentable x.event.body) w.sent

insert-AllValid :
    (m : Map Registration) (k : String) (r : Registration)
    → IsValid r
    → AllValid m
    → AllValid (Map.insert m k r)
unfolding Map.insert
insert-AllValid [] k r v h = (v, tt)
insert-AllValid ((j, o) ∷ m) k r v h = elim (Bool-cases (j == k)) [
  | inl e ↦ rw e (v, h.1)
  | inr e ↦ rw e (h.0, insert-AllValid m k r v h.1)
]

remove-AllValid : (m : Map Registration) (k : String) → AllValid m → AllValid (Map.remove m k)
unfolding Map.remove
remove-AllValid [] k h = tt
remove-AllValid ((j, o) ∷ m) k h = elim (Bool-cases (j == k)) [
  | inl e ↦ rw e (remove-AllValid m k h.1)
  | inr e ↦ rw e (h.0, remove-AllValid m k h.1)
]

get-IsValid :
    (m : Map Registration) (k : String) (r : Registration)
    → Map.get m k ≡ some r
    → AllValid m
    → IsValid r
unfolding Map.get
get-IsValid [] k r e h = absurd (cc e)
get-IsValid ((j, o) ∷ m) k r e h = elim (Bool-cases (j == k)) [
  | inl f ↦ let same : o ≡ r = ground (arith, f, e) in subst IsValid same h.0
  | inr f ↦ get-IsValid m k r (ground (arith, f, e)) h.1
]

release-registrations :
    (s : Sources) (r : Registration) → (release s r).registrations ≡ s.registrations
unfolding release
release-registrations s r = ground arith

remove_source-registrations :
    (s : Sources) (pty_id : String)
    → (remove_source s pty_id).0.registrations ≡ Map.remove s.registrations pty_id
unfolding remove_source refresh_registration_diagnostics
remove_source-registrations s pty_id = elim (Option-cases (Map.get s.registrations pty_id)) [
  | inl e ↦ rw (e, remove_source) (sym (remove_missing s.registrations pty_id e))
  | inr (r, e) ↦
      let s' = record s { registrations = Map.remove s.registrations pty_id } in
      rw (e, remove_source) (release-registrations s' r)
]

register_source-registrations :
    (fails : String → Option String) (s : Sources) (r : Registration)
    → ((register_source fails s r).0.registrations ≡ s.registrations)
      ⊎ ((register_source fails s r).0.registrations ≡ Map.insert s.registrations r.pty_id r)
unfolding register_source admit
register_source-registrations fails s r = elim (Bool-cases (is_registered s r)) [
  | inl e ↦ inl (rw e)
  | inr e ↦ elim (Option-cases (if needs_watch s r then fails r.source_path else none)) [
    | inr (error, f) ↦ inl (rw (e, f))
    | inl f ↦ elim (Option-cases (Map.get s.registrations r.pty_id)) [
      | inl g ↦ inr (rw (e, f, g))
      | inr (previous, g) ↦ inr (rw (e, f, g) (release-registrations (admit s r) previous))
    ]
  ]
]

register_source-AllValid :
    (fails : String → Option String) (s : Sources) (r : Registration)
    → IsValid r
    → AllValid s.registrations
    → AllValid (register_source fails s r).0.registrations
register_source-AllValid fails s r v h = elim (register_source-registrations fails s r) [
  | inl e ↦ rw e h
  | inr e ↦ rw e (insert-AllValid s.registrations r.pty_id r v h)
]

-- Fields that validity does not read.
moved :
    {w w' : Worker}
    → AllValid w'.sources.registrations
    → w'.counts ≡ w.counts
    → w'.sent ≡ w.sent
    → WorkerIsValid w
    → WorkerIsValid w'
moved {w} {w'} h c s v = record {
  registrations = h;
  counted = λ reason. rw (c, s) (v.counted reason);
  presentable = rw s v.presentable;
}

without-WorkerIsValid :
    (w : Worker) (pty_id : String)
    → WorkerIsValid w
    → AllValid (remove_source w.sources pty_id).0.registrations
without-WorkerIsValid w pty_id v =
    rw (remove_source-registrations w.sources pty_id)
      (remove-AllValid w.sources.registrations pty_id v.registrations)

drop_one-WorkerIsValid :
    (w : Worker) (pty_id : String) → WorkerIsValid w → WorkerIsValid (drop_one w pty_id)
unfolding drop_one
drop_one-WorkerIsValid w pty_id v = moved (without-WorkerIsValid w pty_id v) refl refl v

drop_missing-WorkerIsValid :
    (w : Worker) (ids : List String) → WorkerIsValid w → WorkerIsValid (drop_missing w ids)
unfolding drop_missing
drop_missing-WorkerIsValid w [] v = v
drop_missing-WorkerIsValid w (pty_id ∷ rest) v =
    drop_missing-WorkerIsValid (drop_one w pty_id) rest (drop_one-WorkerIsValid w pty_id v)

choose-WorkerIsValid :
    (b : Bool) (x y : Worker)
    → WorkerIsValid x
    → WorkerIsValid y
    → WorkerIsValid (if b then x else y)
choose-WorkerIsValid true x y vx vy = vx
choose-WorkerIsValid false x y vx vy = vy

rest_if_empty-WorkerIsValid : (w : Worker) → WorkerIsValid w → WorkerIsValid (rest_if_empty w)
rest_if_empty-WorkerIsValid w v =
    choose-WorkerIsValid (is_empty_map w.sources.registrations) _ _
      (moved v.registrations refl refl v) v

settle-WorkerIsValid :
    (w : Worker) (s : Sources) (result : RegisterResult)
    → AllValid s.registrations
    → WorkerIsValid w
    → WorkerIsValid (settle w (s, result)).0
unfolding settle refresh_registration_diagnostics
settle-WorkerIsValid w s (err error) h v = moved h refl refl v
settle-WorkerIsValid w s (ok RegisterOutcome.started) h v = moved h refl refl v
settle-WorkerIsValid w s (ok RegisterOutcome.rebound) h v = moved h refl refl v
settle-WorkerIsValid w s (ok RegisterOutcome.noop) h v = moved h refl refl v

register_command-WorkerIsValid :
    (around : Surroundings) (w : Worker) (r : Registration)
    → IsValid r
    → WorkerIsValid w
    → WorkerIsValid (register_command around w r).0
unfolding register_command
register_command-WorkerIsValid around w r h v = elim (Bool-cases (is_current around r)) [
  | inr e ↦ rw e v
  | inl e ↦
      elim (Bool-cases (is_kimi r.provider && not (around.transfer_kimi_transcript r.pty_id))) [
        | inl k ↦ rw (e, k) v
        | inr k ↦
            let result = register_source around.watch_fails w.sources r in
            rw (e, k)
              (settle-WorkerIsValid w result.0 result.1
                (register_source-AllValid around.watch_fails w.sources r h v.registrations) v)
      ]
]

stop_command-WorkerIsValid :
    (w : Worker) (pty_id : String) → WorkerIsValid w → WorkerIsValid (stop_command w pty_id).0
unfolding stop_command
stop_command-WorkerIsValid w pty_id v =
    rest_if_empty-WorkerIsValid (record w { sources = (remove_source w.sources pty_id).0 })
      (moved (without-WorkerIsValid w pty_id v) refl refl v)

-- A command registers nothing but a registration in good order.
abbrev pub CommandIsValid : Option WorkerCommand → Type 0
CommandIsValid (some (register r)) = IsValid r
CommandIsValid _ = Unit

module _ (J : Json) (codecs : Codecs J.Value) where
  scan_found-WorkerIsValid :
      (host : Host) (w : Worker) (pty_id : String) (found : Option Registration)
      → ((r : Registration) → found ≡ some r → IsValid r)
      → WorkerIsValid w
      → WorkerIsValid (scan_found J codecs host w pty_id found)
  unfolding scan_found put_scan
  scan_found-WorkerIsValid host w pty_id none h v = v
  scan_found-WorkerIsValid host w pty_id (some r) h v =
      let s : Scan = record { registration = r; diagnostics = w.counts; sent = w.sent } in
      let before : ScanIsValid s = record {
        registration = h r refl;
        counted = v.counted;
        presentable = v.presentable;
      } in
      let after = scan_source-ScanIsValid J codecs host s before in
      record {
        registrations =
            insert-AllValid w.sources.registrations pty_id
              (scan_source J codecs host s).0.registration after.registration v.registrations;
        counted = after.counted;
        presentable = after.presentable;
      }

  scan_ids-WorkerIsValid :
      (host : Host) (w : Worker) (ids : List String)
      → WorkerIsValid w
      → WorkerIsValid (scan_ids J codecs host w ids)
  unfolding scan_ids
  scan_ids-WorkerIsValid host w [] v = v
  scan_ids-WorkerIsValid host w (pty_id ∷ rest) v =
      scan_ids-WorkerIsValid host
        (scan_found J codecs host w pty_id (Map.get w.sources.registrations pty_id)) rest
        (scan_found-WorkerIsValid host w pty_id (Map.get w.sources.registrations pty_id)
          (λ r e. get-IsValid w.sources.registrations pty_id r e v.registrations) v)

  run_command-WorkerIsValid :
      (host : Host) (around : Surroundings) (w : Worker) (command : WorkerCommand)
      → CommandIsValid (some command)
      → WorkerIsValid w
      → WorkerIsValid (run_command J codecs host around w command).0
  unfolding run_command source_changed_command
  run_command-WorkerIsValid host around w (register r) h v =
      register_command-WorkerIsValid around w r h v
  run_command-WorkerIsValid host around w (stop pty_id) h v = stop_command-WorkerIsValid w pty_id v
  run_command-WorkerIsValid host around w (source_changed paths) h v =
      scan_ids-WorkerIsValid host w _ v
  run_command-WorkerIsValid host around w shutdown h v = moved v.registrations refl refl v

  run_round-WorkerIsValid :
      (w : Worker) (host : Host) (around : Surroundings) (command : Option WorkerCommand)
      → CommandIsValid command
      → WorkerIsValid w
      → WorkerIsValid
          (run_round J codecs w (record { host = host; around = around; command = command }))
  unfolding run_round reconcile_round reconcile_sources
  run_round-WorkerIsValid w host around none h v =
      rest_if_empty-WorkerIsValid _
        (scan_ids-WorkerIsValid host _ _ (drop_missing-WorkerIsValid w _ v))
  run_round-WorkerIsValid w host around (some command) h v =
      run_command-WorkerIsValid host around w command h v

  -- Where every registration is in good order at the start and as it is registered, so it is after
  -- every sequence of commands and reconciliations, with files that change as they like: the text
  -- of a turn is fit for a body, a turn has an identifier only while it is active, at most 256 KiB
  -- of a line are held and nothing of one that is dropped, and at most 128 keys are remembered, in
  -- step; the diagnostics count the events of each reason that the sink took; and each event has a
  -- body of one line of at most 80 printable characters, or none.
  pub run_worker-WorkerIsValid :
      (w : Worker) (rounds : List Round)
      → All (λ t. CommandIsValid t.command) rounds
      → WorkerIsValid w
      → WorkerIsValid (run_worker J codecs w rounds)
  unfolding run_worker
  run_worker-WorkerIsValid w [] h v = v
  run_worker-WorkerIsValid w (t ∷ rounds) h v =
      choose-WorkerIsValid w.alive _ _
        (run_worker-WorkerIsValid (run_round J codecs w t) rounds h.1
          (run_round-WorkerIsValid w t.host t.around t.command h.0 v))
        v
