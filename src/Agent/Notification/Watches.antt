-- ===== src/Agent/Notification/Watches.antt =====
-- Which paths are watched: src/agent/notification.rs.
use herdr_agent_watcher.Prelude.{
  String, ◌≡◌, refl, Option, none, some, [], ◌∷◌, true, false, ◌&&◌, not, ◌==◌, arith, eq_iff,
  if◌then◌else◌, Bool-cases, Option-cases, inl, inr,
}
use herdr_agent_watcher.Prelude.Map
use herdr_agent_watcher.Prelude.Map.{
  Map, HasUniqueKeys, insert-HasUniqueKeys, remove-HasUniqueKeys, get-remove,
}
use herdr_agent_watcher.Prelude.StrSet
use herdr_agent_watcher.Prelude.StrSet.{contains-insert, contains-remove}
use herdr_agent_watcher.Agent.Notification.{
  Registration, Sources, is_kimi, follows, any_follows, release, is_registered, needs_watch, admit,
  refresh_registration_diagnostics, register_source, remove_source,
}

pub remove_missing : (m : Map Registration) (k : String) → Map.get m k ≡ none → Map.remove m k ≡ m
unfolding Map.get Map.remove
remove_missing [] k h = refl
remove_missing ((j, r) ∷ m) k h = ground (arith, h, remove_missing m k)

any_follows-insert :
    (m : Map Registration) (k : String) (r : Registration) (path : String)
    → HasUniqueKeys m
    → any_follows (Map.insert m k r) path
      ≡ (if follows path r then true else any_follows (Map.remove m k) path)
unfolding Map.get Map.insert Map.remove
any_follows-insert [] k r path u = ground arith
any_follows-insert ((j, o) ∷ m) k r path u = elim (Bool-cases (j == k)) [
  | inl e ↦ ground (arith, e, u.0, eq_iff j k, remove_missing m k)
  | inr e ↦ ground (arith, e, any_follows-insert m k r path u.1)
]

any_follows-remove :
    (m : Map Registration) (k : String) (old : Registration) (path : String)
    → HasUniqueKeys m
    → Map.get m k ≡ some old
    → any_follows m path ≡ (if follows path old then true else any_follows (Map.remove m k) path)
unfolding Map.get Map.remove
any_follows-remove [] k old path u h = ground arith
any_follows-remove ((j, o) ∷ m) k old path u h = elim (Bool-cases (j == k)) [
  | inl e ↦ ground (arith, e, u.0, h, eq_iff j k, remove_missing m k)
  | inr e ↦ ground (arith, e, h, any_follows-remove m k old path u.1)
]

-- A path is watched exactly where a registration follows it through the watcher; no terminal is
-- registered twice.
pub record Watches (s : Sources) : Type 0 where
  pub exact : (path : String) → StrSet.contains s.watched path ≡ any_follows s.registrations path
  pub unique : HasUniqueKeys s.registrations

contains-release :
    (s : Sources) (r : Registration) (path : String)
    → StrSet.contains (release s r).watched path ≡ (
        if (not (is_kimi r.provider) && not (any_follows s.registrations r.source_path))
          && (r.source_path == path)
        then false
        else StrSet.contains s.watched path)
unfolding release
contains-release s r path = ground (arith, contains-remove s.watched r.source_path path)

registrations-release :
    (s : Sources) (r : Registration) → (release s r).registrations ≡ s.registrations
unfolding release
registrations-release s r = ground arith

-- If a path is watched exactly where a registration other than Kimi's has it, and no terminal is
-- registered twice, then so it is after `remove_source`.
pub remove_source-Watches :
    (s : Sources) (pty_id : String) → Watches s → Watches (remove_source s pty_id).0
unfolding remove_source refresh_registration_diagnostics
remove_source-Watches s pty_id v = elim (Option-cases (Map.get s.registrations pty_id)) [
  | inl e ↦ rw (e, remove_source) v
  | inr (old, e) ↦
      let s' = record s { registrations = Map.remove s.registrations pty_id } in
      rw (e, remove_source)
        (record {
          exact = λ path. ground (
            arith,
            v.exact path,
            contains-release s' old path,
            registrations-release s' old,
            any_follows-remove s.registrations pty_id old path v.unique e,
            eq_iff old.source_path path,
          );
          unique =
              rw (registrations-release s' old)
                (remove-HasUniqueKeys s.registrations pty_id v.unique);
        })
]

contains-admit :
    (s : Sources) (r : Registration) (path : String)
    → StrSet.contains (admit s r).watched path ≡ (
        if needs_watch s r && (r.source_path == path) then true else StrSet.contains s.watched path)
unfolding admit
contains-admit s r path = ground (arith, contains-insert s.watched r.source_path path)

admit-Watches :
    (s : Sources) (r : Registration)
    → Watches s
    → Map.get s.registrations r.pty_id ≡ none
    → Watches (admit s r)
unfolding admit needs_watch
admit-Watches s r v e = record {
  exact = λ path. ground (
    arith,
    e,
    v.exact path,
    contains-admit s r path,
    any_follows-insert s.registrations r.pty_id r path v.unique,
    remove_missing s.registrations r.pty_id e,
    eq_iff r.source_path path,
  );
  unique = insert-HasUniqueKeys s.registrations r.pty_id r v.unique;
}

replace-Watches :
    (s : Sources) (r old : Registration)
    → Watches s
    → Map.get s.registrations r.pty_id ≡ some old
    → Watches (release (admit s r) old)
unfolding admit needs_watch
replace-Watches s r old v e =
    let m = s.registrations in
    record {
      exact = λ path. ground (
        arith,
        v.exact path,
        contains-release (admit s r) old path,
        contains-admit s r path,
        registrations-release (admit s r) old,
        any_follows-insert m r.pty_id r path v.unique,
        any_follows-remove m r.pty_id old path v.unique e,
        eq_iff r.source_path path,
        eq_iff old.source_path path,
      );
      unique =
          rw (registrations-release (admit s r) old) (insert-HasUniqueKeys m r.pty_id r v.unique);
    }

-- If a path is watched exactly where a registration other than Kimi's has it, and no terminal is
-- registered twice, then so it is after `register_source`, on each of its ways out, also where the
-- watcher refuses the path.
pub register_source-Watches :
    (fails : String → Option String) (s : Sources) (r : Registration)
    → Watches s
    → Watches (register_source fails s r).0
unfolding register_source
register_source-Watches fails s r v = elim (Bool-cases (is_registered s r)) [
  | inl same ↦ rw same v
  | inr other ↦ elim (Option-cases (if needs_watch s r then fails r.source_path else none)) [
    | inr (error, refused) ↦ rw (other, refused) v
    | inl allowed ↦ elim (Option-cases (Map.get s.registrations r.pty_id)) [
      | inl e ↦ rw (other, allowed, e, register_source) (admit-Watches s r v e)
      | inr (old, e) ↦ rw (other, allowed, e, register_source) (replace-Watches s r old v e)
    ]
  ]
]
