-- ===== src/Daemon/Routes/Refused.antt =====
-- What `resolve` answers and records, where no other call runs between its locks.
use herdr_agent_watcher.Prelude.{
  String, ◌≡◌, refl, Option, none, some, ◌==◌, arith, eq_iff, is_some, if◌then◌else◌, ◌↔◌,
  Option-cases, inl, inr,
}
use herdr_agent_watcher.Prelude.Map
use herdr_agent_watcher.Prelude.Map.{get-insert, get-remove, get-empty}
use herdr_agent_watcher.Daemon.Routes.{Refusal, BridgeRoutes, settle, resolve}

module _ (paths : String → Option String) (r : BridgeRoutes) (pane_id session : String) where
  -- Where no other call interrupts `resolve`, a path is given out only to the session that the pane is
  -- bound to, and it is the one that the watchers name.
  pub resolve_path :
      (path : String)
      → ((resolve paths r pane_id session).1 ≡ some path)
        ↔ ((Map.get r.sessions pane_id ≡ some session) × (paths pane_id ≡ some path))
  unfolding resolve settle
  resolve_path path = elim (Option-cases (Map.get r.sessions pane_id)) [
    | inl e ↦ rw (e, resolve) (ground arith, ground (arith, e))
    | inr (bound, e) ↦
        rw (e, resolve)
          (ground (arith, e, eq_iff bound session), ground (arith, e, eq_iff bound session))
  ]

  -- What `resolve` leaves recorded for the pane that it was asked about.
  abbrev recorded : Option String → Option Refusal → Option Refusal
  recorded none old = old
  recorded (some bound) old =
      if bound == session
      then (if is_some (paths pane_id) then none else old)
      else some (record { offered = session; bound = bound })

  -- Where no other call interrupts it, a refusal is recorded exactly when the pane is bound to another session, with both sessions in
  -- it. It is cleared when the bound session gets a path. In all other cases, and for all other
  -- panes, what was recorded stays. The sessions never change.
  pub refusals-resolve :
      (k : String)
      → (Map.get (resolve paths r pane_id session).0.refusals k ≡ (
          if pane_id == k
          then recorded (Map.get r.sessions pane_id) (Map.get r.refusals k)
          else Map.get r.refusals k))
        × ((resolve paths r pane_id session).0.sessions ≡ r.sessions)
  unfolding resolve settle
  refusals-resolve k = elim (Option-cases (Map.get r.sessions pane_id)) [
    | inl e ↦ rw (e, resolve) (ground arith, refl)
    | inr (bound, e) ↦
        rw (e, resolve)
          (
            ground (
              arith,
              get-insert r.refusals pane_id k (record { offered = session; bound = bound }),
              get-remove r.refusals pane_id k,
            ),
            ground arith,
          )
  ]
