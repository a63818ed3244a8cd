-- ===== src/Daemon/Store/Keeps.antt =====
-- What the closures of the store keep of a card: src/daemon/store.rs.
use mathlib.Core.List.{reverse, reverse-cons}
use herdr_agent_watcher.Prelude.{
  ℕ, ◌≤◌, String, ◌≡◌, refl, ◌∙◌, Option, List, [], ◌∷◌, ◌++◌, Bool, true, false, arith, is_some,
  and_then, min, take, length, length-append, length-take, Option-cases, inl, inr,
}
use herdr_agent_watcher.Json.{Json}
use herdr_agent_watcher.Daemon.Store.Types.{PaneTelemetry, CwdSource, tool_call_ring}
use herdr_agent_watcher.Daemon.Store.Record.{
  trim_ring, on_status, on_title, on_lifecycle, on_state, on_notification, on_cwd, on_tool_running,
  on_tool_settled, on_tool_call, replay_total, replay_counts, replay_recent, replay_cwd, then_also,
  on_replay_summary, on_event,
}
use herdr_agent_watcher.Daemon.Store.Ops.{
  agent_change, cwd_change, position_change, workspace_change,
}

abbrev pub has_source : CwdSource → Bool
has_source CwdSource.none = false
has_source CwdSource.pane_list = true
has_source CwdSource.transcript = true

-- The ring holds at most 50 tool calls, a directory is there exactly where it has a source, and the
-- card was last announced under a number up to `n`.
pub record IsWellFormed {V : Type 0} (n : ℕ) (e : PaneTelemetry V) : Type 0 where
  pub recent : length e.tool_calls ≤ tool_call_ring
  pub sourced : is_some e.cwd ≡ has_source e.cwd_source
  pub stamped : e.updated_seq ≤ n

abbrev pub Keeps : {V : Type 0} → PaneTelemetry V → PaneTelemetry V × Bool → Type 0
Keeps e r =
    (length e.tool_calls ≤ tool_call_ring → length r.0.tool_calls ≤ tool_call_ring)
    × (is_some e.cwd ≡ has_source e.cwd_source → is_some r.0.cwd ≡ has_source r.0.cwd_source)
    × (r.0.updated_seq ≡ e.updated_seq)

length-reverse {ℓ} : {A : Type ℓ} (xs : List A) → length (reverse xs) ≡ length xs
length-reverse [] = refl
length-reverse (x ∷ xs) =
    rw (reverse-cons x xs) (omega (arith, length-append (reverse xs) (x ∷ []), length-reverse xs))

length-trim_ring {ℓ} :
    {A : Type ℓ} (xs : List A) → length (trim_ring xs) ≡ min tool_call_ring (length xs)
unfolding trim_ring
length-trim_ring [] = omega arith
length-trim_ring (x ∷ xs) = ground (arith, length-trim_ring xs)

ring_fits {ℓ} :
    {A : Type ℓ} (xs : List A) → length (reverse (take tool_call_ring xs)) ≤ tool_call_ring
ring_fits xs = omega (arith, length-reverse (take tool_call_ring xs), length-take tool_call_ring xs)

module _ {V : Type 0} where
  pub agent_change-Keeps : (agent : String) (e : PaneTelemetry V) → Keeps e (agent_change agent e)
  unfolding agent_change
  agent_change-Keeps agent e = ((λ h. h), (λ h. h), refl)

  pub cwd_change-Keeps : (cwd : String) (e : PaneTelemetry V) → Keeps e (cwd_change cwd e)
  unfolding cwd_change
  cwd_change-Keeps cwd e = (ground arith, ground arith, ground arith)

  pub position_change-Keeps : (n : ℕ) (e : PaneTelemetry V) → Keeps e (position_change n e)
  unfolding position_change
  position_change-Keeps n e = (ground arith, ground arith, ground arith)

  pub workspace_change-Keeps :
      (w : Option String) (e : PaneTelemetry V) → Keeps e (workspace_change w e)
  unfolding workspace_change
  workspace_change-Keeps w e = (ground arith, ground arith, ground arith)

module _ (J : Json) where
  open J use {Value, get, as_array}

  on_lifecycle-Keeps : (v : Value) (e : PaneTelemetry Value) → Keeps e (on_lifecycle J v e)
  unfolding on_lifecycle
  on_lifecycle-Keeps v e = ((λ h. h), (λ h. h), refl)

  on_notification-Keeps : (v : Value) (e : PaneTelemetry Value) → Keeps e (on_notification J v e)
  unfolding on_notification on_state
  on_notification-Keeps v e = (ground arith, ground arith, ground arith)

  on_cwd-Keeps : (v : Value) (e : PaneTelemetry Value) → Keeps e (on_cwd J v e)
  unfolding on_cwd
  on_cwd-Keeps v e = (ground arith, ground arith, ground arith)

  on_tool_call-Keeps : (v : Value) (e : PaneTelemetry Value) → Keeps e (on_tool_call J v e)
  unfolding on_tool_call on_tool_running on_tool_settled
  on_tool_call-Keeps v e =
      (ground (arith, length-trim_ring (e.tool_calls ++ v ∷ [])), ground arith, ground arith)

  replay_total-Keeps : (v : Value) (e : PaneTelemetry Value) → Keeps e (replay_total J v e)
  unfolding replay_total
  replay_total-Keeps v e = (ground arith, ground arith, ground arith)

  replay_counts-Keeps : (v : Value) (e : PaneTelemetry Value) → Keeps e (replay_counts J v e)
  unfolding replay_counts
  replay_counts-Keeps v e = (ground arith, ground arith, ground arith)

  replay_recent-Keeps : (v : Value) (e : PaneTelemetry Value) → Keeps e (replay_recent J v e)
  unfolding replay_recent
  replay_recent-Keeps v e = (
    (λ h. elim (Option-cases (and_then (get v "recentToolCalls") as_array)) [
      | inl none_given ↦ ground (arith, none_given)
      | inr (recent, given) ↦ ground (arith, given, ring_fits recent)
    ]),
    ground arith,
    ground arith,
  )

  replay_cwd-Keeps : (v : Value) (e : PaneTelemetry Value) → Keeps e (replay_cwd J v e)
  unfolding replay_cwd
  replay_cwd-Keeps v e = (ground arith, ground arith, ground arith)

  then_also-Keeps :
      (f g : PaneTelemetry Value → PaneTelemetry Value × Bool) (e : PaneTelemetry Value)
      → Keeps e (f e)
      → Keeps (f e).0 (g (f e).0)
      → Keeps e (then_also J f g e)
  unfolding then_also
  then_also-Keeps f g e k k' =
      let (a, b, c) = k in let (a', b', c') = k' in ((λ h. a' (a h)), (λ h. b' (b h)), c' ∙ c)

  on_replay_summary-Keeps :
      (v : Value) (e : PaneTelemetry Value) → Keeps e (on_replay_summary J v e)
  unfolding on_replay_summary
  on_replay_summary-Keeps v e =
      let a = (replay_total J v e).0 in
      let b = (replay_counts J v a).0 in
      let last = then_also J (replay_recent J v) (replay_cwd J v) in
      then_also-Keeps (replay_total J v) (then_also J (replay_counts J v) last) e
        (replay_total-Keeps v e)
        (then_also-Keeps (replay_counts J v) last a (replay_counts-Keeps v a) (
          then_also-Keeps (replay_recent J v) (replay_cwd J v) b (replay_recent-Keeps v b)
            (replay_cwd-Keeps v (replay_recent J v b).0)))

  pub on_event-Keeps :
      (event : String) (v : Value) (e : PaneTelemetry Value) → Keeps e (on_event J event v e)
  unfolding on_event on_status on_title on_state
  on_event-Keeps event v e = ground (
    arith,
    on_lifecycle-Keeps v e,
    on_notification-Keeps v e,
    on_cwd-Keeps v e,
    on_tool_call-Keeps v e,
    on_replay_summary-Keeps v e,
  )
