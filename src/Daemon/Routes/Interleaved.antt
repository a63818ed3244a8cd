-- ===== src/Daemon/Routes/Interleaved.antt =====
-- What a recorded refusal says, however the threads that call the routes are interleaved.
use herdr_agent_watcher.Prelude.{
  String, ◌≡◌, ◌≢◌, Option, some, List, [], ◌∷◌, Bool, true, false, ◌==◌, ◌&&◌, ◌||◌, arith, eq_iff,
  eq_refl, any, All, All-map, Bool-cases, Option-cases, inl, inr,
}
use herdr_agent_watcher.Prelude.Map
use herdr_agent_watcher.Prelude.Map.{get-insert, get-remove, get-empty}
use herdr_agent_watcher.Daemon.Routes.{Refusal, bind, drop_session, drop_refusal, settle}
use herdr_agent_watcher.Daemon.Routes.Threads.{
  Call, binds, resolves, unbinds, Pending, resolving, unbinding, Shared, at_rest, Event, starts,
  goes_on, begin, finish, step, run,
}

module _ (was_bound was_offered : String → String → Bool) (was_unbound : String → Bool) where
  -- The call is one of those that are known.
  abbrev IsKnown : Event → Type 0
  IsKnown (starts thread (binds p s)) = was_bound p s ≡ true
  IsKnown (starts thread (resolves p s)) = was_offered p s ≡ true
  IsKnown (starts thread (unbinds p)) = was_unbound p ≡ true
  IsKnown (goes_on thread path) = Unit

  record IsTraced (s : Shared) : Type 0 where
    session : (k v : String) → Map.get s.routes.sessions k ≡ some v → was_bound k v ≡ true
    refusal :
        (k : String) (f : Refusal)
        → Map.get s.routes.refusals k ≡ some f
        → (f.offered ≢ f.bound)
          × (was_offered k f.offered ≡ true)
          × (was_bound k f.bound ≡ true)
          × ((Map.has s.routes.sessions k || was_unbound k) ≡ true)
    waiting :
        (thread p v b : String)
        → Map.get s.pending thread ≡ some (resolving p v b)
        → (was_offered p v ≡ true)
          × (was_bound p b ≡ true)
          × ((Map.has s.routes.sessions p || was_unbound p) ≡ true)

  begin-IsTraced :
      (s : Shared) (thread : String) (c : Call)
      → IsKnown (starts thread c)
      → IsTraced s
      → IsTraced (begin s thread c)
  unfolding begin bind drop_session
  begin-IsTraced s thread (binds p v) known t = record {
    session =
        λ k w h. ground (arith, get-insert s.routes.sessions p k v, t.session k w, eq_iff p k);
    refusal = λ k f h.
        let (d, o, b, here) = t.refusal k f h in
        (d, o, b, ground (arith, get-insert s.routes.sessions p k v, here));
    waiting = λ i q w b h.
        let (o, wb, here) = t.waiting i q w b h in
        (o, wb, ground (arith, get-insert s.routes.sessions p q v, here));
  }
  begin-IsTraced s thread (resolves p v) known t =
      elim (Option-cases (Map.get s.routes.sessions p)) [
        | inl e ↦ rw (e, begin) t
        | inr (bound, e) ↦
            rw (e, begin)
              (record {
                session = t.session;
                refusal = t.refusal;
                waiting = λ i q w b h.
                    let after = get-insert s.pending thread i (resolving p v bound) in
                    let old = t.waiting i q w b in
                    let was = t.session p bound e in
                    (
                      ground (arith, h, after, known, old),
                      ground (arith, h, after, was, old),
                      ground (arith, h, after, e, old),
                    );
              })
      ]
  begin-IsTraced s thread (unbinds p) known t = record {
    session = λ k w h. t.session k w (ground (arith, get-remove s.routes.sessions p k));
    refusal = λ k f h.
        let (d, o, b, here) = t.refusal k f h in
        (d, o, b, ground (arith, get-remove s.routes.sessions p k, here, eq_iff p k));
    waiting = λ i q w b h.
        let (o, wb, here) =
          t.waiting i q w b (ground (arith, h, get-insert s.pending thread i (unbinding p))) in
        (o, wb, ground (arith, get-remove s.routes.sessions p q, here, eq_iff p q));
  }

  finish-IsTraced :
      (s : Shared) (thread : String) (path : Option String) (p : Pending)
      → Map.get s.pending thread ≡ some p
      → IsTraced s
      → IsTraced (finish s thread path p)
  unfolding finish settle drop_refusal
  finish-IsTraced s thread path (resolving p v b) e t = elim (Bool-cases (b == v)) [
    | inl same ↦
        rw (same, finish)
          (record {
            session = t.session;
            refusal = λ k f h. t.refusal k f (ground (arith, h, get-remove s.routes.refusals p k));
            waiting =
                λ i q w c h. t.waiting i q w c (ground (arith, h, get-remove s.pending thread i));
          })
    | inr other ↦
        rw (other, finish)
          (record {
            session = t.session;
            refusal = λ k f h.
                let (o, wb, here) = t.waiting thread p v b e in
                let after = get-insert s.routes.refusals p k (record { offered = v; bound = b }) in
                elim (Bool-cases (p == k)) [
                  | inl hit ↦
                      let pk : p ≡ k = ground (arith, hit, eq_iff p k) in
                      let fresh : record { offered = v; bound = b } ≡ f =
                        ground (arith, h, after, hit) in
                      rw (← pk)
                        (rw (← fresh) ((λ q. ground (arith, other, q, eq_iff b v)), o, wb, here))
                  | inr miss ↦ t.refusal k f (ground (arith, h, after, miss))
                ];
            waiting =
                λ i q w c h. t.waiting i q w c (ground (arith, h, get-remove s.pending thread i));
          })
  ]
  finish-IsTraced s thread path (unbinding p) e t = record {
    session = t.session;
    refusal = λ k f h. t.refusal k f (ground (arith, h, get-remove s.routes.refusals p k));
    waiting = λ i q w c h. t.waiting i q w c (ground (arith, h, get-remove s.pending thread i));
  }

  step-IsTraced : (s : Shared) (e : Event) → IsKnown e → IsTraced s → IsTraced (step s e)
  unfolding step
  step-IsTraced s (starts thread c) known t = elim (Bool-cases (Map.has s.pending thread)) [
    | inl busy ↦ rw (busy, step) t
    | inr free ↦ rw (free, step) (begin-IsTraced s thread c known t)
  ]
  step-IsTraced s (goes_on thread path) known t = elim (Option-cases (Map.get s.pending thread)) [
    | inl e ↦ rw (e, step) t
    | inr (p, e) ↦ rw (e, step) (finish-IsTraced s thread path p e t)
  ]

  run-IsTraced :
      (s : Shared) (events : List Event) → All IsKnown events → IsTraced s → IsTraced (run s events)
  unfolding run
  run-IsTraced s [] known t = t
  run-IsTraced s (e ∷ events) known t =
      run-IsTraced (step s e) events known.1 (step-IsTraced s e known.0 t)

abbrev pub is_bind : String → String → Event → Bool
is_bind p v (starts thread (binds q w)) = (q == p) && (w == v)
is_bind p v (starts thread (resolves q w)) = false
is_bind p v (starts thread (unbinds q)) = false
is_bind p v (goes_on thread path) = false

abbrev pub is_offer : String → String → Event → Bool
is_offer p v (starts thread (binds q w)) = false
is_offer p v (starts thread (resolves q w)) = (q == p) && (w == v)
is_offer p v (starts thread (unbinds q)) = false
is_offer p v (goes_on thread path) = false

abbrev pub is_unbind : String → Event → Bool
is_unbind p (starts thread (binds q w)) = false
is_unbind p (starts thread (resolves q w)) = false
is_unbind p (starts thread (unbinds q)) = q == p
is_unbind p (goes_on thread path) = false

abbrev KnownIn : List Event → Event → Type 0
KnownIn events e =
    IsKnown (λ p v. any (is_bind p v) events) (λ p v. any (is_offer p v) events)
      (λ p. any (is_unbind p) events) e

known_here : (e : Event) (events : List Event) → KnownIn (e ∷ events) e
known_here (starts thread (binds p v)) events = rw (eq_refl p, eq_refl v)
known_here (starts thread (resolves p v)) events = rw (eq_refl p, eq_refl v)
known_here (starts thread (unbinds p)) events = rw (eq_refl p)
known_here (goes_on thread path) events = tt

known_later :
    (e : Event) (events : List Event) (f : Event) → KnownIn events f → KnownIn (e ∷ events) f
known_later e events (starts thread (binds p v)) h = ground (arith, h)
known_later e events (starts thread (resolves p v)) h = ground (arith, h)
known_later e events (starts thread (unbinds p)) h = ground (arith, h)
known_later e events (goes_on thread path) h = tt

every_event_known : (events : List Event) → All (KnownIn events) events
every_event_known [] = tt
every_event_known (e ∷ events) = (
  known_here e events,
  All-map (KnownIn events) (KnownIn (e ∷ events)) (known_later e events) events
      (every_event_known events),
)

-- However the threads that call `bind`, `unbind` and `resolve` are interleaved at their locks, a
-- recorded refusal of a pane names two sessions that differ: the one was offered for the pane in
-- a call of `resolve`, the other was bound to it in a call of `bind`. And the pane is bound, or
-- some call has begun to unbind it.
pub refusals-run :
    (events : List Event) (k : String) (f : Refusal)
    → Map.get (run at_rest events).routes.refusals k ≡ some f
    → (f.offered ≢ f.bound)
      × (any (is_offer k f.offered) events ≡ true)
      × (any (is_bind k f.bound) events ≡ true)
      × ((Map.has (run at_rest events).routes.sessions k || any (is_unbind k) events) ≡ true)
refusals-run events k f h =
    (run-IsTraced _ _ _ at_rest events (every_event_known events) (record {
      session = λ j v e. absurd (cc (e, get-empty {V = String} j));
      refusal = λ j g e. absurd (cc (e, get-empty {V = Refusal} j));
      waiting = λ i q w b e. absurd (cc (e, get-empty {V = Pending} i));
    })).refusal
      k f h
