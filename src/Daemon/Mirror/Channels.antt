-- ===== src/Daemon/Mirror/Channels.antt =====
-- What the steps of a connection do to the list of channels: facts about one subscriber carry over
-- to the others.
use herdr_agent_watcher.Prelude.{
  ℕ, ◌≡◌, ◌≢◌, refl, sym, ◌∙◌, ap, Option, none, some, List, [], ◌∷◌, Bool, true, false, nat_beq,
  arith, All, All-both, All-keep_if, keep_if, Bool-cases, All-append, ◌++◌, inl, inr,
}
use herdr_agent_watcher.Daemon.Store.Types.{Update, Subscriber}
use herdr_agent_watcher.Daemon.Mirror.{receive, hang_up}

module _ {V : Type 0} where
  -- No identifier stands twice.
  abbrev pub Distinct : List (Subscriber V) → Type 0
  Distinct [] = Unit
  Distinct (s ∷ ss) = All (λ (t : Subscriber V). t.id ≢ s.id) ss × Distinct ss

  module _ (P Q : Subscriber V → Type 0) (id : ℕ) (u : Update V)
      (taken : (s : Subscriber V) (us : List (Update V))
        → s.id ≡ id
        → s.pending ≡ u ∷ us
        → P s
        → Q (record s { pending = us }))
      (kept : (s : Subscriber V) → s.id ≢ id → P s → Q s) where
    receive_here :
        (s : Subscriber V) (ss rest : List (Subscriber V)) (us : List (Update V))
        → s.id ≡ id
        → s.pending ≡ us
        → receive (s ∷ ss) id ≡ some (u, rest)
        → All P (s ∷ ss)
        → Distinct (s ∷ ss)
        → All Q rest
    unfolding receive
    receive_here s ss rest [] e p r h d = ground arith
    receive_here s ss rest (x ∷ us) e p r h d = subst_rest (
      taken s us e (p ∙ ap (λ y. y ∷ us) first) h.0,
      All-both P _ Q (λ t i o. kept t (λ q. o (q ∙ sym e)) i) ss h.1 d.0,
    )
      where
        first : x ≡ u
        first = ground arith

        subst_rest : All Q (record s { pending = us } ∷ ss) → All Q rest
        subst_rest q = ground (arith, q)

    receive_there :
        (s : Subscriber V) (ss rest : List (Subscriber V))
        (o : Option (Update V × List (Subscriber V)))
        → receive ss id ≡ o
        → nat_beq s.id id ≡ false
        → receive (s ∷ ss) id ≡ some (u, rest)
        → Q s
        → ((later : List (Subscriber V)) → receive ss id ≡ some (u, later) → All Q later)
        → All Q rest
    unfolding receive
    receive_there s ss rest none e miss r q ih = ground arith
    receive_there s ss rest (some (x, later)) e miss r q ih =
        let first : x ≡ u = ground arith in
        let all : All Q (s ∷ later) = (q, ih later (e ∙ ap (λ y. some (y, later)) first)) in
        ground (arith, all)

    pub All-receive :
        (ss rest : List (Subscriber V))
        → receive ss id ≡ some (u, rest)
        → All P ss
        → Distinct ss
        → All Q rest
    unfolding receive
    All-receive [] rest r h d = ground arith
    All-receive (s ∷ ss) rest r h d = elim (Bool-cases (nat_beq s.id id)) [
      | inl here ↦ receive_here s ss rest s.pending (ground arith) refl r h d
      | inr there ↦
          receive_there s ss rest (receive ss id) refl there r (kept s (ground arith) h.0)
            (λ later e. All-receive ss later e h.1 d.1)
    ]

  pub Distinct-receive :
      (id : ℕ) (u : Update V) (ss rest : List (Subscriber V))
      → receive ss id ≡ some (u, rest)
      → Distinct ss
      → Distinct rest
  unfolding receive
  Distinct-receive id u [] rest r d = ground arith
  Distinct-receive id u (s ∷ ss) rest r d = elim (Bool-cases (nat_beq s.id id)) [
    | inl here ↦ pop s.pending refl here
    | inr there ↦ pass (receive ss id) refl there (λ later e. Distinct-receive id u ss later e d.1)
  ]
    where
      pop : (us : List (Update V)) → s.pending ≡ us → nat_beq s.id id ≡ true → Distinct rest
      pop [] p here = ground arith
      pop (x ∷ us) p here =
          let all : Distinct (record s { pending = us } ∷ ss) = d in ground (arith, all)

      pass :
          (o : Option (Update V × List (Subscriber V)))
          → receive ss id ≡ o
          → nat_beq s.id id ≡ false
          → ((later : List (Subscriber V)) → receive ss id ≡ some (u, later) → Distinct later)
          → Distinct rest
      pass none e miss ih = ground arith
      pass (some (x, later)) e miss ih =
          let first : x ≡ u = ground arith in
          let found : receive ss id ≡ some (u, later) = e ∙ ap (λ y. some (y, later)) first in
          let all : Distinct (s ∷ later) = (
            All-receive (λ t. t.id ≢ s.id) (λ t. t.id ≢ s.id) id u (λ t us i p h. h) (λ t i h. h) ss
                later found d.0 d.1,
            ih later found,
          ) in
          ground (arith, all)

  pub All-hang_up :
      (P : Subscriber V → Type 0) (id : ℕ)
      → ((s : Subscriber V) (b : Bool) → P s → P (record s { connected = b }))
      → (ss : List (Subscriber V)) → All P ss
      → All P (hang_up ss id)
  unfolding hang_up
  All-hang_up P id f [] h = tt
  All-hang_up P id f (s ∷ ss) h = elim (Bool-cases (nat_beq s.id id)) [
    | inl e ↦ rw (e, hang_up) (f s false h.0, All-hang_up P id f ss h.1)
    | inr e ↦ rw (e, hang_up) (h.0, All-hang_up P id f ss h.1)
  ]

  pub Distinct-hang_up :
      (id : ℕ) (ss : List (Subscriber V)) → Distinct ss → Distinct (hang_up ss id)
  unfolding hang_up
  Distinct-hang_up id [] d = tt
  Distinct-hang_up id (s ∷ ss) d =
      let others = All-hang_up (λ t. t.id ≢ s.id) id (λ t b h. h) ss d.0 in
      elim (Bool-cases (nat_beq s.id id)) [
        | inl e ↦ rw (e, hang_up) (others, Distinct-hang_up id ss d.1)
        | inr e ↦ rw (e, hang_up) (others, Distinct-hang_up id ss d.1)
      ]

  pub Distinct-keep_if :
      (p : Subscriber V → Bool) (ss : List (Subscriber V)) → Distinct ss → Distinct (keep_if p ss)
  Distinct-keep_if p [] d = tt
  Distinct-keep_if p (s ∷ ss) d =
      let others = All-keep_if (λ t. t.id ≢ s.id) p ss d.0 in
      elim (Bool-cases (p s)) [
        | inl e ↦ rw e (others, Distinct-keep_if p ss d.1)
        | inr e ↦ rw e (Distinct-keep_if p ss d.1)
      ]

  pub Distinct-snoc :
      (ss : List (Subscriber V)) (s : Subscriber V)
      → All (λ (t : Subscriber V). t.id ≢ s.id) ss
      → Distinct ss
      → Distinct (ss ++ s ∷ [])
  Distinct-snoc [] s h d = (tt, tt)
  Distinct-snoc (t ∷ ss) s h d = (
    All-append (λ x. x.id ≢ t.id) ss (s ∷ []) d.0 ((λ e. h.0 (sym e)), tt),
    Distinct-snoc ss s h.1 d.1,
  )
