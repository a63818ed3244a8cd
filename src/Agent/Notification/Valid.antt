-- ===== src/Agent/Notification/Valid.antt =====
-- What every registration that src/agent/notification.rs scans keeps to.
use herdr_agent_watcher.Prelude.{
  ℕ, ◌≤◌, String, ◌≡◌, refl, sym, ◌∙◌, Option, none, some, [], ◌∷◌, true, false, ltb, length,
  length-append, nat_beq, arith, Bool-cases, inl, inr,
}
use herdr_agent_watcher.Prelude.StrSet
use herdr_agent_watcher.Agent.Notification.{
  Registration, forget_oldest, remember_dedupe_key, recent_dedupe_keys,
}
use herdr_agent_watcher.Agent.Notification.Body.Presentable.{IsPresentable}
use herdr_agent_watcher.Agent.Notification.Keys.{KeysMatch, list_cases, remember-KeysMatch}
use herdr_agent_watcher.Agent.Notification.Scan.{max_partial_line_bytes, keep_byte, restart}
use herdr_agent_watcher.Agent.Notification.Turns.{with_session, end_turn, admit_key}

-- The keys are remembered well, a turn has an identifier only while it is active, the start of a line
-- is within 256 KiB and gone while an over-long line is dropped, and the text of the turn is fit for a
-- body.
pub record IsValid (r : Registration) : Type 0 where
  pub keys : KeysMatch r
  pub turn : r.turn_active ≡ false → r.turn_id ≡ none
  pub line : length r.partial_line ≤ max_partial_line_bytes
  pub dropped : r.dropping_oversize_line ≡ true → r.partial_line ≡ []
  pub body : (b : String) → r.notification_body ≡ some b → IsPresentable b

-- The same remembered keys.
pub keep_keys :
    {r r' : Registration}
    → r'.dedupe_keys ≡ r.dedupe_keys
    → r'.dedupe_order ≡ r.dedupe_order
    → KeysMatch r
    → KeysMatch r'
keep_keys {r} {r'} e o v = record {
  same = λ k. rw (e, o) (v.same k);
  distinct = rw o v.distinct;
  few = rw o v.few;
}

pub with_session-IsValid :
    (r : Registration) (id : Option String) → IsValid r → IsValid (with_session r id)
with_session-IsValid r none v = v
with_session-IsValid r (some id) v = record {
  keys = keep_keys refl refl v.keys;
  turn = v.turn;
  line = v.line;
  dropped = v.dropped;
  body = v.body;
}

pub end_turn-IsValid : (r : Registration) → IsValid r → IsValid (end_turn r)
end_turn-IsValid r v = record {
  keys = keep_keys refl refl v.keys;
  turn = λ h. refl;
  line = v.line;
  dropped = v.dropped;
  body = λ b h. absurd cc;
}

-- All that `remember_dedupe_key` leaves as it is.
pub record SameTurn (r r' : Registration) : Type 0 where
  pub turn_active : r'.turn_active ≡ r.turn_active
  pub turn_id : r'.turn_id ≡ r.turn_id
  pub partial_line : r'.partial_line ≡ r.partial_line
  pub dropping : r'.dropping_oversize_line ≡ r.dropping_oversize_line
  pub body : r'.notification_body ≡ r.notification_body

same_turn : (r : Registration) → SameTurn r r
same_turn r = record {
  turn_active = refl;
  turn_id = refl;
  partial_line = refl;
  dropping = refl;
  body = refl;
}

forget_oldest-SameTurn : (r : Registration) → SameTurn r (forget_oldest r)
unfolding forget_oldest
forget_oldest-SameTurn r = elim (list_cases r.dedupe_order) [
  | inl e ↦
      rw (e, forget_oldest)
        (record {
          turn_active = refl;
          turn_id = refl;
          partial_line = refl;
          dropping = refl;
          body = refl;
        })
  | inr (oldest, rest, e) ↦
      rw (e, forget_oldest)
        (record {
          turn_active = refl;
          turn_id = refl;
          partial_line = refl;
          dropping = refl;
          body = refl;
        })
]

remember-SameTurn : (r : Registration) (key : String) → SameTurn r (remember_dedupe_key r key).0
unfolding remember_dedupe_key
remember-SameTurn r key =
    let s = forget_oldest-SameTurn r in
    elim (Bool-cases (StrSet.contains r.dedupe_keys key)) [
      | inl e ↦ rw e (same_turn r)
      | inr e ↦ elim (Bool-cases (nat_beq (length r.dedupe_order) recent_dedupe_keys)) [
        | inl full ↦
            rw (e, full)
              (record {
                turn_active = s.turn_active;
                turn_id = s.turn_id;
                partial_line = s.partial_line;
                dropping = s.dropping;
                body = s.body;
              })
        | inr room ↦
            rw (e, room)
              (record {
                turn_active = refl;
                turn_id = refl;
                partial_line = refl;
                dropping = refl;
                body = refl;
              })
      ]
    ]

pub admit_key-SameTurn : (r : Registration) (key : Option String) → SameTurn r (admit_key r key).0
unfolding admit_key
admit_key-SameTurn r none = same_turn r
admit_key-SameTurn r (some key) = remember-SameTurn r key

admit_key-KeysMatch :
    (r : Registration) (key : Option String) → KeysMatch r → KeysMatch (admit_key r key).0
unfolding admit_key
admit_key-KeysMatch r none v = v
admit_key-KeysMatch r (some key) v = remember-KeysMatch r key v

pub admit_key-IsValid :
    (r : Registration) (key : Option String) → IsValid r → IsValid (admit_key r key).0
admit_key-IsValid r key v =
    let s = admit_key-SameTurn r key in
    record {
      keys = admit_key-KeysMatch r key v.keys;
      turn = λ h. s.turn_id ∙ v.turn (sym s.turn_active ∙ h);
      line = rw s.partial_line v.line;
      dropped = λ h. s.partial_line ∙ v.dropped (sym s.dropping ∙ h);
      body = λ b h. v.body b (sym s.body ∙ h);
    }

pub keep_byte-IsValid : (r : Registration) (byte : ℕ) → IsValid r → IsValid (keep_byte r byte)
unfolding keep_byte
keep_byte-IsValid r byte v = elim (Bool-cases r.dropping_oversize_line) [
  | inl e ↦ rw e (record {
    keys = keep_keys refl refl v.keys;
    turn = v.turn;
    line = v.line;
    dropped = λ h. v.dropped e;
    body = v.body;
  })
  | inr e ↦ elim (Bool-cases (ltb (length r.partial_line) max_partial_line_bytes)) [
    | inl room ↦
        rw (e, room)
          (record {
            keys = keep_keys refl refl v.keys;
            turn = v.turn;
            line = ground (arith, room, length-append r.partial_line (byte ∷ []));
            dropped = λ h. absurd (cc h);
            body = v.body;
          })
    | inr full ↦
        rw (e, full)
          (record {
            keys = keep_keys refl refl v.keys;
            turn = v.turn;
            line = omega arith;
            dropped = λ h. refl;
            body = v.body;
          })
  ]
]

pub restart-IsValid : (r : Registration) (length : ℕ) → IsValid r → IsValid (restart r length)
restart-IsValid r length v = record {
  keys = keep_keys refl refl v.keys;
  turn = λ h. refl;
  line = omega arith;
  dropped = λ h. refl;
  body = v.body;
}
