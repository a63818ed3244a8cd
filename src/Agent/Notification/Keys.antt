-- ===== src/Agent/Notification/Keys.antt =====
-- What the remembered keys guarantee: src/agent/notification.rs.
use mathlib.Core.List.{append_assoc}
use herdr_agent_watcher.Prelude.{
  ℕ, ◌+◌, ◌≤◌, ◌<◌, String, ◌≡◌, refl, ap, ◌∙◌, subst, ◌⊎◌, List, [], ◌∷◌, ◌++◌, Bool, true, false,
  ◌==◌, arith, eq_iff, eq_refl, any, nat_beq, length, length-append, if◌then◌else◌, Bool-cases, inl,
  inr,
}
use herdr_agent_watcher.Prelude.StrSet
use herdr_agent_watcher.Prelude.StrSet.{contains-insert, contains-remove}
use herdr_agent_watcher.Agent.Notification.{
  Registration, recent_dedupe_keys, forget_oldest, remember_dedupe_key,
}

abbrev pub occurs : String → List String → Bool
occurs k ks = any (λ j. j == k) ks

-- No key stands twice in the list.
abbrev pub HasDistinctKeys : List String → Type 0
HasDistinctKeys [] = Unit
HasDistinctKeys (k ∷ ks) = (occurs k ks ≡ false) × HasDistinctKeys ks

-- The set and the list hold the same keys, each once, and at most 128 of them.
pub record KeysMatch (r : Registration) : Type 0 where
  pub same : (k : String) → StrSet.contains r.dedupe_keys k ≡ occurs k r.dedupe_order
  pub distinct : HasDistinctKeys r.dedupe_order
  pub few : length r.dedupe_order ≤ recent_dedupe_keys

occurs-append :
    (k : String) (xs ys : List String)
    → occurs k (xs ++ ys) ≡ (if occurs k xs then true else occurs k ys)
occurs-append k [] ys = refl
occurs-append k (x ∷ xs) ys = ground (arith, occurs-append k xs ys)

append-HasDistinctKeys :
    (xs : List String) (k : String)
    → HasDistinctKeys xs
    → occurs k xs ≡ false
    → HasDistinctKeys (xs ++ k ∷ [])
append-HasDistinctKeys [] k d h = (refl, tt)
append-HasDistinctKeys (x ∷ xs) k d h = (
  ground (arith, d.0, h, occurs-append x xs (k ∷ []), eq_iff x k, eq_iff k x),
  append-HasDistinctKeys xs k d.1 (ground (arith, h)),
)

pub list_cases {ℓ} :
    {A : Type ℓ} (xs : List A) → (xs ≡ []) ⊎ ((x : A) × (rest : List A) × (xs ≡ x ∷ rest))
list_cases [] = inl refl
list_cases (x ∷ rest) = inr (x, rest, refl)

forget_oldest-KeysMatch :
    (r : Registration)
    → length r.dedupe_order ≡ recent_dedupe_keys
    → KeysMatch r
    → KeysMatch (forget_oldest r) × (length (forget_oldest r).dedupe_order + 1 ≡ recent_dedupe_keys)
unfolding forget_oldest
forget_oldest-KeysMatch r full v = elim (list_cases r.dedupe_order) [
  | inl e ↦ absurd (ground (arith, full, e))
  | inr (oldest, rest, e) ↦
      let d : HasDistinctKeys (oldest ∷ rest) = subst HasDistinctKeys e v.distinct in
      rw (e, forget_oldest)
        (
          record {
            same = λ k.
                ground (
                  arith,
                  v.same k,
                  e,
                  d.0,
                  contains-remove r.dedupe_keys oldest k,
                  eq_iff oldest k,
                );
            distinct = d.1;
            few = ground (arith, full, e);
          },
          ground (arith, full, e),
        )
]

forget_oldest_fresh :
    (r : Registration) (key : String)
    → StrSet.contains r.dedupe_keys key ≡ false
    → StrSet.contains (forget_oldest r).dedupe_keys key ≡ false
unfolding forget_oldest
forget_oldest_fresh r key fresh = elim (list_cases r.dedupe_order) [
  | inl e ↦ rw (e, forget_oldest) fresh
  | inr (oldest, rest, e) ↦
      rw (e, forget_oldest) (ground (arith, fresh, contains-remove r.dedupe_keys oldest key))
]

append-KeysMatch :
    (r : Registration) (key : String)
    → StrSet.contains r.dedupe_keys key ≡ false
    → length r.dedupe_order + 1 ≤ recent_dedupe_keys
    → KeysMatch r
    → KeysMatch (record r {
      dedupe_keys = StrSet.insert r.dedupe_keys key;
      dedupe_order = r.dedupe_order ++ key ∷ [];
    })
append-KeysMatch r key fresh room v = record {
  same = λ k. ground (
    arith,
    v.same k,
    contains-insert r.dedupe_keys key k,
    occurs-append k r.dedupe_order (key ∷ []),
  );
  distinct = append-HasDistinctKeys r.dedupe_order key v.distinct (ground (arith, v.same key));
  few = omega (arith, length-append r.dedupe_order (key ∷ []), room);
}

-- If the set and the list of remembered keys hold the same keys, each once, and at most 128 of them,
-- then so they do after a key has been offered.
pub remember-KeysMatch :
    (r : Registration) (key : String) → KeysMatch r → KeysMatch (remember_dedupe_key r key).0
unfolding remember_dedupe_key
remember-KeysMatch r key v = elim (Bool-cases (StrSet.contains r.dedupe_keys key)) [
  | inl known ↦ rw (known, remember_dedupe_key) v
  | inr fresh ↦ elim (Bool-cases (nat_beq (length r.dedupe_order) recent_dedupe_keys)) [
    | inl full ↦
        let (w, room) = forget_oldest-KeysMatch r (ground (arith, full)) v in
        rw (fresh, full, remember_dedupe_key)
          (append-KeysMatch (forget_oldest r) key (forget_oldest_fresh r key fresh)
            (omega (arith, room)) w)
    | inr free ↦
        rw (fresh, free, remember_dedupe_key)
          (append-KeysMatch r key fresh (ground (arith, free, v.few)) v)
  ]
]

-- The keys remembered one after another, without the answers.
unfoldable pub remember_all : Registration → List String → Registration
remember_all r [] = r
remember_all r (k ∷ ks) = remember_all (remember_dedupe_key r k).0 ks

-- The key stands in the list with at most `n` keys after it.
pub record IsWithin (n : ℕ) (key : String) (r : Registration) : Type 0 where
  pub before : List String
  pub after : List String
  pub place : r.dedupe_order ≡ before ++ key ∷ after
  pub close : length after ≤ n

append_after :
    (before after xs : List String) (key k : String)
    → xs ≡ before ++ key ∷ after
    → xs ++ k ∷ [] ≡ before ++ key ∷ (after ++ k ∷ [])
append_after before after xs key k e =
    ap (λ ys. ys ++ k ∷ []) e ∙ append_assoc before (key ∷ after) (k ∷ [])

forget_oldest-IsWithin :
    (n : ℕ) (key : String) (r : Registration)
    → n + 1 < recent_dedupe_keys
    → length r.dedupe_order ≡ recent_dedupe_keys
    → IsWithin n key r
    → IsWithin n key (forget_oldest r)
unfolding forget_oldest
forget_oldest-IsWithin n key r small full w = elim (list_cases w.before) [
  | inl e ↦
      let all_of : r.dedupe_order ≡ key ∷ w.after = w.place ∙ ap (λ b. b ++ key ∷ w.after) e in
      absurd (omega (arith, small, full, ap length all_of, w.close))
  | inr (oldest, b, e) ↦
      let all_of : r.dedupe_order ≡ oldest ∷ (b ++ key ∷ w.after) =
        w.place ∙ ap (λ b'. b' ++ key ∷ w.after) e in
      record {
        before = b;
        after = w.after;
        place = rw (all_of, forget_oldest) refl;
        close = w.close;
      }
]

append-IsWithin :
    (n : ℕ) (key k : String) (r : Registration) (keys : _)
    → IsWithin n key r
    → IsWithin
        (n + 1)
        key
        (record r { dedupe_keys = keys; dedupe_order = r.dedupe_order ++ k ∷ [] })
append-IsWithin n key k r keys w = record {
  before = w.before;
  after = w.after ++ k ∷ [];
  place = append_after w.before w.after r.dedupe_order key k w.place;
  close = omega (arith, length-append w.after (k ∷ []), w.close);
}

remember-IsWithin :
    (n : ℕ) (key k : String) (r : Registration)
    → n + 1 < recent_dedupe_keys
    → IsWithin n key r
    → IsWithin (n + 1) key (remember_dedupe_key r k).0
unfolding remember_dedupe_key
remember-IsWithin n key k r small w = elim (Bool-cases (StrSet.contains r.dedupe_keys k)) [
  | inl known ↦
      rw (known, remember_dedupe_key)
        (record {
          before = w.before;
          after = w.after;
          place = w.place;
          close = omega (arith, w.close);
        })
  | inr fresh ↦ elim (Bool-cases (nat_beq (length r.dedupe_order) recent_dedupe_keys)) [
    | inl full ↦
        rw (fresh, full, remember_dedupe_key)
          (append-IsWithin n key k (forget_oldest r) (StrSet.insert (forget_oldest r).dedupe_keys k)
            (forget_oldest-IsWithin n key r small (ground (arith, full)) w))
    | inr free ↦
        rw (fresh, free, remember_dedupe_key)
          (append-IsWithin n key k r (StrSet.insert r.dedupe_keys k) w)
  ]
]

remember_all-KeysMatch :
    (r : Registration) (ks : List String) → KeysMatch r → KeysMatch (remember_all r ks)
unfolding remember_all
remember_all-KeysMatch r [] v = v
remember_all-KeysMatch r (k ∷ ks) v =
    remember_all-KeysMatch (remember_dedupe_key r k).0 ks (remember-KeysMatch r k v)

remember_all-IsWithin :
    (n : ℕ) (key : String) (r : Registration) (ks : List String)
    → n + length ks < recent_dedupe_keys
    → IsWithin n key r
    → IsWithin (n + length ks) key (remember_all r ks)
unfolding remember_all
remember_all-IsWithin n key r [] small w = record {
  before = w.before;
  after = w.after;
  place = w.place;
  close = omega (arith, w.close);
}
remember_all-IsWithin n key r (k ∷ ks) small w =
    let deeper =
      remember_all-IsWithin (n + 1) key (remember_dedupe_key r k).0 ks (omega (arith, small))
        (remember-IsWithin n key k r (omega (arith, small)) w) in
    record {
      before = deeper.before;
      after = deeper.after;
      place = deeper.place;
      close = omega (arith, deeper.close);
    }

newest-IsWithin :
    (key : String) (r : Registration)
    → (remember_dedupe_key r key).1 ≡ true
    → IsWithin 0 key (remember_dedupe_key r key).0
unfolding remember_dedupe_key
newest-IsWithin key r h = elim (Bool-cases (StrSet.contains r.dedupe_keys key)) [
  | inl known ↦ absurd (ground (arith, known, h))
  | inr fresh ↦
      rw (fresh, remember_dedupe_key)
        (record { before = _; after = []; place = refl; close = omega arith })
]

-- A key that was accepted is refused again as long as fewer than 128 keys have been offered since,
-- where the set and the list of keys were in step before.
pub remember_window :
    (r : Registration) (key : String) (ks : List String)
    → KeysMatch r
    → (remember_dedupe_key r key).1 ≡ true
    → length ks < recent_dedupe_keys
    → (remember_dedupe_key (remember_all (remember_dedupe_key r key).0 ks) key).1 ≡ false
unfolding remember_dedupe_key
remember_window r key ks v accepted few =
    let r' = (remember_dedupe_key r key).0 in
    let w =
      remember_all-IsWithin 0 key r' ks (omega (arith, few)) (newest-IsWithin key r accepted) in
    let v' = remember_all-KeysMatch r' ks (remember-KeysMatch r key v) in
    let known : StrSet.contains (remember_all r' ks).dedupe_keys key ≡ true =
      v'.same key
      ∙ ap (occurs key) w.place
      ∙ ground (arith, occurs-append key w.before (key ∷ w.after), eq_refl key) in
    rw (known, remember_dedupe_key) refl
