-- ===== src/Sidebar/Reducer/Lines.antt =====
-- What a line from the state socket may do to the sidebar's replica: src/sidebar/reducer.rs.
use herdr_agent_watcher.Prelude.{
  ◌≤◌, String, ◌≡◌, refl, true, arith, leb, max, is_some, Bool-cases, inl, inr, ◌⊎◌,
}
use herdr_agent_watcher.Text.{trim}
use herdr_agent_watcher.Json.{Json}
use herdr_agent_watcher.Sidebar.Reducer.{
  State, Hello, Delta, LineError, Result, ok, err, Codec, apply_hello, apply_delta, apply_value,
  apply_line,
}

module _ {V : Type 0} where
  -- A delta never lowers the last sequence number: after it, that is the larger of the two.
  pub last_seq_max :
      (state : State V) (delta : Delta V)
      → (apply_delta state delta).last_seq ≡ max state.last_seq delta.seq
  unfolding apply_delta
  last_seq_max state delta = ground arith

  -- Once a delta has been applied, a delta that is not newer than it changes nothing: the same one
  -- sent again, or an older one that comes late.
  pub apply_delta-apply_delta :
      (state : State V) (delta late : Delta V)
      → late.seq ≤ delta.seq
      → apply_delta (apply_delta state delta) late ≡ apply_delta state delta
  unfolding apply_delta
  apply_delta-apply_delta state delta late h =
      let stale : leb late.seq (apply_delta state delta).last_seq ≡ true =
        ground (arith, last_seq_max state delta) in
      rw (stale, apply_delta) refl

Result-cases {ℓ} :
    {A : Type ℓ} (r : Result A) → ((a : A) × (r ≡ ok a)) ⊎ ((e : LineError) × (r ≡ err e))
Result-cases (ok a) = inl (a, refl)
Result-cases (err e) = inr (e, refl)

module _ (J : Json) (codec : Codec J) where
  open J use {Value, get}

  apply_hello_err :
      (state : State Value) (hello : Hello Value) (e : LineError)
      → (apply_hello state hello).1 ≡ err e
      → (apply_hello state hello).0 ≡ state
  unfolding apply_hello
  apply_hello_err state hello e h = ground arith

  apply_value_err :
      (state : State Value) (value : Value) (e : LineError)
      → (apply_value J codec state value).1 ≡ err e
      → (apply_value J codec state value).0 ≡ state
  unfolding apply_value
  apply_value_err state value e h = elim (Bool-cases (is_some (get value "version"))) [
    | inl v ↦ elim (Result-cases (codec.hello_of value)) [
      | inl (hello, f) ↦ ground (arith, v, f, apply_hello_err state hello e)
      | inr (x, f) ↦ ground (arith, v, f)
    ]
    | inr v ↦ elim (Result-cases (codec.delta_of value)) [
      | inl (delta, f) ↦ ground (arith, v, f)
      | inr (x, f) ↦ ground (arith, v, f)
    ]
  ]

  -- A line that is refused, because it is no JSON, has another shape than it claims, or is of
  -- another version, leaves the replica as it was.
  pub apply_line_err :
      (state : State Value) (raw : String) (e : LineError)
      → (apply_line J codec state raw).1 ≡ err e
      → (apply_line J codec state raw).0 ≡ state
  unfolding apply_line
  apply_line_err state raw e h = elim (Result-cases (codec.from_str (trim raw))) [
    | inl (value, f) ↦ ground (arith, f, apply_value_err state value e)
    | inr (x, f) ↦ ground (arith, f)
  ]
