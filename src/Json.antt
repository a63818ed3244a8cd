-- ===== src/Json.antt =====
-- `serde_json::Value`, of the serde_json crate, as an interface: what the source asks of a payload,
-- with the documented behaviour that the proofs rely on. A value here stands for the JSON values
-- that the crate's `PartialEq` does not tell apart (it ignores the order of keys, and the sign of a
-- zero), and `as_object` lists the entries in one order for all of them.
pub mod Model
use herdr_agent_watcher.Prelude.{
  ℕ, String, ◌≡◌, Bool, true, Option, some, List, ◌↔◌, ◌==◌, if◌then◌else◌, and_then,
}

pub record Json : Type 1 where
  pub Value : Type 0
  -- `PartialEq`
  pub value_eq : Value → Value → Bool
  pub value_eq_iff : (v w : Value) → (value_eq v w ≡ true) ↔ (v ≡ w)
  -- `Value::get` with a text, and `value[key]` where the key is there
  pub get : Value → String → Option Value
  -- `value[key] = new`
  pub set : Value → String → Value → Value
  pub as_str : Value → Option String
  pub as_u64 : Value → Option ℕ
  pub as_array : Value → Option (List Value)
  -- the entries of a `Map`, in its iteration order
  pub as_object : Value → Option (List (String × Value))
  pub string : String → Value
  pub number : ℕ → Value
  pub array : List Value → Value
  pub object : List (String × Value) → Value
  -- the reading and writing of a key that the object has
  pub get-set :
      (v : Value) (k j : String) (old new : Value)
      → get v k ≡ some old
      → get (set v k new) j ≡ (if k == j then some new else get v j)
  pub set_self : (v : Value) (k : String) (old : Value) → get v k ≡ some old → set v k old ≡ v
  pub as_str-string : (s : String) → as_str (string s) ≡ some s
  pub string-as_str : (v : Value) (s : String) → as_str v ≡ some s → v ≡ string s
  pub as_u64-number : (n : ℕ) → as_u64 (number n) ≡ some n

module _ (J : Json) where
  open J use {Value, get, as_str}

  -- `value[key].as_str()`; a missing key reads as null, which is no text.
  unfoldable pub str_field : Value → String → Option String
  str_field v k = and_then (get v k) as_str
