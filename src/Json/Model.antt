-- ===== src/Json/Model.antt =====
-- A value of the interface `Json`, on which the definitions run in the tests: JSON values without
-- fractions, with an array or an object as a chain of its parts.
use mathlib.Core.Option
use herdr_agent_watcher.Prelude.{
  ℕ, String, ◌≡◌, refl, ap, sym, ◌∙◌, Bool, true, false, ◌&&◌, Option, none, some, List, [], ◌∷◌,
  ◌==◌, ◌↔◌, arith, eq_iff, eq_refl, nat_beq, if◌then◌else◌,
}
use herdr_agent_watcher.Json.{Json}

pub data Tree : Type 0 where
  null end_array end_object : Tree
  str : String → Tree
  num : ℕ → Tree
  item : Tree → Tree → Tree
  field : String → Tree → Tree → Tree

abbrev tree_eq : Tree → Tree → Bool
tree_eq null null = true
tree_eq end_array end_array = true
tree_eq end_object end_object = true
tree_eq (str s) (str t) = s == t
tree_eq (num m) (num n) = nat_beq m n
tree_eq (item a x) (item b y) = tree_eq a b && tree_eq x y
tree_eq (field j a x) (field k b y) = (j == k) && (tree_eq a b && tree_eq x y)
tree_eq _ _ = false

tree_eq_refl : (t : Tree) → tree_eq t t ≡ true
tree_eq_refl null = refl
tree_eq_refl end_array = refl
tree_eq_refl end_object = refl
tree_eq_refl (str s) = eq_refl s
tree_eq_refl (num n) = ground arith
tree_eq_refl (item a x) = ground (arith, tree_eq_refl a, tree_eq_refl x)
tree_eq_refl (field k a x) = ground (arith, eq_refl k, tree_eq_refl a, tree_eq_refl x)

tree_eq→eq : (s t : Tree) → tree_eq s t ≡ true → s ≡ t
tree_eq→eq (str s) (str t) h = ground (arith, eq_iff s t)
tree_eq→eq (num m) (num n) h = ground arith
tree_eq→eq (item a x) (item b y) h = ground (arith, tree_eq→eq a b, tree_eq→eq x y)
tree_eq→eq (field j a x) (field k b y) h =
    ground (arith, eq_iff j k, tree_eq→eq a b, tree_eq→eq x y)
tree_eq→eq null null h = refl
tree_eq→eq end_array end_array h = refl
tree_eq→eq end_object end_object h = refl
tree_eq→eq _ _ h = cc

pub tree_eq_iff : (s t : Tree) → (tree_eq s t ≡ true) ↔ (s ≡ t)
tree_eq_iff s t = (tree_eq→eq s t, λ e. ap (tree_eq s) (sym e) ∙ tree_eq_refl s)

abbrev tree_get : Tree → String → Option Tree
tree_get (field j a rest) k = if j == k then some a else tree_get rest k
tree_get _ k = none

abbrev tree_set : Tree → String → Tree → Tree
tree_set (field j a rest) k new =
    let later = tree_set rest k new in if j == k then field j new rest else field j a later
tree_set t k new = t

abbrev tree_str : Tree → Option String
tree_str (str s) = some s
tree_str _ = none

abbrev tree_u64 : Tree → Option ℕ
tree_u64 (num n) = some n
tree_u64 _ = none

abbrev tree_array : Tree → Option (List Tree)
tree_array end_array = some []
tree_array (item a rest) = Option.map (λ xs. a ∷ xs) (tree_array rest)
tree_array _ = none

abbrev tree_object : Tree → Option (List (String × Tree))
tree_object end_object = some []
tree_object (field k a rest) = Option.map (λ xs. (k, a) ∷ xs) (tree_object rest)
tree_object _ = none

abbrev pub array_of : List Tree → Tree
array_of [] = end_array
array_of (x ∷ xs) = item x (array_of xs)

abbrev pub object_of : List (String × Tree) → Tree
object_of [] = end_object
object_of ((k, x) ∷ xs) = field k x (object_of xs)

pub tree_get-set :
    (t : Tree) (k j : String) (old new : Tree)
    → tree_get t k ≡ some old
    → tree_get (tree_set t k new) j ≡ (if k == j then some new else tree_get t j)
tree_get-set (field i a rest) k j old new h =
    ground (arith, eq_iff i k, eq_iff i j, eq_iff k j, tree_get-set rest k j old new)
tree_get-set null k j old new h = ground arith
tree_get-set end_array k j old new h = ground arith
tree_get-set end_object k j old new h = ground arith
tree_get-set (str s) k j old new h = ground arith
tree_get-set (num n) k j old new h = ground arith
tree_get-set (item a x) k j old new h = ground arith

pub tree_set_self :
    (t : Tree) (k : String) (old : Tree) → tree_get t k ≡ some old → tree_set t k old ≡ t
tree_set_self (field i a rest) k old h = ground (arith, tree_set_self rest k old)
tree_set_self null k old h = refl
tree_set_self end_array k old h = refl
tree_set_self end_object k old h = refl
tree_set_self (str s) k old h = refl
tree_set_self (num n) k old h = refl
tree_set_self (item a x) k old h = refl

pub tree_str-string : (s : String) → tree_str (str s) ≡ some s
tree_str-string s = refl

pub string-tree_str : (t : Tree) (s : String) → tree_str t ≡ some s → t ≡ str s
string-tree_str t s h = ground arith

pub tree_u64-number : (n : ℕ) → tree_u64 (num n) ≡ some n
tree_u64-number n = refl

abbrev pub tree_json : Json
tree_json = record {
  Value = Tree;
  value_eq = tree_eq;
  value_eq_iff = tree_eq_iff;
  get = tree_get;
  set = tree_set;
  as_str = tree_str;
  as_u64 = tree_u64;
  as_array = tree_array;
  as_object = tree_object;
  string = str;
  number = num;
  array = array_of;
  object = object_of;
  get-set = tree_get-set;
  set_self = tree_set_self;
  as_str-string = tree_str-string;
  string-as_str = string-tree_str;
  as_u64-number = tree_u64-number;
}
