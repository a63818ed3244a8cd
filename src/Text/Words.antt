-- ===== src/Text/Words.antt =====
-- What the cutting of a text into words and pieces keeps: the kind of its characters, a first
-- character that is no white space, and the size.
use Prim.Native.Char.{Char}
use Prim.Native.String.{String, [], ◌∷◌}
use mathlib.Core.Path.{◌≡◌, refl}
use mathlib.Core.Bool.{Bool, true, false}
use mathlib.Core.Logic.{inl, inr}
use native.Mathlib.Omega.{arith}
use herdr_agent_watcher.Prelude.{ℕ, suc, zero, ◌&&◌, leb, ◌-◌, ◌≤◌, Bool-cases}
use herdr_agent_watcher.Text.{is_whitespace, is_empty, trim_end}
use herdr_agent_watcher.Text.Bytes.{len, len_utf8, count, truncate, push}
use herdr_agent_watcher.Text.Lines.{filter_chars, collapse_from, collapse_whitespace, take_chars}
use herdr_agent_watcher.Text.Sanitise.{AllChars, StartsSolid}

pub filter_chars-AllChars : (p : Char → Bool) (s : String) → AllChars p (filter_chars p s)
unfolding filter_chars
filter_chars-AllChars p [] = tt
filter_chars-AllChars p (c ∷ s) = elim (Bool-cases (p c)) [
  | inl e ↦ rw e (e, filter_chars-AllChars p s)
  | inr e ↦ rw e (filter_chars-AllChars p s)
]

pub collapse_from-AllChars :
    (p : Char → Bool) (began gap : Bool) (s : String)
    → p " " ≡ true
    → AllChars p s
    → AllChars p (collapse_from began gap s)
unfolding collapse_from
collapse_from-AllChars p began gap [] blank h = tt
collapse_from-AllChars p began gap (c ∷ s) blank h = elim (Bool-cases (is_whitespace c)) [
  | inl e ↦ rw e (collapse_from-AllChars p began began s blank h.1)
  | inr e ↦ elim (Bool-cases gap) [
    | inl g ↦ rw (e, g) (blank, (h.0, collapse_from-AllChars p true false s blank h.1))
    | inr g ↦ rw (e, g) (h.0, collapse_from-AllChars p true false s blank h.1)
  ]
]

pub collapse_whitespace-StartsSolid : (s : String) → StartsSolid (collapse_whitespace s)
unfolding collapse_whitespace
collapse_whitespace-StartsSolid [] = tt
collapse_whitespace-StartsSolid (c ∷ s) = elim (Bool-cases (is_whitespace c)) [
  | inl e ↦ rw e (collapse_whitespace-StartsSolid s)
  | inr e ↦ rw e e
]

pub take_chars-AllChars :
    (p : Char → Bool) (n : ℕ) (s : String) → AllChars p s → AllChars p (take_chars n s)
unfolding take_chars
take_chars-AllChars p zero s h = tt
take_chars-AllChars p (suc n) [] h = tt
take_chars-AllChars p (suc n) (c ∷ s) h = (h.0, take_chars-AllChars p n s h.1)

pub count-take_chars : (n : ℕ) (s : String) → count (take_chars n s) ≤ n
unfolding take_chars count
count-take_chars zero s = omega arith
count-take_chars (suc n) [] = omega arith
count-take_chars (suc n) (c ∷ s) = omega (arith, count-take_chars n s)

pub push-AllChars :
    (p : Char → Bool) (s : String) (d : Char) → AllChars p s → p d ≡ true → AllChars p (push s d)
unfolding push
push-AllChars p [] d h hd = (hd, tt)
push-AllChars p (c ∷ s) d h hd = (h.0, push-AllChars p s d h.1 hd)

pub count-push : (s : String) (d : Char) → count (push s d) ≡ suc (count s)
unfolding count push
count-push [] d = refl
count-push (c ∷ s) d = omega (arith, count-push s d)

pub len-trim_end : (s : String) → len (trim_end s) ≤ len s
unfolding trim_end len
len-trim_end [] = omega arith
len-trim_end (c ∷ s) = elim (Bool-cases (is_empty (trim_end s) && is_whitespace c)) [
  | inl e ↦ rw e (omega arith)
  | inr e ↦ rw e (omega (arith, len-trim_end s))
]

pub len-truncate : (s : String) (n : ℕ) → len (truncate s n) ≤ n
unfolding len truncate
len-truncate [] n = omega arith
len-truncate (c ∷ s) n = elim (Bool-cases (leb (len_utf8 c) n)) [
  | inl e ↦ rw e (ground (arith, e, len-truncate s (n - len_utf8 c)))
  | inr e ↦ rw e (omega arith)
]

pub truncate-AllChars :
    (p : Char → Bool) (s : String) (n : ℕ) → AllChars p s → AllChars p (truncate s n)
unfolding truncate
truncate-AllChars p [] n h = tt
truncate-AllChars p (c ∷ s) n h = elim (Bool-cases (leb (len_utf8 c) n)) [
  | inl e ↦ rw e (h.0, truncate-AllChars p s (n - len_utf8 c) h.1)
  | inr e ↦ rw e tt
]
