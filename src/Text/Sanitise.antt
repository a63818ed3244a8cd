-- ===== src/Text/Sanitise.antt =====
-- What `sanitise` guarantees of its result: no control character, no white space at the ends, and
-- a second run changes nothing.
use Prim.Native.Char.{Char, code}
use Prim.Native.String.{String, [], ◌∷◌}
use mathlib.Core.Path.{◌≡◌, refl, ap, ◌∙◌}
use mathlib.Core.Bool.{Bool, true, false, ◌&&◌, ◌||◌}
use mathlib.Core.Logic.{inl, inr}
use native.Mathlib.Omega.{arith}
use herdr_agent_watcher.Prelude.{nat_beq, Bool-cases}
use herdr_agent_watcher.Text.{
  is_control, is_whitespace, is_empty, trim_start, trim_end, trim, map_chars, spaced, sanitise,
}

-- Every character passes the test.
abbrev pub AllChars : (Char → Bool) → String → Type 0
AllChars p [] = Unit
AllChars p (c ∷ s) = (p c ≡ true) × AllChars p s

abbrev pub is_printable : Char → Bool
is_printable c = elim (is_control c) [ true ↦ false | false ↦ true ]

abbrev pub StartsSolid : String → Type 0
StartsSolid [] = Unit
StartsSolid (c ∷ s) = is_whitespace c ≡ false

abbrev pub EndsSolid : String → Type 0
EndsSolid s = trim_end s ≡ s

space_printable : is_printable " " ≡ true
unfolding is_control
space_printable = refl

spaced_printable : (c : Char) → is_printable (spaced c) ≡ true
unfolding spaced
spaced_printable c = elim (Bool-cases (nat_beq (code c) b'\t' || is_control c)) [
  | inl control ↦ rw control space_printable
  | inr other ↦ rw other (ground (arith, other))
]

spaced_id : (c : Char) → is_printable c ≡ true → spaced c ≡ c
unfolding spaced is_control
spaced_id c h = ground arith

map_chars-printable : (s : String) → AllChars is_printable (map_chars spaced s)
unfolding map_chars
map_chars-printable [] = tt
map_chars-printable (c ∷ s) = (spaced_printable c, map_chars-printable s)

map_chars_id : (s : String) → AllChars is_printable s → map_chars spaced s ≡ s
unfolding map_chars
map_chars_id [] h = refl
map_chars_id (c ∷ s) h = cc (spaced_id c h.0, map_chars_id s h.1)

trim_start-AllChars : (p : Char → Bool) (s : String) → AllChars p s → AllChars p (trim_start s)
unfolding trim_start
trim_start-AllChars p [] h = tt
trim_start-AllChars p (c ∷ s) h = ground (arith, trim_start-AllChars p s)

pub trim_end-AllChars : (p : Char → Bool) (s : String) → AllChars p s → AllChars p (trim_end s)
unfolding trim_end
trim_end-AllChars p [] h = tt
trim_end-AllChars p (c ∷ s) h =
    let rest = trim_end-AllChars p s h.1 in
    elim (Bool-cases (is_empty (trim_end s) && is_whitespace c)) [
      | inl e ↦ rw e tt
      | inr e ↦ rw e (h.0, rest)
    ]

trim_start-StartsSolid : (s : String) → StartsSolid (trim_start s)
unfolding trim_start
trim_start-StartsSolid [] = tt
trim_start-StartsSolid (c ∷ s) = ground (arith, trim_start-StartsSolid s)

trim_end-StartsSolid : (s : String) → StartsSolid s → StartsSolid (trim_end s)
unfolding trim_end
trim_end-StartsSolid [] h = tt
trim_end-StartsSolid (c ∷ s) h = ground arith

pub trim_end-trim_end : (s : String) → EndsSolid (trim_end s)
unfolding trim_end is_empty
trim_end-trim_end [] = refl
trim_end-trim_end (c ∷ s) = ground (arith, trim_end-trim_end s)

trim_start_id : (s : String) → StartsSolid s → trim_start s ≡ s
unfolding trim_start
trim_start_id [] h = refl
trim_start_id (c ∷ s) h = rw h

-- What `sanitise` returns has no control character, and no white space at either end.
pub sanitise_clean :
    (s : String)
    → AllChars is_printable (sanitise s) × StartsSolid (sanitise s) × EndsSolid (sanitise s)
unfolding sanitise trim
sanitise_clean s = (
  trim_end-AllChars is_printable _ (trim_start-AllChars is_printable _ (map_chars-printable s)),
  trim_end-StartsSolid _ (trim_start-StartsSolid (map_chars spaced s)),
  trim_end-trim_end (trim_start (map_chars spaced s)),
)

-- A text that is already clean stays as it is.
pub sanitise_id :
    (s : String) → AllChars is_printable s → StartsSolid s → EndsSolid s → sanitise s ≡ s
unfolding sanitise trim
sanitise_id s p a z = ap trim (map_chars_id s p) ∙ ap trim_end (trim_start_id s a) ∙ z

-- Sanitising twice is sanitising once.
pub sanitise-sanitise : (s : String) → sanitise (sanitise s) ≡ sanitise s
sanitise-sanitise s = let (p, a, z) = sanitise_clean s in sanitise_id (sanitise s) p a z
