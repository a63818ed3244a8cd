-- ===== src/Agent/Title.antt =====
-- The cleaning of titles, src/agent/sanitize_title.rs.
use Prim.Native.Char.{Char, code}
use herdr_agent_watcher.Prelude.{
  ℕ, suc, zero, ◌≤◌, ◌≡◌, refl, String, Option, none, some, Bool, true, false, ◌||◌, not, nat_beq,
  ltb, leb, if◌then◌else◌, Bool-cases, inl, inr, arith,
}
use herdr_agent_watcher.Text.{is_empty, is_whitespace, map_chars, trim_end}
use herdr_agent_watcher.Text.Bytes.{len, len_utf8, is_char_boundary, truncate}
use herdr_agent_watcher.Text.Lines.{collapse_whitespace}
use herdr_agent_watcher.Text.Sanitise.{AllChars, StartsSolid, trim_end-AllChars}
use herdr_agent_watcher.Text.Words.{
  collapse_from-AllChars, collapse_whitespace-StartsSolid, len-trim_end, len-truncate,
  truncate-AllChars,
}

abbrev pub cap_bytes : ℕ
cap_bytes = 200

abbrev pub is_c0_or_del : Char → Bool
is_c0_or_del c = leb (code c) 0x1f || nat_beq (code c) 0x7f

unfoldable pub blank_control : Char → Char
blank_control c = if is_c0_or_del c then " " else c

-- The loop that goes down to a character boundary.
unfoldable pub boundary_below : String → ℕ → ℕ
boundary_below s zero = zero
boundary_below s (suc cut) =
    let lower = boundary_below s cut in if is_char_boundary s (suc cut) then suc cut else lower

unfoldable pub cut_title : String → String
cut_title s =
    if ltb cap_bytes (len s) then trim_end (truncate s (boundary_below s cap_bytes)) else s

-- Control characters are blank, and white space is collapsed.
unfoldable pub collapsed : String → String
collapsed raw = collapse_whitespace (map_chars blank_control raw)

unfoldable pub sanitize_title : String → Option String
sanitize_title raw = if is_empty (collapsed raw) then none else some (cut_title (collapsed raw))

abbrev pub is_plain : Char → Bool
is_plain c = not (is_c0_or_del c)

blank_control-plain : (c : Char) → is_plain (blank_control c) ≡ true
unfolding blank_control
blank_control-plain c = elim (Bool-cases (is_c0_or_del c)) [
  | inl e ↦ rw e
  | inr e ↦ rw e (ground (arith, e))
]

map_chars-plain : (s : String) → AllChars is_plain (map_chars blank_control s)
unfolding map_chars
map_chars-plain String.[] = tt
map_chars-plain (String.◌∷◌ c s) = (blank_control-plain c, map_chars-plain s)

collapsed_plain : (raw : String) → AllChars is_plain (collapsed raw)
unfolding collapsed collapse_whitespace
collapsed_plain raw = collapse_from-AllChars is_plain false false _ refl (map_chars-plain raw)

collapsed-StartsSolid : (raw : String) → StartsSolid (collapsed raw)
unfolding collapsed
collapsed-StartsSolid raw = collapse_whitespace-StartsSolid (map_chars blank_control raw)

boundary_below-le : (s : String) (n : ℕ) → boundary_below s n ≤ n
unfolding boundary_below
boundary_below-le s zero = omega arith
boundary_below-le s (suc n) = ground (arith, boundary_below-le s n)

len_utf8_bounds : (c : Char) → (1 ≤ len_utf8 c) × (len_utf8 c ≤ 4)
unfolding len_utf8
len_utf8_bounds c = ground arith

first_boundary :
    (c : Char) (s : String) (n : ℕ)
    → len_utf8 c ≡ suc n
    → is_char_boundary (String.◌∷◌ c s) (suc n) ≡ true
unfolding is_char_boundary
first_boundary c s n h = ground (arith, h)

-- The end of the first character is a boundary.
boundary_below-first :
    (c : Char) (s : String) (n : ℕ)
    → len_utf8 c ≤ n
    → len_utf8 c ≤ boundary_below (String.◌∷◌ c s) n
unfolding boundary_below
boundary_below-first c s zero h = absurd (ground (arith, len_utf8_bounds c))
boundary_below-first c s (suc n) h = elim (Bool-cases (is_char_boundary (String.◌∷◌ c s) (suc n))) [
  | inl b ↦ rw b h
  | inr b ↦ elim (Bool-cases (leb (len_utf8 c) n)) [
    | inl fits ↦ rw b (boundary_below-first c s n (ground (arith, fits)))
    | inr long ↦ absurd (ground (arith, b, first_boundary c s n (ground (arith, long, h))))
  ]
]

truncated_present :
    (c : Char) (s : String) (cut : ℕ)
    → is_whitespace c ≡ false
    → leb (len_utf8 c) cut ≡ true
    → is_empty (trim_end (truncate (String.◌∷◌ c s) cut)) ≡ false
unfolding truncate trim_end is_empty
truncated_present c s cut solid fits = ground (arith, solid, fits)

cut_title-plain : (s : String) → AllChars is_plain s → AllChars is_plain (cut_title s)
unfolding cut_title
cut_title-plain s p = elim (Bool-cases (ltb cap_bytes (len s))) [
  | inl long ↦
      rw long
        (trim_end-AllChars is_plain _ (truncate-AllChars is_plain s (boundary_below s cap_bytes) p))
  | inr short ↦ rw short p
]

len-cut_title : (s : String) → len (cut_title s) ≤ cap_bytes
unfolding cut_title
len-cut_title s = elim (Bool-cases (ltb cap_bytes (len s))) [
  | inl long ↦
      let cut = boundary_below s cap_bytes in
      rw long (
        omega
          (arith, len-trim_end (truncate s cut), len-truncate s cut, boundary_below-le s cap_bytes))
  | inr short ↦ rw short (ground (arith, short))
]

-- A text that starts with no white space keeps its first character.
cut_title-present :
    (s : String) → StartsSolid s → is_empty s ≡ false → is_empty (cut_title s) ≡ false
unfolding cut_title is_empty
cut_title-present String.[] a e = absurd cc
cut_title-present (String.◌∷◌ c s) a e = elim (Bool-cases (ltb cap_bytes (len (String.◌∷◌ c s)))) [
  | inl long ↦
      let cut = boundary_below (String.◌∷◌ c s) cap_bytes in
      let fits : leb (len_utf8 c) cut ≡ true =
        ground (arith, boundary_below-first c s cap_bytes, len_utf8_bounds c) in
      rw long (truncated_present c s cut a fits)
  | inr short ↦ rw short refl
]

-- What a kept title is.
pub record IsTitle (t : String) : Type 0 where
  pub short : len t ≤ cap_bytes
  pub plain : AllChars is_plain t
  pub present : is_empty t ≡ false

-- A title that `sanitize_title` keeps is at most 200 bytes long, is not empty, and has no control
-- character below the space and no DEL.
pub sanitize_title-IsTitle : (raw t : String) → sanitize_title raw ≡ some t → IsTitle t
unfolding sanitize_title
sanitize_title-IsTitle raw t h = elim (Bool-cases (is_empty (collapsed raw))) [
  | inl e ↦ ground (arith, e, h)
  | inr e ↦
      let same : cut_title (collapsed raw) ≡ t = ground (arith, e, h) in
      rw (← same) (record {
        short = len-cut_title (collapsed raw);
        plain = cut_title-plain (collapsed raw) (collapsed_plain raw);
        present = cut_title-present (collapsed raw) (collapsed-StartsSolid raw) e;
      })
]
