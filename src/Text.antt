-- ===== src/Text.antt =====
-- What the source takes from Rust's `char` and `str` (control characters, white space, `trim`), and
-- `sanitise` of src/sidebar/format.rs.
pub mod Bytes
pub mod Lines
pub mod Sanitise
pub mod Words
use Prim.Native.Nat.{ℕ}
use Prim.Native.Char.{Char, code}
use Prim.Native.String.{String, [], ◌∷◌}
use mathlib.Core.Bool.{Bool, true, false, ◌&&◌, ◌||◌}
use herdr_agent_watcher.Prelude.{nat_beq, leb, if◌then◌else◌}

-- `char::is_control`: the general category Cc.
unfoldable pub is_control : Char → Bool
is_control c = leb (code c) 0x1f || (leb 0x7f (code c) && leb (code c) 0x9f)

-- `char::is_whitespace`: the property White_Space.
unfoldable pub is_whitespace : Char → Bool
is_whitespace c =
    let n = code c in
    (leb 0x9 n && leb n 0xd)
    || (nat_beq n 0x20
        || (nat_beq n 0x85
            || (nat_beq n 0xa0
                || (nat_beq n 0x1680
                    || ((leb 0x2000 n && leb n 0x200a)
                        || ((leb 0x2028 n && leb n 0x2029)
                            || (nat_beq n 0x202f || (nat_beq n 0x205f || nat_beq n 0x3000))))))))

unfoldable pub is_empty : String → Bool
is_empty [] = true
is_empty (c ∷ s) = false

unfoldable pub trim_start : String → String
trim_start [] = []
trim_start (c ∷ s) = if is_whitespace c then trim_start s else c ∷ s

unfoldable pub trim_end : String → String
trim_end [] = []
trim_end (c ∷ s) =
    let rest = trim_end s in if is_empty rest && is_whitespace c then [] else c ∷ rest

unfoldable pub trim : String → String
unfolding trim_start trim_end
trim s = trim_end (trim_start s)

-- `chars().map(f).collect()`
unfoldable pub map_chars : (Char → Char) → String → String
map_chars f [] = []
map_chars f (c ∷ s) = f c ∷ map_chars f s

-- A tab or another control character becomes a space.
unfoldable pub spaced : Char → Char
spaced c = if nat_beq (code c) b'\t' || is_control c then " " else c

unfoldable pub sanitise : String → String
sanitise s = trim (map_chars spaced s)
