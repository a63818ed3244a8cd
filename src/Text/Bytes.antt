-- ===== src/Text/Bytes.antt =====
-- A Rust `String` by the bytes of its UTF-8: `len`, `is_char_boundary`, `truncate`; and its `push`.
use Prim.Native.Char.{Char, code}
use Prim.Native.String.{String, [], ◌∷◌}
use herdr_agent_watcher.Prelude.{ℕ, suc, zero, ◌+◌, ◌-◌, Bool, true, false, ltb, leb, if◌then◌else◌}

-- `char::len_utf8`
unfoldable pub len_utf8 : Char → ℕ
len_utf8 c =
    if ltb (code c) 0x80
    then 1
    else if ltb (code c) 0x800
    then 2
    else if ltb (code c) 0x10000
    then 3
    else 4

unfoldable pub len : String → ℕ
len [] = 0
len (c ∷ s) = len_utf8 c + len s

unfoldable pub is_char_boundary : String → ℕ → Bool
is_char_boundary s zero = true
is_char_boundary [] (suc n) = false
is_char_boundary (c ∷ s) (suc n) =
    let rest = is_char_boundary s (suc n - len_utf8 c) in
    if leb (len_utf8 c) (suc n) then rest else false

-- `truncate` at a boundary: the characters that end by it.
unfoldable pub truncate : String → ℕ → String
truncate [] n = []
truncate (c ∷ s) n =
    let rest = truncate s (n - len_utf8 c) in if leb (len_utf8 c) n then c ∷ rest else []

-- `chars().count()`
unfoldable pub count : String → ℕ
count [] = 0
count (c ∷ s) = suc (count s)

unfoldable pub push : String → Char → String
push [] d = d ∷ []
push (c ∷ s) d = c ∷ push s d
