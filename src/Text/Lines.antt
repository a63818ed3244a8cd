-- ===== src/Text/Lines.antt =====
-- What the source takes from Rust's `str` to cut a text into lines and words: `lines`,
-- `split_whitespace`, `trim_matches`, `starts_with`, `chars` with `filter` and `take`.
use Prim.Native.Char.{Char, code}
use herdr_agent_watcher.Prelude.{
  ℕ, suc, zero, String, List, [], ◌∷◌, Bool, true, false, ◌&&◌, ◌||◌, nat_beq, if◌then◌else◌,
}
use herdr_agent_watcher.Text.{is_empty, is_whitespace}

abbrev pub ends_line : Char → Bool
ends_line c = nat_beq (code c) 13 || nat_beq (code c) 10

-- `trim_end_matches(['\r', '\n'])`
unfoldable pub trim_line_end : String → String
trim_line_end String.[] = String.[]
trim_line_end (String.◌∷◌ c s) =
    let rest = trim_line_end s in
    if is_empty rest && ends_line c then String.[] else String.◌∷◌ c rest

abbrev starts_newline : String → Bool
starts_newline String.[] = false
starts_newline (String.◌∷◌ c s) = nat_beq (code c) 10

-- The character comes before the first line.
abbrev begin_line : Char → List String → List String
begin_line c [] = String.◌∷◌ c String.[] ∷ []
begin_line c (line ∷ rest) = String.◌∷◌ c line ∷ rest

-- `lines`: a line ends with a newline, or a carriage return and a newline, or the text.
unfoldable pub lines : String → List String
lines String.[] = []
lines (String.◌∷◌ c s) =
    let rest = lines s in
    if nat_beq (code c) 10
    then String.[] ∷ rest
    else if nat_beq (code c) 13 && starts_newline s
    then rest
    else begin_line c rest

-- `trim_matches`
unfoldable pub trim_start_matches : (Char → Bool) → String → String
trim_start_matches p String.[] = String.[]
trim_start_matches p (String.◌∷◌ c s) = if p c then trim_start_matches p s else String.◌∷◌ c s

unfoldable pub trim_end_matches : (Char → Bool) → String → String
trim_end_matches p String.[] = String.[]
trim_end_matches p (String.◌∷◌ c s) =
    let rest = trim_end_matches p s in if is_empty rest && p c then String.[] else String.◌∷◌ c rest

unfoldable pub trim_matches : (Char → Bool) → String → String
unfolding trim_start_matches trim_end_matches
trim_matches p s = trim_end_matches p (trim_start_matches p s)

-- `chars().filter(p).collect()`
unfoldable pub filter_chars : (Char → Bool) → String → String
filter_chars p String.[] = String.[]
filter_chars p (String.◌∷◌ c s) =
    let rest = filter_chars p s in if p c then String.◌∷◌ c rest else rest

-- `split_whitespace().collect::<Vec<_>>().join(" ")`: runs of white space become one space, and none
-- is left at the ends. The flag tells whether a word has begun, and the other one whether white space
-- has come after it.
unfoldable pub collapse_from : Bool → Bool → String → String
collapse_from began gap String.[] = String.[]
collapse_from began gap (String.◌∷◌ c s) =
    let wait = collapse_from began began s in
    let go_on = collapse_from true false s in
    if is_whitespace c
    then wait
    else if gap
    then String.◌∷◌ " " (String.◌∷◌ c go_on)
    else String.◌∷◌ c go_on

unfoldable pub collapse_whitespace : String → String
unfolding collapse_from
collapse_whitespace s = collapse_from false false s

-- `chars().take(n).collect()`
unfoldable pub take_chars : ℕ → String → String
take_chars zero s = String.[]
take_chars (suc n) String.[] = String.[]
take_chars (suc n) (String.◌∷◌ c s) = String.◌∷◌ c (take_chars n s)
