-- ===== src/Zds/Lexical.antt =====
-- Physical lines, comments and quoted regions of a source line: split_physical_line,
-- split_comment, map_unquoted and mask_quoted of projects/mos-port/tools/zds2gas.py.
-- A loop over the characters is a recursion on them, with the loop's variables as arguments.
pub mod Regions
pub mod Unquoted
pub mod Segments
pub mod Lines
use mos_agondev.Prelude.{
  Bool, Option, [], false, if◌then◌else◌, list_eq, nat_eq, none, option_eq, pair_eq, some, true, ℕ,
  ◌++◌, ◌==◌, ◌||◌, ◌∷◌,
}
use mos_agondev.Text.{Str}

-- the last character and what stands before it
unfoldable pub split_last : Str → Option (Str × ℕ)
split_last [] = none
split_last (c ∷ cs) = elim (split_last cs) [
  | none ↦ some ([], c)
  | some (front, last) ↦ some (c ∷ front, last)
]

-- `line.endswith("\r")` on what stands before a final newline
split_crlf : Str → Option (Str × ℕ) → Str × Str
split_crlf front none = (front, 10 ∷ [])
split_crlf front (some (text, c)) = if c == 13 then (text, 13 ∷ 10 ∷ []) else (front, 10 ∷ [])

split_ending : Str → Option (Str × ℕ) → Str × Str
unfolding split_crlf
split_ending line none = (line, [])
split_ending line (some (front, c)) =
    if c == 10
    then split_crlf front (split_last front)
    else if c == 13
    then (front, 13 ∷ [])
    else (line, [])

unfoldable pub split_physical_line : Str → Str × Str
unfolding split_ending split_last
split_physical_line line = split_ending line (split_last line)

-- the variables `quote` and `escaped` of the scanners
pub record Quoting : Type 0 where
  pub quote : Option ℕ
  pub escaped : Bool

abbrev pub unquoted : Quoting
unquoted = record { quote = none; escaped = false }

abbrev pub is_quote : ℕ → Bool
is_quote c = c == b'\'' || c == b'"'

-- one round of `split_comment` inside a string, and outside; `none` where the code ends
comment_inside : ℕ → Bool → ℕ → Option Quoting
comment_inside q escaped c =
    if escaped
    then some (record { quote = some q; escaped = false })
    else if c == b'\\'
    then some (record { quote = some q; escaped = true })
    else if c == q
    then some unquoted
    else some (record { quote = some q; escaped = false })

comment_outside : Bool → ℕ → Option Quoting
comment_outside escaped c =
    if escaped
    then some unquoted
    else if is_quote c
    then some (record { quote = some c; escaped = false })
    else if c == b';'
    then none
    else some unquoted

unfoldable pub comment_round : Quoting → ℕ → Option Quoting
unfolding comment_inside comment_outside
comment_round st c = elim (st.quote) [
  | none ↦ comment_outside st.escaped c
  | some q ↦ comment_inside q st.escaped c
]

unfoldable pub comment_from : Quoting → Str → Str × Str
unfolding comment_round
comment_from st [] = ([], [])
comment_from st (c ∷ cs) = elim (comment_round st c) [
  | none ↦ ([], c ∷ cs)
  | some next ↦ let (code, comment) = comment_from next cs in (c ∷ code, comment)
]

unfoldable pub split_comment : Str → Str × Str
unfolding comment_from
split_comment = comment_from unquoted

-- one round of `_mask_quoted`: the new state and the character kept
mask_round : Quoting → ℕ → Quoting × ℕ
mask_round st c = elim (st.quote) [
  | none ↦ if is_quote c then (record st { quote = some c }, b' ') else (st, c)
  | some q ↦
      if st.escaped
      then (record st { escaped = false }, b' ')
      else if c == b'\\'
      then (record st { escaped = true }, b' ')
      else if c == q
      then (record st { quote = none }, b' ')
      else (st, b' ')
]

unfoldable pub mask_from : Quoting → Str → Str
unfolding mask_round
mask_from st [] = []
mask_from st (c ∷ cs) = let (next, kept) = mask_round st c in kept ∷ mask_from next cs

unfoldable pub mask_quoted : Str → Str
unfolding mask_from
mask_quoted = mask_from unquoted

-- the variables of `map_unquoted`; `output` is joined
pub record Mapping : Type 0 where
  pub output : Str
  pub plain : Str
  pub quote : Option ℕ
  pub quoted : Str
  pub escaped : Bool

-- `flush_plain`
unfoldable pub flush_plain : (Str → Str) → Mapping → Mapping
flush_plain transform st = elim (st.plain) [
  | [] ↦ st
  | c ∷ cs ↦ record st { output = st.output ++ transform (c ∷ cs); plain = [] }
]

map_outside : (Str → Str) → Mapping → ℕ → Mapping
unfolding flush_plain
map_outside transform st c =
    if is_quote c
    then record (flush_plain transform st) { quote = some c; quoted = c ∷ [] }
    else record st { plain = st.plain ++ (c ∷ []) }

map_inside : Mapping → ℕ → ℕ → Mapping
map_inside st q c =
    let quoted = st.quoted ++ (c ∷ []) in
    if st.escaped
    then record st { quoted = quoted; escaped = false }
    else if c == b'\\'
    then record st { quoted = quoted; escaped = true }
    else if c == q
    then record st { output = st.output ++ quoted; quoted = []; quote = none }
    else record st { quoted = quoted }

unfoldable pub map_round : (Str → Str) → Mapping → ℕ → Mapping
unfolding map_outside map_inside
map_round transform st c = elim (st.quote) [
  | none ↦ map_outside transform st c
  | some q ↦ map_inside st q c
]

-- what stands behind the loop: an unterminated string is kept as it is
unfoldable pub map_finish : (Str → Str) → Mapping → Str
unfolding flush_plain
map_finish transform st = elim (st.quote) [
  | none ↦ (flush_plain transform st).output
  | some q ↦ (flush_plain transform (record st { output = st.output ++ st.quoted })).output
]

unfoldable pub map_from : (Str → Str) → Mapping → Str → Str
unfolding map_round map_finish
map_from transform st [] = map_finish transform st
map_from transform st (c ∷ cs) = map_from transform (map_round transform st c) cs

abbrev pub map_start : Mapping
map_start = record { output = []; plain = []; quote = none; quoted = []; escaped = false }

unfoldable pub map_unquoted : Str → (Str → Str) → Str
unfolding map_from
map_unquoted text transform = map_from transform map_start text
