-- ===== src/Compare/Maps.antt =====
-- parse_gnu_map and parse_nm of projects/binary-compare/analyze.py.
pub mod Zds
pub mod ZdsLines
use mos_agondev.Compare.Records.{CandidateRange, Symbol}
use mos_agondev.Errors.{Result, analysis_error, err, ok}
use mos_agondev.Prelude.{
  Bool, List, Option, [], contains, if◌then◌else◌, list_eq, nat_eq, none, option_eq, pair_eq, some,
  ℕ, ◌&&◌, ◌==◌, ◌||◌, ◌∷◌,
}
use mos_agondev.Regex.{
  Regex, char, full_match, group, line_end, line_start, lit, many, match, named, one, some_of, ◌▸◌,
}
use mos_agondev.Text.{Str, casefold, codes, is_digit, is_space, strip}
use mos_agondev.Text.Number.{value_from}
use mos_agondev.Text.Words.{has_part, lines_of, words_of}
use mos_agondev.Zds.Patterns.{any_char, is_alpha, is_hex, non_space, spaces1}

abbrev pub g1 : Str
g1 = codes "1"

abbrev pub g2 : Str
g2 = codes "2"

abbrev pub g3 : Str
g3 = codes "3"

abbrev pub g4 : Str
g4 = codes "4"

abbrev pub g5 : Str
g5 = codes "5"

-- `int(text, 16)`
abbrev pub hex_value : Str → ℕ
hex_value = value_from 16 0

abbrev section_char : ℕ → Bool
section_char c = is_alpha c || is_digit c || c == b'_' || c == b'.' || c == b'$'

unfoldable pub gnu_row_re : Regex
unfolding is_space
gnu_row_re =
    line_start
    ▸ spaces1
    ▸ group g1 (char b'.' ▸ some_of section_char)
    ▸ spaces1
    ▸ lit (codes "0x")
    ▸ group g2 (some_of is_hex)
    ▸ spaces1
    ▸ lit (codes "0x")
    ▸ group g3 (some_of is_hex)
    ▸ spaces1
    ▸ group g4 (one non_space ▸ many any_char)
    ▸ line_end

-- the range of one row, if the row is of an input section of an object
unfoldable pub gnu_range : Str → Option CandidateRange
unfolding gnu_row_re match named strip has_part value_from
gnu_range row = elim (match gnu_row_re row) [
  | none ↦ none
  | some m ↦
      let object_path = strip (named g4 m) in
      if has_part (codes ".o") object_path || has_part (codes ".a(") object_path
      then some (record {
        section = named g1 m;
        address = hex_value (named g2 m);
        size = hex_value (named g3 m);
        object_path = object_path;
      })
      else none
]

-- `continue` on what is no row, and `append` on the others
abbrev pub keep_some {ℓ κ} : {A : Type ℓ} {B : Type κ} → (A → Option B) → List A → List B
keep_some f [] = []
keep_some f (x ∷ xs) = let rest = keep_some f xs in elim (f x) [ none ↦ rest | some y ↦ y ∷ rest ]

-- `if not items: raise AnalysisError(...)`
abbrev pub not_empty {ℓ} : {A : Type ℓ} → List A → Result (List A)
not_empty [] = err analysis_error
not_empty (x ∷ xs) = ok (x ∷ xs)

unfoldable pub parse_gnu_map : Str → Result (List CandidateRange)
unfolding gnu_range lines_of
parse_gnu_map text = not_empty (keep_some gnu_range (lines_of text))

unfoldable pub is_hex_text : Str → Bool
unfolding full_match
is_hex_text = full_match (some_of is_hex)

abbrev nm_symbol : Str → Str → Str → ℕ → Symbol
nm_symbol address_hex symbol_type name size = record {
  name = name;
  address = hex_value address_hex;
  address_space =
      if contains (casefold symbol_type) (codes "b" ∷ codes "d" ∷ []) then codes "D" else codes "C";
  module_name = [];
  segment = [];
  symbol_type = symbol_type;
  size = size;
}

-- the symbol of a line with three or four fields
unfoldable pub nm_fields : List Str → Option Symbol
unfolding is_hex_text value_from casefold contains
nm_fields (address_hex ∷ symbol_type ∷ name ∷ []) =
    if is_hex_text address_hex then some (nm_symbol address_hex symbol_type name 0) else none
nm_fields (address_hex ∷ size_hex ∷ symbol_type ∷ name ∷ []) =
    if is_hex_text size_hex && is_hex_text address_hex
    then some (nm_symbol address_hex symbol_type name (hex_value size_hex))
    else none
nm_fields _ = none

unfoldable pub parse_nm : Str → Result (List Symbol)
unfolding nm_fields words_of lines_of
parse_nm text = not_empty (keep_some (λ row. nm_fields (words_of row)) (lines_of text))
