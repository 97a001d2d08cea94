-- ===== src/Compare/Maps/Zds.antt =====
-- parse_zds_map of projects/binary-compare/analyze.py: a loop over the lines of the linker's map.
use mos_agondev.Compare.Maps.{g1, g2, g3, g4, g5}
use mos_agondev.Compare.Records.{ModuleRange, Symbol, sanitize_zds_option}
use mos_agondev.Prelude.{
  Bool, List, Option, [], false, if◌then◌else◌, list_eq, nat_eq, none, not, option_eq, pair_eq,
  some, suc, zero, ℕ, ◌&&◌, ◌++◌, ◌==◌, ◌||◌, ◌∷◌,
}
use mos_agondev.Regex.{
  Regex, alt, char, fold_char, group, line_end, line_start, lit, lit_ci, nothing, one, some_of, ◌▸◌,
}
use mos_agondev.Text.{Str, codes, is_space, starts_with, strip}
use mos_agondev.Text.Words.{has_part, remove_prefix, remove_suffix, strip_chars}
use mos_agondev.Zds.Patterns.{any_char, is_hex, non_space, some_few, spaces, spaces1}

pub record Metadata : Type 0 where
  pub linker : Option Str
  pub date : Option Str
  pub processor : Option Str
  pub zds : Option Str
  pub compiler_options : List Str
  pub assembler_options : List Str
  pub linker_options : List Str

pub data OptionSection : Type 0 where
  no_options compiler_section assembler_section : OptionSection

pub record MapState : Type 0 where
  pub modules : List ModuleRange
  pub symbols : List Symbol
  pub metadata : Metadata
  -- module, object name and source kind
  pub current : Option (Str × Str × Str)
  pub in_external_definitions : Bool
  pub option_section : OptionSection

abbrev pub start_map : MapState
start_map = record {
  modules = [];
  symbols = [];
  metadata = record {
    linker = none;
    date = none;
    processor = none;
    zds = none;
    compiler_options = [];
    assembler_options = [];
    linker_options = [];
  };
  current = none;
  in_external_definitions = false;
  option_section = no_options;
}

-- `[CD]` and `h` under re.IGNORECASE
abbrev space_letter : ℕ → Bool
space_letter c = fold_char c == b'c' || fold_char c == b'd'

unfoldable pub module_re : Regex
unfolding is_space
module_re =
    line_start
    ▸ lit (codes "Module:")
    ▸ spaces1
    ▸ group g1 (some_few any_char)
    ▸ spaces1
    ▸ char b'('
    ▸ group g2 (alt (lit (codes "File")) (lit (codes "Library")))
    ▸ char b':'
    ▸ spaces
    ▸ group g3 (some_of (λ c. not (c == b')')))
    ▸ char b')'

unfoldable pub segment_re : Regex
unfolding is_space fold_char
segment_re =
    line_start
    ▸ spaces1
    ▸ lit_ci (codes "Segment")
    ▸ char b':'
    ▸ spaces1
    ▸ group g1 (some_of non_space)
    ▸ spaces1
    ▸ group g2 (one space_letter)
    ▸ char b':'
    ▸ group g3 (some_of is_hex)
    ▸ spaces1
    ▸ one space_letter
    ▸ char b':'
    ▸ group g4 (some_of is_hex)
    ▸ spaces1
    ▸ group g5 (some_of is_hex)
    ▸ lit_ci (codes "h")
    ▸ spaces
    ▸ line_end

unfoldable pub symbol_re : Regex
unfolding is_space fold_char
symbol_re =
    line_start
    ▸ group g1 (some_of non_space)
    ▸ spaces1
    ▸ group g2 (one space_letter)
    ▸ char b':'
    ▸ group g3 (some_of is_hex)
    ▸ spaces1
    ▸ group g4 (some_of non_space)
    ▸ spaces1
    ▸ group g5 (some_of non_space)
    ▸ spaces
    ▸ line_end

-- `{8}`
abbrev times : ℕ → Regex → Regex
times zero r = nothing
times (suc n) r = r ▸ times n r

unfoldable pub absolute_symbol_re : Regex
unfolding is_space fold_char
absolute_symbol_re =
    line_start
    ▸ group g1 (some_of non_space)
    ▸ spaces1
    ▸ group g2 (times 8 (one is_hex))
    ▸ spaces1
    ▸ char b'('
    ▸ lit_ci (codes "User Defined")
    ▸ char b')'
    ▸ spaces
    ▸ line_end

-- `line.split(":", 1)[1].strip()`
abbrev after_colon : Str → Str
after_colon [] = []
after_colon (c ∷ cs) = let rest = after_colon cs in if c == b':' then strip cs else rest

abbrev banner_char : ℕ → Bool
banner_char c = c == b'/' || c == b'*' || c == b' '

unfoldable pub header_line : Str → Metadata → Metadata
unfolding starts_with has_part strip strip_chars
header_line row metadata =
    if starts_with (codes "IEEE 695 OMF Linker Version") row
    then record metadata { linker = some (strip row) }
    else if starts_with (codes "DATE:") row
    then record metadata { date = some (after_colon row) }
    else if starts_with (codes "PROCESSOR:") row
    then record metadata { processor = some (after_colon row) }
    else if has_part (codes "ZDS II - eZ80Acclaim!") row
    then record metadata { zds = some (strip_chars banner_char (strip row)) }
    else metadata

-- `metadata[option_section].append(sanitize_zds_option(option))`
unfoldable pub add_option : OptionSection → Str → Metadata → Metadata
unfolding sanitize_zds_option
add_option no_options option metadata = metadata
add_option compiler_section option metadata = record metadata {
  compiler_options = metadata.compiler_options ++ (sanitize_zds_option option ∷ []);
}
add_option assembler_section option metadata = record metadata {
  assembler_options = metadata.assembler_options ++ (sanitize_zds_option option ∷ []);
}

-- the text of an option between comment marks
abbrev option_text : Str → Str
option_text stripped = strip (remove_suffix (codes "*/") (remove_prefix (codes "/*") stripped))

abbrev is_heading : Str → Bool
is_heading option =
    starts_with (codes "compiler options") option || starts_with (codes "assembler options") option

unfoldable pub option_line : OptionSection → Str → Metadata → Metadata
unfolding add_option starts_with strip remove_prefix remove_suffix
option_line section stripped metadata =
    let option = option_text stripped in
    if starts_with (codes "/*") stripped && not (option == []) && not (is_heading option)
    then add_option section option metadata
    else metadata

abbrev is_linker_option : Str → Bool
is_linker_option stripped =
    starts_with (codes "-FORMAT=") stripped
    || starts_with (codes "-map ") stripped
    || starts_with (codes "-sort ") stripped

unfoldable pub linker_line : Str → Metadata → Metadata
unfolding starts_with
linker_line stripped metadata =
    if is_linker_option stripped
    then record metadata { linker_options = metadata.linker_options ++ (stripped ∷ []) }
    else metadata
