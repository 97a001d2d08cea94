-- ===== src/Compare/Maps/ZdsLines.antt =====
-- The loop of parse_zds_map of projects/binary-compare/analyze.py over the lines of the map.
use mos_agondev.Compare.Maps.{g1, g2, g3, g4, g5, hex_value}
use mos_agondev.Compare.Maps.Zds.{
  MapState, Metadata, absolute_symbol_re, assembler_section, compiler_section, header_line,
  linker_line, module_re, no_options, option_line, segment_re, start_map, symbol_re,
}
use mos_agondev.Compare.Records.{ModuleRange, Symbol}
use mos_agondev.Errors.{Result, analysis_error, err, ok, ◌>>=◌}
use mos_agondev.Prelude.{
  Bool, List, [], false, if◌then◌else◌, list_eq, map, nat_eq, none, not, option_eq, pair_eq, some,
  true, ◌++◌, ◌+◌, ◌==◌, ◌||◌, ◌∷◌,
}
use mos_agondev.Regex.{Match, match, named}
use mos_agondev.Text.{Str, casefold, codes, starts_with, strip, upper}
use mos_agondev.Text.Number.{value_from}
use mos_agondev.Text.Words.{lines_of, strip_chars, without_char}

unfoldable pub module_line : Match → MapState → MapState
unfolding named strip casefold
module_line m s = record s {
  current = some (strip (named g1 m), strip (named g3 m), casefold (named g2 m));
}

-- the module range of a Segment line: `top - base + 1 != size` is an error
unfoldable pub segment_line : Match → Str × Str × Str → MapState → Result MapState
unfolding named value_from upper
segment_line m (module_path, object_name, source_kind) s =
    let base = hex_value (named g3 m) in
    let top = hex_value (named g4 m) in
    let size = hex_value (named g5 m) in
    if not (top + 1 == size + base)
    then err analysis_error
    else ok (record s {
      modules =
          s.modules
          ++ (record {
            module_path = module_path;
            object_name = object_name;
            source_kind = source_kind;
            segment = named g1 m;
            address_space = upper (named g2 m);
            address = base;
            size = size;
          }
              ∷ []);
    })

unfoldable pub external_symbol : Match → Symbol
unfolding named value_from upper
external_symbol m = record {
  name = named g1 m;
  address = hex_value (named g3 m);
  address_space = upper (named g2 m);
  module_name = named g4 m;
  segment = named g5 m;
  symbol_type = [];
  size = 0;
}

unfoldable pub absolute_symbol : Match → Symbol
unfolding named value_from
absolute_symbol m = record {
  name = named g1 m;
  address = hex_value (named g2 m);
  address_space = codes "A";
  module_name = codes "LINKER";
  segment = codes "ABS";
  symbol_type = [];
  size = 0;
}

abbrev add_symbol : Symbol → MapState → MapState
add_symbol symbol s = record s { symbols = s.symbols ++ (symbol ∷ []) }

-- a line of the external definitions
unfoldable pub definition_line : Str → MapState → MapState
unfolding external_symbol absolute_symbol match symbol_re absolute_symbol_re
definition_line row s = elim (match symbol_re row) [
  | some m ↦ add_symbol (external_symbol m) s
  | none ↦ elim (match absolute_symbol_re row) [
    | some m ↦ add_symbol (absolute_symbol m) s
    | none ↦ s
  ]
]

-- the two headings, and the definitions between them
unfoldable pub heading_line : Str → MapState → MapState
unfolding definition_line strip
heading_line row s =
    if strip row == codes "EXTERNAL DEFINITIONS:"
    then record s { in_external_definitions = true; current = none }
    else if strip row == codes "SYMBOL CROSS REFERENCE:"
    then record s { in_external_definitions = false }
    else if s.in_external_definitions
    then definition_line row s
    else s

-- the tests of a line from the module pattern on
unfoldable pub record_line : Str → MapState → Result MapState
unfolding module_line segment_line heading_line match module_re segment_re
record_line row s = elim (match module_re row) [
  | some m ↦ ok (module_line m s)
  | none ↦ elim (match segment_re row) [
    | none ↦ ok (heading_line row s)
    | some m ↦ elim (s.current) [
      | some current ↦ segment_line m current s
      | none ↦ ok (heading_line row s)
    ]
  ]
]

-- the effects on the metadata, once the two headings of options are passed
unfoldable pub metadata_line : Str → MapState → MapState
unfolding option_line linker_line starts_with strip
metadata_line row s =
    let stripped = strip row in
    let section =
      if starts_with (codes "-FORMAT=") stripped then no_options else s.option_section in
    record s {
      option_section = section;
      metadata = linker_line stripped (option_line section stripped s.metadata);
    }

-- one round of the loop
unfoldable pub map_line : Str → MapState → Result MapState
unfolding header_line metadata_line record_line strip
map_line row start =
    let s : MapState = record start { metadata = header_line row start.metadata } in
    let stripped = strip row in
    if stripped == codes "/* compiler options */"
    then ok (record s { option_section = compiler_section })
    else if stripped == codes "/* assembler options */"
    then ok (record s { option_section = assembler_section })
    else record_line row (metadata_line row s)

unfoldable pub map_lines : List Str → MapState → Result MapState
unfolding map_line
map_lines [] s = ok s
map_lines (row ∷ rows) s = map_line row s >>= map_lines rows

-- `text.replace("\r", "").splitlines()`, each line stripped of form feeds
abbrev pub map_rows : Str → List Str
map_rows text = map (strip_chars (λ c. c == 12)) (lines_of (without_char 13 text))

abbrev is_empty {ℓ} : {A : Type ℓ} → List A → Bool
is_empty [] = true
is_empty (x ∷ xs) = false

-- `if not modules or not symbols: raise AnalysisError(...)`
abbrev parsed : MapState → Result (List ModuleRange × List Symbol × Metadata)
parsed s =
    if is_empty s.modules || is_empty s.symbols
    then err analysis_error
    else ok (s.modules, s.symbols, s.metadata)

unfoldable pub parse_zds_map : Str → Result (List ModuleRange × List Symbol × Metadata)
unfolding map_lines lines_of without_char strip_chars
parse_zds_map text = map_lines (map_rows text) start_map >>= parsed
