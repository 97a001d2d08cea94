-- ===== src/Zds/Macros.antt =====
-- discover_macros of projects/mos-port/tools/zds2gas.py.
pub mod Table
use mos_agondev.Prelude.{
  Dict, List, Option, [], if◌then◌else◌, insert, list_eq, lookup, nat_eq, none, option_eq, pair_eq,
  some, ℕ, ◌+◌, ◌∷◌,
}
use mos_agondev.Regex.{Match, group_of, match, matches, named}
use mos_agondev.Text.{Str, codes, split_lines}
use mos_agondev.Zds.Lexical.{mask_quoted, split_comment, split_physical_line}
use mos_agondev.Zds.Names.{macro_gas_name, parse_params}
use mos_agondev.Zds.Patterns.{g_name, macro_end_re, macro_start_re}
use mos_agondev.Zds.Records.{MacroSpec}
use mos_agondev.Errors.{
  Result, duplicate_macro, err, macro_params, nested_macro, ok, orphan_macro_end, raise,
  unterminated_macro, ◌>>=◌, ◌>>◌,
}

-- the code of a physical line, with its comment and its ending taken off
unfoldable pub code_of : Str → Str
unfolding split_physical_line split_comment
code_of physical = (split_comment (split_physical_line physical).0).0

pub record Discovery : Type 0 where
  pub macros : Dict Str MacroSpec
  pub active : Option MacroSpec

abbrev pub spec_of : Str → ℕ → Str → List Str → MacroSpec
spec_of source_name line_number source_macro params = record {
  source_name = source_macro;
  gas_name = macro_gas_name source_macro;
  params = params;
  source = source_name;
  line = line_number;
}

-- `if previous is not None`
add_macro : Str → ℕ → MacroSpec → Discovery → Result Discovery
add_macro source_name line_number spec st = elim (lookup spec.source_name st.macros) [
  | some _ ↦ raise source_name line_number duplicate_macro
  | none ↦ ok (record { macros = insert spec.source_name spec st.macros; active = some spec })
]

-- `except ValueError`
add_parsed : Str → ℕ → Str → Result (List Str) → Discovery → Result Discovery
unfolding add_macro
add_parsed source_name line_number source_macro (err _) st =
    raise source_name line_number macro_params
add_parsed source_name line_number source_macro (ok params) st =
    add_macro source_name line_number (spec_of source_name line_number source_macro params) st

-- a line that matches MACRO_START_RE
define_macro : Str → ℕ → Match → Discovery → Result Discovery
unfolding add_parsed
define_macro source_name line_number start st = elim (st.active) [
  | some _ ↦ raise source_name line_number nested_macro
  | none ↦
      add_parsed source_name line_number (named g_name start)
        (parse_params (group_of (codes "params") start)) st
]

-- a line that matches MACRO_END_RE
close_macro : Str → ℕ → Discovery → Result Discovery
close_macro source_name line_number st = elim (st.active) [
  | none ↦ raise source_name line_number orphan_macro_end
  | some _ ↦ ok (record st { active = none })
]

unfoldable pub discover_line : Str → ℕ → Str → Discovery → Result Discovery
unfolding define_macro close_macro
discover_line source_name line_number physical st =
    let masked = mask_quoted (code_of physical) in
    elim (match macro_start_re masked) [
      | some start ↦ define_macro source_name line_number start st
      | none ↦ if matches macro_end_re masked then close_macro source_name line_number st else ok st
    ]

discover_lines : Str → ℕ → List Str → Discovery → Result Discovery
unfolding discover_line
discover_lines source_name line_number [] st = ok st
discover_lines source_name line_number (physical ∷ rest) st = do
  next ← discover_line source_name line_number physical st
  discover_lines source_name (line_number + 1) rest next

-- the end of a source
close_source : Str → Discovery → Result (Dict Str MacroSpec)
close_source source_name st = elim (st.active) [
  | none ↦ ok st.macros
  | some spec ↦ raise source_name spec.line unterminated_macro
]

discover_source : Str → Str → Dict Str MacroSpec → Result (Dict Str MacroSpec)
unfolding discover_lines close_source
discover_source source_name text macros = do
  st ← discover_lines source_name 1 (split_lines text) (record { macros = macros; active = none })
  close_source source_name st

discover_from : List (Str × Str) → Dict Str MacroSpec → Result (Dict Str MacroSpec)
unfolding discover_source
discover_from [] macros = ok macros
discover_from ((source_name, text) ∷ rest) macros = do
  next ← discover_source source_name text macros
  discover_from rest next

unfoldable pub discover_macros : List (Str × Str) → Result (Dict Str MacroSpec)
unfolding discover_from
discover_macros sources = discover_from sources []
