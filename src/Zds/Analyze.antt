-- ===== src/Zds/Analyze.antt =====
-- analyze of projects/mos-port/tools/zds2gas.py: one line, the loop over the lines, and the whole.
pub mod State
pub mod Structures
pub mod Sections
pub mod Locals
pub mod Resolve
pub mod Steps
pub mod Sound
pub mod Anonymous
use mos_agondev.Prelude.{
  Dict, List, Option, [], if◌then◌else◌, length, list_eq, lookup, nat_eq, none, not, option_eq,
  pair_eq, some, suc, true, zero, ℕ, ◌++◌, ◌+◌, ◌==◌, ◌∷◌,
}
use mos_agondev.Regex.{Match, match, matches, named}
use mos_agondev.Text.{Str, split_lines}
use mos_agondev.Zds.Analyze.Locals.{anonymous_line, macro_local_line, named_local_line}
use mos_agondev.Zds.Analyze.Resolve.{resolve}
use mos_agondev.Zds.Analyze.Sections.{define_section, enter_section, equate_line, record_section}
use mos_agondev.Zds.Analyze.State.{Line, Progress, initial_progress, raise_at}
use mos_agondev.Zds.Analyze.Structures.{start_structure, structure_line}
use mos_agondev.Zds.Lexical.{mask_quoted}
use mos_agondev.Zds.Macros.{code_of}
use mos_agondev.Zds.Names.{file_key}
use mos_agondev.Zds.Patterns.{g_name, macro_end_re, macro_start_re, scope_re, struct_start_re}
use mos_agondev.Zds.Records.{Analysis, MacroSpec, Scope, SourceLocation}
use mos_agondev.Errors.{
  Result, fail_if, from_option, key_error, nested_macro, ok, orphan_macro_end, scope_in_macro,
  value_error, ◌>>=◌, ◌>>◌,
}

-- a line that matches MACRO_START_RE; `macros[name]` may be missing
enter_macro : Dict Str MacroSpec → Line → Match → Progress → Result Progress
enter_macro macros l start p = elim (p.active_macro) [
  | some _ ↦ raise_at l nested_macro
  | none ↦ do
    spec ← from_option key_error (lookup (named g_name start) macros)
    ok (record p { active_macro = some spec })
]

leave_macro : Line → Progress → Result Progress
leave_macro l p = elim (p.active_macro) [
  | none ↦ raise_at l orphan_macro_end
  | some _ ↦ ok (record p { active_macro = none })
]

-- SCOPE
open_scope : Line → Progress → Result Progress
open_scope l p = elim (p.active_macro) [
  | some _ ↦ raise_at l scope_in_macro
  | none ↦
      let scope : Scope = record {
        ordinal = p.scope + 1;
        source = l.location.source;
        line = l.location.line;
        explicit = true;
      } in
      ok (record p { scope = p.scope + 1; scopes = p.scopes ++ (scope ∷ []) })
]

-- what a line that passes every `continue` does
unfoldable pub plain_line : Dict Str MacroSpec → Str → Line → Progress → Result Progress
plain_line macros key l p = do
  sectioned ← define_section l p
  equated ← equate_line l (record_section l (enter_section l sectioned))
  macro_done ← macro_local_line l equated
  named_done ← named_local_line macros key l macro_done
  ok (anonymous_line key l named_done)

-- a line outside structures
unfoldable pub open_line : Dict Str MacroSpec → Str → Line → Progress → Result Progress
unfolding enter_macro leave_macro open_scope
open_line macros key l p = elim (match macro_start_re l.masked) [
  | some start ↦ enter_macro macros l start p
  | none ↦
      if matches macro_end_re l.masked
      then leave_macro l p
      else if matches scope_re l.masked
      then open_scope l p
      else plain_line macros key l p
]

unfoldable pub analyze_line : Dict Str MacroSpec → Str → Line → Progress → Result Progress
analyze_line macros key l p = elim (match struct_start_re l.masked) [
  | some start ↦ start_structure l start p
  | none ↦ elim (p.active_structure) [
    | some s ↦ structure_line l s p
    | none ↦ open_line macros key l p
  ]
]

abbrev pub line_of : ℕ → Str → SourceLocation → Line
line_of ordinal physical location = record {
  ordinal = ordinal;
  location = location;
  code = code_of physical;
  masked = mask_quoted (code_of physical);
}

-- the loop; the two lists have one length
unfoldable pub analyze_lines :
    Dict Str MacroSpec → Str → ℕ → List Str → List SourceLocation → Progress → Result Progress
analyze_lines macros key ordinal (physical ∷ rest) (location ∷ locations) p = do
  q ← analyze_line macros key (line_of ordinal physical location) p
  analyze_lines macros key (ordinal + 1) rest locations q
analyze_lines macros key ordinal _ _ p = ok p

-- `[SourceLocation(source_name, line) for line in range(first, first + count)]`
unfoldable pub default_locations : Str → ℕ → ℕ → List SourceLocation
default_locations source_name first zero = []
default_locations source_name first (suc count) =
    record { source = source_name; line = first } ∷ default_locations source_name (first + 1) count

abbrev pub analysis_of : Str → Str → Dict Str MacroSpec → Progress → Dict (ℕ × ℕ) Str → Analysis
analysis_of source_name key macros p resolved = record {
  source = source_name;
  file_key = key;
  macros = macros;
  named_locals = p.named_locals;
  macro_locals = p.macro_locals;
  anonymous_definitions = p.anonymous_definitions;
  anonymous_references = resolved;
  duplicate_equates = p.duplicate_equates;
  equates = p.equates;
  structures = p.structures;
  structure_lines = p.structure_lines;
  scopes = p.scopes;
  mappings = p.mappings;
  section_definitions = p.section_definitions;
  line_sections = p.line_sections;
}

-- `locations` is `none` where the caller gives none
unfoldable pub analyze :
    (Str → Str) → Str → Str → Dict Str MacroSpec → Option (List SourceLocation) → Result Analysis
unfolding default_locations
analyze sha256 source_name text macros given = do
  let physical_lines = split_lines text
  let count = length physical_lines
  let locations : List SourceLocation = elim given [
    | none ↦ default_locations source_name 1 count
    | some locations ↦ locations
  ]
  let key = file_key sha256 source_name
  fail_if (not (length locations == count)) value_error
  p ← analyze_lines macros key 1 physical_lines locations (initial_progress source_name)
  resolved ← resolve p
  ok (analysis_of source_name key macros p resolved)
