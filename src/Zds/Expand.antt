-- ===== src/Zds/Expand.antt =====
-- expand_translation_unit of projects/mos-port/tools/zds2gas.py. A path is the text of a resolved
-- path, and the files are a dict from paths to texts. The resolution of paths is a parameter.
pub mod Pigeonhole
pub mod Fuel
pub mod Scanned
pub mod Visits
pub mod Sources
pub mod Cycles
use mos_agondev.Prelude.{
  Bool, Dict, List, Option, [], contains, drop, false, if◌then◌else◌, insert, length, list_eq,
  lookup, nat_eq, none, option_eq, pair_eq, some, suc, take, true, zero, ℕ, ◌++◌, ◌+◌, ◌-◌, ◌||◌,
  ◌∷◌,
}
use mos_agondev.Regex.{Match, match, matches, named}
use mos_agondev.Text.{Str, codes, concat, ends_with, split_lines, str_lt}
use mos_agondev.Zds.Analyze.Resolve.{resolve}
use mos_agondev.Zds.Lexical.{mask_quoted}
use mos_agondev.Zds.Macros.{code_of}
use mos_agondev.Zds.Patterns.{end_re, include_re}
use mos_agondev.Zds.Records.{SourceLocation}
use mos_agondev.Errors.{Result, err, ok, value_error}

-- an entry of `includes`
pub record IncludeEntry : Type 0 where
  pub including : Str
  pub line : ℕ
  pub spelling : Str
  pub resolved : Str

-- the lists that `visit` fills; `output` is kept as its lines
pub record Expansion : Type 0 where
  pub output : List Str
  pub locations : List SourceLocation
  pub includes : List IncludeEntry
  pub source_files : Dict Str Str

pub record ExpandedSource : Type 0 where
  pub text : Str
  pub locations : List SourceLocation
  pub includes : List IncludeEntry
  pub source_files : Dict Str Str

-- `none` where the fuel is used up
abbrev pub Visit : Type 0
Visit = Option (Result Expansion)

-- what a path and the spelling of an include resolve to: the target and how it is displayed
abbrev pub Resolver : Type 0
Resolver = Str → Str → Result (Str × Str)

-- `physical if physical.endswith(("\n", "\r")) else physical + "\n"`
unfoldable pub with_line_end : Str → Str
with_line_end physical =
    if ends_with (codes "\n") physical || ends_with (codes "\r") physical
    then physical
    else physical ++ codes "\n"

abbrev pub add_line : Str → ℕ → Str → Expansion → Expansion
add_line display line_number physical e = record e {
  output = e.output ++ (with_line_end physical ∷ []);
  locations = e.locations ++ (record { source = display; line = line_number } ∷ []);
}

abbrev pub add_include : Str → ℕ → Str → Str → Expansion → Expansion
add_include display line_number spelling target_display e = record e {
  includes =
      e.includes
      ++ (record {
        including = display;
        line = line_number;
        spelling = spelling;
        resolved = target_display;
      }
          ∷ []);
}

abbrev pub add_source : Str → Str → Expansion → Expansion
add_source display digest e = record e { source_files = insert display digest e.source_files }

-- the text between the quotes of a path
unfoldable pub unquote : Str → Str
unquote path = take (length path - 2) (drop 1 path)

-- what follows a visit
unfoldable pub and_then : Visit → (Expansion → Visit) → Visit
and_then none next = none
and_then (some (err e)) next = some (err e)
and_then (some (ok e)) next = next e

-- an INCLUDE line
unfoldable pub include_line :
    (Str → Str → Expansion → Visit) → (Str → Result (Str × Str)) → Str → ℕ → Str → Expansion → Visit
include_line visit_target resolve display line_number spelling e = elim (resolve spelling) [
  | err fault ↦ some (err fault)
  | ok (target, target_display) ↦
      visit_target target target_display (add_include display line_number spelling target_display e)
]

-- what both kinds of line and the end of a file use: the calls of `visit` and of the resolution,
-- and the file that is read
pub record Reading : Type 0 where
  pub visit_target : Str → Str → Expansion → Visit
  pub resolve_path : Str → Result (Str × Str)
  pub display : Str
  pub is_root : Bool

-- the line that ends a file is kept in the root alone
unfoldable pub end_line : Reading → ℕ → Str → Expansion → Expansion
end_line r line_number physical e =
    if r.is_root then add_line r.display line_number physical e else e

-- a line, by its match with INCLUDE_RE and by whether it matches END_RE; `others` is the loop
unfoldable pub visit_line :
    Reading → ℕ → Str → Option Match → Bool → (Expansion → Visit) → Expansion → Visit
unfolding include_line
visit_line r line_number physical (some include) is_end others e =
    and_then
      (include_line r.visit_target r.resolve_path r.display line_number
        (unquote (named (codes "path") include)) e)
      others
visit_line r line_number physical none true others e = some (ok (end_line r line_number physical e))
visit_line r line_number physical none false others e =
    others (add_line r.display line_number physical e)

-- the loop over the lines of a file
unfoldable pub visit_lines : Reading → ℕ → List Str → Expansion → Visit
visit_lines r line_number [] e = some (ok e)
visit_lines r line_number (physical ∷ rest) e =
    visit_line r line_number physical (match include_re (code_of physical))
      (matches end_re (mask_quoted (code_of physical))) (visit_lines r (line_number + 1) rest) e

-- `visit`, with fuel for the depth of the includes
unfoldable pub visit :
    ℕ → (Str → Str) → Dict Str Str → Resolver → Str → Str → List Str → Bool → Expansion → Visit
visit zero sha256 files resolve path display stack is_root e = none
visit (suc fuel) sha256 files resolve path display stack is_root e = elim (contains path stack) [
  | true ↦ some (err value_error)
  | false ↦ elim (lookup path files) [
    | none ↦ some (err value_error)
    | some text ↦
        visit_lines
          (record {
            visit_target =
                λ target shown. visit fuel sha256 files resolve target shown (path ∷ stack) false;
            resolve_path = resolve path;
            display = display;
            is_root = is_root;
          })
          1 (split_lines text) (add_source display (sha256 text) e)
  ]
]

-- `sorted(source_files.items())`
unfoldable pub insert_source : Str × Str → Dict Str Str → Dict Str Str
insert_source item [] = item ∷ []
insert_source (k, d) ((j, c) ∷ rest) =
    let others = insert_source (k, d) rest in
    if str_lt k j then (k, d) ∷ (j, c) ∷ rest else (j, c) ∷ others

unfoldable pub sort_sources : Dict Str Str → Dict Str Str
unfolding insert_source
sort_sources [] = []
sort_sources (item ∷ rest) = insert_source item (sort_sources rest)

abbrev pub empty_expansion : Expansion
empty_expansion = record { output = []; locations = []; includes = []; source_files = [] }

unfoldable pub expanded : Expansion → ExpandedSource
unfolding sort_sources
expanded e = record {
  text = concat e.output;
  locations = e.locations;
  includes = e.includes;
  source_files = sort_sources e.source_files;
}

-- The depth is bounded by the number of files.
unfoldable pub expand_translation_unit :
    (Str → Str) → Dict Str Str → Resolver → Str → Str → Option (Result ExpandedSource)
expand_translation_unit sha256 files resolve entry entry_relative =
    elim (visit (length files + 1) sha256 files resolve entry entry_relative [] true
      empty_expansion) [
        | none ↦ none
        | some (err fault) ↦ some (err fault)
        | some (ok e) ↦ some (ok (expanded e))
      ]
