-- ===== src/Zds/Translate.antt =====
-- translate of projects/mos-port/tools/zds2gas.py.
pub mod Output
pub mod Rows
use mos_agondev.Prelude.{
  Bool, Dict, List, Option, [], contains, if◌then◌else◌, insert, length, list_eq, lookup, nat_eq,
  none, not, option_eq, pair_eq, replicate, some, take, ℕ, ◌++◌, ◌+◌, ◌-◌, ◌==◌, ◌∷◌,
}
use mos_agondev.Regex.{Match, match, matches, named}
use mos_agondev.Text.{Str, codes, concat, join, lstrip, split_lines, str_lt}
use mos_agondev.Text.Number.{decimal}
use mos_agondev.Zds.Analyze.{analyze, default_locations}
use mos_agondev.Zds.Lexical.{mask_quoted, split_comment, split_physical_line}
use mos_agondev.Zds.Macros.{code_of, discover_macros}
use mos_agondev.Zds.Patterns.{end_re, g_name, macro_end_re, macro_start_re, scope_re}
use mos_agondev.Zds.Records.{Analysis, MacroSpec, SourceLocation, Translation}
use mos_agondev.Errors.{
  Result, err, from_option, key_error, ok, raise, unsupported_dollar, value_error, ◌>>=◌, ◌>>◌,
}
use mos_agondev.Zds.Rewrite.{
  replace_macro_params, rewrite_alu_parentheses, rewrite_implicit_label, rewrite_macro_invocation,
  split_wide_register_copy,
}
use mos_agondev.Zds.Rewrite.Directive.{rewrite_directive}
use mos_agondev.Zds.Rewrite.Locals.{rewrite_locals}
use mos_agondev.Zds.Values.{rewrite_literals_and_locations}

-- the loop's variables; `output` is kept as its lines
pub record Emission : Type 0 where
  pub output : List Str
  pub output_to_source : List ℕ
  pub output_locations : List SourceLocation
  pub transformations : Dict Str ℕ
  pub scope : ℕ
  pub active_macro : Option MacroSpec

-- `count(category)`
unfoldable pub count : Str → Emission → Emission
count category e =
    let old : ℕ = elim (lookup category e.transformations) [ none ↦ 0 | some n ↦ n ] in
    record e { transformations = insert category (old + 1) e.transformations }

unfoldable pub count_if : Bool → Str → Emission → Emission
count_if b category e = if b then count category e else e

count_option : Option Str → Emission → Emission
count_option none e = e
count_option (some category) e = count category e

-- `if active_macro is not None`
replace_params : Option MacroSpec → Str → Str
replace_params none code = code
replace_params (some macro) code = replace_macro_params code macro

-- the `else` branch: the functions that rewrite a line, in their order
unfoldable pub rewrite_line :
    Dict Str MacroSpec → Analysis → ℕ → Str → Str → Emission → Result (List Str × Emission)
unfolding count_option replace_params
rewrite_line macros analysis line_number code masked start = do
  let scope = if matches scope_re masked then start.scope + 1 else start.scope
  let e : Emission = record start { scope = scope }
  let (labelled, implicit_label) = rewrite_implicit_label code macros
  let e1 = count_if implicit_label (codes "implicit-label") e
  let (before_locals, invoked) = rewrite_macro_invocation labelled macros
  let e2 = count_if invoked (codes "macro-invocation") e1
  localised ← rewrite_locals before_locals analysis scope e.active_macro line_number
  let e3 = count_if (not (localised == before_locals)) (codes "local-label") e2
  (directed, directive) ← rewrite_directive localised analysis line_number
  let e4 = count_option directive e3
  let literal = rewrite_literals_and_locations directed
  let with_params = replace_params e.active_macro literal
  let (unparenthesised, alu_parentheses) = rewrite_alu_parentheses with_params
  let e5 = count_if alu_parentheses (codes "alu-parentheses") e4
  let (rendered_lines, wide_copy) = split_wide_register_copy unparenthesised
  ok (rendered_lines, count_if wide_copy (codes "wide-register-copy") e5)

abbrev macro_header : Match → MacroSpec → Str
macro_header start spec =
    let replacement = named (codes "indent") start ++ (codes ".macro " ++ spec.gas_name) in
    let params = join (codes ",") spec.params in
    if params == [] then replacement else replacement ++ (codes " " ++ params)

-- a line that matches MACRO_START_RE
start_macro : Dict Str MacroSpec → Match → Emission → Result (List Str × Emission)
start_macro macros start e = do
  spec ← from_option key_error (lookup (named g_name start) macros)
  let opened : Emission = record e { active_macro = some spec }
  ok (macro_header start spec ∷ [], count (codes "macro-definition") opened)

-- a line that matches MACRO_END_RE
end_macro : Str → Emission → List Str × Emission
end_macro code e =
    let line = take (length code - length (lstrip code)) code ++ codes ".endm" in
    let closed : Emission = record e { active_macro = none } in
    (line ∷ [], count (codes "macro-end") closed)

-- the lines rendered for one line of the input
unfoldable pub render_line :
    Dict Str MacroSpec → Analysis → ℕ → Str → Emission → Result (List Str × Emission)
unfolding start_macro end_macro
render_line macros analysis line_number code e =
    let masked = mask_quoted code in
    elim (lookup line_number analysis.structure_lines) [
      | some rendered ↦ ok (rendered, count (codes "structure") e)
      | none ↦ elim (match macro_start_re masked) [
        | some start ↦ start_macro macros start e
        | none ↦
            if matches macro_end_re masked
            then ok (end_macro code e)
            else rewrite_line macros analysis line_number code masked e
      ]
    ]

abbrev pub has_dollar : Str → Bool
has_dollar rendered = contains b'$' (mask_quoted rendered)

-- the comment goes behind the last rendered line
abbrev pub suffix_of : Str → List Str → Str
suffix_of comment [] = comment
suffix_of comment (_ ∷ _) = []

abbrev pub emit_one : SourceLocation → Str → Str → Emission → Emission
emit_one location rendered suffix e = record e {
  output = e.output ++ ((rendered ++ (suffix ++ (10 ∷ []))) ∷ []);
  output_to_source = e.output_to_source ++ (location.line ∷ []);
  output_locations = e.output_locations ++ (location ∷ []);
}

-- the inner loop over the rendered lines
unfoldable pub emit_lines : SourceLocation → Str → List Str → Emission → Result Emission
emit_lines location comment [] e = ok e
emit_lines location comment (rendered ∷ rest) e =
    let others =
      emit_lines location comment rest (emit_one location rendered (suffix_of comment rest) e) in
    if has_dollar rendered then raise location.source location.line unsupported_dollar else others

unfoldable pub translate_line :
    Dict Str MacroSpec → Analysis → ℕ → Str → SourceLocation → Emission → Result Emission
translate_line macros analysis line_number physical location e = do
  let (code, comment) = split_comment (split_physical_line physical).0
  (rendered_lines, next) ← render_line macros analysis line_number code e
  emit_lines location comment rendered_lines next

unfoldable pub translate_lines :
    Dict Str MacroSpec → Analysis → ℕ → List Str → List SourceLocation → Emission → Result Emission
translate_lines macros analysis line_number (physical ∷ rest) (location ∷ locations) e = do
  next ← translate_line macros analysis line_number physical location e
  translate_lines macros analysis (line_number + 1) rest locations next
translate_lines macros analysis line_number _ _ e = ok e

abbrev pub frontend_version : ℕ
frontend_version = 2

unfoldable pub header_lines : Str → Str → Str → List Str
header_lines source_name input_identity digest =
    (codes "; generated by zds2gas frontend schema " ++ (decimal frontend_version ++ codes "\n"))
    ∷ (codes "; translation unit: " ++ (source_name ++ codes "\n"))
    ∷ (codes "; agon-mos input identity: " ++ (input_identity ++ codes "\n"))
    ∷ (codes "; expanded input sha256: " ++ (digest ++ codes "\n"))
    ∷ codes "; DO NOT EDIT: generated build input\n"
    ∷ []

-- the lines up to the first END, if there is one
unfoldable pub through_end : List Str → List Str
through_end [] = []
through_end (physical ∷ rest) =
    let others = through_end rest in
    if matches end_re (mask_quoted (code_of physical)) then physical ∷ [] else physical ∷ others

-- the text, its lines and their locations, as the caller or `translate` gives them
pub record Input : Type 0 where
  pub text : Str
  pub physical_lines : List Str
  pub locations : List SourceLocation

unfoldable pub input_of : Str → Str → Option (List SourceLocation) → Result Input
unfolding through_end
input_of source_name text none =
    let physical_lines = through_end (split_lines text) in
    ok (record {
      text = concat physical_lines;
      physical_lines = physical_lines;
      locations = default_locations source_name 1 (length physical_lines);
    })
input_of source_name text (some locations) =
    if length locations == length (split_lines text)
    then ok (record { text = text; physical_lines = split_lines text; locations = locations })
    else err value_error

unfoldable pub first_location : Str → List SourceLocation → SourceLocation
first_location source_name [] = record { source = source_name; line = 1 }
first_location source_name (location ∷ locations) = location

-- the state in front of the loop: the header
unfoldable pub initial_emission : Str → Str → Str → List SourceLocation → Emission
unfolding first_location
initial_emission source_name input_identity digest locations =
    let location = first_location source_name locations in
    record {
      output = header_lines source_name input_identity digest;
      output_to_source = replicate 5 location.line;
      output_locations = replicate 5 location;
      transformations = [];
      scope = 0;
      active_macro = none;
    }

-- `if macros is None`
unfoldable pub macros_of : Str → Str → Option (Dict Str MacroSpec) → Result (Dict Str MacroSpec)
macros_of source_name text none = discover_macros ((source_name, text) ∷ [])
macros_of source_name text (some macros) = ok macros

-- `sorted(transformations.items())`
insert_count : Str × ℕ → Dict Str ℕ → Dict Str ℕ
insert_count item [] = item ∷ []
insert_count (k, n) ((j, m) ∷ rest) =
    if str_lt k j then (k, n) ∷ (j, m) ∷ rest else (j, m) ∷ insert_count (k, n) rest

sort_counts : Dict Str ℕ → Dict Str ℕ
unfolding insert_count
sort_counts [] = []
sort_counts (item ∷ rest) = insert_count item (sort_counts rest)

unfoldable pub translate :
    (Str → Str)
    → Str
    → Str
    → Option (Dict Str MacroSpec)
    → Option (List SourceLocation)
    → Str
    → Result Translation
unfolding sort_counts
translate sha256 source_name text given_macros given_locations input_identity = do
  input ← input_of source_name text given_locations
  macros ← macros_of source_name input.text given_macros
  analysis ← analyze sha256 source_name input.text macros (some input.locations)
  let start = initial_emission source_name input_identity (sha256 input.text) input.locations
  done ← translate_lines macros analysis 1 input.physical_lines input.locations start
  ok (record {
    text = concat done.output;
    analysis = analysis;
    output_to_source = done.output_to_source;
    output_locations = done.output_locations;
    transformations = sort_counts done.transformations;
  })
