-- ===== src/Tests/Frontend.antt =====
-- The theorems on analyze and translate, at small inputs.
use mos_agondev.Errors.{Result, err, ok}
use mos_agondev.Prelude.{
  Bool, Dict, Distinct, List, [], arith, contains, false, has_key, list_beq, list_eq, lookup, map,
  nat_eq, none, option_beq, option_eq, pair_eq, refl, some, true, ℕ, ◌∷◌, ◌≡◌,
}
use mos_agondev.Regex.{matches}
use mos_agondev.Text.{Str, casefold, codes, concat, ends_with, join, split, split_lines}
use mos_agondev.Text.Number.{padded}
use mos_agondev.Zds.Analyze.{
  analysis_of, analyze, analyze_line, analyze_lines, open_line, plain_line,
}
use mos_agondev.Zds.Analyze.Anonymous.Keys.{HasKeys}
use mos_agondev.Zds.Analyze.Anonymous.Loop.{analyze_lines-Distinct}
use mos_agondev.Zds.Analyze.Locals.{
  anonymous_label, anonymous_line, anonymous_references_of, define_anonymous, define_named_local,
  dollar_references, forbid_in_macro, invocation_re, macro_local_line, named_local_label,
  named_local_line, suffix_references,
}
use mos_agondev.Zds.Analyze.Resolve.{
  check_macro, check_named, check_structure, is_candidate, resolve, resolve_anonymous, target_of,
}
use mos_agondev.Zds.Analyze.Resolve.Nearest.{IsNearest, target_of-IsNearest}
use mos_agondev.Zds.Analyze.Resolve.Resolved.{ref_key}
use mos_agondev.Zds.Analyze.Sections.{
  define_equate, define_section, enter_section, equate_line, record_section, section_re,
}
use mos_agondev.Zds.Analyze.Sound.{AllResolved, Run, analyze-AllResolved, analyze-IsLayout}
use mos_agondev.Zds.Analyze.State.{AnonymousDefinition, Progress, initial_progress}
use mos_agondev.Zds.Analyze.Steps.{Advances, IsLayout}
use mos_agondev.Zds.Analyze.Steps.Loop.{analyze_lines-Advances}
use mos_agondev.Zds.Analyze.Structures.{
  add_member, end_structure, member_of, start_structure, structure_line,
}
use mos_agondev.Zds.Lexical.{mask_quoted}
use mos_agondev.Zds.Lexical.Segments.{render_counted, segments}
use mos_agondev.Zds.Macros.{code_of, discover_macros}
use mos_agondev.Zds.Names.{file_key, safe_identifier}
use mos_agondev.Zds.Patterns.{
  alone_re, anon_def_re, anon_ref_re, equate_re, include_re, macro_end_re, macro_local_token_re,
  macro_start_re, named_local_def_re, named_local_token_re, set_re, struct_end_re,
  struct_reserve_re, struct_start_re, suffix_local_def_re, suffix_local_token_re,
}
use mos_agondev.Zds.Records.{
  Analysis, AnonymousReference, MacroSpec, SourceLocation, StructureSpec, Translation,
}
use mos_agondev.Zds.Rewrite.{
  alu_re, implicit_label_re, rewrite_alu_parentheses, rewrite_implicit_label,
  rewrite_macro_invocation, split_wide_register_copy, wide_copy_re,
}
use mos_agondev.Zds.Rewrite.Directive.{
  define_word_re, equate_case, include_case, remark_case, replacement_case, replacement_re,
  reserve_case, reserve_re, rewrite_directive, section_case, segment_case,
}
use mos_agondev.Zds.Rewrite.Locals.{rewrite_locals}
use mos_agondev.Zds.Translate.{
  Input, count, count_if, emit_lines, initial_emission, input_of, macros_of, render_line,
  rewrite_line, translate, translate_line, translate_lines,
}
use mos_agondev.Zds.Translate.Output.{IsOutput, translate-IsOutput}
use mos_agondev.Zds.Translate.Rows.{Row}
use mos_agondev.Zds.Values.{
  parse_absolute_integer, parse_section_definition, rewrite_literals_and_locations,
}

abbrev no_digest : Str → Str
no_digest s = codes "0123456789abcdef"

abbrev ok_or {ℓ} : {A : Type ℓ} → A → Result A → A
ok_or a (ok b) = b
ok_or a (err e) = a

abbrev is_ok {ℓ} : {A : Type ℓ} → Result A → Bool
is_ok (ok a) = true
is_ok (err e) = false

ok_or_ok {ℓ} : {A : Type ℓ} (a : A) (r : Result A) → is_ok r ≡ true → r ≡ ok (ok_or a r)
ok_or_ok a (ok b) h = refl
ok_or_ok a (err e) h = absurd (ground arith)

abbrev definition_at : ℕ → Str → AnonymousDefinition
definition_at ordinal generated = record {
  ordinal = ordinal;
  macro_name = none;
  generated = generated;
}

abbrev three_definitions : List AnonymousDefinition
three_definitions =
    definition_at 1 (codes "a1") ∷ definition_at 4 (codes "a2") ∷ definition_at 7 (codes "a3") ∷ []

abbrev forward_reference : AnonymousReference
forward_reference = record {
  ordinal = 3;
  offset = 0;
  direction = codes "f";
  macro_name = none;
  source = codes "m.asm";
  line = 3;
}

nearest_run : target_of forward_reference three_definitions ≡ some (definition_at 4 (codes "a2"))
unfolding is_candidate list_beq option_beq target_of
nearest_run = refl

target_of-IsNearest_example :
    IsNearest forward_reference three_definitions (definition_at 4 (codes "a2"))
target_of-IsNearest_example =
    target_of-IsNearest forward_reference three_definitions (definition_at 4 (codes "a2"))
      nearest_run

abbrev start : Progress
start = initial_progress (codes "m.asm")

abbrev equate_lines : List Str
equate_lines = codes "A EQU 1\n" ∷ codes "$x: jr $f\n" ∷ []

abbrev equate_locations : List SourceLocation
equate_locations =
    record { source = codes "m.asm"; line = 1 } ∷ record { source = codes "m.asm"; line = 2 } ∷ []

abbrev equate_loop : Result Progress
equate_loop = analyze_lines [] (codes "k") 1 equate_lines equate_locations start

equate_is_ok : is_ok equate_loop ≡ true
unfolding alone_re analyze_line analyze_lines anon_def_re anonymous_line code_of define_equate
    define_named_local define_section enter_section equate_line equate_re forbid_in_macro has_key
    macro_end_re macro_local_line macro_local_token_re macro_start_re mask_quoted matches
    named_local_def_re named_local_line open_line parse_section_definition plain_line record_section
    section_re set_re struct_start_re suffix_local_def_re
equate_is_ok = refl

equate_run : equate_loop ≡ ok (ok_or start equate_loop)
equate_run = ok_or_ok start equate_loop equate_is_ok

analyze_lines-Advances_example : Advances start (ok_or start equate_loop)
analyze_lines-Advances_example =
    analyze_lines-Advances [] (codes "k") 1 equate_lines equate_locations start
      (ok_or start equate_loop) equate_run

no_keys : HasKeys 1 start.anonymous_refs
no_keys = record { below = tt; distinct = tt }

analyze_lines-Distinct_example : Distinct (map ref_key (ok_or start equate_loop).anonymous_refs)
analyze_lines-Distinct_example =
    analyze_lines-Distinct [] (codes "k") 1 equate_lines equate_locations start
      (ok_or start equate_loop) equate_run no_keys

abbrev no_analysis : Analysis
no_analysis = analysis_of [] [] [] start []

abbrev struct_text : Str
struct_text = codes "p .STRUCT\nx ds 2\ny ds 1\n .ENDSTRUCT p\n$x: jr $f\n$$: jp $x\n"

abbrev struct_result : Result Analysis
struct_result = analyze no_digest (codes "m.asm") struct_text [] none

struct_is_ok : is_ok struct_result ≡ true
unfolding add_member alone_re analyze analyze_line analyze_lines anon_def_re anon_ref_re
    anonymous_line anonymous_references_of casefold check_macro check_named check_structure code_of
    define_anonymous define_named_local define_section dollar_references end_structure ends_with
    enter_section equate_line equate_re forbid_in_macro has_key is_candidate list_beq macro_end_re
    macro_local_line macro_local_token_re macro_start_re mask_quoted matches member_of
    named_local_def_re named_local_line named_local_token_re open_line option_beq
    parse_absolute_integer parse_section_definition plain_line record_section resolve
    resolve_anonymous section_re set_re split_lines start_structure struct_end_re struct_reserve_re
    struct_start_re structure_line suffix_local_def_re suffix_local_token_re suffix_references
    target_of
struct_is_ok = refl

struct_run : struct_result ≡ ok (ok_or no_analysis struct_result)
struct_run = ok_or_ok no_analysis struct_result struct_is_ok

abbrev struct_p : StructureSpec
struct_p = record {
  name = codes "p";
  size_name = none;
  size = 3;
  members =
      record { name = codes "x"; offset = 0; size = 2; source = codes "m.asm"; line = 2 }
      ∷ record { name = codes "y"; offset = 2; size = 1; source = codes "m.asm"; line = 3 }
      ∷ [];
  source = codes "m.asm";
  line = 1;
}

lookup_p : lookup (codes "p") (ok_or no_analysis struct_result).structures ≡ some struct_p
unfolding add_member alone_re analyze analyze_line analyze_lines anon_def_re anon_ref_re
    anonymous_line anonymous_references_of casefold check_macro check_named check_structure code_of
    define_anonymous define_named_local define_section dollar_references end_structure ends_with
    enter_section equate_line equate_re forbid_in_macro has_key is_candidate list_beq macro_end_re
    macro_local_line macro_local_token_re macro_start_re mask_quoted matches member_of
    named_local_def_re named_local_line named_local_token_re open_line option_beq
    parse_absolute_integer parse_section_definition plain_line record_section resolve
    resolve_anonymous section_re set_re split_lines start_structure struct_end_re struct_reserve_re
    struct_start_re structure_line suffix_local_def_re suffix_local_token_re suffix_references
    target_of
lookup_p = refl

analyze-IsLayout_example : IsLayout (codes "p") struct_p
analyze-IsLayout_example =
    analyze-IsLayout no_digest (codes "m.asm") struct_text [] none (ok_or no_analysis struct_result)
      struct_run (codes "p") struct_p lookup_p

analyze-AllResolved_example :
    (run : Run no_digest (codes "m.asm") struct_text [] (ok_or no_analysis struct_result))
    × AllResolved run.progress (ok_or no_analysis struct_result)
analyze-AllResolved_example =
    analyze-AllResolved no_digest (codes "m.asm") struct_text [] none
      (ok_or no_analysis struct_result) struct_run

abbrev no_translation : Translation
no_translation = record {
  text = [];
  analysis = no_analysis;
  output_to_source = [];
  output_locations = [];
  transformations = [];
}

abbrev jump_text : Str
jump_text = codes "$x: jr $f ; a\n$$: jp $x\n"

abbrev jump_result : Result Translation
jump_result = translate no_digest (codes "m.asm") jump_text none none (codes "v")

jump_is_ok : is_ok jump_result ≡ true
unfolding alone_re alu_re analyze analyze_line analyze_lines anon_def_re anon_ref_re anonymous_label
    anonymous_line anonymous_references_of check_macro check_named check_structure code_of concat
    contains count count_if define_anonymous define_named_local define_section define_word_re
    discover_macros dollar_references emit_lines enter_section equate_case equate_line equate_re
    file_key forbid_in_macro has_key implicit_label_re include_case include_re initial_emission
    input_of invocation_re is_candidate join list_beq macro_end_re macro_local_line
    macro_local_token_re macro_start_re macros_of mask_quoted matches named_local_def_re
    named_local_label named_local_line named_local_token_re open_line option_beq padded
    parse_section_definition plain_line record_section remark_case render_line replacement_case
    replacement_re reserve_case reserve_re resolve resolve_anonymous rewrite_alu_parentheses
    rewrite_directive rewrite_implicit_label rewrite_line rewrite_literals_and_locations
    rewrite_locals rewrite_macro_invocation safe_identifier section_case section_re segment_case
    set_re split split_lines split_wide_register_copy struct_start_re suffix_local_def_re
    suffix_local_token_re suffix_references target_of translate translate_line translate_lines
    wide_copy_re render_counted segments
jump_is_ok = refl

jump_run : jump_result ≡ ok (ok_or no_translation jump_result)
jump_run = ok_or_ok no_translation jump_result jump_is_ok

translate-IsOutput_example :
    (input : Input) × (table : Dict Str MacroSpec) × (rows : List Row) × (input_of
        (codes "m.asm")
        jump_text
        none
      ≡ ok input)
    × (macros_of (codes "m.asm") input.text none ≡ ok table)
    × (analyze no_digest (codes "m.asm") input.text table (some input.locations)
        ≡ ok (ok_or no_translation jump_result).analysis)
    × IsOutput
        (codes "m.asm")
        (codes "v")
        (no_digest input.text)
        table
        input
        (ok_or no_translation jump_result)
        rows
translate-IsOutput_example =
    translate-IsOutput no_digest (codes "m.asm") jump_text none none (codes "v")
      (ok_or no_translation jump_result) jump_run
