-- ===== src/Tests/Scanners.antt =====
-- The theorems on scanners and names, at small inputs.
use mos_agondev.Errors.{ok}
use mos_agondev.Prelude.{
  Distinct, List, [], all, any, contains, false, length, list_beq, list_eq, lookup, map, nat_eq,
  option_eq, pair_eq, refl, some, suc, true, ◌++◌, ◌∷◌, ◌≡◌, ◌≢◌, ◌⊎◌,
}
use mos_agondev.Regex.{full_match, matches}
use mos_agondev.Text.{Str, codes, split, split_lines}
use mos_agondev.Zds.Lexical.{
  is_quote, map_unquoted, mask_quoted, split_comment, split_physical_line,
}
use mos_agondev.Zds.Lexical.Lines.{IsEnding, split_physical_line-IsEnding}
use mos_agondev.Zds.Lexical.Regions.{
  mask_quoted-overlay, mask_quoted_masks, outside, overlay, region_after, split_comment_splits,
}
use mos_agondev.Zds.Lexical.Segments.{render, segments}
use mos_agondev.Zds.Lexical.Segments.Agree.{map_unquoted-render}
use mos_agondev.Zds.Lexical.Unquoted.{map_unquoted-overlay}
use mos_agondev.Zds.Macros.{code_of, discover_macros}
use mos_agondev.Zds.Macros.Table.{IsTable, discover_macros-IsTable, discover_macros-append}
use mos_agondev.Zds.Names.{macro_gas_name, parse_params, safe_identifier}
use mos_agondev.Zds.Names.Params.{parse_params-Distinct}
use mos_agondev.Zds.Names.Safe.{
  IsIdentifier, safe_identifier-IsIdentifier, safe_identifier_question,
}
use mos_agondev.Zds.Patterns.{
  ident, macro_end_re, macro_local_token_re, macro_start_re, named_local_token_re,
}
use mos_agondev.Zds.Records.{MacroSpec}
use mos_agondev.Zds.Values.{parse_absolute_integer, parse_section_definition}

abbrev db_line : Str
db_line = codes "db 'a;b' ; c\r\n"

split_physical_line-IsEnding_example :
    ((split_physical_line db_line).0 ++ (split_physical_line db_line).1 ≡ db_line)
    × IsEnding (split_physical_line db_line).0 (split_physical_line db_line).1
split_physical_line-IsEnding_example = split_physical_line-IsEnding db_line

split_comment_splits_example :
    ((split_comment db_line).0 ++ (split_comment db_line).1 ≡ db_line)
    × (contains b';' (mask_quoted (split_comment db_line).0) ≡ false)
    × (((split_comment db_line).1 ≡ [])
        ⊎ ((rest : Str) × ((split_comment db_line).1 ≡ b';' ∷ rest)
            × (region_after outside (split_comment db_line).0 ≡ outside)))
split_comment_splits_example = split_comment_splits db_line

mask_quoted-overlay_example : mask_quoted db_line ≡ overlay (λ c. c) (λ c. b' ') outside db_line
mask_quoted-overlay_example = mask_quoted-overlay db_line

mask_quoted_masks_example :
    (length (mask_quoted db_line) ≡ length db_line)
    × (any is_quote (mask_quoted db_line) ≡ false)
    × (mask_quoted (mask_quoted db_line) ≡ mask_quoted db_line)
mask_quoted_masks_example = mask_quoted_masks db_line

map_unquoted-overlay_example : map_unquoted db_line (map suc) ≡ overlay suc (λ c. c) outside db_line
map_unquoted-overlay_example = map_unquoted-overlay db_line suc

map_unquoted-render_example :
    map_unquoted db_line (λ s. s ++ s) ≡ render (λ s. s ++ s) (segments db_line)
map_unquoted-render_example = map_unquoted-render db_line (λ s. s ++ s)

safe_identifier-IsIdentifier_example : IsIdentifier (safe_identifier (codes "1a?-b"))
safe_identifier-IsIdentifier_example = safe_identifier-IsIdentifier (codes "1a?-b")

safe_identifier_question_example :
    (codes "$a" ++ (b'?' ∷ []) ≢ codes "$a" ++ (codes "_3f_" ++ []))
    × (safe_identifier (codes "$a" ++ (b'?' ∷ []))
        ≡ safe_identifier (codes "$a" ++ (codes "_3f_" ++ [])))
safe_identifier_question_example = safe_identifier_question (codes "$a") []

abbrev two_params : List Str
two_params = codes "x" ∷ codes "y" ∷ []

two_params_run : parse_params (some (codes " x, y")) ≡ ok two_params
unfolding contains list_beq named_local_token_re parse_absolute_integer parse_params split
two_params_run = refl

parse_params-Distinct_example : Distinct two_params × (all (full_match ident) two_params ≡ true)
parse_params-Distinct_example =
    parse_params-Distinct (some (codes " x, y")) two_params two_params_run

abbrev spec_m : MacroSpec
spec_m = record {
  source_name = codes "m";
  gas_name = codes "zds_m";
  params = two_params;
  source = codes "s.asm";
  line = 1;
}

abbrev spec_n : MacroSpec
spec_n = record {
  source_name = codes "n";
  gas_name = codes "zds_n";
  params = [];
  source = codes "t.asm";
  line = 2;
}

abbrev first_sources : List (Str × Str)
first_sources = (codes "s.asm", codes "m MACRO x,y\n nop\n ENDMACRO\n") ∷ []

abbrev rest_sources : List (Str × Str)
rest_sources = (codes "t.asm", codes "\nn MACRO\n ENDMACRO\n") ∷ []

first_run : discover_macros first_sources ≡ ok ((codes "m", spec_m) ∷ [])
unfolding code_of contains discover_macros list_beq macro_end_re macro_gas_name macro_local_token_re
    macro_start_re mask_quoted matches parse_absolute_integer parse_params parse_section_definition
    split split_lines
first_run = refl

both_run :
    discover_macros (first_sources ++ rest_sources)
    ≡ ok ((codes "m", spec_m) ∷ (codes "n", spec_n) ∷ [])
unfolding code_of contains discover_macros list_beq macro_end_re macro_gas_name macro_local_token_re
    macro_start_re mask_quoted matches parse_absolute_integer parse_params parse_section_definition
    split split_lines
both_run = refl

lookup_m : lookup (codes "m") ((codes "m", spec_m) ∷ []) ≡ some spec_m
unfolding list_beq lookup
lookup_m = refl

discover_macros-IsTable_example : IsTable ((codes "m", spec_m) ∷ [])
discover_macros-IsTable_example =
    discover_macros-IsTable first_sources ((codes "m", spec_m) ∷ []) first_run

discover_macros-append_example :
    lookup (codes "m") ((codes "m", spec_m) ∷ (codes "n", spec_n) ∷ []) ≡ some spec_m
discover_macros-append_example =
    discover_macros-append first_sources rest_sources ((codes "m", spec_m) ∷ [])
      ((codes "m", spec_m) ∷ (codes "n", spec_n) ∷ []) first_run both_run (codes "m") spec_m
      lookup_m
