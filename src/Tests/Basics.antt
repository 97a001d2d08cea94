-- ===== src/Tests/Basics.antt =====
-- Runs of the text helpers, of the matcher and of the lexical functions.
use mos_agondev.Prelude.{
  Option, [], contains, insert, list_beq, list_eq, lookup, nat_eq, none, option_eq, pair_eq, refl,
  some, ◌∷◌, ◌≡◌,
}
use mos_agondev.Regex.{Match, full_match, group_of, match, matches, named, sub}
use mos_agondev.Text.{Str, codes, join, split, split_lines, strip}
use mos_agondev.Text.Number.{padded}
use mos_agondev.Zds.Lexical.{mask_quoted, split_comment}
use mos_agondev.Zds.Macros.{code_of, discover_macros}
use mos_agondev.Zds.Names.{file_key, macro_gas_name, parse_params, safe_identifier}
use mos_agondev.Zds.Patterns.{g_name, ident, macro_end_re, macro_start_re}
use mos_agondev.Errors.{ok}

lines_run :
    split_lines (codes "ab\r\nc\n\nd") ≡ codes "ab\r\n" ∷ codes "c\n" ∷ codes "\n" ∷ codes "d" ∷ []
unfolding split_lines
lines_run = refl

comment_run : split_comment (codes "ld a,\";\" ; x") ≡ (codes "ld a,\";\" ", codes "; x")
unfolding split_comment
comment_run = refl

mask_run : mask_quoted (codes "a \"b\\\"\" c") ≡ codes "a       c"
unfolding mask_quoted
mask_run = refl

abbrev name_and_params : Option Match → Option (Str × Option Str)
name_and_params none = none
name_and_params (some m) = some (named g_name m, group_of (codes "params") m)

macro_run :
    name_and_params (match macro_start_re (codes "  Foo?: macro  a, b "))
    ≡ some (codes "Foo?", some (codes "a, b"))
unfolding match named group_of macro_start_re list_beq
macro_run = refl

sub_run : safe_identifier (codes "1a?-b") ≡ codes "z_1a_3f__2d_b"
unfolding safe_identifier sub list_beq padded
sub_run = refl

key_run :
    file_key (λ s. codes "0123456789") (codes "src\\a.b//c.ASM") ≡ codes "src_a_b_c_asm_01234567"
unfolding file_key sub list_beq join split
key_run = refl

discover_run :
    discover_macros ((codes "s.asm", codes "m MACRO x,y\n nop\n ENDMACRO\n") ∷ [])
    ≡ ok (
        (
          codes "m",
          record {
            source_name = codes "m";
            gas_name = codes "zds_m";
            params = codes "x" ∷ codes "y" ∷ [];
            source = codes "s.asm";
            line = 1;
          },
        )
        ∷ [])
unfolding discover_macros code_of match matches named group_of macro_start_re macro_end_re
    mask_quoted parse_params strip split full_match macro_gas_name lookup insert list_beq sub
    split_lines ident contains
discover_run = refl
