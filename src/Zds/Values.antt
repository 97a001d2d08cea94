-- ===== src/Zds/Values.antt =====
-- Literals and definitions on a line: rewrite_literals_and_locations, canonical_equate_value,
-- parse_absolute_integer and parse_section_definition of
-- projects/mos-port/tools/zds2gas.py.
use Prim.Native.String.{String}
use mos_agondev.Errors.{Result, from_option, nonconstant_structure_size, raise, value_error}
use mos_agondev.Prelude.{
  Bool, List, Option, [], drop, if◌then◌else◌, list_eq, nat_eq, none, not, option_eq, pair_eq, some,
  ℕ, ◌&&◌, ◌++◌, ◌==◌, ◌||◌, ◌∷◌,
}
use mos_agondev.Regex.{
  Match, Regex, alt, boundary, char, find_iter, fold_char, full_match, group, group_of, line_end,
  line_start, lit_ci, many, match, named, not_after, not_before, one, some_of, sub, ◌▸◌,
}
use mos_agondev.Text.{Str, casefold, codes, is_digit, is_space, starts_with, strip, upper}
use mos_agondev.Text.Number.{value_from}
use mos_agondev.Zds.Lexical.{map_unquoted}
use mos_agondev.Zds.Names.{is_safe}
use mos_agondev.Zds.Patterns.{any_char, g_name, ident_head, is_hex, non_space, spaces, spaces1}
use mos_agondev.Zds.Records.{SectionDefinition, SourceLocation}

-- the text of a group that takes part in every match, with `0x` or `0b` in front
abbrev prefixed : String → Match → Str
prefixed prefix m = codes prefix ++ named (codes "digits") m

-- `(?<![A-Za-z0-9_])%([0-9A-Fa-f]+)\b`
unfoldable pub percent_hex_re : Regex
percent_hex_re = not_after is_safe ▸ char b'%' ▸ group (codes "digits") (some_of is_hex) ▸ boundary

-- `(?<![A-Za-z0-9_])([0-9A-Fa-f]+)[hH]\b`. The class holds no `h`, so `+` gives nothing back that
-- could help.
unfoldable pub suffix_hex_re : Regex
suffix_hex_re =
    not_after is_safe
    ▸ group (codes "digits") (some_of is_hex)
    ▸ one (λ c. c == b'h' || c == b'H')
    ▸ boundary

-- `(?<![A-Za-z0-9_])([01]+)[bB]\b`
unfoldable pub suffix_binary_re : Regex
suffix_binary_re =
    not_after is_safe
    ▸ group (codes "digits") (some_of (λ c. c == b'0' || c == b'1'))
    ▸ one (λ c. c == b'b' || c == b'B')
    ▸ boundary

-- `\$(?![$A-Za-z_?])`
unfoldable pub location_re : Regex
location_re = char b'$' ▸ not_before (λ c. c == b'$' || ident_head c)

unfoldable pub rewrite_literal_segment : Str → Str
unfolding percent_hex_re suffix_hex_re suffix_binary_re location_re sub named
rewrite_literal_segment segment =
    let hex = sub percent_hex_re (prefixed "0x") segment in
    let suffix_hex = sub suffix_hex_re (prefixed "0x") hex in
    let binary = sub suffix_binary_re (prefixed "0b") suffix_hex in
    sub location_re (λ _. codes ".") binary

unfoldable pub rewrite_literals_and_locations : Str → Str
unfolding rewrite_literal_segment map_unquoted
rewrite_literals_and_locations code = map_unquoted code rewrite_literal_segment

-- `0[xX]([0-9A-Fa-f]+)` and `0[bB]([01]+)`
abbrev radix_re : ℕ → ℕ → (ℕ → Bool) → Regex
radix_re small large digit =
    char b'0' ▸ one (λ c. c == small || c == large) ▸ group (codes "digits") (some_of digit)

unfoldable pub canonical_equate_value : Str → Str
unfolding rewrite_literals_and_locations casefold
canonical_equate_value value =
    let normalized = rewrite_literals_and_locations value in
    let hex =
      sub (radix_re b'x' b'X' is_hex) (λ m. codes "0x" ++ casefold (named (codes "digits") m))
        normalized in
    let binary = sub (radix_re b'b' b'B' (λ c. c == b'0' || c == b'1')) (prefixed "0b") hex in
    sub (some_of is_space) (λ _. []) binary

-- `int(text, 0)` on the texts that the pattern lets through; a decimal number with a leading zero
-- is an error unless it is zero
parse_literal : Str → Option ℕ
unfolding full_match value_from
parse_literal text =
    if full_match (radix_re b'x' b'X' is_hex) text
    then some (value_from 16 0 (drop 2 text))
    else if full_match (radix_re b'b' b'B' (λ c. c == b'0' || c == b'1')) text
    then some (value_from 2 0 (drop 2 text))
    else if full_match (some_of is_digit) text
    then if starts_with (codes "0") text && not (value_from 10 0 text == 0)
      then none
      else some (value_from 10 0 text)
    else none

-- `(?:0[xX][0-9A-Fa-f]+|0[bB][01]+|[0-9]+)`
abbrev is_literal : Str → Bool
is_literal text =
    full_match
      (alt (radix_re b'x' b'X' is_hex)
        (alt (radix_re b'b' b'B' (λ c. c == b'0' || c == b'1')) (some_of is_digit)))
      text

-- The result is a natural number, so the test for a negative one has no branch.
unfoldable pub parse_absolute_integer : Str → SourceLocation → Result ℕ
unfolding parse_literal rewrite_literals_and_locations strip full_match
parse_absolute_integer value location =
    let normalized = rewrite_literals_and_locations (strip value) in
    if is_literal normalized
    then from_option value_error (parse_literal normalized)
    else raise location.source location.line nonconstant_structure_size

-- `^\s*DEFINE\s+([^,\s]+)\s*,\s*SPACE\s*=\s*(ROM|RAM)(?P<tail>.*)$`
unfoldable pub define_re : Regex
unfolding is_space fold_char
define_re =
    line_start
    ▸ spaces
    ▸ lit_ci (codes "DEFINE")
    ▸ spaces1
    ▸ group g_name (some_of (λ c. non_space c && not (c == b',')))
    ▸ spaces
    ▸ char b','
    ▸ spaces
    ▸ lit_ci (codes "SPACE")
    ▸ spaces
    ▸ char b'='
    ▸ spaces
    ▸ group (codes "space") (alt (lit_ci (codes "ROM")) (lit_ci (codes "RAM")))
    ▸ group (codes "tail") (many any_char)
    ▸ line_end

-- `,\s*ALIGN\s*=\s*([^,\s]+)`
unfoldable pub align_re : Regex
unfolding is_space fold_char
align_re =
    char b','
    ▸ spaces
    ▸ lit_ci (codes "ALIGN")
    ▸ spaces
    ▸ char b'='
    ▸ spaces
    ▸ group (codes "align") (some_of (λ c. non_space c && not (c == b',')))

first_align : List Match → Option Str
first_align [] = none
first_align (m ∷ ms) = group_of (codes "align") m

unfoldable pub parse_section_definition : Str → Option SectionDefinition
unfolding define_re align_re first_align match find_iter upper named
parse_section_definition masked = elim (match define_re masked) [
  | none ↦ none
  | some m ↦ some (record {
    name = named g_name m;
    space = upper (named (codes "space") m);
    align = first_align (find_iter align_re (named (codes "tail") m));
  })
]
