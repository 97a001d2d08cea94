-- ===== src/Zds/Patterns.antt =====
-- The regular expressions of projects/mos-port/tools/zds2gas.py, as syntax trees. Where the source
-- says re.IGNORECASE, a class is read through `fold_char` and a word is a `lit_ci`.
use mos_agondev.Prelude.{Bool, list_eq, nat_eq, not, option_eq, pair_eq, ℕ, ◌==◌, ◌||◌}
use mos_agondev.Regex.{
  Regex, alt, boundary, char, few, fold_char, group, line_end, line_start, lit, lit_ci, many,
  not_after, not_before, one, opt, some_of, ◌▸◌,
}
use mos_agondev.Text.{Str, codes, is_digit, is_lower, is_space, is_upper, within}

abbrev pub is_alpha : ℕ → Bool
is_alpha c = is_upper c || is_lower c

-- `[A-Za-z_?]` and `[A-Za-z0-9_?]`
abbrev pub ident_head : ℕ → Bool
ident_head c = is_alpha c || c == b'_' || c == b'?'

abbrev pub ident_char : ℕ → Bool
ident_char c = ident_head c || is_digit c

-- `[A-Za-z_.$?]` and `[A-Za-z0-9_.$?]`
abbrev pub label_head : ℕ → Bool
label_head c = ident_head c || c == b'.' || c == b'$'

abbrev pub label_char : ℕ → Bool
label_char c = label_head c || is_digit c

abbrev pub is_hex : ℕ → Bool
is_hex c = is_digit c || within b'A' b'F' c || within b'a' b'f' c

abbrev pub folded : (ℕ → Bool) → ℕ → Bool
folded p c = p (fold_char c)

-- `.` and `[^\s]`
abbrev pub any_char : ℕ → Bool
any_char c = not (c == 10)

abbrev pub non_space : ℕ → Bool
non_space c = not (is_space c)

abbrev pub spaces : Regex
spaces = many is_space

abbrev pub spaces1 : Regex
spaces1 = some_of is_space

-- IDENT
unfoldable pub ident : Regex
ident = one ident_head ▸ many ident_char

unfoldable pub ident_ci : Regex
ident_ci = one (folded ident_head) ▸ many (folded ident_char)

-- `[A-Za-z_.$?][A-Za-z0-9_.$?]*`
abbrev pub label : Regex
label = one label_head ▸ many label_char

abbrev pub label_ci : Regex
label_ci = one (folded label_head) ▸ many (folded label_char)

-- `.+?`
abbrev pub some_few : (ℕ → Bool) → Regex
some_few p = one p ▸ few p

abbrev pub g_name : Str
g_name = codes "name"

unfoldable pub macro_start_re : Regex
unfolding ident_ci is_space fold_char
macro_start_re =
    line_start
    ▸ group (codes "indent") spaces
    ▸ group g_name ident_ci
    ▸ opt (char b':')
    ▸ spaces1
    ▸ lit_ci (codes "MACRO")
    ▸ opt (spaces1 ▸ group (codes "params") (few any_char))
    ▸ spaces
    ▸ line_end

unfoldable pub macro_end_re : Regex
unfolding is_space fold_char
macro_end_re =
    line_start
    ▸ spaces
    ▸ alt (lit_ci (codes "ENDMACRO")) (lit_ci (codes "MACEND"))
    ▸ spaces
    ▸ line_end

-- a line that holds one word alone
unfoldable pub alone_re : Str → Regex
unfolding is_space fold_char
alone_re word = line_start ▸ spaces ▸ lit_ci word ▸ spaces ▸ line_end

abbrev pub scope_re : Regex
scope_re = alone_re (codes "SCOPE")

abbrev pub end_re : Regex
end_re = alone_re (codes "END")

unfoldable pub named_local_def_re : Regex
unfolding ident is_space
named_local_def_re =
    line_start ▸ spaces ▸ group (codes "token") (char b'$' ▸ group g_name ident) ▸ char b':'

unfoldable pub named_local_token_re : Regex
unfolding ident
named_local_token_re = not_after (λ c. c == b'$') ▸ char b'$' ▸ group g_name ident

abbrev suffix_name : Regex
suffix_name =
    one (λ c. is_alpha c || c == b'_')
    ▸ many (λ c. is_alpha c || is_digit c || c == b'_')
    ▸ char b'?'

unfoldable pub suffix_local_def_re : Regex
unfolding is_space
suffix_local_def_re =
    line_start ▸ spaces ▸ group (codes "token") (group g_name suffix_name) ▸ char b':'

unfoldable pub suffix_local_token_re : Regex
suffix_local_token_re = not_after ident_char ▸ group g_name suffix_name ▸ not_before ident_char

unfoldable pub macro_local_def_re : Regex
unfolding ident is_space
macro_local_def_re =
    line_start ▸ spaces ▸ group (codes "token") (lit (codes "$$") ▸ group g_name ident) ▸ char b':'

unfoldable pub macro_local_token_re : Regex
unfolding ident
macro_local_token_re = lit (codes "$$") ▸ group g_name ident

unfoldable pub anon_def_re : Regex
unfolding is_space
anon_def_re = line_start ▸ spaces ▸ lit (codes "$$:")

unfoldable pub anon_ref_re : Regex
anon_ref_re =
    char b'$'
    ▸ group (codes "direction") (one (λ c. c == b'F' || c == b'f' || c == b'B' || c == b'b'))
    ▸ boundary

unfoldable pub include_re : Regex
unfolding is_space fold_char
include_re =
    line_start
    ▸ group (codes "indent") spaces
    ▸ lit_ci (codes "INCLUDE")
    ▸ spaces1
    ▸ group (codes "path") (char b'"' ▸ some_of (λ c. not (c == b'"')) ▸ char b'"')
    ▸ spaces
    ▸ line_end

unfoldable pub equate_re : Regex
unfolding is_space fold_char
equate_re =
    line_start
    ▸ group (codes "indent") spaces
    ▸ group g_name label_ci
    ▸ opt (char b':')
    ▸ spaces1
    ▸ opt (char b'.')
    ▸ lit_ci (codes "EQU")
    ▸ spaces1
    ▸ group (codes "value") (some_few any_char)
    ▸ spaces
    ▸ line_end

unfoldable pub set_re : Regex
unfolding is_space fold_char
set_re =
    line_start
    ▸ group (codes "indent") spaces
    ▸ lit_ci (codes ".set")
    ▸ spaces1
    ▸ group g_name label_ci
    ▸ spaces
    ▸ char b','
    ▸ spaces
    ▸ group (codes "value") (some_few any_char)
    ▸ spaces
    ▸ line_end

unfoldable pub struct_start_re : Regex
unfolding ident_ci is_space fold_char
struct_start_re =
    line_start
    ▸ spaces
    ▸ group g_name ident_ci
    ▸ spaces1
    ▸ lit_ci (codes ".STRUCT")
    ▸ opt (spaces1 ▸ group (codes "offset") (some_of non_space))
    ▸ spaces
    ▸ line_end

unfoldable pub struct_reserve_re : Regex
unfolding ident_ci is_space fold_char
struct_reserve_re =
    line_start
    ▸ spaces
    ▸ opt (group (codes "member") ident_ci ▸ opt (char b':') ▸ spaces1)
    ▸ lit_ci (codes "DS")
    ▸ spaces1
    ▸ group (codes "count") (some_few any_char)
    ▸ spaces
    ▸ line_end

unfoldable pub struct_tag_re : Regex
unfolding ident_ci is_space fold_char
struct_tag_re =
    line_start
    ▸ spaces
    ▸ group (codes "member") ident_ci
    ▸ opt (char b':')
    ▸ spaces1
    ▸ lit_ci (codes ".TAG")
    ▸ spaces1
    ▸ group (codes "tag") ident_ci
    ▸ opt (spaces1 ▸ group (codes "count") (some_few any_char))
    ▸ spaces
    ▸ line_end

unfoldable pub struct_end_re : Regex
unfolding ident_ci is_space fold_char
struct_end_re =
    line_start
    ▸ spaces
    ▸ opt (group (codes "size") ident_ci ▸ spaces1)
    ▸ lit_ci (codes ".ENDSTRUCT")
    ▸ opt (spaces1 ▸ group (codes "tag") ident_ci)
    ▸ spaces
    ▸ line_end
