-- ===== src/Zds/Rewrite/Directive.antt =====
-- rewrite_directive of projects/mos-port/tools/zds2gas.py. The cases are tried in the order of the
-- source; each returns the new line with its category.
use mos_agondev.Prelude.{
  Bool, Dict, Option, [], contains, false, if◌then◌else◌, length, list_eq, lookup, nat_eq, none,
  option_eq, pair_eq, some, take, ℕ, ◌++◌, ◌-◌, ◌==◌, ◌∷◌,
}
use mos_agondev.Regex.{
  Regex, alt, boundary, char, fold_char, group, line_end, line_start, lit_ci, many, match, matches,
  named, nothing, opt, ◌▸◌,
}
use mos_agondev.Text.{Str, casefold, codes, is_space, lstrip, strip, upper}
use mos_agondev.Zds.Analyze.Sections.{gas_section, match_equate, section_re}
use mos_agondev.Zds.Patterns.{
  any_char, end_re, g_name, include_re, label_ci, scope_re, some_few, spaces, spaces1,
}
use mos_agondev.Zds.Records.{Analysis, SectionDefinition}
use mos_agondev.Errors.{Result, from_option, key_error, ok, ◌>>=◌}
use mos_agondev.Zds.Rewrite.{inner}

abbrev Rewritten : Type 0
Rewritten = Option (Str × Str)

-- the first case that applies
abbrev or_next : Rewritten → Rewritten → Rewritten
or_next (some r) next = some r
or_next none next = next

abbrev indent_of : Str → Str
indent_of code = take (length code - length (lstrip code)) code

abbrev remark : Str → Str → Str
remark code text = indent_of code ++ (codes "; zds2gas: " ++ text)

-- `^\s*DEFINE\b`
unfoldable pub define_word_re : Regex
unfolding is_space fold_char
define_word_re = line_start ▸ spaces ▸ lit_ci (codes "DEFINE") ▸ boundary

-- SCOPE, DEFINE and END become remarks
unfoldable pub remark_case : Str → Rewritten
unfolding strip lstrip
remark_case code =
    if matches scope_re code
    then some (remark code (strip code), codes "scope")
    else if matches define_word_re code
    then some (remark code (strip code), codes "define")
    else if matches end_re code
    then some (remark code (codes "END"), codes "end")
    else none

unfoldable pub equate_case : Str → Analysis → ℕ → Rewritten
equate_case code analysis line_number = elim (match_equate code) [
  | none ↦ none
  | some m ↦
      let name = named g_name m in
      let value = named (codes "value") m in
      let indent = named (codes "indent") m in
      some (
        if contains line_number analysis.duplicate_equates
        then (
          indent
              ++ (codes "; zds2gas: duplicate immutable EQU " ++ (name ++ (codes " = " ++ value))),
          codes "duplicate-equ",
        )
        else (indent ++ (codes ".equiv " ++ (name ++ (codes ", " ++ value))), codes "equ"))
]

-- `str(definition.get("space", "")).upper() == "RAM"`
is_ram : Option SectionDefinition → Bool
is_ram none = false
is_ram (some definition) = upper definition.space == codes "RAM"

unfoldable pub segment_case : Str → Analysis → Rewritten
unfolding is_ram
segment_case code analysis = elim (match (section_re (codes "SEGMENT")) code) [
  | none ↦ none
  | some m ↦
      let name = named g_name m in
      let known = casefold name in
      let indent = named (codes "indent") m in
      let text =
        if known == codes "bss"
        then codes ".section .bss,\"aw\",@nobits"
        else if known == codes "data"
        then codes ".section .data,\"aw\",@progbits"
        else if is_ram (lookup known analysis.section_definitions)
        then codes ".section " ++ (name ++ codes ",\"aw\",@nobits")
        else codes ".section " ++ (name ++ codes ",\"ax\",@progbits") in
      some (indent ++ text, codes "segment")
]

unfoldable pub section_case : Str → Rewritten
section_case code = elim (match (section_re (codes "SECTION")) code) [
  | none ↦ none
  | some m ↦
      let known = casefold (named g_name m) in
      let line =
        named (codes "indent") m ++ (codes ".section " ++ gas_section known (named g_name m)) in
      some
        ((if known == codes "bss" then line ++ codes ",\"aw\",@nobits" else line), codes "section")
]

unfoldable pub include_case : Str → Rewritten
include_case code = elim (match include_re code) [
  | none ↦ none
  | some m ↦
      let path = named (codes "path") m in
      let is_header = casefold (inner path) == codes "ez80f92.inc" in
      let include_path = if is_header then codes "\"ez80f92.inc\"" else path in
      some (named (codes "indent") m ++ (codes ".include " ++ include_path), codes "include")
]

-- `replacements`, in its order
abbrev replacements : Dict Str Str
replacements =
    (codes "IF", codes ".if")
    ∷ (codes "ELSE", codes ".else")
    ∷ (codes "ENDIF", codes ".endif")
    ∷ (codes "ERROR", codes ".error \"ZDS ERROR directive reached\"")
    ∷ (codes "DL", codes "d32")
    ∷ (codes "DW24", codes "d24")
    ∷ []

words_of : Dict Str Str → Regex
unfolding fold_char
words_of [] = nothing
words_of ((k, v) ∷ []) = lit_ci k
words_of ((k, v) ∷ kv ∷ rest) = alt (lit_ci k) (words_of (kv ∷ rest))

unfoldable pub replacement_re : Regex
unfolding is_space fold_char words_of
replacement_re =
    line_start
    ▸ group (codes "prefix") (spaces ▸ opt (label_ci ▸ char b':' ▸ spaces))
    ▸ group (codes "op") (words_of replacements)
    ▸ group (codes "rest") (opt (spaces1 ▸ many any_char) ▸ spaces)
    ▸ line_end

-- The key is there: the pattern matches no other word, up to the letters that fold into ASCII ones.
unfoldable pub replacement_case : Str → Result Rewritten
replacement_case code = elim (match replacement_re code) [
  | none ↦ ok none
  | some m ↦ do
    let op = upper (named (codes "op") m)
    word ← from_option key_error (lookup op replacements)
    ok (some (named (codes "prefix") m ++ (word ++ named (codes "rest") m), casefold op))
]

unfoldable pub reserve_re : Regex
unfolding is_space fold_char
reserve_re =
    line_start
    ▸ group (codes "prefix") (spaces ▸ opt (label_ci ▸ opt (char b':') ▸ spaces1))
    ▸ lit_ci (codes "DS")
    ▸ spaces1
    ▸ group (codes "count") (some_few any_char)
    ▸ spaces
    ▸ line_end

-- `line_sections.get(line_number, (".text", "ROM"))`, the second part
space_of : Option (Str × Str) → Str
space_of none = codes "ROM"
space_of (some (section, space)) = space

unfoldable pub reserve_case : Str → Analysis → ℕ → Rewritten
unfolding space_of
reserve_case code analysis line_number = elim (match reserve_re code) [
  | none ↦ none
  | some m ↦
      let space = space_of (lookup line_number analysis.line_sections) in
      let fill = if space == codes "ROM" then codes ", 0xff" else [] in
      some (
        named (codes "prefix") m ++ (codes ".skip " ++ (named (codes "count") m ++ fill)),
        codes "reserve",
      )
]

abbrev with_category : Str → Rewritten → Str × Option Str
with_category code none = (code, none)
with_category code (some (text, category)) = (text, some category)

unfoldable pub rewrite_directive : Str → Analysis → ℕ → Result (Str × Option Str)
rewrite_directive code analysis line_number =
    if strip code == []
    then ok (code, none)
    else let early = or_next (remark_case code) (
        or_next (equate_case code analysis line_number) (
          or_next (segment_case code analysis)
            (or_next (section_case code) (include_case code)))) in
      elim early [
        | some r ↦ ok (with_category code (some r))
        | none ↦ do
          replaced ← replacement_case code
          ok (with_category code (or_next replaced (reserve_case code analysis line_number)))
      ]
