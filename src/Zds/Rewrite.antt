-- ===== src/Zds/Rewrite.antt =====
-- The rewriting of one line: the functions rewrite_macro_invocation, rewrite_implicit_label,
-- rewrite_alu_parentheses, split_wide_register_copy and replace_macro_params of
-- projects/mos-port/tools/zds2gas.py.
pub mod Directive
pub mod Locals
use mos_agondev.Prelude.{
  Bool, Dict, List, Option, [], contains, drop, false, has_key, if◌then◌else◌, leb, length, list_eq,
  lookup, nat_eq, none, not, option_eq, pair_eq, some, take, true, ℕ, ◌&&◌, ◌++◌, ◌-◌, ◌==◌, ◌||◌,
  ◌∷◌,
}
use mos_agondev.Regex.{
  Regex, alt, char, fold_char, group, line_end, line_start, lit, lit_ci, many, match, named,
  not_after, not_before, one, opt, some_of, sub, ◌▸◌,
}
use mos_agondev.Text.{
  Str, casefold, codes, ends_with, is_digit, is_one_of, is_space, lstrip, starts_with, strip,
}
use mos_agondev.Zds.Analyze.Locals.{invocation_re}
use mos_agondev.Zds.Lexical.{map_unquoted}
use mos_agondev.Zds.Patterns.{
  any_char, folded, ident, ident_char, is_alpha, label, label_ci, spaces, spaces1,
}
use mos_agondev.Zds.Records.{MacroSpec}

-- `(?<![A-Za-z0-9_?\\])param(?![A-Za-z0-9_?])`
abbrev param_re : Str → Regex
param_re param = not_after (λ c. ident_char c || c == b'\\') ▸ lit param ▸ not_before ident_char

-- `&param&`
abbrev concatenation_re : Str → Regex
concatenation_re param = char b'&' ▸ lit param ▸ char b'&'

-- `sorted(params, key=len, reverse=True)`: longest first, equal ones in their order
insert_param : Str → List Str → List Str
insert_param param [] = param ∷ []
insert_param param (x ∷ xs) =
    if leb (length x) (length param) then param ∷ x ∷ xs else x ∷ insert_param param xs

unfoldable pub longest_first : List Str → List Str
unfolding insert_param
longest_first [] = []
longest_first (x ∷ xs) = insert_param x (longest_first xs)

concatenate_params : List Str → Str → Str
unfolding sub
concatenate_params [] segment = segment
concatenate_params (param ∷ params) segment =
    concatenate_params params
      (sub (concatenation_re param) (λ _. codes "\\" ++ (param ++ codes "\\()")) segment)

escape_params : List Str → Str → Str
unfolding sub
escape_params [] segment = segment
escape_params (param ∷ params) segment =
    escape_params params (sub (param_re param) (λ _. codes "\\" ++ param) segment)

unfoldable pub replace_macro_params : Str → MacroSpec → Str
unfolding concatenate_params escape_params longest_first
replace_macro_params code macro =
    let params = longest_first macro.params in
    map_unquoted code (λ segment. escape_params params (concatenate_params params segment))

-- `stripped[1:-1]`
abbrev inner : Str → Str
inner text = take (length text - 2) (drop 1 text)

abbrev leading_space : Str → Str
leading_space rest = take (length rest - length (lstrip rest)) rest

head_is_space : Str → Bool
unfolding is_space
head_is_space [] = false
head_is_space (c ∷ cs) = is_space c

-- the arguments of an invocation, or none where the line is left alone
invocation_rest : Str → Option Str
unfolding head_is_space strip starts_with ends_with lstrip
invocation_rest rest =
    let stripped = strip rest in
    let leading = leading_space rest in
    if starts_with (codes "(") stripped && ends_with (codes ")") stripped
    then some ((if leading == [] then codes " " else leading) ++ inner stripped)
    else if not (rest == []) && not (head_is_space rest)
    then none
    else some rest

unfoldable pub rewrite_macro_invocation : Str → Dict Str MacroSpec → Str × Bool
unfolding invocation_rest
rewrite_macro_invocation code macros = elim (match invocation_re code) [
  | none ↦ (code, false)
  | some m ↦ elim (lookup (named (codes "op") m) macros) [
    | none ↦ (code, false)
    | some spec ↦ elim (invocation_rest (named (codes "rest") m)) [
      | none ↦ (code, false)
      | some rest ↦ (named (codes "prefix") m ++ (spec.gas_name ++ rest), true)
    ]
  ]
]

-- `^(?P<label>...)(?P<space>\s+)(?P<op>IDENT)(?P<rest>(?:\s+.*)?\s*)$`
unfoldable pub implicit_label_re : Regex
unfolding ident is_space
implicit_label_re =
    line_start
    ▸ group (codes "label") label
    ▸ group (codes "space") spaces1
    ▸ group (codes "op") ident
    ▸ group (codes "rest") (opt (spaces1 ▸ many any_char) ▸ spaces)
    ▸ line_end

abbrev known_after_label : List Str
known_after_label =
    codes "db"
    ∷ codes "dw"
    ∷ codes "dl"
    ∷ codes "dw24"
    ∷ codes "ds"
    ∷ codes "jp"
    ∷ codes "jr"
    ∷ codes "call"
    ∷ codes "ld"
    ∷ codes "section"
    ∷ []

unfoldable pub rewrite_implicit_label : Str → Dict Str MacroSpec → Str × Bool
rewrite_implicit_label code macros = elim (match implicit_label_re code) [
  | none ↦ (code, false)
  | some m ↦
      let source_op = named (codes "op") m in
      if not (contains (casefold source_op) known_after_label) && not (has_key source_op macros)
      then (code, false)
      else (
        named (codes "label") m
            ++ (codes ":" ++ (named (codes "space") m ++ (source_op ++ named (codes "rest") m))),
        true,
      )
]

-- `ADC|ADD|AND|CP|OR|SBC|SUB|TST|XOR`
abbrev alu_word : Regex
alu_word = alt (lit_ci (codes "ADC")) (
    alt (lit_ci (codes "ADD")) (
      alt (lit_ci (codes "AND")) (
        alt (lit_ci (codes "CP")) (
          alt (lit_ci (codes "OR")) (
            alt (lit_ci (codes "SBC"))
              (alt (lit_ci (codes "SUB")) (alt (lit_ci (codes "TST")) (lit_ci (codes "XOR")))))))))

unfoldable pub alu_re : Regex
unfolding is_space fold_char
alu_re =
    line_start
    ▸ group (codes "head") (
        spaces
        ▸ opt (alt label_ci (some_of is_digit) ▸ char b':' ▸ spaces)
        ▸ alu_word
        ▸ spaces1
        ▸ some_of (λ c. not (c == b','))
        ▸ char b','
        ▸ spaces)
    ▸ char b'('
    ▸ group (codes "expression") (char b'(' ▸ many any_char ▸ char b')')
    ▸ char b')'
    ▸ group (codes "tail") spaces
    ▸ line_end

unfoldable pub rewrite_alu_parentheses : Str → Str × Bool
rewrite_alu_parentheses code = elim (match alu_re code) [
  | none ↦ (code, false)
  | some m ↦
      (named (codes "head") m ++ (named (codes "expression") m ++ named (codes "tail") m), true)
]

-- `BC|DE|HL|IX|IY`
abbrev pair_word : Regex
pair_word = alt (lit_ci (codes "BC")) (
    alt (lit_ci (codes "DE"))
      (alt (lit_ci (codes "HL")) (alt (lit_ci (codes "IX")) (lit_ci (codes "IY")))))

-- `[A-Za-z_.$]` and `[A-Za-z0-9_.$]`
abbrev copy_head : ℕ → Bool
copy_head c = is_alpha c || is_one_of (codes "_.$") c

unfoldable pub wide_copy_re : Regex
unfolding is_space fold_char
wide_copy_re =
    line_start
    ▸ group (codes "prefix") (
        spaces
        ▸ opt (
            alt (one (folded copy_head) ▸ many (folded (λ c. copy_head c || is_digit c)))
              (some_of is_digit)
            ▸ char b':'
            ▸ spaces))
    ▸ lit_ci (codes "LD")
    ▸ spaces1
    ▸ group (codes "dst") pair_word
    ▸ spaces
    ▸ char b','
    ▸ spaces
    ▸ group (codes "src") pair_word
    ▸ spaces
    ▸ line_end

unfoldable pub split_wide_register_copy : Str → List Str × Bool
split_wide_register_copy code = elim (match wide_copy_re code) [
  | none ↦ (code ∷ [], false)
  | some m ↦
      let dst = casefold (named (codes "dst") m) in
      let src = casefold (named (codes "src") m) in
      let prefix = named (codes "prefix") m in
      if dst == src then (code ∷ [], false) else (
        (prefix ++ (codes "push " ++ src)) ∷ (leading_space prefix ++ (codes "pop " ++ dst)) ∷ [],
        true,
      )
]
