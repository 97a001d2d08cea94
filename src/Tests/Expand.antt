-- ===== src/Tests/Expand.antt =====
-- The theorems on expand_translation_unit, at two files that include each other.
use mos_agondev.Errors.{Fault, Result, err, ok, value_error}
use mos_agondev.Prelude.{
  Dict, [], contains, has_key, if◌then◌else◌, insert, list_beq, list_eq, lookup, nat_eq, option_eq,
  pair_eq, refl, some, true, ◌==◌, ◌∷◌, ◌≡◌, ◌⊎◌,
}
use mos_agondev.Regex.{fold_char, group_of, is_word, match, matches, named, run}
use mos_agondev.Text.{
  Str, casefold, codes, concat, ends_with, is_space, lower_char, split_lines, starts_with, str_lt,
}
use mos_agondev.Zds.Expand.{
  ExpandedSource, and_then, end_line, expand_translation_unit, expanded, include_line,
  insert_source, sort_sources, unquote, visit, visit_line, visit_lines, with_line_end,
}
use mos_agondev.Zds.Expand.Cycles.{HasCycle, expand_translation_unit_ends}
use mos_agondev.Zds.Expand.Scanned.{Effects, Visited}
use mos_agondev.Zds.Expand.Sources.{IsExpansion, expand_translation_unit-IsExpansion}
use mos_agondev.Zds.Lexical.{
  comment_from, comment_round, mask_from, mask_quoted, split_comment, split_last,
  split_physical_line,
}
use mos_agondev.Zds.Macros.{code_of}
use mos_agondev.Zds.Patterns.{alone_re, include_re}

abbrev file_a : Str
file_a = codes "/s/a.asm"

abbrev file_b : Str
file_b = codes "/s/b.inc"

abbrev two_files : Dict Str Str
two_files =
    (file_a, codes " nop\n INCLUDE \"b.inc\"\n") ∷ (file_b, codes " nop\n INCLUDE \"a.asm\"\n") ∷ []

-- an include of b.inc is found, and everything else is taken for a.asm
abbrev by_name : Str → Str → Result (Str × Str)
by_name including spelling =
    if spelling == codes "b.inc" then ok (file_b, codes "b.inc") else ok (file_a, codes "a.asm")

-- the two files are refused
cycle_run :
    expand_translation_unit casefold two_files by_name file_a (codes "a.asm")
    ≡ some (err value_error)
unfolding expand_translation_unit visit contains lookup list_beq visit_lines split_lines visit_line
    match include_re code_of matches alone_re mask_quoted and_then unquote named
cycle_run = refl

expand_translation_unit_ends_example :
    let run = expand_translation_unit casefold two_files by_name file_a (codes "a.asm") in
    ((fault : Fault) × (run ≡ some (err fault)))
    ⊎ ((s : ExpandedSource) × (run ≡ some (ok s)) × ¬ HasCycle two_files by_name file_a)
expand_translation_unit_ends_example =
    expand_translation_unit_ends casefold two_files by_name file_a (codes "a.asm")

abbrev chain_files : Dict Str Str
chain_files = (file_a, codes "INCLUDE \"b.inc\"\nx\n") ∷ (file_b, codes "y\nEND\nz\n") ∷ []

abbrev chain_source : ExpandedSource
chain_source = record {
  text = codes "y\nx\n";
  locations =
      record { source = codes "b.inc"; line = 1 }
      ∷ record { source = codes "a.asm"; line = 2 }
      ∷ [];
  includes =
      record {
        including = codes "a.asm";
        line = 1;
        spelling = codes "b.inc";
        resolved = codes "b.inc";
      }
      ∷ [];
  source_files =
      (codes "a.asm", codes "include \"b.inc\"\nx\n") ∷ (codes "b.inc", codes "y\nend\nz\n") ∷ [];
}

chain_run :
    expand_translation_unit casefold chain_files by_name file_a (codes "a.asm")
    ≡ some (ok chain_source)
unfolding expand_translation_unit visit visit_lines visit_line include_line end_line and_then
    expanded sort_sources insert_source with_line_end unquote concat split_lines lookup insert
    has_key contains list_beq match matches named group_of include_re alone_re mask_quoted mask_from
    code_of casefold lower_char is_space ends_with starts_with str_lt run fold_char is_word
    split_comment comment_from comment_round split_physical_line split_last
chain_run = refl

expand_translation_unit-IsExpansion_example :
    (x : Effects) × Visited casefold chain_files by_name [] file_a (codes "a.asm") true x
    × IsExpansion chain_source x
expand_translation_unit-IsExpansion_example =
    expand_translation_unit-IsExpansion casefold chain_files by_name file_a (codes "a.asm")
      chain_source chain_run
