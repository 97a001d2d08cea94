-- ===== src/Zds/Rewrite/Locals.antt =====
-- rewrite_locals of projects/mos-port/tools/zds2gas.py.
use mos_agondev.Prelude.{
  List, Option, [], if◌then◌else◌, length, list_eq, lookup, nat_eq, none, option_eq, pair_eq, some,
  take, ℕ, ◌++◌, ◌+◌, ◌-◌, ◌∷◌,
}
use mos_agondev.Regex.{Match, Piece, Regex, found, named, pieces, plain, sub}
use mos_agondev.Text.{Str, codes}
use mos_agondev.Zds.Analyze.Locals.{is_direction}
use mos_agondev.Zds.Lexical.Segments.{render_counted, segments}
use mos_agondev.Zds.Patterns.{
  anon_def_re, anon_ref_re, g_name, macro_local_token_re, named_local_token_re,
  suffix_local_token_re,
}
use mos_agondev.Zds.Records.{Analysis, MacroSpec}
use mos_agondev.Errors.{Result, from_option, key_error, ok, ◌>>=◌}

-- `re.sub` with a function that may raise and that counts its calls
replace_counted : (ℕ → Match → Result Str) → ℕ → List Piece → Result (ℕ × Str)
replace_counted f n [] = ok (n, [])
replace_counted f n (plain c ∷ ps) = do (n', rest) ← replace_counted f n ps; ok (n', c ∷ rest)
replace_counted f n (found m ∷ ps) = do
  changed ← f n m
  (n', rest) ← replace_counted f (n + 1) ps
  ok (n', changed ++ rest)

abbrev sub_result : Regex → (Match → Result Str) → Str → Result Str
sub_result r f s = do (n, changed) ← replace_counted (λ _. f) 0 (pieces r s); ok changed

-- `if macro is not None`
replace_macro_locals : Analysis → Option MacroSpec → Str → Result Str
unfolding replace_counted
replace_macro_locals analysis none segment = ok segment
replace_macro_locals analysis (some macro) segment =
    sub_result macro_local_token_re
      (λ m.
        from_option key_error (lookup (macro.source_name, named g_name m) analysis.macro_locals))
      segment

-- `match.group().replace("$$", definition)` of a match of `^\s*\$\$:`
abbrev replace_dollars : Str → Match → Str
replace_dollars definition m = take (length m.text - 3) m.text ++ (definition ++ codes ":")

-- `if definition is not None`
replace_definition : Option Str → Str → Str
unfolding sub
replace_definition none segment = segment
replace_definition (some definition) segment = sub anon_def_re (replace_dollars definition) segment

replace_anonymous : Analysis → ℕ → ℕ → Str → Result (ℕ × Str)
unfolding replace_counted
replace_anonymous analysis line_number occurrence segment =
    replace_counted
      (λ n _. from_option key_error (lookup (line_number, n) analysis.anonymous_references))
      occurrence (pieces anon_ref_re segment)

named_label : Analysis → ℕ → Match → Result Str
named_label analysis scope m =
    let name = named g_name m in
    if is_direction name
    then ok m.text
    else from_option key_error (lookup (scope, b'$' ∷ name) analysis.named_locals)

-- `transform` on one region, with the occurrences of anonymous references so far
local_segment : Analysis → ℕ → Option MacroSpec → ℕ → ℕ → Str → Result (ℕ × Str)
unfolding replace_macro_locals replace_definition replace_anonymous named_label replace_counted
local_segment analysis scope macro line_number occurrence segment = do
  macro_done ← replace_macro_locals analysis macro segment
  let defined = replace_definition (lookup line_number analysis.anonymous_definitions) macro_done
  (occurrence', anonymous_done) ← replace_anonymous analysis line_number occurrence defined
  dollar_done ← sub_result named_local_token_re (named_label analysis scope) anonymous_done
  suffix_done ←
      sub_result suffix_local_token_re
        (λ m. from_option key_error (lookup (scope, named g_name m) analysis.named_locals))
        dollar_done
  ok (occurrence', suffix_done)

unfoldable pub rewrite_locals : Str → Analysis → ℕ → Option MacroSpec → ℕ → Result Str
unfolding local_segment
rewrite_locals code analysis scope macro line_number =
    render_counted (local_segment analysis scope macro line_number) 0 (segments code)
