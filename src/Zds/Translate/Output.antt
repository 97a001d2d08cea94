-- ===== src/Zds/Translate/Output.antt =====
-- The output of translate: its rows, their text and where they come from.
use mos_agondev.Errors.{bind-eq-ok, ok, ok-injective}
use mos_agondev.Prelude.{
  Bool, Bool-cases, Dict, List, Option, Option-cases, [], ap, arith, if◌then◌else◌, inl, inr,
  length, list_eq, lookup, map, nat_eq, none, not, option_eq, pair_eq, refl, replicate, some, subst,
  suc, sym, zero, ℕ, ◌++◌, ◌+◌, ◌==◌, ◌∙◌, ◌∷◌, ◌≡◌,
}
use mos_agondev.Regex.{Match, match, matches}
use mos_agondev.Text.{Str, codes, concat, split_lines}
use mos_agondev.Zds.Analyze.{analyze, default_locations}
use mos_agondev.Zds.Lexical.{mask_quoted, split_comment, split_physical_line}
use mos_agondev.Zds.Patterns.{macro_end_re, macro_start_re, scope_re}
use mos_agondev.Zds.Records.{Analysis, MacroSpec, SourceLocation, Translation}
use mos_agondev.Zds.Rewrite.{
  rewrite_alu_parentheses, rewrite_implicit_label, rewrite_macro_invocation,
  split_wide_register_copy,
}
use mos_agondev.Zds.Rewrite.Directive.{rewrite_directive}
use mos_agondev.Zds.Rewrite.Locals.{rewrite_locals}
use mos_agondev.Zds.Translate.{
  Emission, Input, count, count_if, count_option, end_macro, first_location, header_lines,
  initial_emission, input_of, macros_of, render_line, replace_params, rewrite_line, start_macro,
  through_end, translate, translate_line, translate_lines,
}
use mos_agondev.Zds.Translate.Rows.{
  Row, Rows, Wrote, Wrote-nothing, Wrote-trans, emit_lines-written, line_rows, no_rows, row_line,
  row_location, row_text, rows_of, written-Wrote,
}
use mos_agondev.Zds.Values.{rewrite_literals_and_locations}

-- what rendering a line leaves as it is
record SameOutput (e e' : Emission) : Type 0 where
  output : e'.output ≡ e.output
  output_to_source : e'.output_to_source ≡ e.output_to_source
  output_locations : e'.output_locations ≡ e.output_locations

count_if-SameOutput :
    (b : Bool) (category : Str) (e : Emission) → SameOutput e (count_if b category e)
unfolding count_if count
count_if-SameOutput b category e = ground arith

count_option-SameOutput : (o : Option Str) (e : Emission) → SameOutput e (count_option o e)
unfolding count_option count
count_option-SameOutput none e = ground arith
count_option-SameOutput (some category) e = ground arith

SameOutput-trans : (a b c : Emission) → SameOutput a b → SameOutput b c → SameOutput a c
SameOutput-trans a b c g h = record {
  output = h.output ∙ g.output;
  output_to_source = h.output_to_source ∙ g.output_to_source;
  output_locations = h.output_locations ∙ g.output_locations;
}

rewrite_line-SameOutput :
    (macros : Dict Str MacroSpec) (analysis : Analysis) (n : ℕ) (code masked : Str)
    (e e' : Emission) (rendered : List Str)
    → rewrite_line macros analysis n code masked e ≡ ok (rendered, e')
    → SameOutput e e'
unfolding rewrite_line
rewrite_line-SameOutput macros analysis n code masked e e' rendered h =
    let (localised, _, h1) = bind-eq-ok (rewrite_locals _ analysis _ e.active_macro n) _ h in
    let ((directed, directive), _, h2) = bind-eq-ok (rewrite_directive localised analysis n) _ h1 in
    let scope = if matches scope_re masked then e.scope + 1 else e.scope in
    let e0 : Emission = record e { scope = scope } in
    let (labelled, implicit_label) = rewrite_implicit_label code macros in
    let (before_locals, invoked) = rewrite_macro_invocation labelled macros in
    let e1 = count_if implicit_label (codes "implicit-label") e0 in
    let e2 = count_if invoked (codes "macro-invocation") e1 in
    let e3 = count_if (not (localised == before_locals)) (codes "local-label") e2 in
    let e4 = count_option directive e3 in
    let line = replace_params e.active_macro (rewrite_literals_and_locations directed) in
    let (unparenthesised, alu_parentheses) = rewrite_alu_parentheses line in
    let e5 = count_if alu_parentheses (codes "alu-parentheses") e4 in
    let (rendered_lines, wide_copy) = split_wide_register_copy unparenthesised in
    let e6 = count_if wide_copy (codes "wide-register-copy") e5 in
    let last : e6 ≡ e' = ground arith in
    SameOutput-trans e e0 e'
      (record { output = refl; output_to_source = refl; output_locations = refl })
      (SameOutput-trans e0 e1 e' (count_if-SameOutput _ _ e0) (
        SameOutput-trans e1 e2 e' (count_if-SameOutput _ _ e1) (
          SameOutput-trans e2 e3 e' (count_if-SameOutput _ _ e2) (
            SameOutput-trans e3 e4 e' (count_option-SameOutput directive e3) (
              SameOutput-trans e4 e5 e' (count_if-SameOutput _ _ e4)
                (subst (SameOutput e5) last (count_if-SameOutput _ _ e5)))))))

start_macro-SameOutput :
    (macros : Dict Str MacroSpec) (start : Match) (e e' : Emission) (rendered : List Str)
    → start_macro macros start e ≡ ok (rendered, e')
    → SameOutput e e'
unfolding start_macro count
start_macro-SameOutput macros start e e' rendered h = ground arith

render_line-SameOutput :
    (macros : Dict Str MacroSpec) (analysis : Analysis) (n : ℕ) (code : Str) (e e' : Emission)
    (rendered : List Str)
    → render_line macros analysis n code e ≡ ok (rendered, e')
    → SameOutput e e'
unfolding render_line end_macro count
render_line-SameOutput macros analysis n code e e' rendered h =
    elim (Option-cases (lookup n analysis.structure_lines)) [
      | inr (lines, s) ↦ ground arith
      | inl s ↦ elim (Option-cases (match macro_start_re (mask_quoted code))) [
        | inr (start, m) ↦
            start_macro-SameOutput macros start e e' rendered (rw (s, m, render_line) at h)
        | inl m ↦ elim (Bool-cases (matches macro_end_re (mask_quoted code))) [
          | inl end ↦ ground arith
          | inr no_end ↦
              rewrite_line-SameOutput macros analysis n code (mask_quoted code) e e' rendered
                (rw (s, m, no_end, render_line) at h)
        ]
      ]
    ]

SameOutput-Wrote :
    (a b c : Emission) (rows : List Row) → SameOutput a b → Wrote b c rows → Wrote a c rows
SameOutput-Wrote a b c rows same wrote = record {
  output = wrote.output ∙ ap (λ x. x ++ map row_text rows) same.output;
  output_to_source =
      wrote.output_to_source ∙ ap (λ x. x ++ map row_line rows) same.output_to_source;
  output_locations =
      wrote.output_locations ∙ ap (λ x. x ++ map row_location rows) same.output_locations;
}

translate_lines-Rows :
    (macros : Dict Str MacroSpec) (analysis : Analysis) (n : ℕ) (lines : List Str)
    (locations : List SourceLocation) (e e' : Emission)
    → length lines ≡ length locations
    → translate_lines macros analysis n lines locations e ≡ ok e'
    → (rows : List Row) × Wrote e e' rows × Rows macros analysis n lines locations e rows
unfolding translate_lines translate_line
translate_lines-Rows macros analysis n [] [] e e' same h =
    ([], Wrote-nothing e e' (ground arith) (ground arith) (ground arith), no_rows n e)
translate_lines-Rows macros analysis n [] (location ∷ locations) e e' same h =
    absurd (omega (arith, same))
translate_lines-Rows macros analysis n (physical ∷ rest) [] e e' same h =
    absurd (omega (arith, same))
translate_lines-Rows macros analysis n (physical ∷ rest) (location ∷ locations) e e' same h =
    let (code, comment) = split_comment (split_physical_line physical).0 in
    let (next, first, others) =
      bind-eq-ok (translate_line macros analysis n physical location e) _ h in
    let ((rendered, middle), shown, emitted) =
      bind-eq-ok (render_line macros analysis n code e) _ first in
    let (wrote, clean) = emit_lines-written location comment rendered middle next emitted in
    let line_group = rows_of location comment rendered in
    let (rows, wrote_rest, later) =
      translate_lines-Rows macros analysis (n + 1) rest locations next e' (ground (arith, same))
        others in
    let wrote_line =
      SameOutput-Wrote e middle next line_group
        (render_line-SameOutput macros analysis n code e middle rendered shown)
        (subst (λ x. Wrote middle x line_group) wrote (written-Wrote line_group middle)) in
    (
      line_group ++ rows,
      Wrote-trans e next e' line_group rows wrote_line wrote_rest,
      line_rows n physical rest location locations e middle rendered rows shown clean
          (subst (λ x. Rows macros analysis (n + 1) rest locations x rows) (sym wrote) later),
    )

length-default_locations :
    (source : Str) (n count : ℕ) → length (default_locations source n count) ≡ count
unfolding default_locations
length-default_locations source n zero = refl
length-default_locations source n (suc count) =
    ap suc (length-default_locations source (n + 1) count)

input_of-length :
    (source_name text : Str) (given : Option (List SourceLocation)) (input : Input)
    → input_of source_name text given ≡ ok input
    → length input.physical_lines ≡ length input.locations
unfolding input_of
input_of-length source_name text none input h =
    subst (λ (i : Input). length i.physical_lines ≡ length i.locations) (ok-injective _ input h)
      (sym (length-default_locations source_name 1 (length (through_end (split_lines text)))))
input_of-length source_name text (some locations) input h =
    elim (Bool-cases (length locations == length (split_lines text))) [
      | inl e ↦
          subst (λ (i : Input). length i.physical_lines ≡ length i.locations)
            (ok-injective _ input (rw e at h)) (sym ((nat_eq.same_iff _ _).0 e))
      | inr e ↦ absurd (ground (arith, h, e))
    ]

-- the three outputs of a translation
pub record IsOutput (source_name input_identity digest : Str) (macros : Dict Str MacroSpec)
    (input : Input) (t : Translation) (rows : List Row) : Type 0 where
  pub text : t.text ≡ concat (header_lines source_name input_identity digest ++ map row_text rows)
  pub output_to_source :
      t.output_to_source
      ≡ replicate 5 (first_location source_name input.locations).line ++ map row_line rows
  pub output_locations :
      t.output_locations
      ≡ replicate 5 (first_location source_name input.locations) ++ map row_location rows
  pub rows_of_lines :
      Rows macros t.analysis 1 input.physical_lines input.locations
        (initial_emission source_name input_identity digest input.locations)
        rows

-- The text of a translation is the header and then the rows of the input's lines, all of them and
-- in order. A line is rendered, by the analysis that is returned and in the state that the lines in
-- front of it leave, to texts with no `$` outside strings. It has one row for each of them, and the
-- comment of the line stands behind the last one alone. Both location lists name for each row
-- the line that it was made from, and for the five header lines the first line.
pub translate-IsOutput :
    (sha256 : Str → Str) (source_name text : Str) (macros : Option (Dict Str MacroSpec))
    (given : Option (List SourceLocation)) (input_identity : Str) (t : Translation)
    → translate sha256 source_name text macros given input_identity ≡ ok t
    → (input : Input) × (table : Dict Str MacroSpec) × (rows : List Row) × (input_of source_name
          text given
        ≡ ok input)
      × (macros_of source_name input.text macros ≡ ok table)
      × (analyze sha256 source_name input.text table (some input.locations) ≡ ok t.analysis)
      × IsOutput source_name input_identity (sha256 input.text) table input t rows
unfolding translate initial_emission
translate-IsOutput sha256 source_name text macros given input_identity t h =
    let (input, from, h1) = bind-eq-ok (input_of source_name text given) _ h in
    let (table, named_macros, h2) = bind-eq-ok (macros_of source_name input.text macros) _ h1 in
    let (analysis, analyzed, h3) =
      bind-eq-ok (analyze sha256 source_name input.text table (some input.locations)) _ h2 in
    let start = initial_emission source_name input_identity (sha256 input.text) input.locations in
    let (e, loop, h4) =
      bind-eq-ok (translate_lines table analysis 1 input.physical_lines input.locations start) _
        h3 in
    let (rows, wrote, lines) =
      translate_lines-Rows table analysis 1 input.physical_lines input.locations start e
        (input_of-length source_name text given input from) loop in
    let text_is : concat e.output ≡ t.text = ground arith in
    let sources : e.output_to_source ≡ t.output_to_source = ground arith in
    let places : e.output_locations ≡ t.output_locations = ground arith in
    let same : analysis ≡ t.analysis = ground arith in
    (
      input,
      table,
      rows,
      from,
      named_macros,
      analyzed ∙ ap ok same,
      record {
        text = sym text_is ∙ ap concat wrote.output;
        output_to_source = sym sources ∙ wrote.output_to_source;
        output_locations = sym places ∙ wrote.output_locations;
        rows_of_lines =
            subst (λ a. Rows table a 1 input.physical_lines input.locations start rows) same lines;
      },
    )
