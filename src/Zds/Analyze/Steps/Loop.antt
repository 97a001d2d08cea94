-- ===== src/Zds/Analyze/Steps/Loop.antt =====
-- The loop of analyze advances the tables.
use mos_agondev.Prelude.{
  Bool-cases, Dict, List, Option-cases, [], arith, inl, inr, subst, ℕ, ◌+◌, ◌∷◌, ◌≡◌,
}
use mos_agondev.Regex.{match, matches}
use mos_agondev.Text.{Str}
use mos_agondev.Zds.Analyze.{analyze_line, analyze_lines, line_of, open_line, plain_line}
use mos_agondev.Zds.Analyze.Locals.{anonymous_line, macro_local_line, named_local_line}
use mos_agondev.Zds.Analyze.Sections.{define_section, enter_section, equate_line, record_section}
use mos_agondev.Zds.Analyze.State.{Line, Progress}
use mos_agondev.Zds.Analyze.Steps.{Advances, Advances-trans, SameTables-Advances}
use mos_agondev.Zds.Analyze.Steps.Operations.{
  anonymous_line-SameTables, equate_line-Advances, macro_local_line-Advances,
  named_local_line-Advances, section_lines-Advances,
}
use mos_agondev.Zds.Analyze.Steps.Structures.{start_structure-Advances, structure_line-Advances}
use mos_agondev.Zds.Patterns.{macro_end_re, macro_start_re, scope_re, struct_start_re}
use mos_agondev.Zds.Records.{MacroSpec, SourceLocation}
use mos_agondev.Errors.{bind-eq-ok, ok}

plain_line-Advances :
    (macros : Dict Str MacroSpec) (key : Str) (l : Line) (p q : Progress)
    → plain_line macros key l p ≡ ok q
    → Advances p q
unfolding plain_line
plain_line-Advances macros key l p q h =
    let (a, first, h1) = bind-eq-ok (define_section l p) _ h in
    let (b, second, h2) = bind-eq-ok (equate_line l (record_section l (enter_section l a))) _ h1 in
    let (c, third, h3) = bind-eq-ok (macro_local_line l b) _ h2 in
    let (d, fourth, h4) = bind-eq-ok (named_local_line macros key l c) _ h3 in
    let same : anonymous_line key l d ≡ q = ground arith in
    let sectioned = record_section l (enter_section l a) in
    Advances-trans p sectioned q (section_lines-Advances l p a first) (
      Advances-trans sectioned b q (equate_line-Advances l sectioned b second) (
        Advances-trans b c q (macro_local_line-Advances l b c third) (
          Advances-trans c d q (named_local_line-Advances macros key l c d fourth) (
            subst (Advances d) same
              (SameTables-Advances d _ (anonymous_line-SameTables key l d))))))

open_line-Advances :
    (macros : Dict Str MacroSpec) (key : Str) (l : Line) (p q : Progress)
    → open_line macros key l p ≡ ok q
    → Advances p q
unfolding open_line
open_line-Advances macros key l p q h = elim (Option-cases (match macro_start_re l.masked)) [
  | inr (start, e) ↦ SameTables-Advances p q (ground arith)
  | inl e ↦ elim (Bool-cases (matches macro_end_re l.masked)) [
    | inl end ↦ SameTables-Advances p q (ground arith)
    | inr open_macro ↦ elim (Bool-cases (matches scope_re l.masked)) [
      | inl scope ↦ SameTables-Advances p q (ground arith)
      | inr other ↦ plain_line-Advances macros key l p q (rw (e, open_macro, other, open_line) at h)
    ]
  ]
]

-- One line advances the tables.
pub analyze_line-Advances :
    (macros : Dict Str MacroSpec) (key : Str) (l : Line) (p q : Progress)
    → analyze_line macros key l p ≡ ok q
    → Advances p q
unfolding analyze_line
analyze_line-Advances macros key l p q h = elim (Option-cases (match struct_start_re l.masked)) [
  | inr (start, e) ↦ start_structure-Advances l start p q (rw (e, analyze_line) at h)
  | inl e ↦ elim (Option-cases p.active_structure) [
    | inr (s, active) ↦ structure_line-Advances l s p q active (rw (e, active, analyze_line) at h)
    | inl closed ↦ open_line-Advances macros key l p q (rw (e, closed, analyze_line) at h)
  ]
]

Advances-refl : (p q : Progress) → p ≡ q → Advances p q
Advances-refl p q e = SameTables-Advances p q (ground arith)

-- The loop over the lines writes each equate, local label and structure once: what a line enters
-- stays as it is until the end, and structures stay laid out.
pub analyze_lines-Advances :
    (macros : Dict Str MacroSpec) (key : Str) (ordinal : ℕ) (lines : List Str)
    (locations : List SourceLocation) (p q : Progress)
    → analyze_lines macros key ordinal lines locations p ≡ ok q
    → Advances p q
unfolding analyze_lines
analyze_lines-Advances macros key ordinal (physical ∷ rest) (location ∷ locations) p q h =
    let (r, first, others) =
      bind-eq-ok (analyze_line macros key (line_of ordinal physical location) p) _ h in
    Advances-trans p r q (analyze_line-Advances macros key _ p r first)
      (analyze_lines-Advances macros key (ordinal + 1) rest locations r q others)
analyze_lines-Advances macros key ordinal [] locations p q h = Advances-refl p q (ground arith)
analyze_lines-Advances macros key ordinal (physical ∷ rest) [] p q h =
    Advances-refl p q (ground arith)
