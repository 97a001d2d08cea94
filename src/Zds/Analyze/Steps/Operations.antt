-- ===== src/Zds/Analyze/Steps/Operations.antt =====
-- Each branch of the loop of analyze advances the tables.
use mos_agondev.Prelude.{
  Dict, Option, Option-cases, arith, has_key, inl, inr, insert, insert_keeps, list_eq, lookup,
  nat_eq, none, option_eq, pair_eq, refl, some, subst, ◌≡◌,
}
use mos_agondev.Regex.{Match, find_iter, match, named}
use mos_agondev.Text.{Str, codes}
use mos_agondev.Zds.Analyze.Locals.{
  add_macro_local, add_macro_refs, add_named_local, anonymous_line, define_anonymous,
  define_macro_local, define_named_local, forbid_in_macro, macro_local_definition, macro_local_line,
  named_local_line,
}
use mos_agondev.Zds.Analyze.Sections.{
  define_equate, define_section, enter_section, equate_line, match_equate, record_section,
}
use mos_agondev.Zds.Analyze.State.{Line, Progress}
use mos_agondev.Zds.Analyze.Steps.{
  Advances, Advances-trans, HasLayouts-same, SameTables, SameTables-Advances,
}
use mos_agondev.Zds.Patterns.{
  g_name, macro_local_def_re, macro_local_token_re, named_local_def_re, suffix_local_def_re,
}
use mos_agondev.Zds.Records.{EquateSpec, MacroSpec}
use mos_agondev.Errors.{bind-eq-ok, ok}

define_section-SameTables : (l : Line) (p q : Progress) → define_section l p ≡ ok q → SameTables p q
unfolding define_section
define_section-SameTables l p q h = ground arith

enter_section-SameTables :
    (l : Line) (p : Progress) → SameTables p (record_section l (enter_section l p))
unfolding enter_section record_section
enter_section-SameTables l p = ground arith

pub anonymous_line-SameTables :
    (key : Str) (l : Line) (p : Progress) → SameTables p (anonymous_line key l p)
unfolding anonymous_line define_anonymous
anonymous_line-SameTables key l p = ground arith

pub section_lines-Advances :
    (l : Line) (p q : Progress)
    → define_section l p ≡ ok q
    → Advances p (record_section l (enter_section l q))
section_lines-Advances l p q h =
    Advances-trans p q _ (SameTables-Advances p q (define_section-SameTables l p q h))
      (SameTables-Advances q _ (enter_section-SameTables l q))

pub define_equate-Advances :
    (l : Line) (name canonical : Str) (p q : Progress)
    → define_equate l name canonical p ≡ ok q
    → Advances p q
unfolding define_equate
define_equate-Advances l name canonical p q h = elim (Option-cases (lookup name p.equates)) [
  | inr (prior, e) ↦ SameTables-Advances p q (ground arith)
  | inl e ↦
      let spec : EquateSpec = record {
        name = name;
        canonical_value = canonical;
        source = l.location.source;
        line = l.location.line;
      } in
      let same : record p { equates = insert name spec p.equates } ≡ q = ground arith in
      subst (Advances p) same (record {
        equates = λ k v old. insert_keeps k name spec v p.equates e old;
        named_locals = λ k v old. old;
        macro_locals = λ k v old. old;
        structures = λ _ k v old. old;
        layouts = HasLayouts-same p _ refl refl;
      })
]

pub equate_line-Advances : (l : Line) (p q : Progress) → equate_line l p ≡ ok q → Advances p q
unfolding equate_line
equate_line-Advances l p q h = elim (Option-cases (match_equate l.code)) [
  | inl e ↦ SameTables-Advances p q (ground arith)
  | inr (m, e) ↦ define_equate-Advances l (named g_name m) _ p q (rw (e, equate_line) at h)
]

define_macro_local-Advances :
    (l : Line) (macro name : Str) (p q : Progress)
    → define_macro_local l macro name p ≡ ok q
    → Advances p q
unfolding define_macro_local has_key
define_macro_local-Advances l macro name p q h =
    elim (Option-cases (lookup (macro, name) p.macro_locals)) [
      | inr (old, e) ↦ absurd (ground arith)
      | inl e ↦
          let same : add_macro_local l macro name p ≡ q = ground arith in
          subst (Advances p) same (record {
            equates = λ k v old. old;
            named_locals = λ k v old. old;
            macro_locals = λ k v old. insert_keeps k (macro, name) _ v p.macro_locals e old;
            structures = λ _ k v old. old;
            layouts = HasLayouts-same p _ refl refl;
          })
    ]

macro_local_definition-Advances :
    (l : Line) (macro : Str) (definition : Option Match) (p q : Progress)
    → macro_local_definition l macro definition p ≡ ok q
    → Advances p q
unfolding macro_local_definition
macro_local_definition-Advances l macro none p q h = SameTables-Advances p q (ground arith)
macro_local_definition-Advances l macro (some m) p q h =
    define_macro_local-Advances l macro (named g_name m) p q h

pub macro_local_line-Advances :
    (l : Line) (p q : Progress) → macro_local_line l p ≡ ok q → Advances p q
unfolding macro_local_line
macro_local_line-Advances l p q h = elim (Option-cases p.active_macro) [
  | inl e ↦ SameTables-Advances p q (ground arith)
  | inr (active, e) ↦
      let tokens = find_iter macro_local_token_re l.masked in
      let (r, defined, added) =
        bind-eq-ok
          (macro_local_definition l active.source_name (match macro_local_def_re l.masked) p)
          (λ r. ok (add_macro_refs l active.source_name tokens r))
          (rw (e, macro_local_line) at h) in
      Advances-trans p r q (macro_local_definition-Advances l active.source_name _ p r defined)
        (SameTables-Advances r q (ground arith))
]

define_named_local-Advances :
    (key : Str) (l : Line) (definition : Option Match) (p q : Progress)
    → define_named_local key l definition p ≡ ok q
    → Advances p q
unfolding define_named_local has_key
define_named_local-Advances key l none p q h = SameTables-Advances p q (ground arith)
define_named_local-Advances key l (some m) p q h =
    let token = named (codes "token") m in
    elim (Option-cases (lookup (p.scope, token) p.named_locals)) [
      | inr (old, e) ↦ absurd (ground arith)
      | inl e ↦
          let same : add_named_local key l token p ≡ q = ground arith in
          subst (Advances p) same (record {
            equates = λ k v old. old;
            named_locals = λ k v old. insert_keeps k (p.scope, token) _ v p.named_locals e old;
            macro_locals = λ k v old. old;
            structures = λ _ k v old. old;
            layouts = HasLayouts-same p _ refl refl;
          })
    ]

-- the definitions and references of named locals
pub named_local_line-Advances :
    (macros : Dict Str MacroSpec) (key : Str) (l : Line) (p q : Progress)
    → named_local_line macros key l p ≡ ok q
    → Advances p q
unfolding named_local_line
named_local_line-Advances macros key l p q h =
    let (_, _, h1) = bind-eq-ok (forbid_in_macro l (match named_local_def_re l.masked) p) _ h in
    let (_, _, h2) = bind-eq-ok (forbid_in_macro l (match suffix_local_def_re l.masked) p) _ h1 in
    let (r, first, h3) =
      bind-eq-ok (define_named_local key l (match named_local_def_re l.masked) p) _ h2 in
    let (s, second, h4) =
      bind-eq-ok (define_named_local key l (match suffix_local_def_re l.masked) r) _ h3 in
    Advances-trans p r q (define_named_local-Advances key l _ p r first) (
      Advances-trans r s q (define_named_local-Advances key l _ r s second)
        (SameTables-Advances s q (ground arith)))
