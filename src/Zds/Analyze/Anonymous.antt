-- ===== src/Zds/Analyze/Anonymous.antt =====
-- Anonymous labels over the loop of analyze in projects/mos-port/tools/zds2gas.py: only one
-- branch touches them.
pub mod Keys
pub mod Loop
use mos_agondev.Prelude.{
  Bool-cases, Dict, Option, Option-cases, [], arith, inl, inr, list_eq, nat_eq, none, option_eq,
  pair_eq, some, ℕ, ◌==◌, ◌∙◌, ◌≡◌,
}
use mos_agondev.Regex.{Match, match}
use mos_agondev.Text.{Str, strip}
use mos_agondev.Zds.Analyze.{plain_line}
use mos_agondev.Zds.Analyze.Locals.{
  anonymous_line, define_macro_local, define_named_local, forbid_in_macro, macro_local_definition,
  macro_local_line, named_local_line,
}
use mos_agondev.Zds.Analyze.Sections.{
  define_equate, define_section, enter_section, equate_line, record_section,
}
use mos_agondev.Zds.Analyze.State.{Line, OpenStructure, Progress}
use mos_agondev.Zds.Analyze.Structures.{
  add_member, end_structure, member_of, start_structure, structure_line,
}
use mos_agondev.Zds.Patterns.{named_local_def_re, struct_end_re, suffix_local_def_re}
use mos_agondev.Zds.Records.{MacroSpec}
use mos_agondev.Errors.{bind-eq-ok, ok}

-- a step that leaves the anonymous definitions and references alone
pub record SameAnonymous (p q : Progress) : Type 0 where
  pub refs : q.anonymous_refs ≡ p.anonymous_refs
  pub defs : q.anonymous_defs ≡ p.anonymous_defs

SameAnonymous-trans : (p q r : Progress) → SameAnonymous p q → SameAnonymous q r → SameAnonymous p r
SameAnonymous-trans p q r g h = record { refs = h.refs ∙ g.refs; defs = h.defs ∙ g.defs }

pub start_structure-SameAnonymous :
    (l : Line) (start : Match) (p q : Progress)
    → start_structure l start p ≡ ok q
    → SameAnonymous p q
unfolding start_structure
start_structure-SameAnonymous l start p q h = ground arith

add_member-SameAnonymous :
    (l : Line) (name : Option Str) (size : ℕ) (s : OpenStructure) (p q : Progress)
    → add_member l name size s p ≡ ok q
    → SameAnonymous p q
unfolding add_member
add_member-SameAnonymous l none size s p q h = ground arith
add_member-SameAnonymous l (some name) size s p q h = ground arith

pub structure_line-SameAnonymous :
    (l : Line) (s : OpenStructure) (p q : Progress)
    → structure_line l s p ≡ ok q
    → SameAnonymous p q
unfolding structure_line end_structure
structure_line-SameAnonymous l s p q h = elim (Option-cases (match struct_end_re l.masked)) [
  | inr (end, e) ↦ ground arith
  | inl e ↦ elim (Bool-cases (strip l.masked == [])) [
    | inl blank ↦ ground arith
    | inr full ↦
        let ((name, size), _, added) =
          bind-eq-ok (member_of l p) (λ (name, size). add_member l name size s p)
            (rw (full, e, structure_line) at h) in
        add_member-SameAnonymous l name size s p q added
  ]
]

define_section-SameAnonymous :
    (l : Line) (p q : Progress) → define_section l p ≡ ok q → SameAnonymous p q
unfolding define_section
define_section-SameAnonymous l p q h = ground arith

equate_line-SameAnonymous : (l : Line) (p q : Progress) → equate_line l p ≡ ok q → SameAnonymous p q
unfolding equate_line define_equate
equate_line-SameAnonymous l p q h = ground arith

macro_local_line-SameAnonymous :
    (l : Line) (p q : Progress) → macro_local_line l p ≡ ok q → SameAnonymous p q
unfolding macro_local_line macro_local_definition define_macro_local
macro_local_line-SameAnonymous l p q h = ground arith

named_local_line-SameAnonymous :
    (macros : Dict Str MacroSpec) (key : Str) (l : Line) (p q : Progress)
    → named_local_line macros key l p ≡ ok q
    → SameAnonymous p q
unfolding named_local_line
named_local_line-SameAnonymous macros key l p q h =
    let (_, _, h1) = bind-eq-ok (forbid_in_macro l (match named_local_def_re l.masked) p) _ h in
    let (_, _, h2) = bind-eq-ok (forbid_in_macro l (match suffix_local_def_re l.masked) p) _ h1 in
    let (r, first, h3) =
      bind-eq-ok (define_named_local key l (match named_local_def_re l.masked) p) _ h2 in
    let (s, second, h4) =
      bind-eq-ok (define_named_local key l (match suffix_local_def_re l.masked) r) _ h3 in
    SameAnonymous-trans p r q (define p r _ first)
      (SameAnonymous-trans r s q (define r s _ second) (ground arith))
  where
    define :
        (p q : Progress) (m : Option Match)
        → define_named_local key l m p ≡ ok q
        → SameAnonymous p q
    define p q none k = unfold define_named_local in ground arith
    define p q (some m) k = unfold define_named_local in ground arith

-- the part of a plain line in front of the anonymous labels
pub plain_line-parts :
    (macros : Dict Str MacroSpec) (key : Str) (l : Line) (p q : Progress)
    → plain_line macros key l p ≡ ok q
    → (d : Progress) × SameAnonymous p d × (anonymous_line key l d ≡ q)
unfolding plain_line
plain_line-parts macros key l p q h =
    let (a, first, h1) = bind-eq-ok (define_section l p) _ h in
    let entered = record_section l (enter_section l a) in
    let (b, second, h2) = bind-eq-ok (equate_line l entered) _ h1 in
    let (c, third, h3) = bind-eq-ok (macro_local_line l b) _ h2 in
    let (d, fourth, h4) = bind-eq-ok (named_local_line macros key l c) _ h3 in
    let entering : SameAnonymous a entered = unfold record_section enter_section in ground arith in
    (
      d,
      SameAnonymous-trans p a d (define_section-SameAnonymous l p a first) (
          SameAnonymous-trans a entered d entering (
            SameAnonymous-trans entered b d (equate_line-SameAnonymous l entered b second) (
              SameAnonymous-trans b c d (macro_local_line-SameAnonymous l b c third)
                (named_local_line-SameAnonymous macros key l c d fourth)))),
      ground arith,
    )
