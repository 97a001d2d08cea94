-- ===== src/Zds/Analyze/Anonymous/Loop.antt =====
-- The keys of the anonymous references stay distinct through the loop.
use mos_agondev.Prelude.{
  Bool-cases, Dict, Distinct, List, Option-cases, [], arith, inl, inr, list_eq, map, nat_eq,
  option_eq, pair_eq, subst, sym, ℕ, ◌+◌, ◌∷◌, ◌≡◌,
}
use mos_agondev.Regex.{find_iter, match, matches}
use mos_agondev.Text.{Str}
use mos_agondev.Zds.Analyze.{analyze_line, analyze_lines, line_of, open_line}
use mos_agondev.Zds.Analyze.Anonymous.{
  SameAnonymous, plain_line-parts, start_structure-SameAnonymous, structure_line-SameAnonymous,
}
use mos_agondev.Zds.Analyze.Anonymous.Keys.{HasKeys, HasKeys-weaken, append-HasKeys}
use mos_agondev.Zds.Analyze.Locals.{anonymous_line, define_anonymous}
use mos_agondev.Zds.Analyze.Resolve.Resolved.{ref_key}
use mos_agondev.Zds.Analyze.State.{Line, Progress}
use mos_agondev.Zds.Patterns.{
  anon_def_re, anon_ref_re, macro_end_re, macro_start_re, scope_re, struct_start_re,
}
use mos_agondev.Zds.Records.{MacroSpec, SourceLocation}
use mos_agondev.Errors.{bind-eq-ok, ok}

anonymous_line-HasKeys :
    (key : Str) (l : Line) (p : Progress)
    → HasKeys l.ordinal p.anonymous_refs
    → HasKeys (l.ordinal + 1) (anonymous_line key l p).anonymous_refs
unfolding anonymous_line define_anonymous
anonymous_line-HasKeys key l p h = elim (Bool-cases (matches anon_def_re l.masked)) [
  | inl e ↦ rw e (append-HasKeys l _ (find_iter anon_ref_re l.masked) p.anonymous_refs h)
  | inr e ↦ rw e (append-HasKeys l _ (find_iter anon_ref_re l.masked) p.anonymous_refs h)
]

same-HasKeys :
    (n : ℕ) (p q : Progress)
    → SameAnonymous p q
    → HasKeys n p.anonymous_refs
    → HasKeys (n + 1) q.anonymous_refs
same-HasKeys n p q s h = subst (HasKeys (n + 1)) (sym s.refs) (HasKeys-weaken n p.anonymous_refs h)

open_line-HasKeys :
    (macros : Dict Str MacroSpec) (key : Str) (l : Line) (p q : Progress)
    → open_line macros key l p ≡ ok q
    → HasKeys l.ordinal p.anonymous_refs
    → HasKeys (l.ordinal + 1) q.anonymous_refs
unfolding open_line
open_line-HasKeys macros key l p q h keys = elim (Option-cases (match macro_start_re l.masked)) [
  | inr (start, e) ↦ same-HasKeys l.ordinal p q (ground arith) keys
  | inl e ↦ elim (Bool-cases (matches macro_end_re l.masked)) [
    | inl end ↦ same-HasKeys l.ordinal p q (ground arith) keys
    | inr no_end ↦ elim (Bool-cases (matches scope_re l.masked)) [
      | inl scope ↦ same-HasKeys l.ordinal p q (ground arith) keys
      | inr other ↦
          let (d, same, last) =
            plain_line-parts macros key l p q (rw (e, no_end, other, open_line) at h) in
          subst (λ (q : Progress). HasKeys (l.ordinal + 1) q.anonymous_refs) last
            (anonymous_line-HasKeys key l d (subst (HasKeys l.ordinal) (sym same.refs) keys))
    ]
  ]
]

analyze_line-HasKeys :
    (macros : Dict Str MacroSpec) (key : Str) (l : Line) (p q : Progress)
    → analyze_line macros key l p ≡ ok q
    → HasKeys l.ordinal p.anonymous_refs
    → HasKeys (l.ordinal + 1) q.anonymous_refs
unfolding analyze_line
analyze_line-HasKeys macros key l p q h keys =
    elim (Option-cases (match struct_start_re l.masked)) [
      | inr (start, e) ↦
          same-HasKeys l.ordinal p q
            (start_structure-SameAnonymous l start p q (rw (e, analyze_line) at h)) keys
      | inl e ↦ elim (Option-cases p.active_structure) [
        | inr (s, active) ↦
            same-HasKeys l.ordinal p q
              (structure_line-SameAnonymous l s p q (rw (e, active, analyze_line) at h)) keys
        | inl closed ↦ open_line-HasKeys macros key l p q (rw (e, closed, analyze_line) at h) keys
      ]
    ]

-- After the loop no two anonymous references have one key.
pub analyze_lines-Distinct :
    (macros : Dict Str MacroSpec) (key : Str) (ordinal : ℕ) (lines : List Str)
    (locations : List SourceLocation) (p q : Progress)
    → analyze_lines macros key ordinal lines locations p ≡ ok q
    → HasKeys ordinal p.anonymous_refs
    → Distinct (map ref_key q.anonymous_refs)
unfolding analyze_lines
analyze_lines-Distinct macros key ordinal (physical ∷ rest) (location ∷ locations) p q h keys =
    let l = line_of ordinal physical location in
    let (r, first, others) = bind-eq-ok (analyze_line macros key l p) _ h in
    analyze_lines-Distinct macros key (ordinal + 1) rest locations r q others
      (analyze_line-HasKeys macros key l p r first keys)
analyze_lines-Distinct macros key ordinal [] locations p q h keys =
    let same : p.anonymous_refs ≡ q.anonymous_refs = ground arith in
    subst (λ rs. Distinct (map ref_key rs)) same keys.distinct
analyze_lines-Distinct macros key ordinal (physical ∷ rest) [] p q h keys =
    let same : p.anonymous_refs ≡ q.anonymous_refs = ground arith in
    subst (λ rs. Distinct (map ref_key rs)) same keys.distinct
