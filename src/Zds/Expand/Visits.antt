-- ===== src/Zds/Expand/Visits.antt =====
-- The visits of expand_translation_unit of projects/mos-port/tools/zds2gas.py do what the relation
-- Scanned says.
use mos_agondev.Errors.{Result, err, ok}
use mos_agondev.Prelude.{
  Bool, Bool-cases, Dict, List, Option, Option-cases, [], ap, arith, contains, false, inl, inr,
  list_eq, lookup, nat_eq, none, option_eq, pair_eq, refl, some, suc, sym, true, zero, ℕ, ◌+◌, ◌∙◌,
  ◌∷◌, ◌≡◌,
}
use mos_agondev.Regex.{Match, match, matches}
use mos_agondev.Text.{Str, split_lines}
use mos_agondev.Zds.Expand.{
  Expansion, Resolver, Visit, add_include, add_line, add_source, and_then, end_line, include_line,
  visit, visit_line, visit_lines,
}
use mos_agondev.Zds.Expand.Scanned.{
  Effects, Scanned, Visited, a_copy, a_read, an_include, applied, applied-followed_by,
  applied-include, applied-line, applied-nothing, applied-read, copies_line, ends, ends_included,
  ends_root, followed_by, includes_file, no_effects, path_of,
}
use mos_agondev.Zds.Lexical.{mask_quoted}
use mos_agondev.Zds.Macros.{code_of}
use mos_agondev.Zds.Patterns.{end_re, include_re}

and_then-ok :
    (v : Visit) (next : Expansion → Visit) (out : Expansion)
    → and_then v next ≡ some (ok out)
    → (middle : Expansion) × (v ≡ some (ok middle)) × (next middle ≡ some (ok out))
unfolding and_then
and_then-ok none next out h = absurd (ground (arith, h))
and_then-ok (some (err fault)) next out h = absurd (ground (arith, h))
and_then-ok (some (ok e)) next out h = (e, refl, h)

include_line-ok :
    (visit_target : Str → Str → Expansion → Visit) (resolve_path : Str → Result (Str × Str))
    (display : Str) (n : ℕ) (spelling : Str) (e out : Expansion)
    → include_line visit_target resolve_path display n spelling e ≡ some (ok out)
    → (target : Str) × (shown : Str) × (resolve_path spelling ≡ ok (target, shown))
      × (visit_target target shown (add_include display n spelling shown e) ≡ some (ok out))
unfolding include_line
include_line-ok visit_target resolve_path display n spelling e out h =
    go (resolve_path spelling) refl h
  where
    go :
        (r : Result (Str × Str))
        → resolve_path spelling ≡ r
        → (elim r [
          | err fault ↦ some (err fault)
          | ok (target, shown) ↦ visit_target target shown (add_include display n spelling shown e)
        ])
          ≡ some (ok out)
        → (target : Str) × (shown : Str) × (resolve_path spelling ≡ ok (target, shown))
          × (visit_target target shown (add_include display n spelling shown e) ≡ some (ok out))
    go (err fault) same k = absurd (ground (arith, k))
    go (ok (target, shown)) same k = (target, shown, same, k)

module _ (sha256 : Str → Str) (files : Dict Str Str) (resolver : Resolver) where
  -- what a visit of a file does
  abbrev pub Visiting : List Str → Str → Str → Bool → (Expansion → Visit) → Type 0
  Visiting stack path display is_root v =
      (e out : Expansion)
      → v e ≡ some (ok out)
      → (x : Effects) × Visited sha256 files resolver stack path display is_root x
        × (applied x e ≡ out)

  -- what the rest of a file does
  abbrev pub Scanning : List Str → Str → Str → Bool → ℕ → List Str → (Expansion → Visit) → Type 0
  Scanning stack path display is_root n lines v =
      (e out : Expansion)
      → v e ≡ some (ok out)
      → (x : Effects) × Scanned sha256 files resolver stack path display is_root n lines x
        × (applied x e ≡ out)

  include-Scanning :
      (visit_target : Str → Str → Expansion → Visit) (stack : List Str) (path display : Str)
      (is_root : Bool) (n : ℕ) (physical : Str) (rest : List Str) (include : Match)
      (others : Expansion → Visit)
      → ((target shown : Str)
          → Visiting (path ∷ stack) target shown false (visit_target target shown))
      → Scanning stack path display is_root (n + 1) rest others
      → match include_re (code_of physical) ≡ some include
      → Scanning stack path display is_root n (physical ∷ rest) (λ e.
        and_then (include_line visit_target (resolver path) display n (path_of include) e) others)
  include-Scanning visit_target stack path display is_root n physical rest include others visiting
        scanning m e out h =
      let (middle, first, later) =
        and_then-ok (include_line visit_target (resolver path) display n (path_of include) e) others
          out h in
      let (target, shown, resolved, visited) =
        include_line-ok visit_target (resolver path) display n (path_of include) e middle first in
      let (x, v, did) = visiting target shown _ middle visited in
      let (y, scanned, did_rest) = scanning middle out later in
      let front = an_include display n (path_of include) shown in
      let whole =
        followed_by front (followed_by (followed_by (a_read shown (sha256 v.text)) v.inner) y) in
      (
        whole,
        includes_file stack path display is_root n physical rest include target shown v.text v.inner
            y m resolved v.is_new v.found v.scanned scanned,
        sym (
              applied-followed_by front
                (followed_by (followed_by (a_read shown (sha256 v.text)) v.inner) y) e)
            ∙ sym (
                applied-followed_by (followed_by (a_read shown (sha256 v.text)) v.inner) y
                  (applied front e))
            ∙ ap (applied y) (
                ap (λ z. applied z (applied front e)) (sym v.all_effects)
                ∙ ap (applied x) (applied-include display n (path_of include) shown e)
                ∙ did)
            ∙ did_rest,
      )

  visit_line-Scanning :
      (visit_target : Str → Str → Expansion → Visit) (stack : List Str) (path display : Str)
      (is_root : Bool) (n : ℕ) (physical : Str) (rest : List Str) (include : Option Match)
      (is_end : Bool) (others : Expansion → Visit)
      → ((target shown : Str)
          → Visiting (path ∷ stack) target shown false (visit_target target shown))
      → Scanning stack path display is_root (n + 1) rest others
      → match include_re (code_of physical) ≡ include
      → matches end_re (mask_quoted (code_of physical)) ≡ is_end
      → Scanning stack path display is_root n (physical ∷ rest) (
          visit_line
            (record {
              visit_target = visit_target;
              resolve_path = resolver path;
              display = display;
              is_root = is_root;
            })
            n
            physical
            include
            is_end
            others)
  unfolding visit_line end_line
  visit_line-Scanning visit_target stack path display is_root n physical rest (some include) is_end
        others visiting scanning m k e out h =
      include-Scanning visit_target stack path display is_root n physical rest include others
        visiting scanning m e out h
  visit_line-Scanning visit_target stack path display true n physical rest none true others visiting
        scanning m k e out h =
      (
        a_copy display n physical,
        ends_root stack path display n physical rest m k,
        applied-line display n physical e ∙ ground (arith, h),
      )
  visit_line-Scanning visit_target stack path display false n physical rest none true others
        visiting scanning m k e out h =
      (
        no_effects,
        ends_included stack path display n physical rest m k,
        applied-nothing e ∙ ground (arith, h),
      )
  visit_line-Scanning visit_target stack path display is_root n physical rest none false others
        visiting scanning m k e out h =
      let (y, scanned, did) = scanning (add_line display n physical e) out h in
      (
        followed_by (a_copy display n physical) y,
        copies_line stack path display is_root n physical rest y m k scanned,
        sym (applied-followed_by (a_copy display n physical) y e)
            ∙ ap (applied y) (applied-line display n physical e)
            ∙ did,
      )

  visit_lines-Scanning :
      (visit_target : Str → Str → Expansion → Visit) (stack : List Str) (path display : Str)
      (is_root : Bool) (n : ℕ) (lines : List Str)
      → ((target shown : Str)
          → Visiting (path ∷ stack) target shown false (visit_target target shown))
      → Scanning stack path display is_root n lines (
          visit_lines
            (record {
              visit_target = visit_target;
              resolve_path = resolver path;
              display = display;
              is_root = is_root;
            })
            n
            lines)
  unfolding visit_lines
  visit_lines-Scanning visit_target stack path display is_root n [] visiting e out h =
      (no_effects, ends stack path display is_root n, applied-nothing e ∙ ground (arith, h))
  visit_lines-Scanning visit_target stack path display is_root n (physical ∷ rest) visiting e out
        h =
      visit_line-Scanning visit_target stack path display is_root n physical rest
        (match include_re (code_of physical)) (matches end_re (mask_quoted (code_of physical))) _
        visiting
        (visit_lines-Scanning visit_target stack path display is_root (n + 1) rest visiting) refl
        refl e out h

  pub visit-Visiting :
      (fuel : ℕ) (path display : Str) (stack : List Str) (is_root : Bool)
      → Visiting stack path display is_root
          (visit fuel sha256 files resolver path display stack is_root)
  unfolding visit
  visit-Visiting zero path display stack is_root e out h = absurd (ground (arith, h))
  visit-Visiting (suc fuel) path display stack is_root e out h =
      elim (Bool-cases (contains path stack)) [
        | inl c ↦ absurd (ground (arith, h, c))
        | inr c ↦ elim (Option-cases (lookup path files)) [
          | inl l ↦ absurd (ground (arith, h, c, l))
          | inr (text, l) ↦
              let (inner, scanned, did) =
                visit_lines-Scanning _ stack path display is_root 1 (split_lines text)
                  (λ target shown. visit-Visiting fuel target shown (path ∷ stack) false)
                  (add_source display (sha256 text) e) out (rw (c, l, visit) at h) in
              (
                followed_by (a_read display (sha256 text)) inner,
                record {
                  text = text;
                  inner = inner;
                  is_new = c;
                  found = l;
                  scanned = scanned;
                  all_effects = refl;
                },
                sym (applied-followed_by (a_read display (sha256 text)) inner e)
                    ∙ ap (applied inner) (applied-read display (sha256 text) e)
                    ∙ did,
              )
        ]
      ]
