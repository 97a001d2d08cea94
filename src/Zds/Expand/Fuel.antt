-- ===== src/Zds/Expand/Fuel.antt =====
-- The fuel of expand_translation_unit is enough.
use mos_agondev.Errors.{Result, err, ok, value_error}
use mos_agondev.Prelude.{
  All, Bool, Bool-cases, Dict, Distinct, List, Option, Option-cases, [], ap, arith, contains, false,
  has_key, inl, inr, length, list_eq, lookup, nat_eq, none, option_eq, pair_eq, refl, some, suc,
  true, zero, ℕ, ◌+◌, ◌<◌, ◌∙◌, ◌∷◌, ◌≡◌,
}
use mos_agondev.Regex.{Match}
use mos_agondev.Text.{Str, split_lines}
use mos_agondev.Zds.Expand.{
  ExpandedSource, Expansion, Reading, Resolver, Visit, add_include, add_line, and_then,
  empty_expansion, end_line, expand_translation_unit, expanded, include_line, visit, visit_line,
  visit_lines,
}
use mos_agondev.Zds.Expand.Pigeonhole.{Distinct-length}
use mos_agondev.Zds.Provenance.{keys}
use mos_agondev.Zds.Provenance.Listed.{contains-keys}

-- a visit that ends, with a result or an error
abbrev pub Ends : Visit → Type 0
Ends v = (r : Result Expansion) × (v ≡ some r)

and_then-Ends :
    (v : Visit) (next : Expansion → Visit)
    → Ends v
    → ((e : Expansion) → Ends (next e))
    → Ends (and_then v next)
unfolding and_then
and_then-Ends none next (r, h) k = cc
and_then-Ends (some (err fault)) next h k = (err fault, refl)
and_then-Ends (some (ok e)) next h k = k e

include_line-Ends :
    (visit_target : Str → Str → Expansion → Visit) (resolve_path : Str → Result (Str × Str))
    (display : Str) (n : ℕ) (spelling : Str) (e : Expansion)
    → ((target shown : Str) (e : Expansion) → Ends (visit_target target shown e))
    → Ends (include_line visit_target resolve_path display n spelling e)
unfolding include_line
include_line-Ends visit_target resolve_path display n spelling e k = go (resolve_path spelling)
  where
    go :
        (r : Result (Str × Str))
        → Ends (elim r [
          | err fault ↦ some (err fault)
          | ok (target, shown) ↦ visit_target target shown (add_include display n spelling shown e)
        ])
    go (err fault) = (err fault, refl)
    go (ok (target, shown)) = k target shown _

-- every visit of a target ends
Visits : Reading → Type 0
Visits r = (target shown : Str) (e : Expansion) → Ends (r.visit_target target shown e)

visit_line-Ends :
    (r : Reading) (n : ℕ) (physical : Str) (include : Option Match) (is_end : Bool)
    (others : Expansion → Visit) (e : Expansion)
    → Visits r
    → ((e' : Expansion) → Ends (others e'))
    → Ends (visit_line r n physical include is_end others e)
unfolding visit_line Visits
visit_line-Ends r n physical (some include) is_end others e k rest =
    and_then-Ends _ others (include_line-Ends r.visit_target r.resolve_path r.display n _ e k) rest
visit_line-Ends r n physical none true others e k rest = (ok (end_line r n physical e), refl)
visit_line-Ends r n physical none false others e k rest = rest (add_line r.display n physical e)

visit_lines-Ends :
    (r : Reading) (n : ℕ) (lines : List Str) (e : Expansion)
    → Visits r
    → Ends (visit_lines r n lines e)
unfolding visit_lines
visit_lines-Ends r n [] e k = (ok e, refl)
visit_lines-Ends r n (physical ∷ rest) e k =
    visit_line-Ends r n physical _ _ (visit_lines r (n + 1) rest) e k
      (λ e'. visit_lines-Ends r (n + 1) rest e' k)

contains-keys-lookup :
    (path text : Str) (files : Dict Str Str)
    → lookup path files ≡ some text
    → contains path (keys files) ≡ true
unfolding has_key
contains-keys-lookup path text files h = contains-keys path files ∙ ground arith

length-keys : (files : Dict Str Str) → length (keys files) ≡ length files
length-keys [] = refl
length-keys ((k, v) ∷ d) = ap suc (length-keys d)

visit-Ends :
    (fuel : ℕ) (sha256 : Str → Str) (files : Dict Str Str) (resolver : Resolver)
    (path display : Str) (stack : List Str) (is_root : Bool) (e : Expansion)
    → length files < fuel + length stack
    → Distinct stack
    → All (λ p. contains p (keys files) ≡ true) stack
    → Ends (visit fuel sha256 files resolver path display stack is_root e)
unfolding visit Visits
visit-Ends zero sha256 files resolver path display stack is_root e enough d a =
    absurd (omega (arith, enough, length-keys files, Distinct-length stack (keys files) d a))
visit-Ends (suc fuel) sha256 files resolver path display stack is_root e enough d a =
    elim (Bool-cases (contains path stack)) [
      | inl c ↦ rw (c, visit) (err value_error, refl)
      | inr c ↦ elim (Option-cases (lookup path files)) [
        | inl l ↦ rw (c, l, visit) (err value_error, refl)
        | inr (text, l) ↦
            rw (c, l, visit)
              (visit_lines-Ends _ 1 (split_lines text) _ (λ target shown e'.
                visit-Ends fuel sha256 files resolver target shown (path ∷ stack) false e'
                  (omega arith) (c, d) (contains-keys-lookup path text files l, a)))
      ]
    ]

-- The expansion of a translation unit ends, with a result or an error, whatever the includes
-- resolve to: the fuel is one more than the number of files.
pub expand_translation_unit-Ends :
    (sha256 : Str → Str) (files : Dict Str Str) (resolver : Resolver) (entry entry_relative : Str)
    → (r : Result ExpandedSource) × (expand_translation_unit sha256 files resolver entry
          entry_relative
        ≡ some r)
unfolding expand_translation_unit
expand_translation_unit-Ends sha256 files resolver entry entry_relative = go _ (
    visit-Ends (length files + 1) sha256 files resolver entry entry_relative [] true empty_expansion
      (omega arith) tt tt)
  where
    go :
        (v : Visit)
        → Ends v
        → (r : Result ExpandedSource) × ((elim v [
          | none ↦ none
          | some (err fault) ↦ some (err fault)
          | some (ok e) ↦ some (ok (expanded e))
        ])
            ≡ some r)
    go none (r, h) = cc
    go (some (err fault)) h = (err fault, refl)
    go (some (ok e)) h = (ok (expanded e), refl)
