-- ===== src/Zds/Expand/Cycles.antt =====
-- The includes that expand_translation_unit of projects/mos-port/tools/zds2gas.py follows, and why
-- it refuses a cycle of them.
use mos_agondev.Errors.{Fault, Result, err, ok}
use mos_agondev.Prelude.{
  Bool, Dict, List, [], ap, arith, contains, false, inl, inr, list_eq, lookup, nat_eq, none,
  option_eq, pair_eq, refl, some, subst, true, ℕ, ◌+◌, ◌∷◌, ◌≡◌, ◌⊎◌,
}
use mos_agondev.Regex.{Match, match, matches}
use mos_agondev.Text.{Str, split_lines}
use mos_agondev.Zds.Expand.{ExpandedSource, Resolver, expand_translation_unit}
use mos_agondev.Zds.Expand.Fuel.{expand_translation_unit-Ends}
use mos_agondev.Zds.Expand.Scanned.{
  Effects, Scanned, Visited, a_read, copies_line, ends, ends_included, ends_root, followed_by,
  includes_file, path_of,
}
use mos_agondev.Zds.Expand.Sources.{expand_translation_unit-IsExpansion}
use mos_agondev.Zds.Lexical.{mask_quoted}
use mos_agondev.Zds.Macros.{code_of}
use mos_agondev.Zds.Patterns.{end_re, include_re}

-- The lines have an INCLUDE that resolves to the target, with no END in front of it.
pub data Includes (resolve_path : Str → Result (Str × Str)) : List Str → Str → Type 0 where
  here_include :
      (physical : Str) (rest : List Str) (include : Match) (target shown : Str)
      → match include_re (code_of physical) ≡ some include
      → resolve_path (path_of include) ≡ ok (target, shown)
      → Includes resolve_path (physical ∷ rest) target
  behind_include :
      (physical : Str) (rest : List Str) (include : Match) (target : Str)
      → match include_re (code_of physical) ≡ some include
      → Includes resolve_path rest target
      → Includes resolve_path (physical ∷ rest) target
  behind_line :
      (physical : Str) (rest : List Str) (target : Str)
      → match include_re (code_of physical) ≡ none
      → matches end_re (mask_quoted (code_of physical)) ≡ false
      → Includes resolve_path rest target
      → Includes resolve_path (physical ∷ rest) target

-- A chain of includes from one file to another, with the files in between.
pub data Chain (files : Dict Str Str) (resolver : Resolver)
    : List Str → Str → List Str → Str → Type 0 where
  chain_end : (stack : List Str) (path : Str) → Chain files resolver stack path stack path
  chain_step :
      (stack : List Str) (path text target : Str) (stack' : List Str) (path' : Str)
      → lookup path files ≡ some text
      → Includes (resolver path) (split_lines text) target
      → Chain files resolver (path ∷ stack) target stack' path'
      → Chain files resolver stack path stack' path'

-- A chain of includes from the entry to a file that it has passed before.
abbrev pub HasCycle : Dict Str Str → Resolver → Str → Type 0
HasCycle files resolver entry =
    (passed : List Str) × (path : Str) × Chain files resolver [] entry passed path
    × (contains path passed ≡ true)

no_include_behind_end :
    (resolve_path : Str → Result (Str × Str)) (physical : Str) (rest : List Str) (target : Str)
    → match include_re (code_of physical) ≡ none
    → matches end_re (mask_quoted (code_of physical)) ≡ true
    → Includes resolve_path (physical ∷ rest) target
    → ⊥
no_include_behind_end resolve_path physical rest target m e
      (here_include _ _ include _ shown m' resolved) =
    ground (arith, m, m')
no_include_behind_end resolve_path physical rest target m e (behind_include _ _ include _ m' i) =
    ground (arith, m, m')
no_include_behind_end resolve_path physical rest target m e (behind_line _ _ _ m' e' i) =
    ground (arith, e, e')

module _ (sha256 : Str → Str) (files : Dict Str Str) (resolver : Resolver) where
  -- Every file that the scanned lines include is visited.
  abbrev IsVisited : List Str → Str → Type 0
  IsVisited stack path =
      (display : Str) × (is_root : Bool) × (x : Effects) × Visited sha256 files resolver stack path
        display is_root x

  Includes-IsVisited :
      (stack : List Str) (path display : Str) (is_root : Bool) (n : ℕ) (lines : List Str)
      (x : Effects) (target : Str)
      → Scanned sha256 files resolver stack path display is_root n lines x
      → Includes (resolver path) lines target
      → IsVisited (path ∷ stack) target
  Includes-IsVisited stack path display is_root n lines x target (ends s p d r k) i = elim i [ ]
  Includes-IsVisited stack path display is_root n lines x target
        (includes_file s p d r k physical rest include other shown text inner others m resolved
          fresh known scanned later)
        (here_include physical' rest' include' target' shown' m' resolved') =
      let same_match : include ≡ include' = ground (arith, m, m') in
      let same : other ≡ target =
        ground (arith, resolved, resolved', ap (λ i. resolver path (path_of i)) same_match) in
      (
        shown,
        false,
        followed_by (a_read shown (sha256 text)) inner,
        subst
            (λ t.
              Visited sha256 files resolver (path ∷ stack) t shown false
                (followed_by (a_read shown (sha256 text)) inner))
            same
            (record {
              text = text;
              inner = inner;
              is_new = fresh;
              found = known;
              scanned = scanned;
              all_effects = refl;
            }),
      )
  Includes-IsVisited stack path display is_root n lines x target
        (includes_file s p d r k physical rest include other shown text inner others m resolved
          fresh known scanned later)
        (behind_include physical' rest' include' target' m' i) =
      Includes-IsVisited stack path display is_root (n + 1) rest others target later i
  Includes-IsVisited stack path display is_root n lines x target
        (includes_file s p d r k physical rest include other shown text inner others m resolved
          fresh known scanned later)
        (behind_line physical' rest' target' m' e' i) =
      absurd (ground (arith, m, m'))
  Includes-IsVisited stack path display is_root n lines x target
        (ends_root s p d k physical rest m e) i =
      absurd (no_include_behind_end (resolver path) physical rest target m e i)
  Includes-IsVisited stack path display is_root n lines x target
        (ends_included s p d k physical rest m e) i =
      absurd (no_include_behind_end (resolver path) physical rest target m e i)
  Includes-IsVisited stack path display is_root n lines x target
        (copies_line s p d r k physical rest others m e later)
        (here_include physical' rest' include' target' shown' m' resolved') =
      absurd (ground (arith, m, m'))
  Includes-IsVisited stack path display is_root n lines x target
        (copies_line s p d r k physical rest others m e later)
        (behind_include physical' rest' include' target' m' i) =
      absurd (ground (arith, m, m'))
  Includes-IsVisited stack path display is_root n lines x target
        (copies_line s p d r k physical rest others m e later)
        (behind_line physical' rest' target' m' e' i) =
      Includes-IsVisited stack path display is_root (n + 1) rest others target later i

  -- Every file at the end of a chain is visited below the files that the chain has passed.
  Chain-IsVisited :
      (stack : List Str) (path : Str) (passed : List Str) (last : Str)
      → Chain files resolver stack path passed last
      → IsVisited stack path
      → IsVisited passed last
  Chain-IsVisited stack path passed last (chain_end s p) v = v
  Chain-IsVisited stack path passed last (chain_step s p text target s' p' known i chain)
        (display, is_root, x, v) =
      let same : v.text ≡ text = ground (arith, v.found, known) in
      let scanned =
        subst
          (λ t. Scanned sha256 files resolver stack path display is_root 1 (split_lines t) v.inner)
          same v.scanned in
      Chain-IsVisited (path ∷ stack) target passed last chain (
        Includes-IsVisited stack path display is_root 1 (split_lines text) v.inner target scanned i)

-- The expansion of a translation unit ends, whatever the includes resolve to: either with an error,
-- or with a result, and then no chain of includes from the entry comes back to a file of the chain.
-- A chain takes the INCLUDE lines in front of the END of a file.
pub expand_translation_unit_ends :
    (sha256 : Str → Str) (files : Dict Str Str) (resolver : Resolver) (entry entry_relative : Str)
    → let run = expand_translation_unit sha256 files resolver entry entry_relative in
      ((fault : Fault) × (run ≡ some (err fault)))
      ⊎ ((s : ExpandedSource) × (run ≡ some (ok s)) × ¬ HasCycle files resolver entry)
expand_translation_unit_ends sha256 files resolver entry entry_relative =
    let (r, ended) = expand_translation_unit-Ends sha256 files resolver entry entry_relative in
    go r ended
  where
    go :
        (r : Result ExpandedSource)
        → expand_translation_unit sha256 files resolver entry entry_relative ≡ some r
        → ((fault : Fault) × (expand_translation_unit sha256 files resolver entry entry_relative
              ≡ some (err fault)))
          ⊎ ((s : ExpandedSource) × (expand_translation_unit sha256 files resolver entry
                  entry_relative
                ≡ some (ok s))
              × ¬ HasCycle files resolver entry)
    go (err fault) h = inl (fault, h)
    go (ok s) h = inr (
      s,
      h,
      λ (passed, path, chain, again).
          let (x, visited, whole) =
            expand_translation_unit-IsExpansion sha256 files resolver entry entry_relative s h in
          let (display, is_root, y, v) =
            Chain-IsVisited sha256 files resolver [] entry passed path chain
              (entry_relative, true, x, visited) in
          ground (arith, v.is_new, again),
    )
