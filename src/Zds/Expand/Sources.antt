-- ===== src/Zds/Expand/Sources.antt =====
-- The result of expand_translation_unit of projects/mos-port/tools/zds2gas.py: its lines, their
-- locations, the includes and the source files.
-- the result of an expansion with these effects
use mos_agondev.Errors.{err, ok}
use mos_agondev.Prelude.{
  Dict, [], ap, arith, length, map, none, refl, some, subst, true, ◌+◌, ◌∙◌, ◌≡◌,
}
use mos_agondev.Text.{Str, concat}
use mos_agondev.Zds.Expand.{
  ExpandedSource, Expansion, Resolver, Visit, empty_expansion, expand_translation_unit, expanded,
  sort_sources, visit,
}
use mos_agondev.Zds.Expand.Scanned.{
  Effects, Visited, applied, copied_location, copied_text, recorded,
}
use mos_agondev.Zds.Expand.Visits.{visit-Visiting}

pub record IsExpansion (s : ExpandedSource) (x : Effects) : Type 0 where
  pub text : s.text ≡ concat (map copied_text x.copies)
  pub locations : s.locations ≡ map copied_location x.copies
  pub includes : s.includes ≡ x.includes
  pub source_files : s.source_files ≡ sort_sources (recorded x.reads [])

-- A successful expansion is that of a visit of the entry: its text is made up of the copied lines,
-- each with a line end, and its locations name their files and line numbers, in the order in which
-- the files are scanned. An INCLUDE stands for the copied lines of the file that it resolves to,
-- which is not one of the files that are being read. END ends a file and is copied from the entry
-- alone, and every other line is copied. The includes are recorded in the same order, and the
-- source files are those that are read, with the digest of their text, sorted.
pub expand_translation_unit-IsExpansion :
    (sha256 : Str → Str) (files : Dict Str Str) (resolver : Resolver) (entry entry_relative : Str)
    (s : ExpandedSource)
    → expand_translation_unit sha256 files resolver entry entry_relative ≡ some (ok s)
    → (x : Effects) × Visited sha256 files resolver [] entry entry_relative true x × IsExpansion s x
unfolding expand_translation_unit expanded
expand_translation_unit-IsExpansion sha256 files resolver entry entry_relative s =
    go (visit (length files + 1) sha256 files resolver entry entry_relative [] true empty_expansion)
      (visit-Visiting sha256 files resolver (length files + 1) entry entry_relative [] true
        empty_expansion)
  where
    go :
        (v : Visit)
        → ((out : Expansion)
            → v ≡ some (ok out)
            → (x : Effects) × Visited sha256 files resolver [] entry entry_relative true x
              × (applied x empty_expansion ≡ out))
        → ((elim v [
          | none ↦ none
          | some (err fault) ↦ some (err fault)
          | some (ok e) ↦ some (ok (expanded e))
        ])
            ≡ some (ok s))
        → (x : Effects) × Visited sha256 files resolver [] entry entry_relative true x
          × IsExpansion s x
    go none f h = absurd (ground (arith, h))
    go (some (err fault)) f h = absurd (ground (arith, h))
    go (some (ok e)) f h =
        let (x, visited, did) = f e refl in
        let last : expanded e ≡ s = ground (arith, h) in
        (
          x,
          visited,
          subst (λ t. IsExpansion t x) (ap expanded did ∙ last)
              (record { text = refl; locations = refl; includes = refl; source_files = refl }),
        )
