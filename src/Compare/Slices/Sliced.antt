-- ===== src/Compare/Slices/Sliced.antt =====
-- The loop over the boundaries of a module in projects/binary-compare/analyze.py, as a relation
-- between the boundaries and the slices.
use mos_agondev.Compare.Boundaries.{Boundary}
use mos_agondev.Compare.Executable.{Inputs, Verdict, compare_executable_range}
use mos_agondev.Compare.Modules.{Matched}
use mos_agondev.Compare.Slices.{
  SliceItem, explain_divergence, range_between, slice_item, slices_between,
}
use mos_agondev.Errors.{bind_two-eq-ok, ok, ok-injective}
use mos_agondev.Prelude.{List, [], contains, list_eq, nat_eq, option_eq, pair_eq, subst, ◌∷◌, ◌≡◌}
use mos_agondev.Text.{Str}

module _ (inputs : Inputs) (divergent : List Str) (key : Str × Str) (matched : Matched) where
  -- the slice of a comparison
  abbrev pub slice_for : Boundary → Boundary → Verdict → SliceItem
  slice_for left right verdict =
      slice_item key left right (explain_divergence (contains (key.0) divergent) verdict)

  pub data IsSliced : Boundary → List Boundary → List SliceItem → Type 0 where
    no_slice : {left : Boundary} → IsSliced left [] []
    next_slice :
        {left right : Boundary} {rest : List Boundary} {slices : List SliceItem} (verdict : Verdict)
        → compare_executable_range inputs (range_between matched left right) ≡ ok verdict
        → IsSliced right rest slices
        → IsSliced left (right ∷ rest) (slice_for left right verdict ∷ slices)

  pub slices_between-IsSliced :
      (left : Boundary) (bs : List Boundary) (slices : List SliceItem)
      → slices_between inputs divergent key matched left bs ≡ ok slices
      → IsSliced left bs slices
  unfolding slices_between
  slices_between-IsSliced left [] slices h = subst (IsSliced left []) (ok-injective _ _ h) no_slice
  slices_between-IsSliced left (right ∷ rest) slices h =
      let (verdict, more, compared, sliced, same_slices) =
        bind_two-eq-ok (compare_executable_range inputs (range_between matched left right))
          (slices_between inputs divergent key matched right rest)
          (λ verdict more. slice_for left right verdict ∷ more) h in
      subst (IsSliced left (right ∷ rest)) same_slices
        (next_slice verdict compared (slices_between-IsSliced right rest more sliced))
