-- ===== src/Compare/Slices/Cover.antt =====
-- The slices of a module cover its ranges in both images, in projects/binary-compare/analyze.py.
use mos_agondev.Compare.Boundaries.{
  Boundary, Cut, cut_at, cut_module, last_boundary, module_start, no_cut, shared_boundaries,
  symbols_of,
}
use mos_agondev.Compare.Boundaries.Rising.{CutWell, IsPartition, IsRising, cut_module-CutWell}
use mos_agondev.Compare.Executable.{Inputs}
use mos_agondev.Compare.Modules.{Matched, is_executable}
use mos_agondev.Compare.Ranges.{is_assembly}
use mos_agondev.Compare.Records.{CandidateRange, ModuleRange, Symbol}
use mos_agondev.Compare.Slices.{
  SliceItem, invalid_slice, slice_item, slices_of_cut, slices_of_module,
}
use mos_agondev.Compare.Slices.Sliced.{IsSliced, next_slice, no_slice, slices_between-IsSliced}
use mos_agondev.Errors.{ok, ok-injective}
use mos_agondev.Prelude.{Dict, List, [], ap, arith, subst, sum_by, true, ℕ, ◌+◌, ◌∷◌, ◌≡◌}
use mos_agondev.Text.{Str}

abbrev pub reference_size : SliceItem → ℕ
reference_size item = item.reference.size

abbrev pub candidate_size : SliceItem → ℕ
candidate_size item = item.candidate.size

-- The sizes of the slices, summed over both images.
pub record Covers (slices : List SliceItem) (reference candidate : ℕ) : Type 0 where
  pub reference_covered : sum_by reference_size slices ≡ reference
  pub candidate_covered : sum_by candidate_size slices ≡ candidate

module _ (inputs : Inputs) (divergent : List Str) (key : Str × Str) (matched : Matched) where
  -- The slices up to the last boundary.
  IsSliced-sizes :
      (left : Boundary) (bs : List Boundary) (slices : List SliceItem)
      → IsRising left bs
      → IsSliced inputs divergent key matched left bs slices
      → (left.reference_address + sum_by reference_size slices
          ≡ (last_boundary left bs).reference_address)
        × (left.candidate_address + sum_by candidate_size slices
            ≡ (last_boundary left bs).candidate_address)
  unfolding last_boundary slice_item
  IsSliced-sizes left [] slices h no_slice = (omega arith, omega arith)
  IsSliced-sizes left (right ∷ rest) slices (p, h)
        (next_slice {slices = more} verdict compared sliced) =
      let (reference, candidate) = IsSliced-sizes right rest more h sliced in
      (ground (arith, p, reference), ground (arith, p, candidate))

  IsPartition-Covers :
      (bs : List Boundary) (slices : List SliceItem)
      → IsPartition matched bs
      → IsSliced inputs divergent key matched (module_start matched) bs slices
      → Covers slices (matched.0.size) (matched.1.size)
  IsPartition-Covers bs slices h sliced =
      let (reference, candidate) =
        IsSliced-sizes (module_start matched) bs slices h.rising sliced in
      let reference_end = ap (λ b. b.reference_address) h.ends in
      let candidate_end_is = ap (λ b. b.candidate_address) h.ends in
      record {
        reference_covered = omega (arith, reference, reference_end);
        candidate_covered = omega (arith, candidate, candidate_end_is);
      }

  slices_of_cut-Covers :
      (cut : Cut) (slices : List SliceItem)
      → CutWell matched cut
      → slices_of_cut inputs divergent key matched cut ≡ ok slices
      → Covers slices (matched.0.size) (matched.1.size)
  unfolding slices_of_cut invalid_slice
  slices_of_cut-Covers (no_cut invalid) slices w h =
      subst (λ slices. Covers slices (matched.0.size) (matched.1.size)) (ok-injective _ _ h)
        (record { reference_covered = omega arith; candidate_covered = omega arith })
  slices_of_cut-Covers (cut_at bs) slices w h =
      IsPartition-Covers bs slices w
        (slices_between-IsSliced inputs divergent key matched (module_start matched) bs slices h)

-- The slices of an assembly module add up to the sizes of its ranges in both images, also where
-- the boundaries are invalid.
pub slices_of_module-Covers :
    (inputs : Inputs) (divergent : List Str) (zds_symbols : List Symbol)
    (candidate_by_name : Dict Str Symbol) (key : Str × Str) (r : ModuleRange) (c : CandidateRange)
    (slices : List SliceItem)
    → is_assembly r.module_path ≡ true
    → is_executable (key.1) ≡ true
    → slices_of_module inputs divergent zds_symbols candidate_by_name key (r, c) ≡ ok slices
    → Covers slices r.size c.size
unfolding slices_of_module
slices_of_module-Covers inputs divergent zds_symbols candidate_by_name key r c slices assembly
      executable h =
    let shared = shared_boundaries (r, c) candidate_by_name (symbols_of key zds_symbols) in
    slices_of_cut-Covers inputs divergent key (r, c) (cut_module (r, c) shared) slices
      (cut_module-CutWell (r, c) shared) (rw (assembly, executable) at h)
