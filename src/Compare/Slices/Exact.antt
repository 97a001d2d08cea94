-- ===== src/Compare/Slices/Exact.antt =====
-- A module whose slices are all exact has the same bytes in both images, in
-- projects/binary-compare/analyze.py.
use mos_agondev.Compare.Boundaries.{
  Boundary, Cut, cut_at, cut_module, last_boundary, module_start, no_cut, shared_boundaries,
  symbols_of,
}
use mos_agondev.Compare.Boundaries.Rising.{CutWell, IsRising, cut_module-CutWell, last_boundary-le}
use mos_agondev.Compare.Executable.{Inputs, Range, Verdict}
use mos_agondev.Compare.Executable.Verdicts.{
  IsVerdict, candidate_data, compare_executable_range-IsVerdict, is_exact, read_instructions,
  reference_data, same_but_addresses, same_bytes,
}
use mos_agondev.Compare.Image.{slice, slice-append, slice_self}
use mos_agondev.Compare.Modules.{Matched, is_executable}
use mos_agondev.Compare.Ranges.{is_assembly}
use mos_agondev.Compare.Records.{CandidateRange, ModuleRange, Symbol, candidate_end, module_end}
use mos_agondev.Compare.Slices.{
  SliceItem, explain_divergence, invalid_slice, range_between, slice_item, slices_of_cut,
  slices_of_module,
}
use mos_agondev.Compare.Slices.Sliced.{IsSliced, next_slice, no_slice, slices_between-IsSliced}
use mos_agondev.Errors.{ok, ok-injective}
use mos_agondev.Prelude.{
  &&-true, Bool, Dict, List, [], all, ap, ap₂, arith, contains, false, list_eq, nat_eq, option_eq,
  pair_eq, subst, sym, true, ◌++◌, ◌∙◌, ◌∷◌, ◌≡◌,
}
use mos_agondev.Text.{Str}

abbrev pub exact_slice : SliceItem → Bool
exact_slice item = is_exact item.classification

-- An exact verdict means that the bytes are the same.
exact-same_bytes :
    (inputs : Inputs) (range : Range) (verdict : Verdict)
    → is_exact verdict.classification ≡ true
    → IsVerdict inputs range verdict
    → reference_data inputs range ≡ candidate_data inputs range
exact-same_bytes inputs range verdict h (same_bytes same classified) = same
exact-same_bytes inputs range verdict h (same_but_addresses spans classified k e) =
    ground (arith, h, ap is_exact classified)
exact-same_bytes inputs range verdict h (read_instructions r c differ k1 k2 not_exact) =
    ground (arith, h, not_exact)

-- The divergence of the source makes nothing exact.
exact-explain_divergence :
    (divergent : Bool) (verdict : Verdict)
    → is_exact (explain_divergence divergent verdict).classification ≡ true
    → is_exact verdict.classification ≡ true
unfolding explain_divergence
exact-explain_divergence false verdict h = h
exact-explain_divergence true verdict h = ground arith

module _ (inputs : Inputs) (divergent : List Str) (key : Str × Str) (matched : Matched) where
  -- The bytes from the first boundary to the last.
  IsSliced-exact :
      (left : Boundary) (bs : List Boundary) (slices : List SliceItem)
      → IsRising left bs
      → IsSliced inputs divergent key matched left bs slices
      → all exact_slice slices ≡ true
      → slice left.reference_address
          (last_boundary left bs).reference_address
          inputs.reference_image
        ≡ slice left.candidate_address
            (last_boundary left bs).candidate_address
            inputs.candidate_image
  unfolding last_boundary slice_item
  IsSliced-exact left [] slices h no_slice e =
      slice_self left.reference_address inputs.reference_image
      ∙ sym (slice_self left.candidate_address inputs.candidate_image)
  IsSliced-exact left (right ∷ rest) slices (p, h)
        (next_slice {slices = more} verdict compared sliced) e =
      let (this, others) = &&-true _ _ e in
      let same =
        exact-same_bytes inputs (range_between matched left right) verdict
          (exact-explain_divergence (contains (key.0) divergent) verdict this)
          (compare_executable_range-IsVerdict inputs (range_between matched left right) verdict
            compared) in
      let ih = IsSliced-exact right rest more h sliced others in
      let (reference_le, candidate_le) = last_boundary-le right rest h in
      let stop = last_boundary right rest in
      slice-append left.reference_address right.reference_address stop.reference_address
        inputs.reference_image (ground (arith, p)) reference_le
      ∙ ap₂ ◌++◌ same ih
      ∙ sym (
          slice-append left.candidate_address right.candidate_address stop.candidate_address
            inputs.candidate_image (ground (arith, p)) candidate_le)

  slices_of_cut-exact :
      (cut : Cut) (slices : List SliceItem)
      → CutWell matched cut
      → slices_of_cut inputs divergent key matched cut ≡ ok slices
      → all exact_slice slices ≡ true
      → slice (matched.0.address) (module_end (matched.0)) inputs.reference_image
        ≡ slice (matched.1.address) (candidate_end (matched.1)) inputs.candidate_image
  unfolding slices_of_cut invalid_slice
  slices_of_cut-exact (no_cut invalid) slices w h e =
      let not_exact : all exact_slice slices ≡ false =
        sym (ap (all exact_slice) (ok-injective _ _ h)) in
      ground (arith, e, not_exact)
  slices_of_cut-exact (cut_at bs) slices w h e =
      let sliced =
        slices_between-IsSliced inputs divergent key matched (module_start matched) bs slices h in
      subst
        (λ stop.
          slice (matched.0.address) stop.reference_address inputs.reference_image
          ≡ slice (matched.1.address) stop.candidate_address inputs.candidate_image)
        w.ends (IsSliced-exact (module_start matched) bs slices w.rising sliced e)

-- When an assembly module is cut into slices and each slice is exact, the whole module has the
-- same bytes in both images.
pub slices_of_module-exact :
    (inputs : Inputs) (divergent : List Str) (zds_symbols : List Symbol)
    (candidate_by_name : Dict Str Symbol) (key : Str × Str) (r : ModuleRange) (c : CandidateRange)
    (slices : List SliceItem)
    → is_assembly r.module_path ≡ true
    → is_executable (key.1) ≡ true
    → slices_of_module inputs divergent zds_symbols candidate_by_name key (r, c) ≡ ok slices
    → all exact_slice slices ≡ true
    → slice r.address (module_end r) inputs.reference_image
      ≡ slice c.address (candidate_end c) inputs.candidate_image
unfolding slices_of_module
slices_of_module-exact inputs divergent zds_symbols candidate_by_name key r c slices assembly
      executable h e =
    let shared = shared_boundaries (r, c) candidate_by_name (symbols_of key zds_symbols) in
    slices_of_cut-exact inputs divergent key (r, c) (cut_module (r, c) shared) slices
      (cut_module-CutWell (r, c) shared) (rw (assembly, executable) at h) e
