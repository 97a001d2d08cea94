-- ===== src/Compare/Review/Classes.antt =====
-- The classifications with which modules and slices come to the review, in
-- projects/binary-compare/analyze.py.
use mos_agondev.Compare.Boundaries.{
  Boundary, Cut, cut_at, cut_module, module_start, no_cut, shared_boundaries, symbols_of,
}
use mos_agondev.Compare.Executable.{Inputs, Verdict}
use mos_agondev.Compare.Executable.Classes.{compare_executable_range-class, is_range_class}
use mos_agondev.Compare.Modules.{
  Matched, ModuleItem, ModuleState, RangeLookup, compare_if, compare_module, data_judgement,
  is_executable, module_item, module_judgement, module_status, module_step, module_steps,
}
use mos_agondev.Compare.Ranges.{is_assembly}
use mos_agondev.Compare.Records.{CandidateRange, ModuleRange, Symbol}
use mos_agondev.Compare.Review.{every_class, is_unexplained}
use mos_agondev.Compare.Review.Complete.{is_slice_class}
use mos_agondev.Compare.Slices.{
  SliceItem, assembly_slices, explain_divergence, invalid_slice, range_between, slice_item,
  slices_of_cut, slices_of_module,
}
use mos_agondev.Compare.Slices.Sliced.{IsSliced, next_slice, no_slice, slices_between-IsSliced}
use mos_agondev.Errors.{bind_two-eq-ok, ok, ok-injective}
use mos_agondev.Prelude.{
  All, All-append, Bool, Bool-cases, Dict, List, Option, [], all-append, ap, arith, contains, false,
  inl, inr, list_eq, nat_eq, none, option_eq, pair_eq, refl, some, sym, true, ◌&&◌, ◌++◌, ◌==◌, ◌∙◌,
  ◌∷◌, ◌≡◌,
}
use mos_agondev.Text.{Str, codes}

class-explain_divergence :
    (divergent : Bool) (verdict : Verdict)
    → is_range_class verdict.classification ≡ true
    → is_slice_class (explain_divergence divergent verdict).classification ≡ true
unfolding explain_divergence
class-explain_divergence divergent verdict h = ground (arith, h)

class-slices :
    (inputs : Inputs) (divergent : List Str) (key : Str × Str) (matched : Matched) (left : Boundary)
    (bs : List Boundary) (slices : List SliceItem)
    → IsSliced inputs divergent key matched left bs slices
    → every_class is_slice_class slices ≡ true
unfolding slice_item
class-slices inputs divergent key matched left [] slices no_slice = refl
class-slices inputs divergent key matched left (right ∷ rest) slices
      (next_slice {slices = more} verdict compared sliced) =
    let this =
      class-explain_divergence (contains (key.0) divergent) verdict (
        compare_executable_range-class inputs (range_between matched left right) verdict
          compared) in
    rw (this, class-slices inputs divergent key matched right rest more sliced) refl

class-slices_of_cut :
    (inputs : Inputs) (divergent : List Str) (key : Str × Str) (matched : Matched) (cut : Cut)
    (slices : List SliceItem)
    → slices_of_cut inputs divergent key matched cut ≡ ok slices
    → every_class is_slice_class slices ≡ true
unfolding slices_of_cut invalid_slice
class-slices_of_cut inputs divergent key matched (no_cut invalid) slices h =
    ap (every_class is_slice_class) (sym (ok-injective _ _ h))
class-slices_of_cut inputs divergent key matched (cut_at bs) slices h =
    class-slices inputs divergent key matched (module_start matched) bs slices
      (slices_between-IsSliced inputs divergent key matched (module_start matched) bs slices h)

class-slices_of_module :
    (inputs : Inputs) (divergent : List Str) (zds_symbols : List Symbol)
    (candidate_by_name : Dict Str Symbol) (key : Str × Str) (matched : Matched)
    (slices : List SliceItem)
    → slices_of_module inputs divergent zds_symbols candidate_by_name key matched ≡ ok slices
    → every_class is_slice_class slices ≡ true
unfolding slices_of_module
class-slices_of_module inputs divergent zds_symbols candidate_by_name key (r, c) slices h =
    let shared = shared_boundaries (r, c) candidate_by_name (symbols_of key zds_symbols) in
    elim (Bool-cases (is_assembly r.module_path && is_executable (key.1))) [
      | inl e ↦
          class-slices_of_cut inputs divergent key (r, c) (cut_module (r, c) shared) slices
            (rw e at h)
      | inr e ↦ ap (every_class is_slice_class) (sym (ok-injective _ _ (rw e at h)))
    ]

-- The slices of all modules have the classifications that comparisons give, or are explained by a
-- divergence.
pub assembly_slices-class :
    (inputs : Inputs) (divergent : List Str) (zds_symbols : List Symbol)
    (candidate_by_name : Dict Str Symbol) (ranges : RangeLookup) (slices : List SliceItem)
    → assembly_slices inputs divergent zds_symbols candidate_by_name ranges ≡ ok slices
    → every_class is_slice_class slices ≡ true
unfolding assembly_slices
assembly_slices-class inputs divergent zds_symbols candidate_by_name [] slices h =
    ap (every_class is_slice_class) (sym (ok-injective _ _ h))
assembly_slices-class inputs divergent zds_symbols candidate_by_name ((key, matched) ∷ rest) slices
      h =
    let (first, more, k1, k2, same_slices) = bind_two-eq-ok _ _ (λ a b. a ++ b) h in
    let this =
      class-slices_of_module inputs divergent zds_symbols candidate_by_name key matched first k1 in
    let others =
      assembly_slices-class inputs divergent zds_symbols candidate_by_name rest more k2 in
    ap (every_class is_slice_class) (sym same_slices)
    ∙ all-append (λ item. is_slice_class item.classification) first more
    ∙ rw (this, others) refl

abbrev pub NotUnexplained : ModuleItem → Type 0
NotUnexplained item = is_unexplained item.classification ≡ false

module_item-NotUnexplained :
    (inputs : Inputs) (r : ModuleRange) (c : CandidateRange)
    → NotUnexplained (module_item inputs r c)
unfolding module_item module_judgement data_judgement
module_item-NotUnexplained inputs r c = ground arith

compare_if-NotUnexplained :
    (b : Bool) (inputs : Inputs) (r : ModuleRange) (o : Option CandidateRange) (s : ModuleState)
    → All NotUnexplained s.comparisons
    → All NotUnexplained (compare_if b inputs r o s).comparisons
unfolding compare_module
compare_if-NotUnexplained true inputs r (some c) s h =
    All-append NotUnexplained s.comparisons (module_item inputs r c ∷ []) h
      (module_item-NotUnexplained inputs r c, tt)
compare_if-NotUnexplained true inputs r none s h = h
compare_if-NotUnexplained false inputs r o s h = h

module_step-NotUnexplained :
    (inputs : Inputs) (candidate_ranges : List CandidateRange) (modules : List ModuleRange)
    (r : ModuleRange) (s : ModuleState)
    → All NotUnexplained s.comparisons
    → All NotUnexplained (module_step inputs candidate_ranges modules r s).comparisons
unfolding module_step
module_step-NotUnexplained inputs candidate_ranges modules r s h =
    let (status, range_found) = module_status inputs candidate_ranges modules r in
    compare_if-NotUnexplained (status == codes "compared") inputs r range_found _ h

-- Before the slices are counted no module is unexplained.
pub module_steps-NotUnexplained :
    (inputs : Inputs) (candidate_ranges : List CandidateRange) (modules rest : List ModuleRange)
    (s : ModuleState)
    → All NotUnexplained s.comparisons
    → All NotUnexplained (module_steps inputs candidate_ranges modules rest s).comparisons
unfolding module_steps
module_steps-NotUnexplained inputs candidate_ranges modules [] s h = h
module_steps-NotUnexplained inputs candidate_ranges modules (r ∷ rest) s h =
    module_steps-NotUnexplained inputs candidate_ranges modules rest
      (module_step inputs candidate_ranges modules r s)
      (module_step-NotUnexplained inputs candidate_ranges modules r s h)
