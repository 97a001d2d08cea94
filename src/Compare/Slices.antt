-- ===== src/Compare/Slices.antt =====
-- The second loop of analyze in projects/binary-compare/analyze.py: each assembly module is cut at
-- its boundaries, and each slice is compared.
pub mod Sliced
pub mod Cover
pub mod Exact
use mos_agondev.Compare.Boundaries.{
  Boundary, Cut, InvalidBoundary, cut_at, cut_module, module_start, no_cut, shared_boundaries,
  symbols_of,
}
use mos_agondev.Compare.Executable.{
  Classification, Details, Inputs, Range, Verdict, compare_executable_range,
  explained_source_divergence, unexplained,
}
use mos_agondev.Compare.Modules.{Matched, RangeLookup, Region, is_executable}
use mos_agondev.Compare.Ranges.{is_assembly}
use mos_agondev.Compare.Records.{Symbol, candidate_end, module_end}
use mos_agondev.Compare.Tokens.{str_le}
use mos_agondev.Errors.{Result, ok, ◌>>=◌}
use mos_agondev.Prelude.{
  Bool, Dict, List, Option, [], contains, false, if◌then◌else◌, list_eq, nat_eq, option_eq, pair_eq,
  sort_by, true, ℕ, ◌&&◌, ◌++◌, ◌-◌, ◌==◌, ◌∷◌,
}
use mos_agondev.Text.{Str, codes, str_lt}

pub data SliceDetails : Type 0 where
  compared_details : Details → SliceDetails
  boundary_details : Option InvalidBoundary → SliceDetails

pub record SliceItem : Type 0 where
  pub id : Str
  pub module_name : Str
  pub segment : Str
  pub start_symbol : Str
  pub end_symbol : Str
  pub classification : Classification
  pub confidence : Str
  pub reason : Str
  pub reference : Region
  pub candidate : Region
  pub details : SliceDetails

unfoldable pub slice_id : Str × Str → Str → Str
slice_id (module_name, segment) which =
    codes "slice:" ++ (module_name ++ (b':' ∷ (segment ++ (b':' ∷ which))))

unfoldable pub invalid_slice : Str × Str → Matched → Option InvalidBoundary → SliceItem
unfolding slice_id
invalid_slice key (r, c) invalid = record {
  id = slice_id key (codes "invalid-boundaries");
  module_name = key.0;
  segment = key.1;
  start_symbol = codes "<module-start>";
  end_symbol = codes "<module-end>";
  classification = unexplained;
  confidence = codes "none";
  reason = codes "shared-symbol-order-or-range-differs";
  reference = record { address = r.address; size = r.size };
  candidate = record { address = c.address; size = c.size };
  details = boundary_details invalid;
}

-- an unexplained slice of a module whose source was changed since the release
unfoldable pub explain_divergence : Bool → Verdict → Verdict
explain_divergence false verdict = verdict
explain_divergence true verdict = elim (verdict.classification) [
  | unexplained ↦ record verdict {
    classification = explained_source_divergence;
    confidence = codes "high";
    reason = codes "maintained-source-changed-since-official-release";
  }
  | _ ↦ verdict
]

abbrev pub context_of : Matched → (ℕ × ℕ) × (ℕ × ℕ)
context_of (r, c) = ((r.address, module_end r), (c.address, candidate_end c))

abbrev pub range_between : Matched → Boundary → Boundary → Range
range_between matched left right = record {
  reference_start = left.reference_address;
  reference_end = right.reference_address;
  candidate_start = left.candidate_address;
  candidate_end_at = right.candidate_address;
  reference_context = (context_of matched).0;
  candidate_context = (context_of matched).1;
}

unfoldable pub slice_item : Str × Str → Boundary → Boundary → Verdict → SliceItem
unfolding slice_id
slice_item key left right verdict = record {
  id = slice_id key (left.name ++ (codes ".." ++ right.name));
  module_name = key.0;
  segment = key.1;
  start_symbol = left.name;
  end_symbol = right.name;
  classification = verdict.classification;
  confidence = verdict.confidence;
  reason = verdict.reason;
  reference = record {
    address = left.reference_address;
    size = right.reference_address - left.reference_address;
  };
  candidate = record {
    address = left.candidate_address;
    size = right.candidate_address - left.candidate_address;
  };
  details = compared_details verdict.details;
}

-- the loop over `zip(boundaries, boundaries[1:])`
unfoldable pub slices_between :
    Inputs → List Str → Str × Str → Matched → Boundary → List Boundary → Result (List SliceItem)
unfolding compare_executable_range explain_divergence slice_item contains
slices_between inputs divergent key matched left [] = ok []
slices_between inputs divergent key matched left (right ∷ rest) = do
  verdict ← compare_executable_range inputs (range_between matched left right)
  slices ← slices_between inputs divergent key matched right rest
  ok (slice_item key left right (explain_divergence (contains (key.0) divergent) verdict) ∷ slices)

unfoldable pub slices_of_cut :
    Inputs → List Str → Str × Str → Matched → Cut → Result (List SliceItem)
unfolding slices_between invalid_slice
slices_of_cut inputs divergent key matched (no_cut invalid) =
    ok (invalid_slice key matched invalid ∷ [])
slices_of_cut inputs divergent key matched (cut_at boundaries) =
    slices_between inputs divergent key matched (module_start matched) boundaries

-- the slices of one entry of `range_lookup`
unfoldable pub slices_of_module :
    Inputs
    → List Str
    → List Symbol
    → Dict Str Symbol
    → Str × Str
    → Matched
    → Result (List SliceItem)
unfolding slices_of_cut cut_module shared_boundaries symbols_of is_assembly is_executable
slices_of_module inputs divergent zds_symbols candidate_by_name key (r, c) =
    let shared = shared_boundaries (r, c) candidate_by_name (symbols_of key zds_symbols) in
    let slices = slices_of_cut inputs divergent key (r, c) (cut_module (r, c) shared) in
    if is_assembly r.module_path && is_executable (key.1) then slices else ok []

-- the order of the keys
unfoldable pub key_le : Str × Str → Str × Str → Bool
unfolding str_lt
key_le a b = if a.0 == b.0 then str_le (a.1) (b.1) else str_lt (a.0) (b.0)

abbrev pub sorted_ranges : RangeLookup → RangeLookup
sorted_ranges = sort_by (λ a b. key_le (a.0) (b.0))

unfoldable pub assembly_slices :
    Inputs → List Str → List Symbol → Dict Str Symbol → RangeLookup → Result (List SliceItem)
unfolding slices_of_module
assembly_slices inputs divergent zds_symbols candidate_by_name [] = ok []
assembly_slices inputs divergent zds_symbols candidate_by_name ((key, matched) ∷ rest) = do
  slices ← slices_of_module inputs divergent zds_symbols candidate_by_name key matched
  more ← assembly_slices inputs divergent zds_symbols candidate_by_name rest
  ok (slices ++ more)
