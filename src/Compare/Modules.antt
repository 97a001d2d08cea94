-- ===== src/Compare/Modules.antt =====
-- The first loop of analyze in projects/binary-compare/analyze.py: each module range of the
-- reference gets an inventory entry, and a comparison where the candidate has its range.
use mos_agondev.Compare.Executable.{
  Classification, Inputs, compiler_codegen_different, exact, pending_slice_analysis,
  unexplained_data,
}
use mos_agondev.Compare.Image.{slice}
use mos_agondev.Compare.Ranges.{candidate_range_for, is_assembly, is_c}
use mos_agondev.Compare.Records.{
  CandidateRange, ModuleRange, candidate_end, executable_segments, module_end, module_stem,
}
use mos_agondev.Prelude.{
  Bool, Comparable, Dict, List, Option, [], contains, has_key, if◌then◌else◌, insert, length,
  list_eq, ltb, nat_eq, none, not, option_eq, pair_eq, some, true, ℕ, ◌&&◌, ◌++◌, ◌==◌, ◌||◌, ◌∷◌,
}
use mos_agondev.Text.{Str, codes}
use mos_agondev.Text.Words.{replace_char}

pub record Region : Type 0 where
  pub address : ℕ
  pub size : ℕ

pub record CandidateRegion : Type 0 where
  pub address : ℕ
  pub size : ℕ
  pub section : Str
  pub object_path : Str

pub record InventoryItem : Type 0 where
  pub module_path : Str
  pub object_name : Str
  pub source_kind : Str
  pub segment : Str
  pub address_space : Str
  pub reference : Region
  pub candidate : Option CandidateRegion
  pub status : Str

pub data ModuleDetails : Type 0 where
  no_details : ModuleDetails
  sizes : ℕ → ℕ → ModuleDetails
  -- the number of slices, and how many there are of each classification
  slice_counts : ℕ → Dict Str ℕ → ModuleDetails

pub record ModuleItem : Type 0 where
  pub id : Str
  pub module_path : Str
  pub object_name : Str
  pub segment : Str
  pub classification : Classification
  pub confidence : Str
  pub reason : Str
  pub reference : Region
  pub candidate : Region
  pub details : ModuleDetails

-- the ranges that belong to one module range of the reference
abbrev pub Matched : Type 0
Matched = ModuleRange × CandidateRange

abbrev pub RangeLookup : Type 0
RangeLookup = Dict (Str × Str) Matched

unfoldable pub slash_path : Str → Str
slash_path = replace_char b'\\' b'/'

abbrev module_region : ModuleRange → Region
module_region r = record { address = r.address; size = r.size }

abbrev candidate_region : CandidateRange → Region
candidate_region c = record { address = c.address; size = c.size }

unfoldable pub inventory_item : ModuleRange → Option CandidateRange → Str → InventoryItem
unfolding slash_path
inventory_item r found_range status = record {
  module_path = slash_path r.module_path;
  object_name = r.object_name;
  source_kind = r.source_kind;
  segment = r.segment;
  address_space = r.address_space;
  reference = module_region r;
  candidate = elim found_range [
    | none ↦ none
    | some c ↦ some (record {
      address = c.address;
      size = c.size;
      section = c.section;
      object_path = c.object_path;
    })
  ];
  status = status;
}

-- classification, confidence, reason and details
abbrev pub Judgement : Type 0
Judgement = Classification × Str × Str × ModuleDetails

unfoldable pub data_judgement : List ℕ → List ℕ → Judgement
data_judgement reference_data candidate_data =
    let details = sizes (length reference_data) (length candidate_data) in
    if reference_data == candidate_data
    then (exact, codes "high", codes "bytes-identical", details)
    else (unexplained_data, codes "none", codes "module-data-bytes-differ", details)

unfoldable pub is_executable : Str → Bool
unfolding contains
is_executable segment = contains segment executable_segments

unfoldable pub module_judgement : Inputs → ModuleRange → CandidateRange → Judgement
unfolding data_judgement is_executable is_assembly is_c
module_judgement inputs r c =
    if is_executable r.segment && is_assembly r.module_path
    then (
      pending_slice_analysis,
      codes "none",
      codes "assembly-module-will-be-partitioned-at-shared-symbols",
      no_details,
    )
    else if is_c r.module_path
    then (
      compiler_codegen_different,
      codes "none",
      codes "different-c-compiler-no-semantic-equivalence-claim",
      sizes r.size c.size,
    )
    else data_judgement (slice r.address (module_end r) inputs.reference_image)
        (slice c.address (candidate_end c) inputs.candidate_image)

unfoldable pub module_item : Inputs → ModuleRange → CandidateRange → ModuleItem
unfolding module_judgement module_stem slash_path
module_item inputs r c =
    let (classification, confidence, reason, details) = module_judgement inputs r c in
    record {
      id = codes "module:" ++ (module_stem r ++ (b':' ∷ r.segment));
      module_path = slash_path r.module_path;
      object_name = r.object_name;
      segment = r.segment;
      classification = classification;
      confidence = confidence;
      reason = reason;
      reference = module_region r;
      candidate = candidate_region c;
      details = details;
    }

-- the status of a module range, and the candidate's range where it is known
unfoldable pub module_status :
    Inputs → List CandidateRange → List ModuleRange → ModuleRange → Str × Option CandidateRange
unfolding candidate_range_for
module_status inputs candidate_ranges modules r =
    let image_size = length inputs.reference_image in
    let candidate_size = length inputs.candidate_image in
    if not (r.source_kind == codes "file")
    then (codes "reference-zds-library", none)
    else if not (r.address_space == codes "C")
    then (codes "non-rom-address-space", none)
    else elim (candidate_range_for r candidate_ranges modules) [
      | none ↦ (codes "no-unique-candidate-range", none)
      | some c ↦
          if r.size == 0 || c.size == 0
          then (codes "empty-range", some c)
          else if ltb image_size (module_end r) || ltb candidate_size (candidate_end c)
          then (codes "outside-load-image", some c)
          else (codes "compared", some c)
    ]

pub record ModuleState : Type 0 where
  pub inventory : List InventoryItem
  pub comparisons : List ModuleItem
  pub range_lookup : RangeLookup

-- what a compared module adds
unfoldable pub compare_module : Inputs → ModuleRange → CandidateRange → ModuleState → ModuleState
unfolding module_item module_stem insert
compare_module inputs r c s = record s {
  comparisons = s.comparisons ++ (module_item inputs r c ∷ []);
  range_lookup = insert (module_stem r, r.segment) (r, c) s.range_lookup;
}

abbrev pub compare_if :
    Bool → Inputs → ModuleRange → Option CandidateRange → ModuleState → ModuleState
compare_if true inputs r (some c) s = compare_module inputs r c s
compare_if _ inputs r _ s = s

-- one round of the loop
unfoldable pub module_step :
    Inputs → List CandidateRange → List ModuleRange → ModuleRange → ModuleState → ModuleState
unfolding module_status inventory_item compare_module
module_step inputs candidate_ranges modules r s =
    let (status, found_range) = module_status inputs candidate_ranges modules r in
    compare_if (status == codes "compared") inputs r found_range
      (record s { inventory = s.inventory ++ (inventory_item r found_range status ∷ []) })

unfoldable pub module_steps :
    Inputs → List CandidateRange → List ModuleRange → List ModuleRange → ModuleState → ModuleState
unfolding module_step
module_steps inputs candidate_ranges modules [] s = s
module_steps inputs candidate_ranges modules (r ∷ rest) s =
    module_steps inputs candidate_ranges modules rest
      (module_step inputs candidate_ranges modules r s)

-- `paired_tokens.setdefault(key, token)`
unfoldable pub set_default {ℓ κ} :
    {K : Type ℓ} {V : Type κ} → ⦃e : Comparable K⦄ → K → V → Dict K V → Dict K V
unfolding has_key insert
set_default key value d = if has_key key d then d else insert key value d

-- the starts of the modules as pairs that have a name
unfoldable pub module_tokens :
    List CandidateRange → List ModuleRange → List ModuleRange → Dict (ℕ × ℕ) Str → Dict (ℕ × ℕ) Str
unfolding candidate_range_for module_stem set_default
module_tokens candidate_ranges modules [] tokens = tokens
module_tokens candidate_ranges modules (r ∷ rest) tokens =
    let passed = module_tokens candidate_ranges modules rest tokens in
    if not (r.source_kind == codes "file") || r.size == 0
    then passed
    else elim (candidate_range_for r candidate_ranges modules) [
      | none ↦ passed
      | some c ↦
          if c.size == 0
          then passed
          else module_tokens candidate_ranges modules rest (
              set_default (r.address, c.address)
                (codes "@module:" ++ (module_stem r ++ (b':' ∷ r.segment))) tokens)
    ]
