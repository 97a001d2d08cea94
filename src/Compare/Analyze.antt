-- ===== src/Compare/Analyze.antt =====
-- analyze of projects/binary-compare/analyze.py, from the texts of the three tables and the two
-- images to the parts of the report. The files, their hashes and the JSON documents are not read
-- here; what git prints for the changed files is a text.
pub mod Reviewed
use mos_agondev.Compare.Anchors.{AnchorItem, anchor_comparisons}
use mos_agondev.Compare.Counts.{ReportCounts, TableSizes, report_counts}
use mos_agondev.Compare.Disassembly.{Objdump}
use mos_agondev.Compare.Executable.{Inputs}
use mos_agondev.Compare.Maps.{keep_some, parse_gnu_map, parse_nm}
use mos_agondev.Compare.Maps.ZdsLines.{parse_zds_map}
use mos_agondev.Compare.Modules.{
  InventoryItem, ModuleItem, ModuleState, is_executable, module_steps, module_tokens,
}
use mos_agondev.Compare.Normalize.{Tables}
use mos_agondev.Compare.Ranges.{is_assembly}
use mos_agondev.Compare.Records.{CandidateRange, ModuleRange, Symbol}
use mos_agondev.Compare.Review.{QueueItem, classify_module, review_queue}
use mos_agondev.Compare.Slices.{SliceItem, assembly_slices, key_le, sorted_ranges}
use mos_agondev.Compare.Summary.{DifferenceSummary, binary_difference_summary}
use mos_agondev.Compare.SymbolOrder.{OrderItem, symbol_order_comparisons}
use mos_agondev.Compare.Tokens.{
  SharedTokens, by_name, by_name_from, paired_name_tokens, shared_symbol_tokens, str_le,
}
use mos_agondev.Errors.{Result, analysis_error, fail_if, ok, ◌>>=◌, ◌>>◌}
use mos_agondev.Prelude.{
  Bool, List, Option, [], if◌then◌else◌, length, list_eq, ltb, map, nat_eq, none, not, option_eq,
  pair_eq, some, sort_by, sum_by, ℕ, ◌&&◌, ◌==◌, ◌∷◌,
}
use mos_agondev.Text.{Str, casefold, split, str_lt}
use mos_agondev.Text.Words.{lines_of, path_stem}
use mos_agondev.Zds.Provenance.Document.{field}

-- source_divergence: the status and the path of each changed file
unfoldable pub last_field : List Str → Str
last_field [] = []
last_field (p ∷ ps) = let rest = last_field ps in elim ps [ [] ↦ p | _ ∷ _ ↦ rest ]

abbrev change_of : List Str → Option (Str × Str)
change_of (status ∷ field ∷ fields) = some (status, last_field (field ∷ fields))
change_of _ = none

unfoldable pub source_divergence : Str → List (Str × Str)
unfolding last_field lines_of split
source_divergence printed = keep_some (λ row. change_of (split 9 row)) (lines_of printed)

-- `divergent_basenames`
unfoldable pub divergent_basenames : List (Str × Str) → List Str
unfolding path_stem casefold
divergent_basenames = map (λ change. casefold (path_stem (change.1)))

-- the order of `(item["reference"]["address"], item["id"])`
unfoldable pub place_le : ℕ × Str → ℕ × Str → Bool
unfolding str_lt
place_le (a, i) (b, j) = if a == b then str_le i j else ltb a b

unfoldable pub inventory_le : InventoryItem → InventoryItem → Bool
unfolding str_lt
inventory_le a b =
    if not (a.address_space == b.address_space)
    then str_le a.address_space b.address_space
    else if not (a.reference.address == b.reference.address)
    then ltb a.reference.address b.reference.address
    else if not (a.module_path == b.module_path)
    then str_le a.module_path b.module_path
    else str_le a.segment b.segment

-- The texts and images that an analysis reads, and the disassembler.
pub record Evidence : Type 0 where
  pub zds_map : Str
  pub gnu_map : Str
  pub nm_text : Str
  pub git_text : Str
  pub reference_image : List ℕ
  pub candidate_image : List ℕ
  pub objdump : Objdump

pub record Report : Type 0 where
  pub raw_image_difference : DifferenceSummary
  pub module_comparisons : List ModuleItem
  pub zds_module_inventory : List InventoryItem
  pub slices_in_order : List SliceItem
  pub c_anchor_comparisons : List AnchorItem
  pub symbol_order : List OrderItem
  pub queue : List QueueItem
  pub counts : ReportCounts

abbrev pub start_modules : ModuleState
start_modules = record { inventory = []; comparisons = []; range_lookup = [] }

-- `expected_assembly_bytes`
unfoldable pub expected_bytes : ModuleItem → ℕ
unfolding is_assembly is_executable
expected_bytes item =
    if is_assembly item.module_path && is_executable item.segment then item.reference.size else 0

-- the tables of names
unfoldable pub tables_of : List ModuleRange → List CandidateRange → SharedTokens → Tables
unfolding paired_name_tokens module_tokens
tables_of modules candidate_ranges tokens = record {
  reference_tokens = tokens.reference_tokens;
  candidate_tokens = tokens.candidate_tokens;
  paired_tokens = module_tokens candidate_ranges modules modules (paired_name_tokens tokens.shared);
}

abbrev pub module_order : ModuleItem → ModuleItem → Bool
module_order a b = place_le (a.reference.address, a.id) (b.reference.address, b.id)

abbrev pub slice_order : SliceItem → SliceItem → Bool
slice_order a b = place_le (a.reference.address, a.id) (b.reference.address, b.id)

abbrev anchor_order : AnchorItem → AnchorItem → Bool
anchor_order a b = place_le (a.reference.address, a.id) (b.reference.address, b.id)

-- the report on the classified modules
unfoldable pub finished_report :
    Evidence
    → List Symbol
    → List Symbol
    → TableSizes
    → List InventoryItem
    → List ModuleItem
    → List SliceItem
    → List AnchorItem
    → Report
unfolding review_queue binary_difference_summary place_le inventory_le symbol_order_comparisons
    sort_by report_counts
finished_report evidence zds_symbols candidate_symbols tables inventory comparisons slices anchors =
    let orders = symbol_order_comparisons zds_symbols candidate_symbols in
    let queue = review_queue slices comparisons in
    record {
      raw_image_difference =
          binary_difference_summary evidence.reference_image evidence.candidate_image;
      module_comparisons = sort_by module_order comparisons;
      zds_module_inventory = sort_by inventory_le inventory;
      slices_in_order = sort_by slice_order slices;
      c_anchor_comparisons = sort_by anchor_order anchors;
      symbol_order = orders;
      queue = queue;
      counts = report_counts tables comparisons inventory slices anchors orders queue;
    }

-- what is left once the slices and the anchors are compared
unfoldable pub report_of :
    Evidence
    → List Symbol
    → List Symbol
    → TableSizes
    → ModuleState
    → List SliceItem
    → List AnchorItem
    → Result Report
unfolding classify_module expected_bytes finished_report
report_of evidence zds_symbols candidate_symbols tables modules slices anchors =
    let comparisons = map (classify_module slices) modules.comparisons in
    let reference_bytes = sum_by (λ item. item.reference.size) slices in
    fail_if (not (reference_bytes == sum_by expected_bytes comparisons)) analysis_error
    >> ok (
        finished_report evidence zds_symbols candidate_symbols tables modules.inventory comparisons
          slices anchors)

abbrev pub inputs_of : Evidence → Tables → Inputs
inputs_of evidence tables = record {
  objdump = evidence.objdump;
  reference_image = evidence.reference_image;
  candidate_image = evidence.candidate_image;
  tables = tables;
}

-- from the matched module ranges on
unfoldable pub analyze_modules :
    Evidence → Inputs → List Symbol → List Symbol → TableSizes → ModuleState → Result Report
unfolding source_divergence divergent_basenames assembly_slices anchor_comparisons report_of key_le
    by_name_from
analyze_modules evidence inputs zds_symbols candidate_symbols tables modules =
    let divergent = divergent_basenames (source_divergence evidence.git_text) in
    let candidate_by_name = by_name candidate_symbols in
    let ranges = sorted_ranges modules.range_lookup in
    assembly_slices inputs divergent zds_symbols candidate_by_name ranges >>= λ slices.
    anchor_comparisons inputs zds_symbols candidate_by_name ranges >>= λ anchors.
    report_of evidence zds_symbols candidate_symbols tables modules slices anchors

abbrev pub table_sizes :
    List ModuleRange → List Symbol → List CandidateRange → List Symbol → SharedTokens → TableSizes
table_sizes zds_modules zds_symbols candidate_ranges candidate_symbols tokens = record {
  module_rows = length zds_modules;
  zds_symbol_rows = length zds_symbols;
  candidate_range_rows = length candidate_ranges;
  candidate_symbol_rows = length candidate_symbols;
  shared_rows = length tokens.shared;
}

-- from the parsed tables on
unfoldable pub analyze_tables :
    Evidence → List ModuleRange → List Symbol → List CandidateRange → List Symbol → Result Report
unfolding shared_symbol_tokens tables_of module_steps analyze_modules
analyze_tables evidence zds_modules zds_symbols candidate_ranges candidate_symbols =
    let tokens = shared_symbol_tokens zds_symbols candidate_symbols in
    let inputs = inputs_of evidence (tables_of zds_modules candidate_ranges tokens) in
    analyze_modules evidence inputs zds_symbols candidate_symbols
      (table_sizes zds_modules zds_symbols candidate_ranges candidate_symbols tokens)
      (module_steps inputs candidate_ranges zds_modules zds_modules start_modules)

unfoldable pub analyze : Evidence → Result Report
unfolding parse_zds_map parse_gnu_map parse_nm analyze_tables
analyze evidence = parse_zds_map evidence.zds_map >>= λ (zds_modules, zds_symbols, metadata).
    parse_gnu_map evidence.gnu_map >>= λ candidate_ranges.
    parse_nm evidence.nm_text >>= λ candidate_symbols.
    analyze_tables evidence zds_modules zds_symbols candidate_ranges candidate_symbols
