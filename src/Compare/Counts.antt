-- ===== src/Compare/Counts.antt =====
-- The counts in the summary of the report of projects/binary-compare/analyze.py.
use mos_agondev.Compare.Anchors.{AnchorItem}
use mos_agondev.Compare.Modules.{InventoryItem, ModuleItem}
use mos_agondev.Compare.Review.{
  QueueItem, class_name, high_priority, medium_priority, sorted_counts,
}
use mos_agondev.Compare.Slices.{SliceItem}
use mos_agondev.Compare.SymbolOrder.{OrderItem}
use mos_agondev.Prelude.{Bool, Dict, List, false, filter, length, map, not, sum_by, true, ℕ}
use mos_agondev.Text.{Str}

pub record ReportCounts : Type 0 where
  pub zds_module_ranges : ℕ
  pub zds_external_symbols : ℕ
  pub candidate_input_ranges : ℕ
  pub candidate_defined_symbols : ℕ
  pub shared_symbols : ℕ
  pub matched_module_ranges : ℕ
  pub zds_module_inventory_status : Dict Str ℕ
  pub slice_count : ℕ
  pub assembly_reference_bytes : ℕ
  pub assembly_candidate_bytes : ℕ
  pub review_queue_entries : ℕ
  pub high_priority_review_entries : ℕ
  pub symbol_order_modules : ℕ
  pub reordered_symbol_modules : ℕ
  pub c_anchor_ranges : ℕ
  pub c_anchor_classifications : Dict Str ℕ
  pub module_classifications : Dict Str ℕ
  pub assembly_slice_classifications : Dict Str ℕ

-- the numbers of rows that the tables had
pub record TableSizes : Type 0 where
  pub module_rows : ℕ
  pub zds_symbol_rows : ℕ
  pub candidate_range_rows : ℕ
  pub candidate_symbol_rows : ℕ
  pub shared_rows : ℕ

abbrev is_high : QueueItem → Bool
is_high item = elim (item.priority) [ high_priority ↦ true | medium_priority ↦ false ]

unfoldable pub report_counts :
    TableSizes
    → List ModuleItem
    → List InventoryItem
    → List SliceItem
    → List AnchorItem
    → List OrderItem
    → List QueueItem
    → ReportCounts
unfolding class_name sorted_counts
report_counts tables modules inventory slices anchors orders queue = record {
  zds_module_ranges = tables.module_rows;
  zds_external_symbols = tables.zds_symbol_rows;
  candidate_input_ranges = tables.candidate_range_rows;
  candidate_defined_symbols = tables.candidate_symbol_rows;
  shared_symbols = tables.shared_rows;
  matched_module_ranges = length modules;
  zds_module_inventory_status =
      sorted_counts (map (λ (item : InventoryItem). item.status) inventory);
  slice_count = length slices;
  assembly_reference_bytes = sum_by (λ item. item.reference.size) slices;
  assembly_candidate_bytes = sum_by (λ item. item.candidate.size) slices;
  review_queue_entries = length queue;
  high_priority_review_entries = length (filter is_high queue);
  symbol_order_modules = length orders;
  reordered_symbol_modules = length (filter (λ item. not item.in_same_order) orders);
  c_anchor_ranges = length anchors;
  c_anchor_classifications =
      sorted_counts (map (λ (item : AnchorItem). class_name item.classification) anchors);
  module_classifications =
      sorted_counts (map (λ (item : ModuleItem). class_name item.classification) modules);
  assembly_slice_classifications =
      sorted_counts (map (λ (item : SliceItem). class_name item.classification) slices);
}
