-- ===== src/Tests/Modules.antt =====
-- The theorems on the classification of modules, at one assembly module with a symbol in its
-- middle.
use mos_agondev.Compare.Analyze.{Evidence, Report, analyze}
use mos_agondev.Compare.Analyze.Reviewed.{IsComplete, analyze-IsComplete}
use mos_agondev.Compare.Anchors.{Anchor, AnchorItem, compare_anchors}
use mos_agondev.Compare.Anchors.Inside.{IsInside, compare_anchors-IsInside}
use mos_agondev.Compare.Boundaries.{cut_module, shared_boundaries}
use mos_agondev.Compare.Boundaries.Rising.{CutWell, cut_module-CutWell}
use mos_agondev.Compare.Counts.{report_counts}
use mos_agondev.Compare.Disassembly.{Objdump}
use mos_agondev.Compare.Executable.{Inputs, exact}
use mos_agondev.Compare.Image.{slice}
use mos_agondev.Compare.Modules.{Matched, is_executable}
use mos_agondev.Compare.Ranges.{is_assembly}
use mos_agondev.Compare.Records.{CandidateRange, ModuleRange, Symbol}
use mos_agondev.Compare.Review.{QueueItem}
use mos_agondev.Compare.Slices.{SliceItem, compared_details, slices_of_module}
use mos_agondev.Compare.Slices.Cover.{Covers, slices_of_module-Covers}
use mos_agondev.Compare.Slices.Exact.{slices_of_module-exact}
use mos_agondev.Compare.Summary.{binary_difference_summary}
use mos_agondev.Compare.SymbolOrder.{candidate_le, order_item}
use mos_agondev.Compare.SymbolOrder.Sorted.{IsOrdered, order_item-IsOrdered}
use mos_agondev.Compare.Tokens.{by_name, by_name_from, unambiguous_tokens}
use mos_agondev.Compare.Tokens.Unique.{unambiguous_tokens_unique}
use mos_agondev.Errors.{Result, err, ok}
use mos_agondev.Prelude.{
  All, IsSorted, List, [], list_beq, list_eq, lookup, map, nat_eq, none, option_eq, pair_eq, refl,
  some, suc, true, ℕ, ◌++◌, ◌↔◌, ◌∷◌, ◌≡◌,
}
use mos_agondev.Text.{Str, codes, split_lines}

abbrev image : List ℕ
image = 0x3E ∷ 0x05 ∷ 0xC9 ∷ 0x00 ∷ []

-- the same bytes behind one other byte
abbrev moved_image : List ℕ
moved_image = 0x00 ∷ image

abbrev other_image : List ℕ
other_image = 0x3E ∷ 0x05 ∷ 0xC9 ∷ 0x07 ∷ []

abbrev no_objdump : Objdump
no_objdump bytes start stop = none

abbrev inputs : List ℕ → Inputs
inputs candidate = record {
  objdump = no_objdump;
  reference_image = image;
  candidate_image = candidate;
  tables = record { reference_tokens = []; candidate_tokens = []; paired_tokens = [] };
}

abbrev module_range : Str → Str → ModuleRange
module_range module_path object_name = record {
  module_path = module_path;
  object_name = object_name;
  source_kind = codes "file";
  segment = codes "CODE";
  address_space = codes "C";
  address = 0;
  size = 4;
}

abbrev candidate_range : Str → CandidateRange
candidate_range object_path = record {
  section = codes ".text";
  address = 1;
  size = 4;
  object_path = object_path;
}

abbrev symbol_at : Str → ℕ → ℕ → Symbol
symbol_at name address size = record {
  name = name;
  address = address;
  address_space = codes "C";
  module_name = codes "MISC";
  segment = codes "CODE";
  symbol_type = codes "T";
  size = size;
}

abbrev misc_key : Str × Str
misc_key = (codes "misc", codes "CODE")

abbrev asm_matched : Matched
asm_matched =
    (module_range (codes "..\\src\\misc.asm") (codes "misc.obj"), candidate_range (codes "misc.o"))

abbrev symbols : List Symbol
symbols = symbol_at (codes "_tail") 2 2 ∷ []

abbrev candidate_symbols : List Symbol
candidate_symbols = symbol_at (codes "_tail") 3 2 ∷ []

abbrev slice_of : Str → Str → ℕ → SliceItem
slice_of start_symbol end_symbol address = record {
  id = codes "slice:misc:CODE:" ++ (start_symbol ++ (codes ".." ++ end_symbol));
  module_name = codes "misc";
  segment = codes "CODE";
  start_symbol = start_symbol;
  end_symbol = end_symbol;
  classification = exact;
  confidence = codes "high";
  reason = codes "bytes-identical";
  reference = record { address = address; size = 2 };
  candidate = record { address = suc address; size = 2 };
  details = compared_details (record {
    reference_size = 2;
    candidate_size = 2;
    reference_replacements = 0;
    candidate_replacements = 0;
    relocation_spans = none;
    paired_module_relative_replacements = none;
    reference_instruction_count = none;
    candidate_instruction_count = none;
    first_mismatch_instruction = none;
    reference_first_mismatch = none;
    candidate_first_mismatch = none;
  });
}

abbrev two_slices : List SliceItem
two_slices =
    slice_of (codes "<module-start>") (codes "_tail") 0
    ∷ slice_of (codes "_tail") (codes "<module-end>") 2
    ∷ []

sliced :
    slices_of_module
      (inputs moved_image)
      []
      symbols
      (by_name candidate_symbols)
      misc_key
      asm_matched
    ≡ ok two_slices
unfolding slices_of_module list_beq by_name_from
sliced = refl

is_asm : is_assembly (codes "..\\src\\misc.asm") ≡ true
unfolding is_assembly
is_asm = refl

is_code_segment : is_executable (codes "CODE") ≡ true
unfolding is_executable list_beq
is_code_segment = refl

slices_of_module-Covers_example : Covers two_slices 4 4
slices_of_module-Covers_example =
    slices_of_module-Covers (inputs moved_image) [] symbols (by_name candidate_symbols) misc_key
      (asm_matched.0) (asm_matched.1) two_slices is_asm is_code_segment sliced

slices_of_module-exact_example : slice 0 4 image ≡ slice 1 5 moved_image
slices_of_module-exact_example =
    slices_of_module-exact (inputs moved_image) [] symbols (by_name candidate_symbols) misc_key
      (asm_matched.0) (asm_matched.1) two_slices is_asm is_code_segment sliced refl

cut_module-CutWell_example :
    CutWell asm_matched
      (cut_module asm_matched (shared_boundaries asm_matched (by_name candidate_symbols) symbols))
cut_module-CutWell_example =
    cut_module-CutWell asm_matched
      (shared_boundaries asm_matched (by_name candidate_symbols) symbols)

abbrev c_matched : Matched
c_matched = (module_range (codes "misc.c") (codes "misc.obj"), candidate_range (codes "misc.o"))

abbrev tail_anchor : List Anchor
tail_anchor = (symbol_at (codes "_tail") 2 2, symbol_at (codes "_tail") 3 2) ∷ []

abbrev tail_item : AnchorItem
tail_item = record {
  id = codes "c-anchor:misc:_tail";
  module_name = codes "misc";
  segment = codes "CODE";
  symbol = codes "_tail";
  classification = exact;
  confidence = codes "high";
  reason = codes "bytes-identical";
  reference = record { address = 2; size = 2 };
  candidate = record { address = 3; size = 2 };
  details = record {
    reference_size = 2;
    candidate_size = 2;
    reference_replacements = 0;
    candidate_replacements = 0;
    relocation_spans = none;
    paired_module_relative_replacements = none;
    reference_instruction_count = none;
    candidate_instruction_count = none;
    first_mismatch_instruction = none;
    reference_first_mismatch = none;
    candidate_first_mismatch = none;
  };
}

anchored : compare_anchors (inputs moved_image) misc_key c_matched tail_anchor ≡ ok (tail_item ∷ [])
unfolding compare_anchors list_beq
anchored = refl

compare_anchors-IsInside_example : All (IsInside c_matched) (tail_item ∷ [])
compare_anchors-IsInside_example =
    compare_anchors-IsInside (inputs moved_image) misc_key c_matched tail_anchor (tail_item ∷ [])
      anchored

abbrev pairs : List (ℕ × Str)
pairs = (2, codes "@_tail") ∷ (3, codes "@a") ∷ (3, codes "@b") ∷ []

named_tail : lookup 2 (unambiguous_tokens pairs) ≡ some (codes "@_tail")
unfolding lookup unambiguous_tokens list_beq
named_tail = refl

unnamed_three : lookup 3 (unambiguous_tokens pairs) ≡ none
unfolding lookup unambiguous_tokens list_beq
unnamed_three = refl

unambiguous_tokens_unique_example : All (λ item. item.0 ≡ 2 → item.1 ≡ codes "@_tail") pairs
unambiguous_tokens_unique_example = unambiguous_tokens_unique 2 (codes "@_tail") pairs named_tail

abbrev two_symbols : List Symbol
two_symbols = symbol_at (codes "_b") 0 2 ∷ symbol_at (codes "_a") 2 2 ∷ []

order_item-IsOrdered_example :
    let item = order_item (by_name two_symbols) misc_key two_symbols in
    ((in_order : List Symbol) × IsOrdered (by_name two_symbols) two_symbols in_order item)
    × ((item.in_same_order ≡ true)
        ↔ IsSorted (candidate_le (by_name two_symbols)) item.reference_order)
order_item-IsOrdered_example = order_item-IsOrdered (by_name two_symbols) misc_key two_symbols

same_order : (order_item (by_name two_symbols) misc_key two_symbols).in_same_order ≡ true
unfolding order_item list_beq by_name_from
same_order = refl

-- The tables of two images that differ in the last byte of a data module.
abbrev evidence : Evidence
evidence = record {
  zds_map =
      codes
        "Module: ..\\src\\misc.asm (File: misc.obj) Version: 1:0\n\n    Segment: TEXT  C:000000  C:000003  4h\n\nEXTERNAL DEFINITIONS:\n_tail  C:000002  MISC  TEXT\n";
  gnu_map = codes " .rodata        0x00000000        0x4 misc.o\n";
  nm_text = codes "00000002 T _tail\n";
  git_text = [];
  reference_image = image;
  candidate_image = other_image;
  objdump = no_objdump;
}

abbrev empty_report : Report
empty_report = record {
  raw_image_difference = binary_difference_summary [] [];
  module_comparisons = [];
  zds_module_inventory = [];
  slices_in_order = [];
  c_anchor_comparisons = [];
  symbol_order = [];
  queue = [];
  counts =
      report_counts
        (record {
          module_rows = 0;
          zds_symbol_rows = 0;
          candidate_range_rows = 0;
          candidate_symbol_rows = 0;
          shared_rows = 0;
        })
        [] [] [] [] [] [];
}

abbrev report_in : Result Report → Report
report_in (ok report) = report
report_in (err fault) = empty_report

abbrev report : Report
report = report_in (analyze evidence)

analyzed : analyze evidence ≡ ok report
unfolding analyze split_lines list_beq
analyzed = refl

matched_one : report.counts.matched_module_ranges ≡ 1
unfolding analyze split_lines list_beq
matched_one = refl

queued_ids : map (λ (item : QueueItem). item.id) report.queue ≡ codes "module:misc:TEXT" ∷ []
unfolding analyze split_lines list_beq
queued_ids = refl

analyze-IsComplete_example : IsComplete report
analyze-IsComplete_example = analyze-IsComplete evidence report analyzed
