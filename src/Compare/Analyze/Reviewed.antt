-- ===== src/Compare/Analyze/Reviewed.antt =====
-- What the report of analyze of projects/binary-compare/analyze.py accounts for.
use mathlib.Core.List.{Memᴰ}
use mos_agondev.Compare.Analyze.{
  Evidence, Report, analyze, analyze_modules, analyze_tables, divergent_basenames, expected_bytes,
  finished_report, inputs_of, module_order, report_of, slice_order, source_divergence,
  start_modules, table_sizes, tables_of,
}
use mos_agondev.Compare.Anchors.{AnchorItem, anchor_comparisons}
use mos_agondev.Compare.Counts.{TableSizes}
use mos_agondev.Compare.Executable.{Inputs}
use mos_agondev.Compare.Maps.{parse_gnu_map, parse_nm}
use mos_agondev.Compare.Maps.ZdsLines.{parse_zds_map}
use mos_agondev.Compare.Modules.{ModuleItem, ModuleState, module_steps}
use mos_agondev.Compare.Records.{CandidateRange, ModuleRange, Symbol}
use mos_agondev.Compare.Review.{
  QueueItem, classify_module, every_class, is_unexplained, judged_item, review_queue, slice_entry,
  slice_key,
}
use mos_agondev.Compare.Review.Classes.{
  NotUnexplained, assembly_slices-class, module_steps-NotUnexplained,
}
use mos_agondev.Compare.Review.Complete.{
  IsReviewed, by_slice, classify_module-IsReviewed, entered, is_slice_class, pending, settled,
  unexplained-queued,
}
use mos_agondev.Compare.Slices.{SliceItem, assembly_slices, sorted_ranges}
use mos_agondev.Compare.Tokens.{by_name, shared_symbol_tokens}
use mos_agondev.Errors.{analysis_error, bind-eq-ok, fail_if-then-ok, ok, ◌>>=◌}
use mos_agondev.Prelude.{
  All, All-of_map, All-sort_by, Bool, List, Memᴰ-sort_by, Memᴰ-sort_by_back, arith, list_eq, map,
  nat_eq, not, option_eq, pair_eq, sort_by, subst, sum_by, sum_by-sort_by, sym, true, ◌==◌, ◌∙◌,
  ◌≡◌,
}
use mos_agondev.Text.{Str}

-- A report is complete: its review queue has an entry for each unexplained slice, and accounts for
-- each module.
pub record IsComplete (report : Report) : Type 0 where
  pub slices_queued :
      (item : SliceItem)
      → Memᴰ item report.slices_in_order
      → is_unexplained item.classification ≡ true
      → Memᴰ (slice_entry item) report.queue
  pub modules_reviewed :
      All
        (λ m. IsReviewed report.queue report.slices_in_order (slice_key m) m)
        report.module_comparisons
  pub bytes_covered :
      sum_by (λ item. item.reference.size) report.slices_in_order
      ≡ sum_by expected_bytes report.module_comparisons

slice_key-classify_module :
    (slices : List SliceItem) (item : ModuleItem)
    → slice_key (classify_module slices item) ≡ slice_key item
unfolding classify_module judged_item slice_key
slice_key-classify_module slices item = ground arith

IsReviewed-sort_by :
    (le : SliceItem → SliceItem → Bool) (queue : List QueueItem) (slices : List SliceItem)
    (key : Str × Str) (item : ModuleItem)
    → IsReviewed queue slices key item
    → IsReviewed queue (sort_by le slices) key item
IsReviewed-sort_by le queue slices key item (settled e) = settled e
IsReviewed-sort_by le queue slices key item (pending e) = pending e
IsReviewed-sort_by le queue slices key item (entered m) = entered m
IsReviewed-sort_by le queue slices key item (by_slice f) = by_slice (record {
  slice_found = f.slice_found;
  among = Memᴰ-sort_by le f.slice_found slices f.among;
  of_module = f.of_module;
  is_queued = f.is_queued;
})

-- The review of all modules, in any order of the slices.
all-IsReviewed :
    (le : SliceItem → SliceItem → Bool) (slices : List SliceItem) (modules : List ModuleItem)
    → every_class is_slice_class slices ≡ true
    → All NotUnexplained modules
    → let reviewed = map (classify_module slices) modules in
      All
        (λ m. IsReviewed (review_queue slices reviewed) (sort_by le slices) (slice_key m) m)
        reviewed
all-IsReviewed le slices modules h k =
    let reviewed = map (classify_module slices) modules in
    let queue = review_queue slices reviewed in
    All-of_map _ (classify_module slices) modules (λ item m.
      subst (λ key. IsReviewed queue (sort_by le slices) key (classify_module slices item))
        (sym (slice_key-classify_module slices item))
        (IsReviewed-sort_by le queue slices (slice_key item) (classify_module slices item)
          (classify_module-IsReviewed slices modules item h k m)))

report_of-IsComplete :
    (evidence : Evidence) (zds_symbols candidate_symbols : List Symbol) (tables : TableSizes)
    (modules : ModuleState) (slices : List SliceItem) (anchors : List AnchorItem) (report : Report)
    → every_class is_slice_class slices ≡ true
    → All NotUnexplained modules.comparisons
    → report_of evidence zds_symbols candidate_symbols tables modules slices anchors ≡ ok report
    → IsComplete report
unfolding report_of finished_report
report_of-IsComplete evidence zds_symbols candidate_symbols tables modules slices anchors report h k
      e =
    let comparisons = map (classify_module slices) modules.comparisons in
    let reference_bytes = sum_by (λ item. item.reference.size) slices in
    let finished =
      finished_report evidence zds_symbols candidate_symbols tables modules.inventory comparisons
        slices anchors in
    let (checked, same_report) =
      fail_if-then-ok (not (reference_bytes == sum_by expected_bytes comparisons)) analysis_error
        finished e in
    let slice_bytes = sum_by-sort_by (λ item. item.reference.size) slice_order slices in
    let module_bytes = sum_by-sort_by expected_bytes module_order comparisons in
    subst IsComplete same_report (record {
      slices_queued = λ item m.
          unexplained-queued slices comparisons item (Memᴰ-sort_by_back slice_order item slices m);
      modules_reviewed =
          All-sort_by _ module_order comparisons
            (all-IsReviewed slice_order slices modules.comparisons h k);
      bytes_covered = slice_bytes ∙ ground (arith, checked) ∙ sym module_bytes;
    })

analyze_modules-IsComplete :
    (evidence : Evidence) (inputs : Inputs) (zds_symbols candidate_symbols : List Symbol)
    (tables : TableSizes) (modules : ModuleState) (report : Report)
    → All NotUnexplained modules.comparisons
    → analyze_modules evidence inputs zds_symbols candidate_symbols tables modules ≡ ok report
    → IsComplete report
unfolding analyze_modules
analyze_modules-IsComplete evidence inputs zds_symbols candidate_symbols tables modules report k h =
    let divergent = divergent_basenames (source_divergence evidence.git_text) in
    let candidate_by_name = by_name candidate_symbols in
    let ranges = sorted_ranges modules.range_lookup in
    let (slices, sliced, h1) =
      bind-eq-ok (assembly_slices inputs divergent zds_symbols candidate_by_name ranges)
        (λ slices. anchor_comparisons inputs zds_symbols candidate_by_name ranges >>= λ anchors.
          report_of evidence zds_symbols candidate_symbols tables modules slices anchors)
        h in
    let (anchors, anchored, h2) =
      bind-eq-ok (anchor_comparisons inputs zds_symbols candidate_by_name ranges)
        (λ anchors. report_of evidence zds_symbols candidate_symbols tables modules slices anchors)
        h1 in
    report_of-IsComplete evidence zds_symbols candidate_symbols tables modules slices anchors report
      (assembly_slices-class inputs divergent zds_symbols candidate_by_name ranges slices sliced) k
      h2

analyze_tables-IsComplete :
    (evidence : Evidence) (zds_modules : List ModuleRange) (zds_symbols : List Symbol)
    (candidate_ranges : List CandidateRange) (candidate_symbols : List Symbol) (report : Report)
    → analyze_tables evidence zds_modules zds_symbols candidate_ranges candidate_symbols ≡ ok report
    → IsComplete report
unfolding analyze_tables
analyze_tables-IsComplete evidence zds_modules zds_symbols candidate_ranges candidate_symbols report
      h =
    let tokens = shared_symbol_tokens zds_symbols candidate_symbols in
    let inputs = inputs_of evidence (tables_of zds_modules candidate_ranges tokens) in
    analyze_modules-IsComplete evidence inputs zds_symbols candidate_symbols
      (table_sizes zds_modules zds_symbols candidate_ranges candidate_symbols tokens)
      (module_steps inputs candidate_ranges zds_modules zds_modules start_modules) report
      (module_steps-NotUnexplained inputs candidate_ranges zds_modules zds_modules start_modules tt)
      h

-- When analyze returns a report, its review queue has an entry for each unexplained slice and
-- accounts for each compared module, and the slices have as many bytes as the executable assembly
-- modules.
pub analyze-IsComplete :
    (evidence : Evidence) (report : Report) → analyze evidence ≡ ok report → IsComplete report
unfolding analyze
analyze-IsComplete evidence report h =
    let (parsed_map, k1, h1) =
      bind-eq-ok (parse_zds_map evidence.zds_map)
        (λ parsed_map. parse_gnu_map evidence.gnu_map >>= λ candidate_ranges.
          parse_nm evidence.nm_text >>= λ candidate_symbols.
          analyze_tables evidence (parsed_map.0) (parsed_map.1) candidate_ranges candidate_symbols)
        h in
    let (candidate_ranges, k2, h2) =
      bind-eq-ok (parse_gnu_map evidence.gnu_map)
        (λ candidate_ranges. parse_nm evidence.nm_text >>= λ candidate_symbols.
          analyze_tables evidence (parsed_map.0) (parsed_map.1) candidate_ranges candidate_symbols)
        h1 in
    let (candidate_symbols, k3, h3) =
      bind-eq-ok (parse_nm evidence.nm_text)
        (λ candidate_symbols.
          analyze_tables evidence (parsed_map.0) (parsed_map.1) candidate_ranges candidate_symbols)
        h2 in
    analyze_tables-IsComplete evidence (parsed_map.0) (parsed_map.1) candidate_ranges
      candidate_symbols report h3
