-- ===== src/Compare/Review.antt =====
-- The classification of the assembly modules by their slices, and the review queue, in analyze of
-- projects/binary-compare/analyze.py.
pub mod Complete
pub mod Classes
use mos_agondev.Compare.Executable.{
  Classification, compiler_codegen_different, exact, explained_source_divergence,
  instruction_equivalent, pending_slice_analysis, relocation_only, semantically_equivalent_codegen,
  unexplained, unexplained_data,
}
use mos_agondev.Compare.Executable.Verdicts.{is_exact}
use mos_agondev.Compare.Maps.{keep_some}
use mos_agondev.Compare.Modules.{ModuleItem, Region, slice_counts}
use mos_agondev.Compare.Ranges.{is_assembly}
use mos_agondev.Compare.Slices.{SliceItem}
use mos_agondev.Compare.Tokens.{str_le}
use mos_agondev.Prelude.{
  Bool, Dict, List, Option, [], all, false, filter, if◌then◌else◌, length, list_eq, ltb, map,
  nat_eq, none, not, option_eq, pair_eq, some, sort_by, suc, true, ℕ, ◌&&◌, ◌++◌, ◌==◌, ◌||◌, ◌∷◌,
}
use mos_agondev.Text.{Str, casefold, codes, str_lt}
use mos_agondev.Text.Words.{path_stem}

-- `slices_by_module.get(key)`
unfoldable pub slices_for : Str × Str → List SliceItem → List SliceItem
slices_for key = filter (λ item. item.module_name == key.0 && item.segment == key.1)

-- `(Path(item["module"]).stem.lower(), item["segment"])`
unfoldable pub slice_key : ModuleItem → Str × Str
unfolding path_stem casefold
slice_key item = (casefold (path_stem item.module_path), item.segment)

-- classes of slices that are equal but for addresses and encodings
abbrev pub is_equal_class : Classification → Bool
is_equal_class exact = true
is_equal_class relocation_only = true
is_equal_class instruction_equivalent = true
is_equal_class _ = false

abbrev pub is_explained_class : Classification → Bool
is_explained_class explained_source_divergence = true
is_explained_class classification = is_equal_class classification

abbrev pub is_unexplained : Classification → Bool
is_unexplained unexplained = true
is_unexplained _ = false

abbrev pub is_pending : Classification → Bool
is_pending pending_slice_analysis = true
is_pending _ = false

abbrev pub every_class : (Classification → Bool) → List SliceItem → Bool
every_class p = all (λ item. p item.classification)

-- the classification, confidence and reason of a module by its slices
unfoldable pub judge_slices : List SliceItem → Classification × Str × Str
judge_slices slices =
    if every_class is_exact slices
    then (exact, codes "high", codes "all-module-slices-byte-identical")
    else if every_class is_equal_class slices
    then (relocation_only, codes "medium", codes "all-module-slices-exact-or-address-normalized")
    else if every_class is_explained_class slices
    then (
      explained_source_divergence,
      codes "high",
      codes "only-nonrelocation-difference-is-maintained-source-divergence",
    )
    else (unexplained, codes "none", codes "one-or-more-assembly-slices-remain-unexplained")

unfoldable pub class_name : Classification → Str
class_name exact = codes "exact"
class_name relocation_only = codes "relocation-only"
class_name instruction_equivalent = codes "instruction-equivalent"
class_name unexplained = codes "unexplained"
class_name pending_slice_analysis = codes "pending-slice-analysis"
class_name compiler_codegen_different = codes "compiler-codegen-different"
class_name unexplained_data = codes "unexplained-data"
class_name explained_source_divergence = codes "explained-source-divergence"
class_name semantically_equivalent_codegen = codes "semantically-equivalent-codegen"

-- `dict(sorted(collections.Counter(names).items()))`
unfoldable pub count_name : Str → Dict Str ℕ → Dict Str ℕ
count_name name [] = (name, 1) ∷ []
count_name name ((k, n) ∷ d) =
    let rest = count_name name d in if k == name then (k, suc n) ∷ d else (k, n) ∷ rest

unfoldable pub count_names : List Str → Dict Str ℕ → Dict Str ℕ
unfolding count_name
count_names [] d = d
count_names (name ∷ names) d = count_names names (count_name name d)

unfoldable pub sorted_counts : List Str → Dict Str ℕ
unfolding count_names sort_by str_lt
sorted_counts names = sort_by (λ a b. str_le (a.0) (b.0)) (count_names names [])

unfoldable pub judged_item : ModuleItem → List SliceItem → ModuleItem
unfolding judge_slices class_name sorted_counts
judged_item item slices =
    let (classification, confidence, reason) = judge_slices slices in
    record item {
      classification = classification;
      confidence = confidence;
      reason = reason;
      details =
          slice_counts (length slices)
            (sorted_counts (map (λ part. class_name part.classification) slices));
    }

-- one round of the loop over `module_comparisons`
unfoldable pub classify_module : List SliceItem → ModuleItem → ModuleItem
unfolding slices_for slice_key judged_item
classify_module slices item =
    let own = slices_for (slice_key item) slices in
    if not (is_pending item.classification) || length own == 0 then item else judged_item item own

pub data Priority : Type 0 where
  high_priority medium_priority : Priority

pub record QueueItem : Type 0 where
  pub id : Str
  pub priority : Priority
  pub classification : Classification
  pub reason : Str
  pub reference : Region
  pub candidate : Region

abbrev pub slice_entry : SliceItem → QueueItem
slice_entry item = record {
  id = item.id;
  priority = high_priority;
  classification = item.classification;
  reason = item.reason;
  reference = item.reference;
  candidate = item.candidate;
}

abbrev pub module_entry : ModuleItem → QueueItem
module_entry item = record {
  id = item.id;
  priority = medium_priority;
  classification = item.classification;
  reason = item.reason;
  reference = item.reference;
  candidate = item.candidate;
}

unfoldable pub queued_slice : SliceItem → Option QueueItem
queued_slice item = if is_unexplained item.classification then some (slice_entry item) else none

-- the two tests that pass a module over
unfoldable pub queued_module : ModuleItem → Option QueueItem
unfolding is_assembly
queued_module item =
    if is_equal_class item.classification || is_pending item.classification
    then none
    else if is_unexplained item.classification && is_assembly item.module_path
    then none
    else some (module_entry item)

abbrev priority_rank : Priority → ℕ
priority_rank high_priority = 0
priority_rank medium_priority = 1

-- the order of `(rank, item["id"])`
unfoldable pub queue_le : QueueItem → QueueItem → Bool
unfolding str_lt
queue_le a b =
    if priority_rank a.priority == priority_rank b.priority
    then str_le a.id b.id
    else ltb (priority_rank a.priority) (priority_rank b.priority)

unfoldable pub review_queue : List SliceItem → List ModuleItem → List QueueItem
unfolding queued_slice queued_module queue_le sort_by
review_queue slices modules =
    sort_by queue_le (keep_some queued_slice slices ++ keep_some queued_module modules)
