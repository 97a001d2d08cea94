-- ===== src/Compare/Review/Complete.antt =====
-- Nothing unexplained is missing from the review queue, in projects/binary-compare/analyze.py.
use mathlib.Core.List.{Memᴰ}
use mos_agondev.Compare.Executable.{Classification, unexplained}
use mos_agondev.Compare.Maps.{keep_some}
use mos_agondev.Compare.Modules.{ModuleItem}
use mos_agondev.Compare.Ranges.{is_assembly}
use mos_agondev.Compare.Review.{
  QueueItem, classify_module, every_class, is_equal_class, is_explained_class, is_pending,
  is_unexplained, judge_slices, judged_item, module_entry, queue_le, queued_module, queued_slice,
  review_queue, slice_entry, slice_key, slices_for,
}
use mos_agondev.Compare.Slices.{SliceItem}
use mos_agondev.Prelude.{
  &&-true, All, All-at, Bool, Bool-cases, List, Memᴰ-left, Memᴰ-map, Memᴰ-right, Memᴰ-sort_by,
  Option, Option-cases, [], ap, arith, false, inl, inr, length, list_eq, map, nat_eq, not,
  option_eq, pair_beq_iff, pair_eq, refl, some, sym, true, ◌&&◌, ◌==◌, ◌||◌, ◌∙◌, ◌∷◌, ◌≡◌,
}
use mos_agondev.Text.{Str}

-- the classifications that a slice can have
abbrev pub is_slice_class : Classification → Bool
is_slice_class unexplained = true
is_slice_class classification = is_explained_class classification

-- An unexplained slice that belongs to a module.
pub record UnexplainedSlice (queue : List QueueItem) (slices : List SliceItem) (key : Str × Str)
    : Type 0 where
  pub slice_found : SliceItem
  pub among : Memᴰ slice_found slices
  pub of_module : (slice_found.module_name, slice_found.segment) ≡ key
  pub is_queued : Memᴰ (slice_entry slice_found) queue

-- How the queue accounts for a module: it is equal but for addresses or still pending, it has its
-- own entry, or a slice of it has one.
pub data IsReviewed (queue : List QueueItem) (slices : List SliceItem) (key : Str × Str)
    (item : ModuleItem) : Type 0 where
  settled : is_equal_class item.classification ≡ true → IsReviewed queue slices key item
  pending : is_pending item.classification ≡ true → IsReviewed queue slices key item
  entered : Memᴰ (module_entry item) queue → IsReviewed queue slices key item
  by_slice : UnexplainedSlice queue slices key → IsReviewed queue slices key item

Memᴰ-keep_some {ℓ κ} :
    {A : Type ℓ} {B : Type κ} (f : A → Option B) (a : A) (b : B) (xs : List A)
    → f a ≡ some b
    → Memᴰ a xs
    → Memᴰ b (keep_some f xs)
Memᴰ-keep_some f a b [] h m = elim m [ ]
Memᴰ-keep_some f a b (x ∷ xs) h (Memᴰ.head e) = rw (ap f (sym e) ∙ h, keep_some) (Memᴰ.head refl)
Memᴰ-keep_some f a b (x ∷ xs) h (Memᴰ.tail m) =
    let rest = Memᴰ-keep_some f a b xs h m in
    elim (Option-cases (f x)) [
      | inl e ↦ rw (e, keep_some) rest
      | inr (y, e) ↦ rw (e, keep_some) (Memᴰ.tail rest)
    ]

pub unexplained-queued :
    (slices : List SliceItem) (modules : List ModuleItem) (item : SliceItem)
    → Memᴰ item slices
    → is_unexplained item.classification ≡ true
    → Memᴰ (slice_entry item) (review_queue slices modules)
unfolding review_queue queued_slice
unexplained-queued slices modules item m h = Memᴰ-sort_by queue_le (slice_entry item) _ (
    Memᴰ-left (slice_entry item) (keep_some queued_slice slices) (keep_some queued_module modules)
      (Memᴰ-keep_some queued_slice item (slice_entry item) slices (rw h refl) m))

left_unexplained :
    (c : Classification)
    → is_slice_class c ≡ true
    → is_explained_class c ≡ false
    → is_unexplained c ≡ true
left_unexplained c h k = ground (arith, h, k)

-- A slice of a module that is unexplained.
record Found (key : Str × Str) (slices : List SliceItem) : Type 0 where
  slice_found : SliceItem
  among : Memᴰ slice_found slices
  of_key : (slice_found.module_name, slice_found.segment) ≡ key
  unexplained_one : is_unexplained slice_found.classification ≡ true

abbrev widen :
    (key : Str × Str) (first : SliceItem) (slices : List SliceItem)
    → Found key slices
    → Found key (first ∷ slices)
widen key first slices w = record {
  slice_found = w.slice_found;
  among = Memᴰ.tail w.among;
  of_key = w.of_key;
  unexplained_one = w.unexplained_one;
}

abbrev belongs : Str × Str → SliceItem → Bool
belongs key item = item.module_name == key.0 && item.segment == key.1

-- A list of slices that are not all explained has an unexplained one.
find_unexplained :
    (key : Str × Str) (slices : List SliceItem)
    → every_class is_slice_class slices ≡ true
    → every_class is_explained_class (slices_for key slices) ≡ false
    → Found key slices
unfolding slices_for
find_unexplained key [] h k = ground arith
find_unexplained key (item ∷ slices) h k =
    let (this, others) =
      &&-true (is_slice_class item.classification) (every_class is_slice_class slices) h in
    let later : every_class is_explained_class (slices_for key slices) ≡ false
        → Found key (item ∷ slices) =
      λ e. widen key item slices (find_unexplained key slices others e) in
    elim (Bool-cases (belongs key item)) [
      | inr e ↦ later (rw e at k)
      | inl e ↦ elim (Bool-cases (is_explained_class item.classification)) [
        | inl explained ↦ later (rw (e, explained) at k)
        | inr left ↦ record {
          slice_found = item;
          among = Memᴰ.head refl;
          of_key = (pair_beq_iff (item.module_name, item.segment) key).0 e;
          unexplained_one = left_unexplained item.classification this left;
        }
      ]
    ]

-- A module is unexplained by its slices only if they are not all explained.
judge_slices-unexplained :
    (slices : List SliceItem)
    → is_unexplained ((judge_slices slices).0) ≡ true
    → every_class is_explained_class slices ≡ false
unfolding judge_slices
judge_slices-unexplained slices h = ground (arith, h)

classify_module-unexplained :
    (slices : List SliceItem) (item : ModuleItem)
    → is_unexplained item.classification ≡ false
    → is_unexplained (classify_module slices item).classification ≡ true
    → every_class is_explained_class (slices_for (slice_key item) slices) ≡ false
unfolding classify_module judged_item
classify_module-unexplained slices item h k =
    let own = slices_for (slice_key item) slices in
    elim (Bool-cases (not (is_pending item.classification) || length own == 0)) [
      | inl e ↦ ground (arith, h, rw e at k)
      | inr e ↦ judge_slices-unexplained own (rw e at k)
    ]

queued_for :
    (slices : List SliceItem) (modules : List ModuleItem) (key : Str × Str)
    → Found key slices
    → UnexplainedSlice (review_queue slices modules) slices key
queued_for slices modules key f = record {
  slice_found = f.slice_found;
  among = f.among;
  of_module = f.of_key;
  is_queued = unexplained-queued slices modules f.slice_found f.among f.unexplained_one;
}

queued_module-entry :
    (item : ModuleItem)
    → is_equal_class item.classification ≡ false
    → is_pending item.classification ≡ false
    → (is_unexplained item.classification && is_assembly item.module_path) ≡ false
    → queued_module item ≡ some (module_entry item)
unfolding queued_module
queued_module-entry item h k e = rw (h, k, e) refl

-- Each module of the reference has its place in the review: it is equal in both images but for
-- addresses and encodings, it waits for slices, or the queue has an entry for it or for an
-- unexplained slice of it. The module must not be unexplained before the slices are counted, and
-- the slices must have the classifications that comparisons give.
pub classify_module-IsReviewed :
    (slices : List SliceItem) (modules : List ModuleItem) (item : ModuleItem)
    → every_class is_slice_class slices ≡ true
    → All (λ m. is_unexplained m.classification ≡ false) modules
    → Memᴰ item modules
    → let reviewed = map (classify_module slices) modules in
      IsReviewed
        (review_queue slices reviewed)
        slices
        (slice_key item)
        (classify_module slices item)
unfolding review_queue
classify_module-IsReviewed slices modules item h k m =
    let reviewed = map (classify_module slices) modules in
    let judged = classify_module slices item in
    let kept = Memᴰ-map (classify_module slices) item modules m in
    elim (Bool-cases (is_equal_class judged.classification)) [
      | inl e ↦ settled e
      | inr not_equal ↦ elim (Bool-cases (is_pending judged.classification)) [
        | inl e ↦ pending e
        | inr not_pending ↦
            elim (Bool-cases
              (is_unexplained judged.classification && is_assembly judged.module_path)) [
                | inl e ↦ by_slice (
                    queued_for slices reviewed (slice_key item) (
                      find_unexplained (slice_key item) slices h (
                        classify_module-unexplained slices item
                          (All-at (λ m. is_unexplained m.classification ≡ false) item modules k m)
                          ((&&-true _ _ e).0))))
                | inr e ↦ entered (
                    Memᴰ-sort_by queue_le (module_entry judged) _ (
                      Memᴰ-right (module_entry judged) (keep_some queued_slice slices)
                        (keep_some queued_module reviewed)
                        (Memᴰ-keep_some queued_module judged (module_entry judged) reviewed
                          (queued_module-entry judged not_equal not_pending e) kept)))
              ]
      ]
    ]
