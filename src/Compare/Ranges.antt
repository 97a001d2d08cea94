-- ===== src/Compare/Ranges.antt =====
-- candidate_range_for of projects/binary-compare/analyze.py: the range of the candidate's link map
-- that stands for a module range of the reference.
use mos_agondev.Compare.Records.{
  CandidateRange, ModuleRange, candidate_stem, module_stem, segment_to_gnu,
}
use mos_agondev.Prelude.{
  Bool, List, Option, [], filter, if◌then◌else◌, list_eq, lookup, nat_eq, none, not, option_eq,
  pair_eq, some, ◌&&◌, ◌+◌, ◌==◌, ◌||◌, ◌∷◌,
}
use mos_agondev.Regex.{matches}
use mos_agondev.Text.{Str, casefold, codes, ends_with}

-- the items of the list comprehensions
unfoldable pub same_module_section : ModuleRange → Str → CandidateRange → Bool
unfolding module_stem candidate_stem
same_module_section reference_range section item =
    candidate_stem item == module_stem reference_range && item.section == section

abbrev has_size : CandidateRange → Bool
has_size item = not (item.size == 0)

-- `choices[0]` if there is one choice
abbrev single_choice : List CandidateRange → Option CandidateRange
single_choice (item ∷ []) = some item
single_choice _ = none

-- `nonempty or matches`
unfoldable pub or_all : List CandidateRange → List CandidateRange → List CandidateRange
or_all [] matches = matches
or_all (item ∷ items) matches = item ∷ items

abbrev is_code : ModuleRange → Bool
is_code item = item.segment == codes "CODE"

abbrev is_text : ModuleRange → Bool
is_text item = item.segment == codes "TEXT"

-- `module_parts`
unfoldable pub module_parts : ModuleRange → List ModuleRange → List ModuleRange
unfolding module_stem
module_parts reference_range =
    filter
      (λ item. module_stem item == module_stem reference_range && (is_code item || is_text item))

-- `next(item for item in module_parts if ...)`
unfoldable pub first_part : (ModuleRange → Bool) → List ModuleRange → Option ModuleRange
first_part p [] = none
first_part p (item ∷ items) = if p item then some item else first_part p items

-- The part of the one `.text` range for a CODE or TEXT range. The two parts exist when the set of
-- the segments of `module_parts` is {"CODE", "TEXT"}.
unfoldable pub split_candidate :
    ModuleRange → CandidateRange → Option ModuleRange → Option ModuleRange → Option CandidateRange
split_candidate reference_range candidate (some code_part) (some text_part) =
    if candidate.size == code_part.size + text_part.size
    then some (record {
      section = candidate.section;
      address = candidate.address + (if is_code reference_range then 0 else code_part.size);
      size = reference_range.size;
      object_path = candidate.object_path;
    })
    else none
split_candidate reference_range candidate _ _ = none

unfoldable pub split_text :
    ModuleRange → List CandidateRange → List ModuleRange → Option CandidateRange
unfolding split_candidate first_part
split_text reference_range (candidate ∷ []) parts =
    split_candidate reference_range candidate (first_part is_code parts) (first_part is_text parts)
split_text reference_range _ parts = none

-- `module.lower().endswith(".asm")` and `.c`
unfoldable pub is_assembly : Str → Bool
unfolding ends_with casefold
is_assembly module_path = ends_with (codes ".asm") (casefold module_path)

unfoldable pub is_c : Str → Bool
unfolding ends_with casefold
is_c module_path = ends_with (codes ".c") (casefold module_path)

unfoldable pub split_range :
    ModuleRange → List CandidateRange → List ModuleRange → Option CandidateRange
unfolding same_module_section module_parts split_text is_assembly
split_range reference_range candidate_ranges reference_ranges =
    let text_matches =
      filter (λ item. same_module_section reference_range (codes ".text") item && has_size item)
        candidate_ranges in
    if is_assembly reference_range.module_path
      && (is_code reference_range || is_text reference_range)
    then split_text reference_range text_matches (module_parts reference_range reference_ranges)
    else none

-- the split range first, then the single choice
abbrev pub or_choice : Option CandidateRange → List CandidateRange → Option CandidateRange
or_choice (some item) choices = some item
or_choice none choices = single_choice choices

unfoldable pub candidate_range_for :
    ModuleRange → List CandidateRange → List ModuleRange → Option CandidateRange
unfolding split_range same_module_section or_all lookup
candidate_range_for reference_range candidate_ranges reference_ranges =
    elim (lookup reference_range.segment segment_to_gnu) [
      | none ↦ none
      | some expected ↦
          let matches = filter (same_module_section reference_range expected) candidate_ranges in
          or_choice (split_range reference_range candidate_ranges reference_ranges)
            (or_all (filter has_size matches) matches)
    ]
