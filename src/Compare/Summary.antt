-- ===== src/Compare/Summary.antt =====
-- binary_difference_summary of projects/binary-compare/analyze.py. The two counting loops walk
-- along the images from the front and, for the suffix, from the back.
pub mod Sound
use mos_agondev.Prelude.{
  List, Option, [], if◌then◌else◌, length, list_eq, min, nat_eq, none, option_eq, pair_eq, reverse,
  some, suc, zero, ℕ, ◌-◌, ◌==◌, ◌∷◌,
}

pub record DifferenceSummary : Type 0 where
  pub reference_size : ℕ
  pub candidate_size : ℕ
  pub common_offset_bytes : ℕ
  pub same_offset_equal_bytes : ℕ
  pub same_offset_different_bytes : ℕ
  pub first_same_offset_difference : Option ℕ
  pub last_same_offset_difference : Option ℕ
  pub common_prefix_bytes : ℕ
  pub common_suffix_bytes : ℕ

-- `[index for index, pair in enumerate(zip(reference, candidate)) if pair[0] != pair[1]]`, where
-- the first index is `i`
unfoldable pub mismatches_from : ℕ → List ℕ → List ℕ → List ℕ
mismatches_from i (x ∷ xs) (y ∷ ys) =
    let rest = mismatches_from (suc i) xs ys in if x == y then rest else i ∷ rest
mismatches_from i _ _ = []

-- `while prefix < common and reference[prefix] == candidate[prefix]: prefix += 1`, with the bound
-- `common` on the count
unfoldable pub equal_run : ℕ → List ℕ → List ℕ → ℕ
equal_run zero _ _ = 0
equal_run (suc n) (x ∷ xs) (y ∷ ys) = let rest = equal_run n xs ys in if x == y then suc rest else 0
equal_run (suc n) _ _ = 0

abbrev pub first_of : List ℕ → Option ℕ
first_of [] = none
first_of (x ∷ xs) = some x

unfoldable pub last_index : List ℕ → Option ℕ
last_index [] = none
last_index (x ∷ xs) = elim xs [ [] ↦ some x | _ ∷ _ ↦ last_index xs ]

unfoldable pub binary_difference_summary : List ℕ → List ℕ → DifferenceSummary
unfolding mismatches_from equal_run last_index
binary_difference_summary reference candidate =
    let common = min (length reference) (length candidate) in
    let mismatches = mismatches_from 0 reference candidate in
    let prefix = equal_run common reference candidate in
    let suffix = equal_run (common - prefix) (reverse reference) (reverse candidate) in
    record {
      reference_size = length reference;
      candidate_size = length candidate;
      common_offset_bytes = common;
      same_offset_equal_bytes = common - length mismatches;
      same_offset_different_bytes = length mismatches;
      first_same_offset_difference = first_of mismatches;
      last_same_offset_difference = last_index mismatches;
      common_prefix_bytes = prefix;
      common_suffix_bytes = suffix;
    }
