-- ===== src/Compare/Summary/Sound.antt =====
-- What binary_difference_summary of projects/binary-compare/analyze.py reports.
use mos_agondev.Compare.Summary.{
  DifferenceSummary, binary_difference_summary, equal_run, first_of, mismatches_from,
}
use mos_agondev.Prelude.{
  Bool-cases, List, [], ap₂, arith, inl, inr, length, list_eq, min, nat_beq_iff, nat_eq, none,
  option_eq, pair_eq, refl, reverse, some, suc, take, zero, ℕ, ◌+◌, ◌-◌, ◌<◌, ◌==◌, ◌∷◌, ◌≡◌, ◌≤◌,
  ◌⊎◌,
}
use mos_agondev.Regex.{run}

-- The summary describes the two images.
pub record Describes (reference candidate : List ℕ) (summary : DifferenceSummary) : Type 0 where
  pub counts_add_up :
      summary.same_offset_equal_bytes + summary.same_offset_different_bytes
      ≡ summary.common_offset_bytes
  pub prefix_equal :
      take summary.common_prefix_bytes reference ≡ take summary.common_prefix_bytes candidate
  -- The prefix is the longest: it ends at the first difference, or with an image.
  pub first_ends_prefix :
      ((summary.common_prefix_bytes ≡ summary.common_offset_bytes)
        × (summary.first_same_offset_difference ≡ none))
      ⊎ ((summary.common_prefix_bytes < summary.common_offset_bytes)
          × (summary.first_same_offset_difference ≡ some summary.common_prefix_bytes))
  pub suffix_equal :
      take summary.common_suffix_bytes (reverse reference)
      ≡ take summary.common_suffix_bytes (reverse candidate)
  pub no_overlap :
      summary.common_prefix_bytes + summary.common_suffix_bytes ≤ summary.common_offset_bytes

equal_run-le : (n : ℕ) (xs ys : List ℕ) → equal_run n xs ys ≤ n
unfolding equal_run
equal_run-le zero xs ys = omega arith
equal_run-le (suc n) (x ∷ xs) (y ∷ ys) = ground (arith, equal_run-le n xs ys)
equal_run-le (suc n) [] ys = omega arith
equal_run-le (suc n) (x ∷ xs) [] = omega arith

take-equal_run :
    (n : ℕ) (xs ys : List ℕ) → take (equal_run n xs ys) xs ≡ take (equal_run n xs ys) ys
unfolding equal_run
take-equal_run zero xs ys = refl
take-equal_run (suc n) (x ∷ xs) (y ∷ ys) =
    let rest = take-equal_run n xs ys in
    elim (Bool-cases (x == y)) [
      | inl e ↦ rw e (ap₂ ◌∷◌ ((nat_beq_iff x y).0 e) rest)
      | inr e ↦ rw e refl
    ]
take-equal_run (suc n) [] ys = refl
take-equal_run (suc n) (x ∷ xs) [] = refl

length-mismatches_from :
    (i : ℕ) (xs ys : List ℕ) → length (mismatches_from i xs ys) ≤ min (length xs) (length ys)
unfolding mismatches_from
length-mismatches_from i (x ∷ xs) (y ∷ ys) = ground (arith, length-mismatches_from (suc i) xs ys)
length-mismatches_from i [] ys = omega arith
length-mismatches_from i (x ∷ xs) [] = omega arith

-- The run of equal bytes ends at the first mismatch, or at the end of an image.
first-mismatches_from :
    (n i stop : ℕ) (xs ys : List ℕ)
    → n ≡ min (length xs) (length ys)
    → stop ≡ i + equal_run n xs ys
    → ((equal_run n xs ys ≡ n) × (first_of (mismatches_from i xs ys) ≡ none))
      ⊎ ((equal_run n xs ys < n) × (first_of (mismatches_from i xs ys) ≡ some stop))
unfolding mismatches_from equal_run
first-mismatches_from (suc n) i stop (x ∷ xs) (y ∷ ys) h k =
    let shorter : n ≡ min (length xs) (length ys) = omega (arith, h) in
    elim (Bool-cases (x == y)) [
      | inl e ↦
          rw e (elim (first-mismatches_from n (suc i) stop xs ys shorter (ground (arith, e, k))) [
            | inl (run, first) ↦ inl (omega (arith, run), first)
            | inr (run, first) ↦ inr (omega (arith, run), first)
          ])
      | inr e ↦ rw e (inr (omega arith, ground (arith, e, k)))
    ]
first-mismatches_from zero i stop (x ∷ xs) (y ∷ ys) h k = absurd (omega (arith, h))
first-mismatches_from zero i stop [] ys h k = inl (refl, refl)
first-mismatches_from zero i stop (x ∷ xs) [] h k = inl (refl, refl)
first-mismatches_from (suc n) i stop [] ys h k = absurd (omega (arith, h))
first-mismatches_from (suc n) i stop (x ∷ xs) [] h k = absurd (omega (arith, h))

-- In the summary of two images the equal and the different bytes are all common ones, the prefix
-- and the suffix are equal in both images and do not overlap, and the first difference is where
-- the prefix ends, unless the prefix reaches the end of an image.
pub binary_difference_summary-Describes :
    (reference candidate : List ℕ)
    → Describes reference candidate (binary_difference_summary reference candidate)
unfolding binary_difference_summary
binary_difference_summary-Describes reference candidate =
    let common = min (length reference) (length candidate) in
    let prefix = equal_run common reference candidate in
    let counted = length-mismatches_from 0 reference candidate in
    let short = equal_run-le common reference candidate in
    let suffix_fits = equal_run-le (common - prefix) (reverse reference) (reverse candidate) in
    record {
      counts_add_up = omega (arith, counted);
      prefix_equal = take-equal_run common reference candidate;
      first_ends_prefix =
          first-mismatches_from common 0 prefix reference candidate refl (omega arith);
      suffix_equal = take-equal_run (common - prefix) (reverse reference) (reverse candidate);
      no_overlap = omega (arith, short, suffix_fits);
    }
