-- ===== src/Compare/Relocation.antt =====
-- relocation_byte_spans of projects/binary-compare/analyze.py. A set of indices is a list, read
-- by membership alone.
pub mod Sound
pub mod Windows
use mos_agondev.Compare.Image.{little_endian, slice}
use mos_agondev.Compare.Paired.{paired_value_token}
use mos_agondev.Compare.Summary.{mismatches_from}
use mos_agondev.Prelude.{
  Bool, Dict, List, Option, [], all, contains, filter, if◌then◌else◌, leb, length, list_eq, ltb,
  nat_eq, none, not, option_eq, pair_eq, range_from, some, suc, ℕ, ◌&&◌, ◌++◌, ◌+◌, ◌-◌, ◌==◌, ◌||◌,
  ◌∷◌,
}
use mos_agondev.Text.{Str}

pub record Relocation : Type 0 where
  pub offset : ℕ
  pub width : ℕ
  pub reference_value : ℕ
  pub candidate_value : ℕ
  pub token : Str

-- `start <= index < start + width`
abbrev pub covers : Relocation → ℕ → Bool
covers span index = leb span.offset index && ltb index (span.offset + span.width)

abbrev relocation : ℕ → ℕ → ℕ → ℕ → Option Str → Option Relocation
relocation start width reference_value candidate_value none = none
relocation start width reference_value candidate_value (some token) = some (record {
  offset = start;
  width = width;
  reference_value = reference_value;
  candidate_value = candidate_value;
  token = token;
})

module _ (reference candidate : List ℕ) (reference_context candidate_context : ℕ × ℕ)
    (paired_tokens : Dict (ℕ × ℕ) Str) where
  -- the values of both images in the window at `start`
  unfoldable pub window_at : ℕ → ℕ → Option Relocation
  unfolding little_endian paired_value_token
  window_at width start =
      let reference_value = little_endian (slice start (start + width) reference) in
      let candidate_value = little_endian (slice start (start + width) candidate) in
      if reference_value == candidate_value
        || ltb 0xFFFFFF reference_value
        || ltb 0xFFFFFF candidate_value
      then none
      else relocation start width reference_value candidate_value (
          paired_value_token reference_value candidate_value paired_tokens reference_context
            candidate_context)

  -- the loop over `range(max(0, len(reference) - width + 1))`
  unfoldable pub windows_of : ℕ → List ℕ → List Relocation
  unfolding window_at
  windows_of width [] = []
  windows_of width (start ∷ starts) =
      let rest = windows_of width starts in
      elim (window_at width start) [ none ↦ rest | some window ↦ window ∷ rest ]

  abbrev starts_of : ℕ → List ℕ
  starts_of width = range_from 0 (suc (length reference) - width)

  unfoldable pub relocation_windows : List Relocation
  unfolding windows_of
  relocation_windows =
      windows_of 3 (starts_of 3) ++ (windows_of 2 (starts_of 2) ++ windows_of 4 (starts_of 4))

-- `(span & mismatches) - covered`
abbrev pub newly_covered : List ℕ → List ℕ → Relocation → List ℕ
newly_covered mismatches covered window =
    filter (λ i. covers window i && not (contains i covered)) mismatches

-- the loop that selects the windows: what is covered, and the selected ones in their order
unfoldable pub select_windows : List ℕ → List ℕ → List Relocation → List ℕ × List Relocation
unfolding contains
select_windows mismatches covered [] = (covered, [])
select_windows mismatches covered (window ∷ windows) =
    let newly = newly_covered mismatches covered window in
    let passed = select_windows mismatches covered windows in
    let (all_covered, selected) = select_windows mismatches (covered ++ newly) windows in
    if newly == [] then passed else (all_covered, window ∷ selected)

-- `covered == mismatches`, on sets
abbrev pub same_set : List ℕ → List ℕ → Bool
same_set covered mismatches =
    all (λ i. contains i covered) mismatches && all (λ i. contains i mismatches) covered

unfoldable pub relocation_byte_spans :
    List ℕ → List ℕ → ℕ × ℕ → ℕ × ℕ → Dict (ℕ × ℕ) Str → Option (List Relocation)
unfolding relocation_windows select_windows mismatches_from contains
relocation_byte_spans reference candidate reference_context candidate_context paired_tokens =
    let mismatches = mismatches_from 0 reference candidate in
    let windows =
      relocation_windows reference candidate reference_context candidate_context paired_tokens in
    let (covered, selected) = select_windows mismatches [] windows in
    if not (length reference == length candidate)
    then none
    else if mismatches == []
    then some []
    else if same_set covered mismatches
    then some selected
    else none
