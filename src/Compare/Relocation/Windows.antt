-- ===== src/Compare/Relocation/Windows.antt =====
-- The windows that relocation_byte_spans of projects/binary-compare/analyze.py tries.
use mos_agondev.Compare.Image.{little_endian, slice}
use mos_agondev.Compare.Paired.{paired_value_token}
use mos_agondev.Compare.Relocation.{
  Relocation, newly_covered, relocation_windows, select_windows, window_at, windows_of,
}
use mos_agondev.Prelude.{
  All, All-append, Bool, Bool-cases, Dict, List, Option, Option-cases, [], arith, false, inl, inr,
  length, list_eq, ltb, nat_eq, option_eq, pair_eq, range_from, range_from-below, refl, some, subst,
  suc, ℕ, ◌++◌, ◌+◌, ◌-◌, ◌<◌, ◌==◌, ◌||◌, ◌∷◌, ◌≡◌, ◌≢◌, ◌≤◌,
}
use mos_agondev.Text.{Str}

-- A span of two to four bytes whose two addresses have a common name.
pub record IsRelocation (reference candidate : List ℕ) (reference_context candidate_context : ℕ × ℕ)
    (paired_tokens : Dict (ℕ × ℕ) Str) (span : Relocation) : Type 0 where
  pub wide : 2 ≤ span.width
  pub narrow : span.width ≤ 4
  pub inside_reference : span.offset + span.width ≤ length reference
  pub reads_reference :
      span.reference_value ≡ little_endian (slice span.offset (span.offset + span.width) reference)
  pub reads_candidate :
      span.candidate_value ≡ little_endian (slice span.offset (span.offset + span.width) candidate)
  pub differs : span.reference_value ≢ span.candidate_value
  pub reference_fits : span.reference_value ≤ 0xFFFFFF
  pub candidate_fits : span.candidate_value ≤ 0xFFFFFF
  pub is_named :
      paired_value_token span.reference_value span.candidate_value paired_tokens reference_context
        candidate_context
      ≡ some span.token

module _ (reference candidate : List ℕ) (reference_context candidate_context : ℕ × ℕ)
    (paired_tokens : Dict (ℕ × ℕ) Str) where
  abbrev Genuine : Relocation → Type 0
  Genuine = IsRelocation reference candidate reference_context candidate_context paired_tokens

  abbrev window : ℕ → ℕ → Option Relocation
  window = window_at reference candidate reference_context candidate_context paired_tokens

  -- `int.from_bytes(image[start : start + width], "little")`
  abbrev value_of : ℕ → ℕ → List ℕ → ℕ
  value_of width start image = little_endian (slice start (start + width) image)

  abbrev name_of : ℕ → ℕ → Option Str
  name_of width start =
      paired_value_token (value_of width start reference) (value_of width start candidate)
        paired_tokens reference_context candidate_context

  abbrev rejects : ℕ → ℕ → Bool
  rejects width start =
      value_of width start reference == value_of width start candidate
      || ltb 0xFFFFFF (value_of width start reference)
      || ltb 0xFFFFFF (value_of width start candidate)

  abbrev span_of : ℕ → ℕ → Str → Relocation
  span_of width start token = record {
    offset = start;
    width = width;
    reference_value = value_of width start reference;
    candidate_value = value_of width start candidate;
    token = token;
  }

  window_at-cases :
      (width start : ℕ) (span : Relocation)
      → window width start ≡ some span
      → (rejects width start ≡ false)
        × (token : Str) × (name_of width start ≡ some token)
        × (span_of width start token ≡ span)
  unfolding window_at
  window_at-cases width start span h = elim (Bool-cases (rejects width start)) [
    | inl bad ↦ cc (rw bad at h)
    | inr good ↦ elim (Option-cases (name_of width start)) [
      | inl absent ↦ cc (rw (good, absent) at h)
      | inr (token, is_named) ↦ (good, token, is_named, ground (arith, rw (good, is_named) at h))
    ]
  ]

  window_at-IsRelocation :
      (width start : ℕ) (span : Relocation)
      → 2 ≤ width
      → width ≤ 4
      → start + width ≤ length reference
      → window width start ≡ some span
      → Genuine span
  window_at-IsRelocation width start span wide narrow fits h =
      let (good, token, is_named, same_span) = window_at-cases width start span h in
      subst Genuine same_span (record {
        wide = wide;
        narrow = narrow;
        inside_reference = fits;
        reads_reference = refl;
        reads_candidate = refl;
        differs = λ e. ground (arith, good, e);
        reference_fits = ground (arith, good);
        candidate_fits = ground (arith, good);
        is_named = is_named;
      })

  windows_of-IsRelocation :
      (width : ℕ) (starts : List ℕ)
      → 2 ≤ width
      → width ≤ 4
      → All (λ start. start < suc (length reference) - width) starts
      → All Genuine (
          windows_of reference candidate reference_context candidate_context paired_tokens width
            starts)
  unfolding windows_of
  windows_of-IsRelocation width [] wide narrow h = tt
  windows_of-IsRelocation width (start ∷ starts) wide narrow (fits, h) =
      let rest = windows_of-IsRelocation width starts wide narrow h in
      elim (Option-cases (window width start)) [
        | inl e ↦ rw (e, All) rest
        | inr (span, e) ↦
            rw (e, All)
              (window_at-IsRelocation width start span wide narrow (omega (arith, fits)) e, rest)
      ]

  of_width :
      (width : ℕ)
      → 2 ≤ width
      → width ≤ 4
      → All Genuine (
          windows_of reference candidate reference_context candidate_context paired_tokens width
            (range_from 0 (suc (length reference) - width)))
  of_width width wide narrow =
      let count = suc (length reference) - width in
      windows_of-IsRelocation width (range_from 0 count) wide narrow
        (range_from-below 0 count count (omega arith))

  pub relocation_windows-IsRelocation :
      All Genuine
        (relocation_windows reference candidate reference_context candidate_context paired_tokens)
  unfolding relocation_windows
  relocation_windows-IsRelocation =
      let four = of_width 4 (omega arith) (omega arith) in
      let two = of_width 2 (omega arith) (omega arith) in
      All-append Genuine _ _ (of_width 3 (omega arith) (omega arith))
        (All-append Genuine _ _ two four)

  -- The selection keeps a property of the windows.
  pub select_windows-All :
      (P : Relocation → Type 0) (mismatches covered : List ℕ) (windows : List Relocation)
      → All P windows
      → All P ((select_windows mismatches covered windows).1)
  unfolding select_windows
  select_windows-All P mismatches covered [] h = tt
  select_windows-All P mismatches covered (first ∷ windows) (p, h) =
      let newly = newly_covered mismatches covered first in
      let passed = select_windows-All P mismatches covered windows h in
      let kept = select_windows-All P mismatches (covered ++ newly) windows h in
      elim (Bool-cases (newly == [])) [ inl e ↦ rw e passed | inr e ↦ rw e (p, kept) ]
