-- ===== src/Compare/Relocation/Sound.antt =====
-- What relocation_byte_spans returns, in projects/binary-compare/analyze.py.
use mathlib.Core.Option.{some-injective}
use mos_agondev.Compare.Image.{byte_at}
use mos_agondev.Compare.Relocation.{
  Relocation, covers, newly_covered, relocation_byte_spans, relocation_windows, same_set,
  select_windows,
}
use mos_agondev.Compare.Relocation.Windows.{
  IsRelocation, relocation_windows-IsRelocation, select_windows-All,
}
use mos_agondev.Compare.Summary.{mismatches_from}
use mos_agondev.Prelude.{
  All, Bool, Dict, List, [], all-contains, any, ap, arith, contains, contains-append,
  contains-filter, false, if◌then◌else◌, inl, inr, length, list_beq_iff, list_eq, nat_beq_iff,
  nat_eq, none, not, option_eq, pair_eq, refl, some, subst, suc, true, zero, ℕ, ◌&&◌, ◌++◌, ◌+◌,
  ◌==◌, ◌∙◌, ◌∷◌, ◌≡◌, ◌⊎◌,
}
use mos_agondev.Text.{Str}
use native.Mathlib.Nat.{zero-add}

-- Where the images differ, there is an index in the list.
pub mismatches_from_complete :
    (first i : ℕ) (xs ys : List ℕ)
    → length xs ≡ length ys
    → contains (first + i) (mismatches_from first xs ys) ≡ false
    → byte_at i xs ≡ byte_at i ys
unfolding mismatches_from contains
mismatches_from_complete first i [] [] h k = refl
mismatches_from_complete first zero (x ∷ xs) (y ∷ ys) h k = ground (arith, h, k)
mismatches_from_complete first (suc i) (x ∷ xs) (y ∷ ys) h k =
    let behind : first + suc i ≡ suc first + i = omega arith in
    ground (arith, h, k, behind, mismatches_from_complete (suc first) i xs ys)
mismatches_from_complete first i _ _ h k = ground (arith, h)

-- What is covered at the end was covered before, or a selected window covers it.
select_windows-covered :
    (i : ℕ) (mismatches covered : List ℕ) (windows : List Relocation)
    → contains i ((select_windows mismatches covered windows).0) ≡ true
    → contains i covered ≡ false
    → any (λ window. covers window i) ((select_windows mismatches covered windows).1) ≡ true
unfolding select_windows
select_windows-covered i mismatches covered [] h k = ground (arith, h, k)
select_windows-covered i mismatches covered (window ∷ windows) h k =
    let newly = newly_covered mismatches covered window in
    let after_it = select_windows-covered i mismatches (covered ++ newly) windows in
    let kept = contains-append i covered newly in
    let passes = contains-filter i (λ j. covers window j && not (contains j covered)) mismatches in
    let skip = select_windows-covered i mismatches covered windows in
    ground (arith, h, k, after_it, kept, passes, skip)

-- Every index in a covered set of mismatches is covered by a selected window.
selected-covers :
    (i : ℕ) (mismatches : List ℕ) (windows : List Relocation)
    → same_set ((select_windows mismatches [] windows).0) mismatches ≡ true
    → any (λ span. covers span i) ((select_windows mismatches [] windows).1) ≡ false
    → contains i mismatches ≡ false
unfolding select_windows contains
selected-covers i mismatches windows h k =
    let covered = (select_windows mismatches [] windows).0 in
    let reached = all-contains i (λ j. contains j covered) mismatches in
    let spans = select_windows-covered i mismatches [] windows in
    ground (arith, h, k, reached, spans)

bytes_agree :
    (i : ℕ) (xs ys : List ℕ)
    → length xs ≡ length ys
    → contains i (mismatches_from 0 xs ys) ≡ false
    → byte_at i xs ≡ byte_at i ys
bytes_agree i xs ys h k =
    mismatches_from_complete 0 i xs ys h
      (ap (λ n. contains n (mismatches_from 0 xs ys)) (zero-add i) ∙ k)

-- Spans explain all differences between two images of one length.
pub record Explains (reference candidate : List ℕ) (reference_context candidate_context : ℕ × ℕ)
    (paired_tokens : Dict (ℕ × ℕ) Str) (spans : List Relocation) : Type 0 where
  pub same_length : length reference ≡ length candidate
  -- outside the spans the bytes agree
  pub agree_outside :
      (i : ℕ)
      → any (λ span. covers span i) spans ≡ false
      → byte_at i reference ≡ byte_at i candidate
  pub genuine :
      All (IsRelocation reference candidate reference_context candidate_context paired_tokens) spans

-- The two ways in which spans are returned.
guarded_cases {ℓ} :
    {A : Type ℓ} (a b c : Bool) (x y z : A)
    → (if not a then none else if b then some x else if c then some y else none) ≡ some z
    → (a ≡ true) × (((b ≡ true) × (x ≡ z)) ⊎ ((c ≡ true) × (y ≡ z)))
guarded_cases true true c x y z h = (refl, inl (refl, some-injective _ _ h))
guarded_cases true false true x y z h = (refl, inr (refl, some-injective _ _ h))
guarded_cases true false false x y z h = cc
guarded_cases false b c x y z h = cc

-- When relocation_byte_spans returns spans, the images have one length, their bytes agree outside
-- the spans, and each span reads two different 24-bit addresses that have a common name.
pub relocation_byte_spans-Explains :
    (reference candidate : List ℕ) (reference_context candidate_context : ℕ × ℕ)
    (paired_tokens : Dict (ℕ × ℕ) Str) (spans : List Relocation)
    → relocation_byte_spans reference candidate reference_context candidate_context paired_tokens
      ≡ some spans
    → Explains reference candidate reference_context candidate_context paired_tokens spans
unfolding relocation_byte_spans contains
relocation_byte_spans-Explains reference candidate reference_context candidate_context tokens spans
      h =
    let mismatches = mismatches_from 0 reference candidate in
    let windows =
      relocation_windows reference candidate reference_context candidate_context tokens in
    let (lengths, ways) =
      guarded_cases (length reference == length candidate) (mismatches == [])
        (same_set ((select_windows mismatches [] windows).0) mismatches) []
        ((select_windows mismatches [] windows).1) spans h in
    let same_length = (nat_beq_iff (length reference) (length candidate)).0 lengths in
    elim ways [
      | inl (none_differ, nothing_left) ↦
          subst (Explains reference candidate reference_context candidate_context tokens)
            nothing_left
            (record {
              same_length = same_length;
              agree_outside = λ i _.
                  bytes_agree i reference candidate same_length
                    (ap (contains i) ((list_beq_iff mismatches []).0 none_differ));
              genuine = tt;
            })
      | inr (all_covered, chosen) ↦
          subst (Explains reference candidate reference_context candidate_context tokens) chosen
            (record {
              same_length = same_length;
              agree_outside = λ i k.
                  bytes_agree i reference candidate same_length
                    (selected-covers i mismatches windows all_covered k);
              genuine =
                  select_windows-All reference candidate reference_context candidate_context tokens
                    _ mismatches [] windows
                    (relocation_windows-IsRelocation reference candidate reference_context
                      candidate_context tokens);
            })
    ]
