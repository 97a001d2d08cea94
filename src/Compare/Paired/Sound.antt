-- ===== src/Compare/Paired/Sound.antt =====
-- What the names of paired_value_token stand for, in projects/binary-compare/analyze.py.
use mathlib.Core.List.{Memᴰ}
use mathlib.Core.Option.{some-injective}
use mos_agondev.Compare.Paired.{
  closer, context_token, first_name, nearest_pair, paired_value_token, same_offset, self_relative,
  self_token, with_offset,
}
use mos_agondev.Prelude.{
  All, All-Memᴰ, Bool, Bool-cases, Dict, Option, [], arith, false, if◌then◌else◌, inl, inr, list_eq,
  lookup, nat_eq, none, option_eq, pair_eq, refl, some, subst, true, ℕ, ◌&&◌, ◌+◌, ◌-◌, ◌<◌, ◌∷◌,
  ◌≡◌, ◌≤◌,
}
use mos_agondev.Text.{Str}

-- The names of a pair of values: the one of the pair itself, the one of a pair at most 0x100 in
-- front of both, or the one of the two modules.
pub data IsCommonName (reference_value candidate_value : ℕ) (paired_tokens : Dict (ℕ × ℕ) Str)
    (reference_context candidate_context : ℕ × ℕ) : Str → Type 0 where
  direct_name :
      {token : Str}
      → lookup (reference_value, candidate_value) paired_tokens ≡ some token
      → IsCommonName reference_value candidate_value paired_tokens reference_context
          candidate_context token
  pair_name :
      (reference_base candidate_base offset : ℕ) (token : Str)
      → Memᴰ ((reference_base, candidate_base), token) paired_tokens
      → reference_value ≡ reference_base + offset
      → candidate_value ≡ candidate_base + offset
      → offset ≤ 0x100
      → IsCommonName reference_value candidate_value paired_tokens reference_context
          candidate_context
          (with_offset token offset)
  self_name :
      (offset : ℕ)
      → reference_value ≡ reference_context.0 + offset
      → candidate_value ≡ candidate_context.0 + offset
      → reference_value < reference_context.1
      → candidate_value < candidate_context.1
      → IsCommonName reference_value candidate_value paired_tokens reference_context
          candidate_context
          (self_token offset)

-- a property of the pair that was found, if one was
abbrev Best : (ℕ × Str → Type 0) → Option (ℕ × Str) → Type 0
Best P none = Unit
Best P (some best) = P best

Best-if :
    (P : ℕ × Str → Type 0) (fits is_closer : Bool) (x : ℕ × Str) (best : Option (ℕ × Str))
    → (fits ≡ true → P x)
    → Best P best
    → Best P (if fits && is_closer then some x else best)
Best-if P true true x best p k = p refl
Best-if P true false x best p k = k
Best-if P false is_closer x best p k = k

nearest_pair-Best :
    (reference_value candidate_value : ℕ) (P : ℕ × Str → Type 0) (paired_tokens : Dict (ℕ × ℕ) Str)
    (best : Option (ℕ × Str))
    → All
        (λ entry.
          same_offset reference_value candidate_value (entry.0) ≡ true
          → P (reference_value - entry.0.0, with_offset (entry.1) (reference_value - entry.0.0)))
        paired_tokens
    → Best P best
    → Best P (nearest_pair reference_value candidate_value paired_tokens best)
unfolding nearest_pair
nearest_pair-Best reference_value candidate_value P [] best h k = k
nearest_pair-Best reference_value candidate_value P ((bases, token) ∷ rest) best (p, h) k =
    let offset = reference_value - bases.0 in
    let fits = same_offset reference_value candidate_value bases in
    nearest_pair-Best reference_value candidate_value P rest _ h
      (Best-if P fits (closer offset best) (offset, with_offset token offset) best p k)

first_name-Named :
    (P : Str → Type 0) (direct : Option Str) (best : Option (ℕ × Str)) (own : Option Str)
    (token : Str)
    → (direct ≡ some token → P token)
    → Best (λ x. P (x.1)) best
    → (own ≡ some token → P token)
    → first_name direct best own ≡ some token
    → P token
first_name-Named P (some d) best own token p q r h = p h
first_name-Named P none (some (offset, rendered)) own token p q r h =
    subst P (some-injective _ _ h) q
first_name-Named P none none own token p q r h = r h

entry_named :
    (reference_value candidate_value : ℕ) (paired_tokens : Dict (ℕ × ℕ) Str)
    (reference_context candidate_context : ℕ × ℕ) (entry : (ℕ × ℕ) × Str)
    → Memᴰ entry paired_tokens
    → same_offset reference_value candidate_value (entry.0) ≡ true
    → IsCommonName reference_value candidate_value paired_tokens reference_context candidate_context
        (with_offset (entry.1) (reference_value - entry.0.0))
entry_named reference_value candidate_value tokens reference_context candidate_context entry m
      fits =
    let ((reference_base, candidate_base), token) = entry in
    pair_name reference_base candidate_base (reference_value - reference_base) token m
      (ground (arith, fits)) (ground (arith, fits)) (ground (arith, fits))

context_token-named :
    (reference_value candidate_value : ℕ) (paired_tokens : Dict (ℕ × ℕ) Str)
    (reference_context candidate_context : ℕ × ℕ) (token : Str)
    → context_token reference_value candidate_value reference_context candidate_context ≡ some token
    → IsCommonName reference_value candidate_value paired_tokens reference_context candidate_context
        token
context_token-named reference_value candidate_value tokens reference_context candidate_context token
      h =
    let P =
      IsCommonName reference_value candidate_value tokens reference_context candidate_context in
    elim (Bool-cases
      (self_relative reference_value candidate_value reference_context candidate_context)) [
        | inl e ↦ subst P (some-injective _ _ (rw e at h)) (
            self_name (reference_value - reference_context.0) (ground (arith, e))
              (ground (arith, e)) (ground (arith, e)) (ground (arith, e)))
        | inr e ↦ cc (rw e at h)
      ]

-- The name that paired_value_token finds is the name of the pair of values, the name of a pair at
-- most 0x100 in front of both with that offset, or the offset in the two modules.
pub paired_value_token-IsCommonName :
    (reference_value candidate_value : ℕ) (paired_tokens : Dict (ℕ × ℕ) Str)
    (reference_context candidate_context : ℕ × ℕ) (token : Str)
    → paired_value_token reference_value candidate_value paired_tokens reference_context
        candidate_context
      ≡ some token
    → IsCommonName reference_value candidate_value paired_tokens reference_context candidate_context
        token
unfolding paired_value_token
paired_value_token-IsCommonName reference_value candidate_value tokens reference_context
      candidate_context token h =
    let P =
      IsCommonName reference_value candidate_value tokens reference_context candidate_context in
    first_name-Named P (lookup (reference_value, candidate_value) tokens)
      (nearest_pair reference_value candidate_value tokens none)
      (context_token reference_value candidate_value reference_context candidate_context) token
      (λ e. direct_name e)
      (nearest_pair-Best reference_value candidate_value (λ x. P (x.1)) tokens none
        (All-Memᴰ _ tokens
          (entry_named reference_value candidate_value tokens reference_context candidate_context))
        tt)
      (context_token-named reference_value candidate_value tokens reference_context
        candidate_context token)
      h
