-- ===== src/Compare/Paired.antt =====
-- paired_value_token of projects/binary-compare/analyze.py: the name that stands for one value in
-- the reference and another in the candidate.
pub mod Sound
use mos_agondev.Prelude.{
  Bool, Dict, Option, [], if◌then◌else◌, leb, list_eq, lookup, ltb, nat_eq, none, option_eq,
  pair_eq, some, true, ℕ, ◌&&◌, ◌++◌, ◌+◌, ◌-◌, ◌==◌, ◌∷◌,
}
use mos_agondev.Text.{Str, codes}
use mos_agondev.Text.Number.{in_base}

-- `f"{token}+0x{offset:x}"`, or the token alone
abbrev pub with_offset : Str → ℕ → Str
with_offset token offset =
    if offset == 0 then token else token ++ (codes "+0x" ++ in_base 16 offset)

-- `f"@self+0x{offset:x}"`
abbrev pub self_token : ℕ → Str
self_token offset = codes "@self+0x" ++ in_base 16 offset

-- `context[0] <= value < context[1]`
abbrev pub in_context : ℕ × ℕ → ℕ → Bool
in_context (low, high) value = leb low value && ltb value high

-- a value behind its base in both images, at one distance of at most 0x100
abbrev pub same_offset : ℕ → ℕ → ℕ × ℕ → Bool
same_offset reference_value candidate_value (reference_base, candidate_base) =
    leb reference_base reference_value
    && leb (reference_value - reference_base) 0x100
    && reference_value + candidate_base == candidate_value + reference_base

abbrev closer : ℕ → Option (ℕ × Str) → Bool
closer offset none = true
closer offset (some (nearest, _)) = ltb offset nearest

-- the loop over the pairs, with the best found so far
unfoldable pub nearest_pair : ℕ → ℕ → Dict (ℕ × ℕ) Str → Option (ℕ × Str) → Option (ℕ × Str)
nearest_pair reference_value candidate_value [] best = best
nearest_pair reference_value candidate_value (((reference_base, candidate_base), token) ∷ rest)
      best =
    let offset = reference_value - reference_base in
    nearest_pair reference_value candidate_value rest (
      if same_offset reference_value candidate_value (reference_base, candidate_base)
        && closer offset best
      then some (offset, with_offset token offset)
      else best)

-- a value in both contexts, at one distance from their starts
abbrev pub self_relative : ℕ → ℕ → ℕ × ℕ → ℕ × ℕ → Bool
self_relative reference_value candidate_value reference_context candidate_context =
    in_context reference_context reference_value
    && in_context candidate_context candidate_value
    && reference_value + candidate_context.0 == candidate_value + reference_context.0

abbrev pub context_token : ℕ → ℕ → ℕ × ℕ → ℕ × ℕ → Option Str
context_token reference_value candidate_value reference_context candidate_context =
    if self_relative reference_value candidate_value reference_context candidate_context
    then some (self_token (reference_value - reference_context.0))
    else none

-- the three returns: the pair's own name, the best of the loop, the offset in the modules
abbrev pub first_name : Option Str → Option (ℕ × Str) → Option Str → Option Str
first_name (some direct) best own = some direct
first_name none (some (offset, rendered)) own = some rendered
first_name none none own = own

unfoldable pub paired_value_token : ℕ → ℕ → Dict (ℕ × ℕ) Str → ℕ × ℕ → ℕ × ℕ → Option Str
unfolding nearest_pair lookup
paired_value_token reference_value candidate_value paired_tokens reference_context
      candidate_context =
    first_name (lookup (reference_value, candidate_value) paired_tokens)
      (nearest_pair reference_value candidate_value paired_tokens none)
      (context_token reference_value candidate_value reference_context candidate_context)
