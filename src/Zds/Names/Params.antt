-- ===== src/Zds/Names/Params.antt =====
-- Laws of parse_params.
use mos_agondev.Prelude.{
  Bool-cases, Distinct, List, Option, [], all, any, arith, false, inl, inr, length, list_eq, map,
  nat_eq, none, option_eq, pair_eq, refl, some, subst, true, ◌==◌, ◌∷◌, ◌≡◌, ◌≤◌,
}
use mos_agondev.Regex.{full_match}
use mos_agondev.Text.{Str, split, strip}
use mos_agondev.Zds.Names.{checked_params, not_ident, parse_params, unique}
use mos_agondev.Zds.Patterns.{ident}
use mos_agondev.Errors.{ok}

length-unique-le : (xs : List Str) → length (unique xs) ≤ length xs
unfolding unique
length-unique-le [] = omega arith
length-unique-le (x ∷ xs) = ground (arith, length-unique-le xs)

unique-Distinct : (xs : List Str) → length xs ≡ length (unique xs) → Distinct xs
unfolding unique
unique-Distinct [] h = tt
unique-Distinct (x ∷ xs) h =
    (ground (arith, length-unique-le xs), unique-Distinct xs (ground (arith, length-unique-le xs)))

all-any-not : (xs : List Str) → any not_ident xs ≡ false → all (full_match ident) xs ≡ true
all-any-not [] h = refl
all-any-not (x ∷ xs) h = ground (arith, all-any-not xs)

checked_params-Valid :
    (parts params : List Str)
    → checked_params parts ≡ ok params
    → Distinct params × (all (full_match ident) params ≡ true)
unfolding checked_params
checked_params-Valid parts params h = elim (Bool-cases (any not_ident parts)) [
  | inl e ↦ cc (rw e at h)
  | inr e ↦ elim (Bool-cases (length parts == length (unique parts))) [
    | inl d ↦
        let same : parts ≡ params = ground arith in
        subst (λ ps. Distinct ps × (all (full_match ident) ps ≡ true)) same
          (unique-Distinct parts (ground arith), all-any-not parts e)
    | inr d ↦ absurd (ground arith)
  ]
]

-- The parameters that are accepted are identifiers, each one once.
pub parse_params-Distinct :
    (raw : Option Str) (params : List Str)
    → parse_params raw ≡ ok params
    → Distinct params × (all (full_match ident) params ≡ true)
unfolding parse_params
parse_params-Distinct none params h = ground arith
parse_params-Distinct (some raw) params h = elim (Bool-cases (strip raw == [])) [
  | inl e ↦
      let same : [] ≡ params = ground arith in
      subst (λ ps. Distinct ps × (all (full_match ident) ps ≡ true)) same (tt, refl)
  | inr e ↦ checked_params-Valid (map strip (split b',' raw)) params (rw e at h)
]
