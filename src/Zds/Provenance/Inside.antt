-- ===== src/Zds/Provenance/Inside.antt =====
-- The paths that `_metadata_relative_path` accepts.
use mos_agondev.Errors.{ok}
use mos_agondev.Prelude.{
  Bool-cases, List, [], any, arith, contains, false, inl, inr, list_beq, list_beq_iff, list_eq,
  nat_eq, option_eq, pair_eq, refl, subst, ◌==◌, ◌∷◌, ◌≡◌,
}
use mos_agondev.Text.{Str, codes, split, starts_with}
use mos_agondev.Zds.Names.{keep_parts}
use mos_agondev.Zds.Provenance.{
  metadata_relative_path_of, preparation_metadata, unsafe_char, unsafe_part,
}

-- a path in the tree: relative, with no `..`, backslash, colon or character below 32
pub record IsInside (path : Str) : Type 0 where
  pub is_relative : starts_with (codes "/") path ≡ false
  pub no_parent : contains (codes "..") (split b'/' path) ≡ false
  pub no_backslash : contains b'\\' path ≡ false
  pub no_unsafe_char : any unsafe_char path ≡ false
  pub not_metadata : (path == preparation_metadata) ≡ false

no_parent_part :
    (parts : List Str)
    → any unsafe_part (keep_parts parts) ≡ false
    → contains (codes "..") parts ≡ false
unfolding contains unsafe_part list_beq
no_parent_part [] h = refl
no_parent_part (p ∷ parts) h = elim (Bool-cases (p == [])) [
  | inl e ↦ let same = (list_beq_iff p []).0 e in rw same (no_parent_part parts (ground arith))
  | inr no_empty ↦ elim (Bool-cases (p == codes ".")) [
    | inl e ↦
        let same = (list_beq_iff p (codes ".")).0 e in rw same (no_parent_part parts (ground arith))
    | inr no_dot ↦ ground (arith, no_parent_part parts)
  ]
]

-- An accepted path is the one given. It is relative and has no part `..`, no backslash, no colon
-- and no character below 32, and it is not the path of the metadata.
pub metadata_relative_path_of-IsInside :
    (value path : Str) → metadata_relative_path_of value ≡ ok path → (value ≡ path) × IsInside path
unfolding metadata_relative_path_of
metadata_relative_path_of-IsInside value path h =
    let same : value ≡ path = ground arith in
    let inside : IsInside value = record {
      is_relative = ground arith;
      no_parent = no_parent_part (split b'/' value) (ground arith);
      no_backslash = ground arith;
      no_unsafe_char = ground arith;
      not_metadata = ground arith;
    } in
    (same, subst IsInside same inside)
