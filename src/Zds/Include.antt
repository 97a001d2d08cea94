-- ===== src/Zds/Include.antt =====
-- resolve_include of projects/mos-port/tools/zds2gas.py. An absolute path is the list of its parts
-- below the root directory, the file system is a parameter, and the source root and the external
-- include roots are given resolved.
pub mod Within
use mos_agondev.Prelude.{
  Bool, List, Option, [], any, drop, false, if◌then◌else◌, length, list_eq, nat_eq, none, option_eq,
  pair_eq, some, true, ◌&&◌, ◌++◌, ◌==◌, ◌||◌, ◌∷◌,
}
use mos_agondev.Text.{Str, casefold, codes, join, split, starts_with}
use mos_agondev.Zds.Names.{forward_slashes, keep_parts}
use mos_agondev.Errors.{Result, err, ok, value_error, ◌>>=◌}

-- what the code asks of the file system
pub record FileSystem : Type 0 where
  -- `lstat` finds the path
  pub has_entry : List Str → Bool
  -- `iterdir`, `none` where it raises one of the three errors
  pub names_in : List Str → Option (List Str)
  pub is_symlink : List Str → Bool
  -- `resolve(strict=True)`, `none` where nothing is found
  pub resolve_strict : List Str → Option (List Str)
  pub is_file : List Str → Bool

-- `path.parent`
unfoldable pub parent : List Str → List Str
parent [] = []
parent (p ∷ ps) = elim ps [ [] ↦ [] | _ ∷ _ ↦ p ∷ parent ps ]

-- the children with the same name but for case
unfoldable pub case_matches : Str → List Str → List Str
case_matches part [] = []
case_matches part (child ∷ rest) =
    let others = case_matches part rest in
    if casefold child == casefold part then child ∷ others else others

-- one of the matches, or an ambiguity
unfoldable pub single_match : List Str → List Str → Result (Option (List Str))
single_match current [] = ok none
single_match current (child ∷ []) = ok (some (current ++ (child ∷ [])))
single_match current (_ ∷ _ ∷ _) = err value_error

-- one round of the loop over the parts
unfoldable pub match_part : FileSystem → List Str → Str → Result (Option (List Str))
match_part fs current part =
    let exact = current ++ (part ∷ []) in
    if part == [] || part == codes "."
    then ok (some current)
    else if part == codes ".."
    then ok (some (parent current))
    else if fs.has_entry exact
    then ok (some exact)
    else elim (fs.names_in current) [
      | none ↦ ok none
      | some names ↦ single_match current (case_matches part names)
    ]

unfoldable pub resolve_case_compatibly :
    FileSystem → List Str → List Str → Result (Option (List Str))
resolve_case_compatibly fs current [] = ok (some current)
resolve_case_compatibly fs current (part ∷ parts) = match_part fs current part >>= λ matched.
    elim matched [ none ↦ ok none | some next ↦ resolve_case_compatibly fs next parts ]

-- `path == root or root in path.parents`
unfoldable pub is_below : List Str → List Str → Bool
is_below [] path = true
is_below (r ∷ rs) [] = false
is_below (r ∷ rs) (p ∷ ps) = r == p && is_below rs ps

last_part : List Str → Str
last_part [] = []
last_part (p ∷ ps) = elim ps [ [] ↦ p | _ ∷ _ ↦ last_part ps ]

unfoldable pub display_of : List Str → List Str → Str
unfolding last_part
display_of source_root resolved =
    let relative = join (codes "/") (drop (length source_root) resolved) in
    if is_below source_root resolved
    then if relative == [] then codes "." else relative
    else codes "toolchain/" ++ last_part resolved

-- the tests of a candidate: `none` where the code continues with the next one
unfoldable pub tested_path : FileSystem → List (List Str) → List Str → Result (Option (List Str))
tested_path fs allowed_roots resolved =
    if fs.is_file resolved && any (λ root. is_below root resolved) allowed_roots
    then ok (some resolved)
    else ok none

unfoldable pub strict_path :
    FileSystem → List (List Str) → Option (List Str) → Result (Option (List Str))
strict_path fs allowed_roots none = ok none
strict_path fs allowed_roots (some resolved) = tested_path fs allowed_roots resolved

unfoldable pub real_path :
    FileSystem → List (List Str) → Option (List Str) → Result (Option (List Str))
real_path fs allowed_roots none = ok none
real_path fs allowed_roots (some matched) =
    if fs.is_symlink matched
    then ok none
    else strict_path fs allowed_roots (fs.resolve_strict matched)

unfoldable pub accepted_path : FileSystem → List (List Str) → List Str → Result (Option (List Str))
accepted_path fs allowed_roots candidate =
    resolve_case_compatibly fs [] candidate >>= real_path fs allowed_roots

-- the loop over the candidates
unfoldable pub first_accepted :
    FileSystem → List Str → List (List Str) → List (List Str) → Result (List Str × Str)
first_accepted fs source_root allowed_roots [] = err value_error
first_accepted fs source_root allowed_roots (candidate ∷ rest) =
    accepted_path fs allowed_roots candidate >>= λ found_path. elim found_path [
      | none ↦ first_accepted fs source_root allowed_roots rest
      | some resolved ↦ ok (resolved, display_of source_root resolved)
    ]

abbrev below_all : List (List Str) → List Str → List (List Str)
below_all [] parts = []
below_all (root ∷ roots) parts = (root ++ parts) ∷ below_all roots parts

unfoldable pub resolve_include :
    FileSystem → List Str → List Str → Str → List (List Str) → Result (List Str × Str)
resolve_include fs source_root including spelling external_include_roots =
    let relative_spelling = forward_slashes spelling in
    let parts = keep_parts (split b'/' relative_spelling) in
    if starts_with (codes "/") relative_spelling
    then err value_error
    else first_accepted fs source_root (source_root ∷ external_include_roots)
        ((parent including ++ parts) ∷ below_all external_include_roots parts)
