-- ===== src/Record/Roots.antt =====
-- The declared roots in projects/mos-port/tools/record_target_step.py: Root, lexical_absolute and
-- parse_roots. A path is its text, and what pathlib and the file system answer is the record Paths.
pub mod Apart
use mos_agondev.Errors.{Result, fail_if, from_option, ok, provenance_error, ◌>>=◌, ◌>>◌}
use mos_agondev.Prelude.{
  Bool, List, Option, [], all, contains, false, if◌then◌else◌, leb, length, list_eq, map, nat_eq,
  none, not, option_eq, pair_eq, some, sort_by, ℕ, ◌&&◌, ◌++◌, ◌==◌, ◌||◌, ◌∷◌,
}
use mos_agondev.Text.{Str, is_digit, is_upper}

pub record Root : Type 0 where
  pub name : Str
  pub lexical : Str
  pub resolved : Str

-- `Path.is_absolute`, `cwd / path`, `os.path.abspath`, `Path.resolve(strict=True)` with none for a
-- file that is not there, and `Path.is_dir`.
pub record Paths : Type 0 where
  pub is_absolute : Str → Bool
  pub joined : Str → Str → Str
  pub abspath : Str → Str
  pub resolve : Str → Option Str
  pub is_dir : Str → Bool

abbrev pub lexical_absolute : Paths → Str → Str → Str
lexical_absolute paths path cwd =
    paths.abspath (if paths.is_absolute path then path else paths.joined cwd path)

-- ROOT_NAME: `[A-Z][A-Z0-9_]*`
unfoldable pub is_root_name : Str → Bool
is_root_name [] = false
is_root_name (c ∷ cs) = is_upper c && all (λ d. is_upper d || is_digit d || d == b'_') cs

-- `raw.split("=", 1)`, where there is an equals sign
unfoldable pub split_root : Str → Option (Str × Str)
split_root [] = none
split_root (c ∷ cs) =
    let rest = split_root cs in
    if c == b'='
    then some ([], cs)
    else elim rest [ none ↦ none | some (front, back) ↦ some (c ∷ front, back) ]

-- the three sets hold the fields of the roots in `result`
unfoldable pub is_alias : Root → List Root → Bool
unfolding contains
is_alias root result =
    contains root.lexical (map (λ r. r.lexical) result)
    || contains root.resolved (map (λ r. r.resolved) result)

-- the second half of a round, at the resolved path
unfoldable pub add_root : Paths → List Root → Root → Result (List Root)
unfolding is_alias
add_root paths result root =
    fail_if (not (paths.is_dir root.resolved)) provenance_error
    >> (fail_if (is_alias root result) provenance_error >> ok (result ++ (root ∷ [])))

unfoldable pub is_bad_name : Str → List Root → Bool
unfolding is_root_name contains
is_bad_name name result = not (is_root_name name) || contains name (map (λ r. r.name) result)

unfoldable pub parse_root : Paths → Str → List Root → Str × Str → Result (List Root)
unfolding is_bad_name add_root
parse_root paths cwd result (name, raw_path) =
    let lexical = lexical_absolute paths raw_path cwd in
    let located = from_option provenance_error (paths.resolve lexical) in
    let finish = λ (resolved : Str).
      add_root paths result (record { name = name; lexical = lexical; resolved = resolved }) in
    fail_if (is_bad_name name result) provenance_error
    >> (fail_if (raw_path == []) provenance_error >> (located >>= finish))

unfoldable pub parse_roots_from : Paths → Str → List Str → List Root → Result (List Root)
unfolding parse_root split_root
parse_roots_from paths cwd [] result = ok result
parse_roots_from paths cwd (raw ∷ values) result =
    (from_option provenance_error (split_root raw) >>= parse_root paths cwd result)
    >>= parse_roots_from paths cwd values

-- `max(len(item.lexical), len(item.resolved))`, and the reversed order of it
abbrev pub root_length : Root → ℕ
root_length r =
    if leb (length r.lexical) (length r.resolved) then length r.resolved else length r.lexical

abbrev pub longer_first : Root → Root → Bool
longer_first r s = leb (root_length s) (root_length r)

unfoldable pub parse_roots : Paths → Str → List Str → Result (List Root)
unfolding parse_roots_from sort_by
parse_roots paths cwd values =
    parse_roots_from paths cwd values [] >>= λ result. ok (sort_by longer_first result)
