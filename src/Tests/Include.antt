-- ===== src/Tests/Include.antt =====
-- The theorem on resolve_include, at a directory with one file.
use mos_agondev.Prelude.{
  List, [], false, if◌then◌else◌, list_beq, list_eq, nat_eq, none, option_eq, pair_eq, refl, some,
  ◌==◌, ◌||◌, ◌∷◌, ◌≡◌,
}
use mos_agondev.Text.{Str, casefold, codes, join, lower_char, split, starts_with}
use mos_agondev.Zds.Include.{
  FileSystem, accepted_path, case_matches, display_of, first_accepted, is_below, match_part, parent,
  real_path, resolve_case_compatibly, resolve_include, single_match, strict_path, tested_path,
}
use mos_agondev.Zds.Include.Within.{IsWithin, resolve_include-IsWithin}
use mos_agondev.Errors.{ok}

abbrev root_path : List Str
root_path = codes "s" ∷ []

abbrev file_path : List Str
file_path = codes "s" ∷ codes "Mos.inc" ∷ []

abbrev one_file : FileSystem
one_file = record {
  has_entry = λ path. path == root_path || path == file_path;
  names_in = λ path. if path == root_path then some (codes "Mos.inc" ∷ []) else none;
  is_symlink = λ path. false;
  resolve_strict = λ path. some path;
  is_file = λ path. path == file_path;
}

include_run :
    resolve_include one_file root_path (codes "s" ∷ codes "a.asm" ∷ []) (codes ".\\MOS.INC") []
    ≡ ok (file_path, codes "Mos.inc")
unfolding resolve_include first_accepted accepted_path real_path strict_path tested_path
    resolve_case_compatibly match_part case_matches single_match parent is_below display_of casefold
    lower_char list_beq split starts_with join
include_run = refl

resolve_include-IsWithin_example :
    IsWithin one_file (root_path ∷ []) file_path
    × (codes "Mos.inc" ≡ display_of root_path file_path)
resolve_include-IsWithin_example =
    resolve_include-IsWithin one_file root_path (codes "s" ∷ codes "a.asm" ∷ [])
      (codes ".\\MOS.INC") [] file_path (codes "Mos.inc") include_run
