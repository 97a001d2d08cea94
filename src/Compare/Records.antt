-- ===== src/Compare/Records.antt =====
-- The records of projects/binary-compare/analyze.py: ModuleRange, Symbol, CandidateRange and
-- Instruction with their properties, and the tables of the segments.
use mos_agondev.Prelude.{
  Dict, List, [], if◌then◌else◌, list_eq, nat_eq, option_eq, pair_eq, ℕ, ◌+◌, ◌==◌, ◌∷◌,
}
use mos_agondev.Text.{Str, casefold, codes, starts_with}
use mos_agondev.Text.Words.{
  after_last, before_last, has_part, path_name, replace_char, rstrip_chars,
}

unfoldable pub sanitize_zds_option : Str → Str
sanitize_zds_option option =
    if starts_with (codes "-stdinc:") option
    then codes "-stdinc:<ZDS-standard-includes>"
    else if starts_with (codes "-usrinc:") option
    then codes "-usrinc:<release-project-includes>"
    else if starts_with (codes "-include:") option
    then codes "-include:<ZDS-standard-includes>"
    else option

pub record ModuleRange : Type 0 where
  pub module_path : Str
  pub object_name : Str
  pub source_kind : Str
  pub segment : Str
  pub address_space : Str
  pub address : ℕ
  pub size : ℕ

-- `ModuleRange.end`
abbrev pub module_end : ModuleRange → ℕ
module_end r = r.address + r.size

-- `PurePosixPath(path).name.rsplit(".", 1)[0].lower()`
abbrev pub lower_stem : Str → Str
lower_stem path = casefold (before_last b'.' (path_name path))

-- `ModuleRange.stem`
unfoldable pub module_stem : ModuleRange → Str
unfolding casefold before_last path_name
module_stem r = lower_stem (replace_char b'\\' b'/' r.object_name)

pub record Symbol : Type 0 where
  pub name : Str
  pub address : ℕ
  pub address_space : Str
  pub module_name : Str
  pub segment : Str
  pub symbol_type : Str
  pub size : ℕ

pub record CandidateRange : Type 0 where
  pub section : Str
  pub address : ℕ
  pub size : ℕ
  pub object_path : Str

-- `CandidateRange.end`
abbrev pub candidate_end : CandidateRange → ℕ
candidate_end r = r.address + r.size

-- `CandidateRange.stem`
unfoldable pub candidate_stem : CandidateRange → Str
unfolding casefold before_last path_name after_last has_part rstrip_chars
candidate_stem r = lower_stem (
    if has_part (codes ".a(") r.object_path
    then rstrip_chars (λ c. c == b')') (after_last b'(' r.object_path)
    else r.object_path)

pub record Instruction : Type 0 where
  pub address : ℕ
  pub raw : List ℕ
  pub text : Str

-- SEGMENT_TO_GNU
abbrev pub segment_to_gnu : Dict Str Str
segment_to_gnu =
    (codes ".RESET", codes ".RESET")
    ∷ (codes ".IVECTS", codes ".IVECTS")
    ∷ (codes ".STARTUP", codes ".STARTUP")
    ∷ (codes "CODE", codes ".text")
    ∷ (codes "TEXT", codes ".rodata")
    ∷ (codes "STRSECT", codes ".rodata")
    ∷ (codes "DATA", codes ".data")
    ∷ (codes "BSS", codes ".bss")
    ∷ (codes "IVJMPTBL", codes ".bss")
    ∷ []

-- EXECUTABLE_SEGMENTS
abbrev pub executable_segments : List Str
executable_segments = codes ".RESET" ∷ codes ".IVECTS" ∷ codes ".STARTUP" ∷ codes "CODE" ∷ []
