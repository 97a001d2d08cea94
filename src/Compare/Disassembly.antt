-- ===== src/Compare/Disassembly.antt =====
-- run_disassembler of projects/binary-compare/analyze.py. The disassembler is a parameter: what it
-- prints for a range of an image, or nothing where it fails.
pub mod Tiles
use mos_agondev.Compare.Maps.{g1, g2, g3, hex_value, keep_some, not_empty}
use mos_agondev.Compare.Records.{Instruction}
use mos_agondev.Errors.{Result, analysis_error, fail_if, from_option, ok, ◌>>=◌, ◌>>◌}
use mos_agondev.Prelude.{
  List, Option, [], if◌then◌else◌, leb, length, list_eq, map, nat_eq, none, not, option_eq, pair_eq,
  some, suc, zero, ℕ, ◌+◌, ◌==◌, ◌∷◌,
}
use mos_agondev.Regex.{
  Regex, alt, char, group, line_end, line_start, match, named, nothing, one, some_of, ◌▸◌,
}
use mos_agondev.Text.{Str, is_space, strip}
use mos_agondev.Text.Number.{value_from}
use mos_agondev.Text.Words.{lines_of, words_of}
use mos_agondev.Zds.Patterns.{any_char, is_hex, some_few, spaces, spaces1}

-- `{2}` and `\s{2,}`
abbrev hex_byte : Regex
hex_byte = one is_hex ▸ one is_hex

-- `(?:[0-9A-Fa-f]{2}(?:\s+|$))*?` up to a number of rounds. Each round reads two characters, so the
-- length of the text is enough; the end of the line cannot stand in front of what follows.
unfoldable pub few_bytes : ℕ → Regex
unfolding is_space
few_bytes zero = nothing
few_bytes (suc n) = alt nothing (hex_byte ▸ alt spaces1 line_end ▸ few_bytes n)

unfoldable pub instruction_re : ℕ → Regex
unfolding few_bytes is_space
instruction_re n =
    line_start
    ▸ spaces
    ▸ group g1 (some_of is_hex)
    ▸ char b':'
    ▸ spaces1
    ▸ group g2 (hex_byte ▸ alt spaces1 line_end ▸ few_bytes n)
    ▸ one is_space
    ▸ spaces1
    ▸ group g3 (some_few any_char)
    ▸ spaces
    ▸ line_end

-- the instruction of a row, with `bytes.fromhex(" ".join(raw_hex.split()))`
unfoldable pub instruction_of : Str → Option Instruction
unfolding instruction_re match named words_of value_from strip
instruction_of row = elim (match (instruction_re (length row)) row) [
  | none ↦ none
  | some m ↦ some (record {
    address = hex_value (named g1 m);
    raw = map hex_value (words_of (named g2 m));
    text = strip (named g3 m);
  })
]

-- the check that the instructions follow each other from `cursor` to `stop`
unfoldable pub contiguous : ℕ → ℕ → List Instruction → Result (Unit {0})
contiguous cursor stop [] = fail_if (not (cursor == stop)) analysis_error
contiguous cursor stop (instruction ∷ rest) =
    fail_if (not (instruction.address == cursor)) analysis_error
    >> contiguous (cursor + length instruction.raw) stop rest

-- what the disassembler prints between two addresses
abbrev pub Objdump : Type 0
Objdump = List ℕ → ℕ → ℕ → Option Str

unfoldable pub run_disassembler : Objdump → List ℕ → ℕ → ℕ → Result (List Instruction)
unfolding instruction_of contiguous lines_of
run_disassembler objdump image start stop = if leb stop start then ok [] else do
  printed ← from_option analysis_error (objdump image start stop)
  instructions ← not_empty (keep_some instruction_of (lines_of printed))
  contiguous start stop instructions >> ok instructions
