-- ===== src/Tests/Ranges.antt =====
-- The theorems on the comparison of byte ranges, at small ranges: `CALL` with two addresses of one
-- module, and images that differ in one byte.
use mos_agondev.Compare.Disassembly.{Objdump, run_disassembler}
use mos_agondev.Compare.Disassembly.Tiles.{IsTiling, run_disassembler-IsTiling}
use mos_agondev.Compare.Executable.{
  Inputs, Range, Verdict, compare_executable_range, relocation_only,
}
use mos_agondev.Compare.Executable.Fails.{IsFailure, compare_executable_range-IsFailure}
use mos_agondev.Compare.Executable.Verdicts.{IsVerdict, compare_executable_range-IsVerdict}
use mos_agondev.Compare.Normalize.{Tables}
use mos_agondev.Compare.Paired.{paired_value_token}
use mos_agondev.Compare.Paired.Sound.{IsCommonName, paired_value_token-IsCommonName}
use mos_agondev.Compare.Records.{Instruction}
use mos_agondev.Compare.Relocation.{Relocation, relocation_byte_spans}
use mos_agondev.Compare.Relocation.Sound.{Explains, relocation_byte_spans-Explains}
use mos_agondev.Compare.Summary.{binary_difference_summary}
use mos_agondev.Compare.Summary.Sound.{Describes, binary_difference_summary-Describes}
use mos_agondev.Errors.{analysis_error, err, ok}
use mos_agondev.Prelude.{Dict, List, [], arith, list_beq, none, refl, some, ℕ, ◌∷◌, ◌≡◌}
use mos_agondev.Text.{Str, codes, split_lines}
use mos_agondev.Text.Number.{in_base}

-- 0xCD is followed by an address of three bytes.
abbrev reference_call : List ℕ
reference_call = 0xCD ∷ 0x10 ∷ 0x00 ∷ 0x01 ∷ []

abbrev candidate_call : List ℕ
candidate_call = 0xCD ∷ 0x20 ∷ 0x00 ∷ 0x01 ∷ []

abbrev reference_module : ℕ × ℕ
reference_module = (0x010000, 0x010100)

abbrev candidate_module : ℕ × ℕ
candidate_module = (0x010010, 0x010110)

abbrev call_span : Relocation
call_span = record {
  offset = 1;
  width = 3;
  reference_value = 0x010010;
  candidate_value = 0x010020;
  token = codes "@self+0x10";
}

call_spans :
    relocation_byte_spans reference_call candidate_call reference_module candidate_module []
    ≡ some (call_span ∷ [])
unfolding relocation_byte_spans list_beq in_base
call_spans = refl

relocation_byte_spans-Explains_example :
    Explains reference_call candidate_call reference_module candidate_module [] (call_span ∷ [])
relocation_byte_spans-Explains_example =
    relocation_byte_spans-Explains reference_call candidate_call reference_module candidate_module
      [] (call_span ∷ []) call_spans

abbrev one_pair : Dict (ℕ × ℕ) Str
one_pair = ((0x010000, 0x010010), codes "@_main") ∷ []

pair_token : paired_value_token 0x010004 0x010014 one_pair (0, 0) (0, 0) ≡ some (codes "@_main+0x4")
unfolding paired_value_token in_base
pair_token = refl

paired_value_token-IsCommonName_example :
    IsCommonName 0x010004 0x010014 one_pair (0, 0) (0, 0) (codes "@_main+0x4")
paired_value_token-IsCommonName_example =
    paired_value_token-IsCommonName 0x010004 0x010014 one_pair (0, 0) (0, 0) (codes "@_main+0x4")
      pair_token

binary_difference_summary-Describes_example :
    Describes reference_call candidate_call
      (binary_difference_summary reference_call candidate_call)
binary_difference_summary-Describes_example =
    binary_difference_summary-Describes reference_call candidate_call

-- A disassembler that prints the bytes of a range as two instructions.
abbrev two_rows : Objdump
two_rows image start stop = some (
    codes
      "MOS.bin:     file format binary\n\n   0:\t3e 05                 ld a,0x05\n   2:\tc9                    ret\n")

abbrev no_rows : Objdump
no_rows image start stop = none

abbrev two_instructions : List Instruction
two_instructions =
    record { address = 0; raw = 0x3E ∷ 0x05 ∷ []; text = codes "ld a,0x05" }
    ∷ record { address = 2; raw = 0xC9 ∷ []; text = codes "ret" }
    ∷ []

disassembled : run_disassembler two_rows [] 0 3 ≡ ok two_instructions
unfolding run_disassembler split_lines list_beq
disassembled = refl

run_disassembler-IsTiling_example : IsTiling 0 3 two_instructions
run_disassembler-IsTiling_example =
    run_disassembler-IsTiling two_rows [] 0 3 two_instructions (omega arith) disassembled

abbrev no_tables : Tables
no_tables = record { reference_tokens = []; candidate_tokens = []; paired_tokens = [] }

abbrev call_inputs : Objdump → List ℕ → Inputs
call_inputs objdump candidate = record {
  objdump = objdump;
  reference_image = reference_call;
  candidate_image = candidate;
  tables = no_tables;
}

abbrev whole_range : ℕ × ℕ → ℕ × ℕ → Range
whole_range reference_context candidate_context = record {
  reference_start = 0;
  reference_end = 4;
  candidate_start = 0;
  candidate_end_at = 4;
  reference_context = reference_context;
  candidate_context = candidate_context;
}

abbrev relocated_verdict : Verdict
relocated_verdict = record {
  classification = relocation_only;
  confidence = codes "medium";
  reason = codes "all-byte-differences-covered-by-recognized-d24-address-relocations";
  details = record {
    reference_size = 4;
    candidate_size = 4;
    reference_replacements = 0;
    candidate_replacements = 0;
    relocation_spans = some (call_span ∷ []);
    paired_module_relative_replacements = none;
    reference_instruction_count = none;
    candidate_instruction_count = none;
    first_mismatch_instruction = none;
    reference_first_mismatch = none;
    candidate_first_mismatch = none;
  };
}

relocated :
    compare_executable_range
      (call_inputs no_rows candidate_call)
      (whole_range reference_module candidate_module)
    ≡ ok relocated_verdict
unfolding compare_executable_range list_beq
relocated = refl

compare_executable_range-IsVerdict_example :
    IsVerdict
      (call_inputs no_rows candidate_call)
      (whole_range reference_module candidate_module)
      relocated_verdict
compare_executable_range-IsVerdict_example =
    compare_executable_range-IsVerdict (call_inputs no_rows candidate_call)
      (whole_range reference_module candidate_module) relocated_verdict relocated

not_compared :
    compare_executable_range (call_inputs no_rows candidate_call) (whole_range (0, 4) (0, 4))
    ≡ err analysis_error
unfolding compare_executable_range list_beq
not_compared = refl

compare_executable_range-IsFailure_example :
    IsFailure (call_inputs no_rows candidate_call) (whole_range (0, 4) (0, 4)) analysis_error
compare_executable_range-IsFailure_example =
    compare_executable_range-IsFailure (call_inputs no_rows candidate_call)
      (whole_range (0, 4) (0, 4)) analysis_error not_compared
