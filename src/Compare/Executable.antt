-- ===== src/Compare/Executable.antt =====
-- compare_executable_range of projects/binary-compare/analyze.py: the classification of one range
-- of each image.
pub mod Verdicts
pub mod Fails
pub mod Classes
use mos_agondev.Compare.Disassembly.{Objdump, run_disassembler}
use mos_agondev.Compare.Image.{slice}
use mos_agondev.Compare.Normalize.{Tables, normalize_instructions, normalize_paired_local_targets}
use mos_agondev.Compare.Records.{Instruction}
use mos_agondev.Compare.Relocation.{Relocation, relocation_byte_spans}
use mos_agondev.Errors.{Result, ok, ◌>>=◌, ◌>>◌}
use mos_agondev.Prelude.{
  Bool, List, Option, [], false, if◌then◌else◌, length, list_eq, nat_eq, none, not, option_eq,
  pair_eq, some, suc, true, zero, ℕ, ◌&&◌, ◌==◌, ◌∷◌,
}
use mos_agondev.Text.{Str, codes}

pub data Classification : Type 0 where
  exact relocation_only instruction_equivalent unexplained : Classification
  pending_slice_analysis compiler_codegen_different unexplained_data : Classification
  explained_source_divergence semantically_equivalent_codegen : Classification

pub record Details : Type 0 where
  pub reference_size : ℕ
  pub candidate_size : ℕ
  pub reference_replacements : ℕ
  pub candidate_replacements : ℕ
  pub relocation_spans : Option (List Relocation)
  pub paired_module_relative_replacements : Option ℕ
  pub reference_instruction_count : Option ℕ
  pub candidate_instruction_count : Option ℕ
  pub first_mismatch_instruction : Option ℕ
  pub reference_first_mismatch : Option Str
  pub candidate_first_mismatch : Option Str

pub record Verdict : Type 0 where
  pub classification : Classification
  pub confidence : Str
  pub reason : Str
  pub details : Details

abbrev start_details : List ℕ → List ℕ → Details
start_details reference_data candidate_data = record {
  reference_size = length reference_data;
  candidate_size = length candidate_data;
  reference_replacements = 0;
  candidate_replacements = 0;
  relocation_spans = none;
  paired_module_relative_replacements = none;
  reference_instruction_count = none;
  candidate_instruction_count = none;
  first_mismatch_instruction = none;
  reference_first_mismatch = none;
  candidate_first_mismatch = none;
}

-- `next((index ... if pair[0] != pair[1]), min(len(...), len(...)))`
unfoldable pub first_mismatch : List Str → List Str → ℕ
first_mismatch (r ∷ rs) (c ∷ cs) = let rest = first_mismatch rs cs in if r == c then suc rest else 0
first_mismatch _ _ = 0

abbrev text_at : ℕ → List Str → Option Str
text_at i [] = none
text_at zero (t ∷ ts) = some t
text_at (suc i) (t ∷ ts) = text_at i ts

-- `first or second`, for lists
abbrev or_list : List Str → List Str → List Str
or_list [] ts = ts
or_list (s ∷ ss) ts = s ∷ ss

abbrev not_empty_list : List Str → Bool
not_empty_list [] = false
not_empty_list (s ∷ ss) = true

-- the return for streams that differ
unfoldable pub unexplained_verdict : Details → List Str → List Str → List Str → List Str → Verdict
unfolding first_mismatch
unexplained_verdict details reference_normalized candidate_normalized paired_reference
      paired_candidate =
    let mismatch_reference = or_list paired_reference reference_normalized in
    let mismatch_candidate = or_list paired_candidate candidate_normalized in
    let mismatch = first_mismatch mismatch_reference mismatch_candidate in
    record {
      classification = unexplained;
      confidence = codes "none";
      reason = codes "normalized-instruction-stream-differs";
      details = record details {
        reference_instruction_count = some (length reference_normalized);
        candidate_instruction_count = some (length candidate_normalized);
        first_mismatch_instruction = some mismatch;
        reference_first_mismatch = text_at mismatch mismatch_reference;
        candidate_first_mismatch = text_at mismatch mismatch_candidate;
      };
    }

-- the return for streams that are equal once the addresses are named
unfoldable pub equal_streams_verdict : Details → Verdict
equal_streams_verdict details =
    if not (details.reference_replacements == 0) && not (details.candidate_replacements == 0)
    then record {
      classification = relocation_only;
      confidence = codes "medium";
      reason = codes "instruction-stream-equal-after-shared-symbol-address-normalization";
      details = details;
    }
    else record {
      classification = instruction_equivalent;
      confidence = codes "medium";
      reason = codes "disassembly-text-identical-with-different-encoding-bytes";
      details = details;
    }

-- the three returns for two streams, by the two tests
unfoldable pub stream_verdict : Bool → Bool → Verdict → Verdict → Verdict → Verdict
stream_verdict same_normalized same_paired equal paired different =
    if same_normalized then equal else if same_paired then paired else different

-- what follows the two disassemblies
unfoldable pub compare_streams :
    Tables → ℕ × ℕ → ℕ × ℕ → Details → List Instruction → List Instruction → Verdict
unfolding normalize_instructions normalize_paired_local_targets equal_streams_verdict
    unexplained_verdict stream_verdict
compare_streams tables reference_context candidate_context start reference candidate =
    let (reference_normalized, reference_count) =
      normalize_instructions reference tables.reference_tokens reference_context in
    let (candidate_normalized, candidate_count) =
      normalize_instructions candidate tables.candidate_tokens candidate_context in
    let details : Details = record start {
      reference_replacements = reference_count;
      candidate_replacements = candidate_count;
    } in
    let (paired_reference, paired_candidate, paired_count) =
      normalize_paired_local_targets tables reference_context candidate_context reference
        candidate in
    stream_verdict (reference_normalized == candidate_normalized)
      (not_empty_list paired_reference
        && paired_reference == paired_candidate
        && not (paired_count == 0))
      (equal_streams_verdict details)
      (record {
        classification = relocation_only;
        confidence = codes "medium";
        reason = codes "instruction-stream-equal-after-paired-module-relative-normalization";
        details = record details { paired_module_relative_replacements = some paired_count };
      })
      (unexplained_verdict details reference_normalized candidate_normalized paired_reference
        paired_candidate)

-- What a comparison reads: the two images, the disassembler and the tables of names.
pub record Inputs : Type 0 where
  pub objdump : Objdump
  pub reference_image : List ℕ
  pub candidate_image : List ℕ
  pub tables : Tables

-- a range of each image, with the module range that it stands in
pub record Range : Type 0 where
  pub reference_start : ℕ
  pub reference_end : ℕ
  pub candidate_start : ℕ
  pub candidate_end_at : ℕ
  pub reference_context : ℕ × ℕ
  pub candidate_context : ℕ × ℕ

-- from the first disassembly on
unfoldable pub compare_disassembled : Inputs → Range → Details → Result Verdict
unfolding run_disassembler compare_streams
compare_disassembled inputs range details = do
  reference ←
      run_disassembler inputs.objdump inputs.reference_image range.reference_start
        range.reference_end
  candidate ←
      run_disassembler inputs.objdump inputs.candidate_image range.candidate_start
        range.candidate_end_at
  ok (
      compare_streams inputs.tables range.reference_context range.candidate_context details
        reference candidate)

unfoldable pub compare_executable_range : Inputs → Range → Result Verdict
unfolding relocation_byte_spans compare_disassembled
compare_executable_range inputs range =
    let reference_data = slice range.reference_start range.reference_end inputs.reference_image in
    let candidate_data =
      slice range.candidate_start range.candidate_end_at inputs.candidate_image in
    let details = start_details reference_data candidate_data in
    let disassembled = compare_disassembled inputs range details in
    if reference_data == candidate_data
    then ok (record {
      classification = exact;
      confidence = codes "high";
      reason = codes "bytes-identical";
      details = details;
    })
    else elim (relocation_byte_spans reference_data candidate_data range.reference_context
        range.candidate_context inputs.tables.paired_tokens) [
          | some spans ↦ ok (record {
            classification = relocation_only;
            confidence = codes "medium";
            reason = codes "all-byte-differences-covered-by-recognized-d24-address-relocations";
            details = record details { relocation_spans = some spans };
          })
          | none ↦ disassembled
        ]
