-- ===== src/Compare/Executable/Fails.antt =====
-- The errors of compare_executable_range, in projects/binary-compare/analyze.py.
use mos_agondev.Compare.Disassembly.{run_disassembler}
use mos_agondev.Compare.Executable.{
  Inputs, Range, compare_disassembled, compare_executable_range, compare_streams, start_details,
}
use mos_agondev.Compare.Executable.Verdicts.{candidate_data, reference_data}
use mos_agondev.Compare.Relocation.{relocation_byte_spans}
use mos_agondev.Errors.{Fault, bind_two-eq-err, err}
use mos_agondev.Prelude.{
  Bool-cases, Option-cases, arith, inl, inr, list_beq_iff, list_eq, nat_eq, none, option_eq,
  pair_eq, ◌==◌, ◌≡◌, ◌≢◌, ◌⊎◌,
}

-- What an error of a comparison means.
pub record IsFailure (inputs : Inputs) (range : Range) (fault : Fault) : Type 0 where
  pub bytes_differ : reference_data inputs range ≢ candidate_data inputs range
  pub not_relocated :
      relocation_byte_spans
        (reference_data inputs range)
        (candidate_data inputs range)
        range.reference_context
        range.candidate_context
        inputs.tables.paired_tokens
      ≡ none
  pub disassembly_failed :
      (run_disassembler inputs.objdump inputs.reference_image range.reference_start
          range.reference_end
        ≡ err fault)
      ⊎ (run_disassembler inputs.objdump inputs.candidate_image range.candidate_start
            range.candidate_end_at
          ≡ err fault)

-- compare_executable_range fails only where the bytes differ, relocations do not explain it, and
-- the disassembly of one of the two ranges fails with the same error.
pub compare_executable_range-IsFailure :
    (inputs : Inputs) (range : Range) (fault : Fault)
    → compare_executable_range inputs range ≡ err fault
    → IsFailure inputs range fault
unfolding compare_executable_range compare_disassembled
compare_executable_range-IsFailure inputs range fault h =
    let reference = reference_data inputs range in
    let candidate = candidate_data inputs range in
    let details = start_details reference candidate in
    let spans_of =
      relocation_byte_spans reference candidate range.reference_context range.candidate_context
        inputs.tables.paired_tokens in
    elim (Bool-cases (reference == candidate)) [
      | inl e ↦ cc (rw e at h)
      | inr e ↦ elim (Option-cases spans_of) [
        | inr (spans, covered) ↦ cc (rw (e, covered) at h)
        | inl absent ↦ record {
          bytes_differ = λ same. ground (arith, e, (list_beq_iff reference candidate).1 same);
          not_relocated = absent;
          disassembly_failed =
              bind_two-eq-err _ _
                (λ r c.
                  compare_streams inputs.tables range.reference_context range.candidate_context
                    details r c)
                (rw (e, absent) at h);
        }
      ]
    ]
