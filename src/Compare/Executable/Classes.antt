-- ===== src/Compare/Executable/Classes.antt =====
-- The classifications that compare_executable_range can return, in
-- projects/binary-compare/analyze.py.
use mos_agondev.Compare.Executable.{
  Classification, Details, Inputs, Range, Verdict, compare_disassembled, compare_executable_range,
  compare_streams, equal_streams_verdict, exact, instruction_equivalent, relocation_only,
  start_details, stream_verdict, unexplained, unexplained_verdict,
}
use mos_agondev.Compare.Executable.Verdicts.{candidate_data, reference_data}
use mos_agondev.Compare.Normalize.{Tables}
use mos_agondev.Compare.Records.{Instruction}
use mos_agondev.Compare.Relocation.{relocation_byte_spans}
use mos_agondev.Errors.{bind_two-eq-ok, ok, ok-injective}
use mos_agondev.Prelude.{
  Bool, Bool-cases, List, Option-cases, ap, arith, false, inl, inr, list_eq, nat_eq, option_eq,
  pair_eq, sym, true, ℕ, ◌==◌, ◌∙◌, ◌≡◌,
}

abbrev pub is_range_class : Classification → Bool
is_range_class exact = true
is_range_class relocation_only = true
is_range_class instruction_equivalent = true
is_range_class unexplained = true
is_range_class _ = false

class-stream_verdict :
    (same paired : Bool) (x y z : Verdict)
    → is_range_class x.classification ≡ true
    → is_range_class y.classification ≡ true
    → is_range_class z.classification ≡ true
    → is_range_class (stream_verdict same paired x y z).classification ≡ true
unfolding stream_verdict
class-stream_verdict true paired x y z p q r = p
class-stream_verdict false true x y z p q r = q
class-stream_verdict false false x y z p q r = r

class-equal_streams :
    (details : Details) → is_range_class (equal_streams_verdict details).classification ≡ true
unfolding equal_streams_verdict
class-equal_streams details = ground arith

class-compare_streams :
    (tables : Tables) (reference_context candidate_context : ℕ × ℕ) (details : Details)
    (reference candidate : List Instruction)
    → is_range_class
        (compare_streams tables reference_context candidate_context details reference
          candidate).classification
      ≡ true
unfolding compare_streams unexplained_verdict
class-compare_streams tables reference_context candidate_context details reference candidate =
    search (class-stream_verdict, class-equal_streams)

class-compare_disassembled :
    (inputs : Inputs) (range : Range) (details : Details) (verdict : Verdict)
    → compare_disassembled inputs range details ≡ ok verdict
    → is_range_class verdict.classification ≡ true
unfolding compare_disassembled
class-compare_disassembled inputs range details verdict h =
    let (reference, candidate, read_reference, read_candidate, same_verdict) =
      bind_two-eq-ok _ _
        (λ r c.
          compare_streams inputs.tables range.reference_context range.candidate_context details r c)
        h in
    ap (λ v. is_range_class v.classification) (sym same_verdict)
    ∙ class-compare_streams inputs.tables range.reference_context range.candidate_context details
        reference candidate

pub compare_executable_range-class :
    (inputs : Inputs) (range : Range) (verdict : Verdict)
    → compare_executable_range inputs range ≡ ok verdict
    → is_range_class verdict.classification ≡ true
unfolding compare_executable_range
compare_executable_range-class inputs range verdict h =
    let reference = reference_data inputs range in
    let candidate = candidate_data inputs range in
    let spans_of =
      relocation_byte_spans reference candidate range.reference_context range.candidate_context
        inputs.tables.paired_tokens in
    elim (Bool-cases (reference == candidate)) [
      | inl e ↦ ap (λ v. is_range_class v.classification) (sym (ok-injective _ _ (rw e at h)))
      | inr e ↦ elim (Option-cases spans_of) [
        | inl absent ↦
            class-compare_disassembled inputs range (start_details reference candidate) verdict
              (rw (e, absent) at h)
        | inr (spans, covered) ↦
            ap (λ v. is_range_class v.classification)
              (sym (ok-injective _ _ (rw (e, covered) at h)))
      ]
    ]
