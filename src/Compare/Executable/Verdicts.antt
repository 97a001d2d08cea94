-- ===== src/Compare/Executable/Verdicts.antt =====
-- What the classifications of compare_executable_range stand for, in
-- projects/binary-compare/analyze.py.
use mos_agondev.Compare.Disassembly.{run_disassembler}
use mos_agondev.Compare.Executable.{
  Classification, Details, Inputs, Range, Verdict, compare_disassembled, compare_executable_range,
  compare_streams, equal_streams_verdict, exact, relocation_only, start_details, stream_verdict,
  unexplained_verdict,
}
use mos_agondev.Compare.Image.{slice}
use mos_agondev.Compare.Normalize.{Tables}
use mos_agondev.Compare.Records.{Instruction}
use mos_agondev.Compare.Relocation.{Relocation, relocation_byte_spans}
use mos_agondev.Compare.Relocation.Sound.{Explains, relocation_byte_spans-Explains}
use mos_agondev.Errors.{bind_two-eq-ok, ok, ok-injective}
use mos_agondev.Prelude.{
  Bool, Bool-cases, List, Option-cases, ap, arith, false, inl, inr, list_beq_iff, list_eq, nat_eq,
  option_eq, pair_eq, some, subst, sym, true, ℕ, ◌==◌, ◌≡◌, ◌≢◌,
}

abbrev pub is_exact : Classification → Bool
is_exact exact = true
is_exact _ = false

abbrev pub reference_data : Inputs → Range → List ℕ
reference_data inputs range = slice range.reference_start range.reference_end inputs.reference_image

abbrev pub candidate_data : Inputs → Range → List ℕ
candidate_data inputs range =
    slice range.candidate_start range.candidate_end_at inputs.candidate_image

-- The ways to a verdict.
pub data IsVerdict (inputs : Inputs) (range : Range) : Verdict → Type 0 where
  same_bytes :
      {verdict : Verdict}
      → reference_data inputs range ≡ candidate_data inputs range
      → verdict.classification ≡ exact
      → IsVerdict inputs range verdict
  same_but_addresses :
      {verdict : Verdict} (spans : List Relocation)
      → verdict.classification ≡ relocation_only
      → verdict.details.relocation_spans ≡ some spans
      → Explains
          (reference_data inputs range)
          (candidate_data inputs range)
          range.reference_context
          range.candidate_context
          inputs.tables.paired_tokens
          spans
      → IsVerdict inputs range verdict
  read_instructions :
      {verdict : Verdict} (reference candidate : List Instruction)
      → reference_data inputs range ≢ candidate_data inputs range
      → run_disassembler inputs.objdump inputs.reference_image range.reference_start
          range.reference_end
        ≡ ok reference
      → run_disassembler inputs.objdump inputs.candidate_image range.candidate_start
          range.candidate_end_at
        ≡ ok candidate
      → is_exact verdict.classification ≡ false
      → IsVerdict inputs range verdict

not-exact-equal_streams :
    (details : Details) → is_exact (equal_streams_verdict details).classification ≡ false
unfolding equal_streams_verdict
not-exact-equal_streams details = ground arith

not-exact-stream_verdict :
    (same paired : Bool) (x y z : Verdict)
    → is_exact x.classification ≡ false
    → is_exact y.classification ≡ false
    → is_exact z.classification ≡ false
    → is_exact (stream_verdict same paired x y z).classification ≡ false
unfolding stream_verdict
not-exact-stream_verdict true paired x y z p q r = p
not-exact-stream_verdict false true x y z p q r = q
not-exact-stream_verdict false false x y z p q r = r

-- The comparison of instructions never says that the bytes are the same.
compare_streams-not-exact :
    (tables : Tables) (reference_context candidate_context : ℕ × ℕ) (details : Details)
    (reference candidate : List Instruction)
    → is_exact
        (compare_streams tables reference_context candidate_context details reference
          candidate).classification
      ≡ false
unfolding compare_streams unexplained_verdict
compare_streams-not-exact tables reference_context candidate_context details reference candidate =
    search (not-exact-stream_verdict, not-exact-equal_streams)

compare_disassembled-IsVerdict :
    (inputs : Inputs) (range : Range) (details : Details) (verdict : Verdict)
    → reference_data inputs range ≢ candidate_data inputs range
    → compare_disassembled inputs range details ≡ ok verdict
    → IsVerdict inputs range verdict
unfolding compare_disassembled
compare_disassembled-IsVerdict inputs range details verdict differ h =
    let (reference, candidate, read_reference, read_candidate, same_verdict) =
      bind_two-eq-ok _ _
        (λ r c.
          compare_streams inputs.tables range.reference_context range.candidate_context details r c)
        h in
    subst (IsVerdict inputs range) same_verdict (
      read_instructions reference candidate differ read_reference read_candidate (
        compare_streams-not-exact inputs.tables range.reference_context range.candidate_context
          details reference candidate))

-- What compare_executable_range says of a range: `exact` for the same bytes; `relocation-only` with
-- spans that explain all differences; and otherwise bytes that differ, two disassemblies, and a
-- classification other than `exact`.
pub compare_executable_range-IsVerdict :
    (inputs : Inputs) (range : Range) (verdict : Verdict)
    → compare_executable_range inputs range ≡ ok verdict
    → IsVerdict inputs range verdict
unfolding compare_executable_range
compare_executable_range-IsVerdict inputs range verdict h =
    let reference = reference_data inputs range in
    let candidate = candidate_data inputs range in
    let spans_of =
      relocation_byte_spans reference candidate range.reference_context range.candidate_context
        inputs.tables.paired_tokens in
    elim (Bool-cases (reference == candidate)) [
      | inl e ↦
          same_bytes ((list_beq_iff reference candidate).0 e)
            (ap (λ v. v.classification) (sym (ok-injective _ _ (rw e at h))))
      | inr e ↦ elim (Option-cases spans_of) [
        | inl absent ↦
            compare_disassembled-IsVerdict inputs range (start_details reference candidate) verdict
              (λ same. ground (arith, e, (list_beq_iff reference candidate).1 same))
              (rw (e, absent) at h)
        | inr (spans, covered) ↦
            let same_verdict = ok-injective _ _ (rw (e, covered) at h) in
            same_but_addresses spans (ap (λ v. v.classification) (sym same_verdict))
              (ap (λ v. v.details.relocation_spans) (sym same_verdict))
              (relocation_byte_spans-Explains reference candidate range.reference_context
                range.candidate_context inputs.tables.paired_tokens spans covered)
      ]
    ]
