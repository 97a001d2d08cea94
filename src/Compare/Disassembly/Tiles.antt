-- ===== src/Compare/Disassembly/Tiles.antt =====
-- What run_disassembler of projects/binary-compare/analyze.py returns.
use mos_agondev.Compare.Disassembly.{Objdump, contiguous, instruction_of, run_disassembler}
use mos_agondev.Compare.Maps.{keep_some, not_empty}
use mos_agondev.Compare.Records.{Instruction}
use mos_agondev.Errors.{
  analysis_error, bind-eq-ok, fail_if, fail_if-not-ok, from_option, ok, ok-injective, ◌>>=◌, ◌>>◌,
}
use mos_agondev.Prelude.{
  Bool, Bool-cases, List, [], any, arith, inl, inr, leb, length, list_eq, ltb, nat_eq, not,
  option_eq, pair_eq, subst, sum_by, true, ℕ, ◌&&◌, ◌+◌, ◌<◌, ◌==◌, ◌∷◌, ◌≡◌, ◌≤◌,
}
use mos_agondev.Text.Words.{lines_of}

-- `instruction.address <= address < instruction.address + len(instruction.raw)`
abbrev pub holds : ℕ → Instruction → Bool
holds address instruction =
    leb instruction.address address && ltb address (instruction.address + length instruction.raw)

abbrev raw_size : Instruction → ℕ
raw_size instruction = length instruction.raw

-- Instructions that fill a range of addresses without a gap.
pub record IsTiling (start stop : ℕ) (instructions : List Instruction) : Type 0 where
  pub sizes_add_up : start + sum_by raw_size instructions ≡ stop
  pub each_held :
      (address : ℕ) → start ≤ address → address < stop → any (holds address) instructions ≡ true

contiguous-IsTiling :
    (start stop : ℕ) (instructions : List Instruction)
    → contiguous start stop instructions ≡ ok tt
    → IsTiling start stop instructions
unfolding contiguous
contiguous-IsTiling start stop [] h =
    let same : start ≡ stop = ground (arith, fail_if-not-ok _ _ h) in
    record {
      sizes_add_up = omega (arith, same);
      each_held = λ a k l. absurd (omega (arith, same, k, l));
    }
contiguous-IsTiling start stop (first ∷ rest) h =
    let (passed, k1, k2) =
      bind-eq-ok (fail_if (not (first.address == start)) analysis_error)
        (λ _. contiguous (start + length first.raw) stop rest) h in
    let here : first.address ≡ start = ground (arith, fail_if-not-ok _ _ k1) in
    let tiled = contiguous-IsTiling (start + length first.raw) stop rest k2 in
    record {
      sizes_add_up = omega (arith, tiled.sizes_add_up);
      each_held = λ a k l. ground (arith, k, l, here, tiled.each_held a);
    }

-- When run_disassembler returns instructions for a range, they fill the range without a gap: their
-- sizes add up to it, and each address of it lies in one of them.
pub run_disassembler-IsTiling :
    (objdump : Objdump) (image : List ℕ) (start stop : ℕ) (instructions : List Instruction)
    → start ≤ stop
    → run_disassembler objdump image start stop ≡ ok instructions
    → IsTiling start stop instructions
unfolding run_disassembler
run_disassembler-IsTiling objdump image start stop instructions fits h =
    elim (Bool-cases (leb stop start)) [
      | inl e ↦ subst (IsTiling start stop) (ok-injective _ _ (rw e at h)) (record {
        sizes_add_up = ground (arith, e, fits);
        each_held = λ a k l. absurd (ground (arith, e, k, l));
      })
      | inr e ↦
          let (printed, k1, h1) =
            bind-eq-ok (from_option analysis_error (objdump image start stop))
              (λ printed. not_empty (keep_some instruction_of (lines_of printed)) >>= λ read.
                contiguous start stop read >> ok read)
              (rw e at h) in
          let (read, k2, h2) =
            bind-eq-ok (not_empty (keep_some instruction_of (lines_of printed)))
              (λ read. contiguous start stop read >> ok read) h1 in
          let (unit, k3, h3) = bind-eq-ok (contiguous start stop read) (λ _. ok read) h2 in
          subst (IsTiling start stop) (ok-injective _ _ h3) (contiguous-IsTiling start stop read k3)
    ]
