-- ===== src/Compare/Anchors.antt =====
-- The comparison of C functions at their external symbols, in analyze of
-- projects/binary-compare/analyze.py.
pub mod Inside
use mos_agondev.Compare.Boundaries.{symbol_le, symbols_of}
use mos_agondev.Compare.Executable.{
  Classification, Details, Inputs, Range, Verdict, compare_executable_range,
  compiler_codegen_different, instruction_equivalent, semantically_equivalent_codegen, unexplained,
}
use mos_agondev.Compare.Maps.{keep_some}
use mos_agondev.Compare.Modules.{Matched, RangeLookup, Region, is_executable, set_default}
use mos_agondev.Compare.Ranges.{is_c}
use mos_agondev.Compare.Records.{ModuleRange, Symbol, candidate_end, module_end}
use mos_agondev.Errors.{Result, ok, ◌>>=◌}
use mos_agondev.Prelude.{
  Bool, Dict, List, Option, [], if◌then◌else◌, leb, list_eq, lookup, ltb, map, nat_eq, none, not,
  option_eq, pair_eq, some, sort_by, ℕ, ◌&&◌, ◌++◌, ◌+◌, ◌-◌, ◌==◌, ◌∷◌,
}
use mos_agondev.Text.{Str, casefold, codes}

pub record AnchorItem : Type 0 where
  pub id : Str
  pub module_name : Str
  pub segment : Str
  pub symbol : Str
  pub classification : Classification
  pub confidence : Str
  pub reason : Str
  pub reference : Region
  pub candidate : Region
  pub details : Details

-- a symbol of the reference with the candidate's symbol of its name
abbrev pub Anchor : Type 0
Anchor = Symbol × Symbol

-- the symbols that the candidate has as functions with a size
unfoldable pub anchor_of : Dict Str Symbol → Symbol → Option Anchor
unfolding lookup casefold
anchor_of candidate_by_name symbol = elim (lookup symbol.name candidate_by_name) [
  | none ↦ none
  | some c ↦
      if not (c.size == 0) && casefold c.symbol_type == codes "t" then some (symbol, c) else none
]

unfoldable pub unique_anchors : List Anchor → Dict ℕ Anchor → Dict ℕ Anchor
unfolding set_default
unique_anchors [] d = d
unique_anchors ((symbol, c) ∷ anchors) d =
    unique_anchors anchors (set_default symbol.address (symbol, c) d)

-- `ordered`
unfoldable pub ordered_anchors : Dict Str Symbol → List Symbol → List Anchor
unfolding unique_anchors anchor_of symbol_le sort_by
ordered_anchors candidate_by_name symbols =
    sort_by (λ a b. leb a.0.address b.0.address)
      (map (λ entry. entry.1)
        (unique_anchors
          (sort_by (λ a b. symbol_le (a.0) (b.0)) (keep_some (anchor_of candidate_by_name) symbols))
          []))

-- the next anchor's address, or the end of the module
abbrev next_address : ModuleRange → List Anchor → ℕ
next_address r [] = module_end r
next_address r ((symbol, c) ∷ anchors) = symbol.address

-- the conditions under which an anchor is compared
unfoldable pub safe_anchor : Matched → ℕ → Anchor → Bool
safe_anchor (r, c) reference_end (symbol, candidate_symbol) =
    let stop = candidate_symbol.address + candidate_symbol.size in
    ltb symbol.address reference_end
    && ltb candidate_symbol.address stop
    && leb reference_end (module_end r)
    && leb c.address candidate_symbol.address
    && leb stop (candidate_end c)

-- the two classifications that read differently for compiled code
unfoldable pub compiled_verdict : Verdict → Verdict
compiled_verdict verdict = elim (verdict.classification) [
  | instruction_equivalent ↦ record verdict {
    classification = semantically_equivalent_codegen;
    confidence = codes "medium";
    reason = codes "bounded-disassembly-instruction-stream-identical";
  }
  | unexplained ↦ record verdict {
    classification = compiler_codegen_different;
    confidence = codes "none";
    reason = codes "different-c-compiler-no-semantic-equivalence-claim";
  }
  | _ ↦ verdict
]

unfoldable pub anchor_item : Str × Str → ℕ → Anchor → Verdict → AnchorItem
anchor_item key reference_end (symbol, c) verdict = record {
  id = codes "c-anchor:" ++ (key.0 ++ (b':' ∷ symbol.name));
  module_name = key.0;
  segment = key.1;
  symbol = symbol.name;
  classification = verdict.classification;
  confidence = verdict.confidence;
  reason = verdict.reason;
  reference = record { address = symbol.address; size = reference_end - symbol.address };
  candidate = record { address = c.address; size = c.size };
  details = verdict.details;
}

abbrev pub anchor_range : Matched → ℕ → Anchor → Range
anchor_range (r, c) reference_end (symbol, candidate_symbol) = record {
  reference_start = symbol.address;
  reference_end = reference_end;
  candidate_start = candidate_symbol.address;
  candidate_end_at = candidate_symbol.address + candidate_symbol.size;
  reference_context = (r.address, module_end r);
  candidate_context = (c.address, candidate_end c);
}

-- the loop over the anchors of a module
unfoldable pub compare_anchors :
    Inputs → Str × Str → Matched → List Anchor → Result (List AnchorItem)
unfolding safe_anchor compare_executable_range compiled_verdict anchor_item
compare_anchors inputs key matched [] = ok []
compare_anchors inputs key matched (anchor ∷ anchors) =
    let reference_end = next_address (matched.0) anchors in
    let passed = compare_anchors inputs key matched anchors in
    let compared =
      compare_executable_range inputs (anchor_range matched reference_end anchor) >>= λ verdict.
      passed >>= λ more.
      ok (anchor_item key reference_end anchor (compiled_verdict verdict) ∷ more) in
    if safe_anchor matched reference_end anchor then compared else passed

unfoldable pub anchors_of_module :
    Inputs → List Symbol → Dict Str Symbol → Str × Str → Matched → Result (List AnchorItem)
unfolding compare_anchors ordered_anchors symbols_of is_c is_executable
anchors_of_module inputs zds_symbols candidate_by_name key (r, c) =
    let anchors = ordered_anchors candidate_by_name (symbols_of key zds_symbols) in
    let compared = compare_anchors inputs key (r, c) anchors in
    if is_c r.module_path && is_executable (key.1) then compared else ok []

-- the loop over the sorted `range_lookup`
unfoldable pub anchor_comparisons :
    Inputs → List Symbol → Dict Str Symbol → RangeLookup → Result (List AnchorItem)
unfolding anchors_of_module
anchor_comparisons inputs zds_symbols candidate_by_name [] = ok []
anchor_comparisons inputs zds_symbols candidate_by_name ((key, matched) ∷ rest) = do
  items ← anchors_of_module inputs zds_symbols candidate_by_name key matched
  more ← anchor_comparisons inputs zds_symbols candidate_by_name rest
  ok (items ++ more)
