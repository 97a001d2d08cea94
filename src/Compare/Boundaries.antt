-- ===== src/Compare/Boundaries.antt =====
-- The places at which analyze of projects/binary-compare/analyze.py cuts an assembly module: its
-- start, the symbols that both images have, and its end.
pub mod Rising
use mos_agondev.Compare.Maps.{keep_some}
use mos_agondev.Compare.Modules.{Matched, set_default}
use mos_agondev.Compare.Records.{Symbol, candidate_end, module_end}
use mos_agondev.Compare.Tokens.{str_le}
use mos_agondev.Prelude.{
  Bool, Dict, List, Option, [], filter, if◌then◌else◌, leb, list_eq, lookup, ltb, map, nat_eq, none,
  option_eq, pair_eq, some, sort_by, ℕ, ◌&&◌, ◌++◌, ◌==◌, ◌∷◌,
}
use mos_agondev.Text.{Str, casefold, codes, str_lt}

pub record Boundary : Type 0 where
  pub name : Str
  pub reference_address : ℕ
  pub candidate_address : ℕ

-- `zds_by_module_segment.get((module, segment), [])`
unfoldable pub symbols_of : Str × Str → List Symbol → List Symbol
unfolding casefold
symbols_of key = filter (λ symbol.
    symbol.address_space == codes "C"
    && casefold symbol.module_name == key.0
    && symbol.segment == key.1)

-- the order of `(item.address, item.name)`
unfoldable pub symbol_le : Symbol → Symbol → Bool
unfolding str_lt
symbol_le s t = if s.address == t.address then str_le s.name t.name else ltb s.address t.address

abbrev strictly_within : ℕ → ℕ → ℕ → Bool
strictly_within low high address = ltb low address && ltb address high

-- the boundary at a symbol that stands within both ranges
unfoldable pub boundary_of : Matched → Dict Str Symbol → Symbol → Option Boundary
unfolding lookup
boundary_of (r, c) candidate_by_name symbol = elim (lookup symbol.name candidate_by_name) [
  | none ↦ none
  | some candidate_symbol ↦
      if strictly_within r.address (module_end r) symbol.address
        && strictly_within c.address (candidate_end c) candidate_symbol.address
      then some (record {
        name = symbol.name;
        reference_address = symbol.address;
        candidate_address = candidate_symbol.address;
      })
      else none
]

-- `unique_by_address.setdefault(symbol.address, symbol)`
unfoldable pub unique_by_address : List Boundary → Dict ℕ Boundary → Dict ℕ Boundary
unfolding set_default
unique_by_address [] d = d
unique_by_address (b ∷ bs) d = unique_by_address bs (set_default b.reference_address b d)

-- `sorted(unique_by_address.values(), key=lambda item: item.address)`
unfoldable pub shared_boundaries : Matched → Dict Str Symbol → List Symbol → List Boundary
unfolding unique_by_address boundary_of symbol_le sort_by
shared_boundaries matched candidate_by_name symbols =
    sort_by (λ a b. leb a.reference_address b.reference_address)
      (map (λ entry. entry.1)
        (unique_by_address
          (keep_some (boundary_of matched candidate_by_name) (sort_by symbol_le symbols)) []))

-- a boundary that is not behind the one in front of it
pub record InvalidBoundary : Type 0 where
  pub boundary : Boundary
  pub previous : Boundary

-- `symbol.address > previous[1] and candidate_address > previous[2]`
abbrev pub rises : Boundary → Boundary → Bool
rises previous b =
    ltb previous.reference_address b.reference_address
    && ltb previous.candidate_address b.candidate_address

-- the loop that appends to `boundaries`, and stops at the first invalid one
unfoldable pub placed_boundaries : Boundary → List Boundary → List Boundary × Option InvalidBoundary
placed_boundaries previous [] = ([], none)
placed_boundaries previous (b ∷ bs) =
    let (placed, invalid) = placed_boundaries b bs in
    if rises previous b
    then (b ∷ placed, invalid)
    else ([], some (record { boundary = b; previous = previous }))

-- `boundaries[-2]`, once the end is there
unfoldable pub last_boundary : Boundary → List Boundary → Boundary
last_boundary previous [] = previous
last_boundary previous (b ∷ bs) = last_boundary b bs

abbrev pub module_start : Matched → Boundary
module_start (r, c) = record {
  name = codes "<module-start>";
  reference_address = r.address;
  candidate_address = c.address;
}

abbrev pub module_stop : Matched → Boundary
module_stop (r, c) = record {
  name = codes "<module-end>";
  reference_address = module_end r;
  candidate_address = candidate_end c;
}

-- all boundaries of a module, or what is wrong with them
pub data Cut : Type 0 where
  cut_at : List Boundary → Cut
  no_cut : Option InvalidBoundary → Cut

abbrev cut_unless : Matched → List Boundary → Option InvalidBoundary → Cut
cut_unless matched placed (some invalid) = no_cut (some invalid)
cut_unless matched placed none =
    if rises (last_boundary (module_start matched) placed) (module_stop matched)
    then cut_at (placed ++ (module_stop matched ∷ []))
    else no_cut none

-- the boundaries behind the module's start
unfoldable pub cut_module : Matched → List Boundary → Cut
unfolding placed_boundaries last_boundary
cut_module matched shared =
    let (placed, invalid) = placed_boundaries (module_start matched) shared in
    cut_unless matched placed invalid
