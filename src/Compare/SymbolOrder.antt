-- ===== src/Compare/SymbolOrder.antt =====
-- symbol_order_comparisons of projects/binary-compare/analyze.py: the order of the symbols of each
-- module in both images.
pub mod Sorted
use mos_agondev.Compare.Boundaries.{symbol_le}
use mos_agondev.Compare.Records.{Symbol}
use mos_agondev.Compare.Slices.{key_le}
use mos_agondev.Compare.Tokens.{by_name, by_name_from, str_le}
use mos_agondev.Prelude.{
  Bool, Dict, List, [], all, has_key, if◌then◌else◌, list_eq, lookup, ltb, map, nat_eq, none,
  option_eq, pair_eq, some, sort_by, true, ℕ, ◌&&◌, ◌++◌, ◌==◌, ◌∷◌,
}
use mos_agondev.Text.{Str, casefold, codes, str_lt}

pub record OrderItem : Type 0 where
  pub id : Str
  pub module_name : Str
  pub segment : Str
  -- `same-order`, or else `reordered`
  pub in_same_order : Bool
  pub reference_order : List Str
  pub candidate_order : List Str

-- `grouped[key].append(symbol)`
unfoldable pub add_symbol_to :
    Str × Str → Symbol → Dict (Str × Str) (List Symbol) → Dict (Str × Str) (List Symbol)
add_symbol_to key symbol [] = (key, symbol ∷ []) ∷ []
add_symbol_to key symbol ((k, symbols) ∷ d) =
    let rest = add_symbol_to key symbol d in
    if k == key then (k, symbols ++ (symbol ∷ [])) ∷ d else (k, symbols) ∷ rest

unfoldable pub grouped_symbols :
    Dict Str Symbol → List Symbol → Dict (Str × Str) (List Symbol) → Dict (Str × Str) (List Symbol)
unfolding add_symbol_to has_key casefold
grouped_symbols candidate_by_name [] d = d
grouped_symbols candidate_by_name (symbol ∷ symbols) d =
    let passed = grouped_symbols candidate_by_name symbols d in
    let added =
      grouped_symbols candidate_by_name symbols
        (add_symbol_to (casefold symbol.module_name, symbol.segment) symbol d) in
    if symbol.address_space == codes "C" && has_key symbol.name candidate_by_name
    then added
    else passed

-- `candidate_by_name[name].address` of a name that is there
unfoldable pub candidate_address : Dict Str Symbol → Str → ℕ
unfolding lookup
candidate_address candidate_by_name name = elim (lookup name candidate_by_name) [
  | none ↦ 0
  | some symbol ↦ symbol.address
]

-- the order of `(candidate_by_name[name].address, name)`
unfoldable pub candidate_le : Dict Str Symbol → Str → Str → Bool
unfolding candidate_address str_lt
candidate_le candidate_by_name s t =
    let a = candidate_address candidate_by_name s in
    let b = candidate_address candidate_by_name t in if a == b then str_le s t else ltb a b

unfoldable pub order_item : Dict Str Symbol → Str × Str → List Symbol → OrderItem
unfolding candidate_le symbol_le sort_by
order_item candidate_by_name key symbols =
    let reference_order = map (λ symbol. symbol.name) (sort_by symbol_le symbols) in
    let candidate_order = sort_by (candidate_le candidate_by_name) reference_order in
    record {
      id = codes "symbol-order:" ++ (key.0 ++ (b':' ∷ key.1));
      module_name = key.0;
      segment = key.1;
      in_same_order = reference_order == candidate_order;
      reference_order = reference_order;
      candidate_order = candidate_order;
    }

-- `len(unique_names) < 2`
unfoldable pub one_name : List Symbol → Bool
one_name [] = true
one_name (symbol ∷ symbols) = all (λ s. s.name == symbol.name) symbols

unfoldable pub order_items : Dict Str Symbol → Dict (Str × Str) (List Symbol) → List OrderItem
unfolding order_item one_name
order_items candidate_by_name [] = []
order_items candidate_by_name ((key, symbols) ∷ groups) =
    let rest = order_items candidate_by_name groups in
    if one_name symbols then rest else order_item candidate_by_name key symbols ∷ rest

unfoldable pub symbol_order_comparisons : List Symbol → List Symbol → List OrderItem
unfolding order_items grouped_symbols by_name_from key_le sort_by
symbol_order_comparisons reference_symbols candidate_symbols =
    let candidate_by_name = by_name candidate_symbols in
    order_items candidate_by_name
      (sort_by (λ a b. key_le (a.0) (b.0)) (grouped_symbols candidate_by_name reference_symbols []))
