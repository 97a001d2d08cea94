-- ===== src/Compare/SymbolOrder/Sorted.antt =====
-- What `same-order` means in symbol_order_comparisons of projects/binary-compare/analyze.py.
use mathlib.Core.List.{Perm}
use mos_agondev.Compare.Boundaries.{symbol_le}
use mos_agondev.Compare.Records.{Symbol}
use mos_agondev.Compare.SymbolOrder.{OrderItem, candidate_le, order_item}
use mos_agondev.Prelude.{
  Dict, IsSorted, List, [], arith, false, list_beq_iff, list_eq, map, nat_eq, option_eq, pair_eq,
  refl, sort_by, sort_by-IsSorted, sort_by-Perm, sort_by-fixed, subst, sym, true, ◌↔◌, ◌∷◌, ◌≡◌,
}
use mos_agondev.Text.{Str, str_lt}

str_lt-asymmetric : (s t : Str) → str_lt s t ≡ true → str_lt t s ≡ false
unfolding str_lt
str_lt-asymmetric [] (d ∷ ds) h = refl
str_lt-asymmetric (c ∷ cs) (d ∷ ds) h = ground (arith, h, str_lt-asymmetric cs ds)
str_lt-asymmetric [] [] h = cc
str_lt-asymmetric (c ∷ cs) [] h = cc

candidate_le-total :
    (d : Dict Str Symbol) (s t : Str) → candidate_le d s t ≡ false → candidate_le d t s ≡ true
unfolding candidate_le
candidate_le-total d s t h = ground (arith, h, str_lt-asymmetric s t, str_lt-asymmetric t s)

symbol_le-total : (s t : Symbol) → symbol_le s t ≡ false → symbol_le t s ≡ true
unfolding symbol_le
symbol_le-total s t h =
    ground (arith, h, str_lt-asymmetric s.name t.name, str_lt-asymmetric t.name s.name)

-- the symbols of a module in the order of the reference, and their names in the order of each image
pub record IsOrdered (candidate_by_name : Dict Str Symbol) (symbols in_order : List Symbol)
    (item : OrderItem) : Type 0 where
  pub all_symbols : Perm in_order symbols
  pub by_reference : IsSorted symbol_le in_order
  pub reference_names : item.reference_order ≡ map (λ (symbol : Symbol). symbol.name) in_order
  pub all_names : Perm item.candidate_order item.reference_order
  pub by_candidate : IsSorted (candidate_le candidate_by_name) item.candidate_order

-- The reference's order of a module names all its symbols, and their addresses in the reference,
-- and for equal addresses their names, ascend. The candidate's order has the same names, each as
-- often, and their addresses in the candidate, and for equal addresses the names, ascend. The
-- comparison is `same-order` exactly when the names in the reference's order ascend in this way in
-- the candidate too.
pub order_item-IsOrdered :
    (candidate_by_name : Dict Str Symbol) (key : Str × Str) (symbols : List Symbol)
    → let item = order_item candidate_by_name key symbols in
      ((in_order : List Symbol) × IsOrdered candidate_by_name symbols in_order item)
      × ((item.in_same_order ≡ true)
          ↔ IsSorted (candidate_le candidate_by_name) item.reference_order)
unfolding order_item
order_item-IsOrdered candidate_by_name key symbols =
    let le = candidate_le candidate_by_name in
    let names = map (λ (symbol : Symbol). symbol.name) (sort_by symbol_le symbols) in
    let ascending = sort_by-IsSorted le names (candidate_le-total candidate_by_name) in
    (
      (
        sort_by symbol_le symbols,
        record {
          all_symbols = sort_by-Perm symbol_le symbols;
          by_reference = sort_by-IsSorted symbol_le symbols symbol_le-total;
          reference_names = refl;
          all_names = sort_by-Perm le names;
          by_candidate = ascending;
        },
      ),
      (
        (λ same.
            subst (IsSorted le) (sym ((list_beq_iff names (sort_by le names)).0 same)) ascending),
        (λ sorted. (list_beq_iff names (sort_by le names)).1 (sym (sort_by-fixed le names sorted))),
      ),
    )
