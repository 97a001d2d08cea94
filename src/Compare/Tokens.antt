-- ===== src/Compare/Tokens.antt =====
-- shared_symbol_tokens of projects/binary-compare/analyze.py, and the paired tokens that analyze
-- makes of it: names for the addresses that both images have a symbol for.
pub mod Unique
use mos_agondev.Compare.Records.{Symbol}
use mos_agondev.Prelude.{
  Bool, Comparable, Dict, List, Option, [], filter, has_key, if◌then◌else◌, insert, length, list_eq,
  lookup, ltb, map, nat_eq, none, not, option_eq, pair_eq, some, sort_by, suc, ℕ, ◌++◌, ◌==◌, ◌∷◌,
}
use mos_agondev.Text.{Str, str_lt}

-- `{item.name: item for item in symbols}`
unfoldable pub by_name_from : Dict Str Symbol → List Symbol → Dict Str Symbol
unfolding insert
by_name_from d [] = d
by_name_from d (item ∷ items) = by_name_from (insert item.name item d) items

abbrev pub by_name : List Symbol → Dict Str Symbol
by_name = by_name_from []

-- `s <= t` on strings
abbrev pub str_le : Str → Str → Bool
str_le s t = not (str_lt t s)

-- `sorted(reference_by_name.keys() & candidate_by_name.keys())`
unfoldable pub shared_names : Dict Str Symbol → Dict Str Symbol → List Str
unfolding has_key sort_by str_lt
shared_names reference candidate =
    sort_by str_le (filter (λ name. has_key name candidate) (map (λ entry. entry.0) reference))

-- the addresses of one shared name
unfoldable pub address_pair : Dict Str Symbol → Dict Str Symbol → Str → Option (ℕ × ℕ)
unfolding lookup
address_pair reference candidate name = elim (lookup name reference) [
  | none ↦ none
  | some r ↦ elim (lookup name candidate) [ none ↦ none | some c ↦ some (r.address, c.address) ]
]

-- `shared`, in the order of the names
unfoldable pub shared_addresses :
    Dict Str Symbol → Dict Str Symbol → List Str → List (Str × (ℕ × ℕ))
unfolding address_pair
shared_addresses reference candidate [] = []
shared_addresses reference candidate (name ∷ names) =
    let rest = shared_addresses reference candidate names in
    elim (address_pair reference candidate name) [ none ↦ rest | some pair ↦ (name, pair) ∷ rest ]

-- `pairs[key].append(name)` on a `defaultdict(list)`
unfoldable pub add_name {ℓ} :
    {K : Type ℓ} → ⦃e : Comparable K⦄ → K → Str → Dict K (List Str) → Dict K (List Str)
add_name key name [] = (key, name ∷ []) ∷ []
add_name key name ((k, names) ∷ d) =
    let rest = add_name key name d in
    if k == key then (k, names ++ (name ∷ [])) ∷ d else (k, names) ∷ rest

unfoldable pub names_by_pair :
    List (Str × (ℕ × ℕ)) → Dict (ℕ × ℕ) (List Str) → Dict (ℕ × ℕ) (List Str)
unfolding add_name
names_by_pair [] d = d
names_by_pair ((name, pair) ∷ shared) d = names_by_pair shared (add_name pair name d)

-- `len(name) - len(name.lstrip("_"))`
unfoldable pub underscores : Str → ℕ
underscores [] = 0
underscores (c ∷ cs) = let rest = underscores cs in if c == b'_' then suc rest else 0

-- the order of `preference`, and that of `(len(name), name)`
unfoldable pub shorter : Str → Str → Bool
unfolding str_lt
shorter s t = if length s == length t then str_lt s t else ltb (length s) (length t)

unfoldable pub preferred : Str → Str → Bool
unfolding shorter underscores
preferred s t =
    if underscores s == underscores t then shorter s t else ltb (underscores s) (underscores t)

-- `min(names, key=...)`: the first of the smallest
abbrev pub least : (Str → Str → Bool) → Str → List Str → Str
least before_it best [] = best
least before_it best (name ∷ names) =
    least before_it (if before_it name best then name else best) names

-- `"@" + min(names, key=...)`
unfoldable pub token_of : (Str → Str → Bool) → List Str → Str
token_of before_it [] = b'@' ∷ []
token_of before_it (name ∷ names) = b'@' ∷ least before_it name names

-- One image's side of the loop over the pairs: an address that already has another token is
-- ambiguous, and otherwise gets the token.
unfoldable pub assign_tokens : List (ℕ × Str) → Dict ℕ Str → List ℕ → Dict ℕ Str × List ℕ
unfolding lookup insert
assign_tokens [] tokens ambiguous = (tokens, ambiguous)
assign_tokens ((address, token) ∷ items) tokens ambiguous =
    let clash = assign_tokens items tokens (address ∷ ambiguous) in
    let given = assign_tokens items (insert address token tokens) ambiguous in
    elim (lookup address tokens) [ none ↦ given | some old ↦ if old == token then given else clash ]

-- `tokens.pop(address, None)`
unfoldable pub pop_key : ℕ → Dict ℕ Str → Dict ℕ Str
pop_key address [] = []
pop_key address ((a, token) ∷ tokens) =
    let rest = pop_key address tokens in if a == address then rest else (a, token) ∷ rest

unfoldable pub pop_keys : List ℕ → Dict ℕ Str → Dict ℕ Str
unfolding pop_key
pop_keys [] tokens = tokens
pop_keys (address ∷ addresses) tokens = pop_keys addresses (pop_key address tokens)

unfoldable pub unambiguous_tokens : List (ℕ × Str) → Dict ℕ Str
unfolding assign_tokens pop_keys
unambiguous_tokens items =
    let (tokens, ambiguous) = assign_tokens items [] [] in pop_keys ambiguous tokens

pub record SharedTokens : Type 0 where
  pub reference_tokens : Dict ℕ Str
  pub candidate_tokens : Dict ℕ Str
  pub shared : List (Str × (ℕ × ℕ))

unfoldable pub shared_symbol_tokens : List Symbol → List Symbol → SharedTokens
unfolding by_name_from shared_names shared_addresses names_by_pair token_of preferred
    unambiguous_tokens
shared_symbol_tokens reference_symbols candidate_symbols =
    let reference = by_name reference_symbols in
    let candidate = by_name candidate_symbols in
    let shared = shared_addresses reference candidate (shared_names reference candidate) in
    let pairs = names_by_pair shared [] in
    record {
      reference_tokens =
          unambiguous_tokens (map (λ entry. (entry.0.0, token_of preferred (entry.1))) pairs);
      candidate_tokens =
          unambiguous_tokens (map (λ entry. (entry.0.1, token_of preferred (entry.1))) pairs);
      shared = shared;
    }

-- `paired_tokens` of analyze, from the shared symbols
unfoldable pub paired_name_tokens : List (Str × (ℕ × ℕ)) → Dict (ℕ × ℕ) Str
unfolding names_by_pair token_of shorter
paired_name_tokens shared =
    map (λ entry. (entry.0, token_of shorter (entry.1))) (names_by_pair shared [])
