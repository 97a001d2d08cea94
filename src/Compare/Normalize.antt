-- ===== src/Compare/Normalize.antt =====
-- normalize_instructions and normalize_paired_local_targets of
-- projects/binary-compare/analyze.py.
use mos_agondev.Compare.Maps.{g1, hex_value}
use mos_agondev.Compare.Paired.{
  context_token, in_context, paired_value_token, self_token, with_offset,
}
use mos_agondev.Compare.Records.{Instruction}
use mos_agondev.Prelude.{
  Dict, List, Option, [], if◌then◌else◌, leb, length, list_eq, lookup, ltb, map, nat_eq, none, not,
  option_eq, pair_eq, some, sort_by, suc, sum_by, ℕ, ◌++◌, ◌+◌, ◌-◌, ◌==◌, ◌||◌, ◌∷◌,
}
use mos_agondev.Regex.{
  Match, Piece, Regex, find_iter, found, group, lit, named, pieces, plain, some_of, sub, ◌▸◌,
}
use mos_agondev.Text.{Str, casefold, codes, is_digit, within}
use mos_agondev.Text.Number.{in_base, value_from}
use mos_agondev.Text.Words.{one_spaced}
use mos_agondev.Zds.Translate.{count}

-- `0x([0-9a-f]+)` on a text in lower case
unfoldable pub numeric : Regex
numeric = lit (codes "0x") ▸ group g1 (some_of (λ c. is_digit c || within b'a' b'f' c))

abbrev pub value_at : Match → ℕ
value_at m = hex_value (named g1 m)

-- `" ".join(instruction.text.lower().split())`
unfoldable pub plain_text : Instruction → Str
unfolding one_spaced casefold
plain_text instruction = one_spaced (casefold instruction.text)

-- what replaces a number: a token, the offset in the context, or nothing
unfoldable pub number_name : Dict ℕ Str → ℕ × ℕ → ℕ → Option Str
unfolding lookup in_base
number_name address_tokens context value =
    let own = if in_context context value then some (self_token (value - context.0)) else none in
    let token = if leb 0x100 value then lookup value address_tokens else none in
    elim token [ some t ↦ some t | none ↦ own ]

unfoldable pub replace_hex : Dict ℕ Str → ℕ × ℕ → Match → Str
unfolding number_name casefold named value_from
replace_hex address_tokens context m = elim (number_name address_tokens context (value_at m)) [
  | some t ↦ t
  | none ↦ casefold (m.text)
]

-- the replacements that are counted
unfoldable pub count_named : Dict ℕ Str → ℕ × ℕ → List Match → ℕ
unfolding number_name named value_from
count_named address_tokens context [] = 0
count_named address_tokens context (m ∷ ms) =
    let rest = count_named address_tokens context ms in
    elim (number_name address_tokens context (value_at m)) [ some t ↦ suc rest | none ↦ rest ]

unfoldable pub normalize_instructions : List Instruction → Dict ℕ Str → ℕ × ℕ → List Str × ℕ
unfolding replace_hex count_named plain_text numeric sub find_iter
normalize_instructions [] address_tokens context = ([], 0)
normalize_instructions (instruction ∷ rest) address_tokens context =
    let (normalized, replacements) = normalize_instructions rest address_tokens context in
    let text = plain_text instruction in
    (
      sub numeric (replace_hex address_tokens context) text ∷ normalized,
      count_named address_tokens context (find_iter numeric text) + replacements,
    )

-- `sorted(tokens)`, read from the end
abbrev downwards : Dict ℕ Str → List ℕ
downwards tokens = sort_by (λ a b. leb b a) (map (λ entry. entry.0) tokens)

-- `symbol_relative`: the loop stops at the first base that is not above the value
unfoldable pub base_token : ℕ → Dict ℕ Str → List ℕ → Option Str
unfolding lookup in_base
base_token value tokens [] = none
base_token value tokens (base ∷ bases) =
    let rest = base_token value tokens bases in
    if ltb value base
    then rest
    else if ltb 0x100 (value - base)
    then none
    else elim (lookup base tokens) [
      | none ↦ none
      | some token ↦ some (with_offset token (value - base))
    ]

unfoldable pub symbol_relative : ℕ → Dict ℕ Str → Option Str
unfolding base_token sort_by
symbol_relative value tokens =
    if ltb value 0x100 then none else base_token value tokens (downwards tokens)

abbrev pub number_text : ℕ → Str
number_text value = codes "0x" ++ in_base 16 value

-- The tables and contexts that both functions share.
pub record Tables : Type 0 where
  pub reference_tokens : Dict ℕ Str
  pub candidate_tokens : Dict ℕ Str
  pub paired_tokens : Dict (ℕ × ℕ) Str

-- `reference_symbol is not None and reference_symbol == candidate_symbol`
abbrev same_symbol : Option Str → Option Str → Option Str
same_symbol (some r) (some c) = if r == c then some r else none
same_symbol _ _ = none

abbrev pub or_name : Option Str → Option Str → Option Str
or_name (some t) other = some t
or_name none other = other

-- The common name of two different numbers: of the pair, of the symbols in front of both, or of
-- the offset in the two modules. The name of the pair itself is what `paired_value_token` returns
-- first.
unfoldable pub common_name : Tables → ℕ × ℕ → ℕ × ℕ → ℕ → ℕ → Option Str
unfolding paired_value_token symbol_relative in_base
common_name tables reference_context candidate_context r c =
    or_name (paired_value_token r c tables.paired_tokens reference_context candidate_context) (
      or_name
        (same_symbol (symbol_relative r tables.reference_tokens)
          (symbol_relative c tables.candidate_tokens))
        (context_token r c reference_context candidate_context))

-- the texts for two corresponding numbers, and whether the pair is counted
unfoldable pub number_pair : Tables → ℕ × ℕ → ℕ × ℕ → ℕ → ℕ → Str × Str × ℕ
unfolding common_name in_base
number_pair tables reference_context candidate_context r c =
    if r == c
    then (number_text r, number_text r, 0)
    else elim (common_name tables reference_context candidate_context r c) [
      | some token ↦ (token, token, 1)
      | none ↦ (number_text r, number_text c, 0)
    ]

unfoldable pub number_pairs :
    Tables → ℕ × ℕ → ℕ × ℕ → List Match → List Match → List (Str × Str × ℕ)
unfolding number_pair named value_from
number_pairs tables reference_context candidate_context (m ∷ ms) (n ∷ ns) =
    number_pair tables reference_context candidate_context (value_at m) (value_at n)
    ∷ number_pairs tables reference_context candidate_context ms ns
number_pairs tables reference_context candidate_context _ _ = []

-- the parts between the numbers, joined with the texts for the numbers
unfoldable pub fill : List Piece → List Str → Str
fill [] texts = []
fill (plain c ∷ pieces_left) texts = c ∷ fill pieces_left texts
fill (found m ∷ pieces_left) [] = fill pieces_left []
fill (found m ∷ pieces_left) (text ∷ texts) = text ++ fill pieces_left texts

-- `numeric.sub("{}", text)`
unfoldable pub shape : Str → Str
unfolding sub numeric
shape = sub numeric (λ _. codes "{}")

-- one round of the loop over the instruction pairs
unfoldable pub paired_texts : Tables → ℕ × ℕ → ℕ × ℕ → Str → Str → Str × Str × ℕ
unfolding number_pairs fill shape find_iter pieces numeric
paired_texts tables reference_context candidate_context r c =
    let reference_matches = find_iter numeric r in
    let candidate_matches = find_iter numeric c in
    let pairs =
      number_pairs tables reference_context candidate_context reference_matches candidate_matches in
    if not (shape r == shape c) || not (length reference_matches == length candidate_matches)
    then (r, c, 0)
    else (
      fill (pieces numeric r) (map (λ t. t.0) pairs),
      fill (pieces numeric c) (map (λ t. t.1) pairs),
      sum_by (λ t. t.2) pairs,
    )

unfoldable pub paired_outputs :
    Tables → ℕ × ℕ → ℕ × ℕ → List Instruction → List Instruction → List Str × List Str × ℕ
unfolding paired_texts plain_text
paired_outputs tables reference_context candidate_context (r ∷ rs) (c ∷ cs) =
    let (reference_output, candidate_output, replacements) =
      paired_outputs tables reference_context candidate_context rs cs in
    let (reference_text, candidate_text, count) =
      paired_texts tables reference_context candidate_context (plain_text r) (plain_text c) in
    (reference_text ∷ reference_output, candidate_text ∷ candidate_output, count + replacements)
paired_outputs tables reference_context candidate_context _ _ = ([], [], 0)

unfoldable pub normalize_paired_local_targets :
    Tables → ℕ × ℕ → ℕ × ℕ → List Instruction → List Instruction → List Str × List Str × ℕ
unfolding paired_outputs
normalize_paired_local_targets tables reference_context candidate_context reference candidate =
    if length reference == length candidate
    then paired_outputs tables reference_context candidate_context reference candidate
    else ([], [], 0)
