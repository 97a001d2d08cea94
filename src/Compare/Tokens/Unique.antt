-- ===== src/Compare/Tokens/Unique.antt =====
-- The names of the addresses are unambiguous, in projects/binary-compare/analyze.py.
use mathlib.Core.Option.{some-injective}
use mos_agondev.Compare.Tokens.{assign_tokens, pop_key, pop_keys, unambiguous_tokens}
use mos_agondev.Prelude.{
  All, Bool-cases, Dict, List, Option-cases, [], ap, arith, contains, false, if◌then◌else◌, inl,
  inr, insert, list_beq_iff, list_eq, lookup, lookup-insert, lookup-insert_self, nat_beq_iff,
  nat_eq, none, option_eq, pair_eq, refl, some, sym, true, ℕ, ◌==◌, ◌∙◌, ◌∷◌, ◌≡◌, ◌⊎◌,
}
use mos_agondev.Regex.{named}
use mos_agondev.Text.{Str}
use mos_agondev.Zds.Provenance.{keys}

-- the token of an address stays when another address, or its own token again, is inserted
insert-keeps :
    (a b : ℕ) (t u : Str) (tokens : Dict ℕ Str)
    → (lookup b tokens ≡ none) ⊎ (lookup b tokens ≡ some u)
    → lookup a tokens ≡ some t
    → lookup a (insert b u tokens) ≡ some t
insert-keeps a b t u tokens fresh h = elim (Bool-cases (b == a)) [
  | inr e ↦ lookup-insert a b u tokens ∙ rw e h
  | inl e ↦
      let same : b ≡ a = (nat_beq_iff b a).0 e in
      let own : lookup b tokens ≡ some t = ap (λ n. lookup n tokens) same ∙ h in
      lookup-insert a b u tokens ∙ rw e (elim fresh [ inl k ↦ cc | inr k ↦ sym k ∙ own ])
]

-- The loop keeps a token that an address has.
assign_tokens-keeps :
    (a : ℕ) (t : Str) (items : List (ℕ × Str)) (tokens : Dict ℕ Str) (ambiguous : List ℕ)
    → lookup a tokens ≡ some t
    → lookup a ((assign_tokens items tokens ambiguous).0) ≡ some t
unfolding assign_tokens
assign_tokens-keeps a t [] tokens ambiguous h = h
assign_tokens-keeps a t ((b, u) ∷ items) tokens ambiguous h =
    let given = λ (fresh : (lookup b tokens ≡ none) ⊎ (lookup b tokens ≡ some u)).
      assign_tokens-keeps a t items (insert b u tokens) ambiguous
        (insert-keeps a b t u tokens fresh h) in
    elim (Option-cases (lookup b tokens)) [
      | inl e ↦ rw (e, assign_tokens) (given (inl e))
      | inr (old, e) ↦ elim (Bool-cases (old == u)) [
        | inl same ↦
            rw (e, same, assign_tokens) (given (inr (e ∙ ap some ((list_beq_iff old u).0 same))))
        | inr other ↦
            rw (e, other, assign_tokens) (assign_tokens-keeps a t items tokens (b ∷ ambiguous) h)
      ]
    ]

-- An ambiguous address stays ambiguous.
assign_tokens-ambiguous :
    (a : ℕ) (items : List (ℕ × Str)) (tokens : Dict ℕ Str) (ambiguous : List ℕ)
    → contains a ambiguous ≡ true
    → contains a ((assign_tokens items tokens ambiguous).1) ≡ true
unfolding assign_tokens contains
assign_tokens-ambiguous a [] tokens ambiguous h = h
assign_tokens-ambiguous a ((b, u) ∷ items) tokens ambiguous h =
    let clash = assign_tokens-ambiguous a items tokens (b ∷ ambiguous) in
    let given = assign_tokens-ambiguous a items (insert b u tokens) ambiguous in
    ground (arith, h, clash, given)

abbrev OneToken : ℕ → Str → List (ℕ × Str) → Type 0
OneToken a t = All (λ item. item.0 ≡ a → item.1 ≡ t)

given_unique :
    (a b : ℕ) (t u : Str) (items : List (ℕ × Str)) (tokens : Dict ℕ Str) (ambiguous : List ℕ)
    → contains a ((assign_tokens items (insert b u tokens) ambiguous).1) ≡ false
    → lookup a ((assign_tokens items (insert b u tokens) ambiguous).0) ≡ some t
    → (contains a ((assign_tokens items (insert b u tokens) ambiguous).1) ≡ false
        → lookup a ((assign_tokens items (insert b u tokens) ambiguous).0) ≡ some t
        → OneToken a t items)
    → OneToken a t ((b, u) ∷ items)
given_unique a b t u items tokens ambiguous h k rest = (
  (λ same.
      let own : lookup a (insert b u tokens) ≡ some u =
        ap (λ n. lookup n (insert b u tokens)) (sym same) ∙ lookup-insert_self b u tokens in
      some-injective _ _
        (sym (assign_tokens-keeps a u items (insert b u tokens) ambiguous own) ∙ k)),
  rest h k,
)

clash_unique :
    (a b : ℕ) (t u : Str) (items : List (ℕ × Str)) (tokens : Dict ℕ Str) (ambiguous : List ℕ)
    → contains a ((assign_tokens items tokens (b ∷ ambiguous)).1) ≡ false
    → lookup a ((assign_tokens items tokens (b ∷ ambiguous)).0) ≡ some t
    → (contains a ((assign_tokens items tokens (b ∷ ambiguous)).1) ≡ false
        → lookup a ((assign_tokens items tokens (b ∷ ambiguous)).0) ≡ some t
        → OneToken a t items)
    → OneToken a t ((b, u) ∷ items)
unfolding contains
clash_unique a b t u items tokens ambiguous h k rest =
    let stays = assign_tokens-ambiguous a items tokens (b ∷ ambiguous) in
    ((λ same. ground (arith, h, stays, same)), rest h k)

-- An address that is not ambiguous at the end has one token only.
assign_tokens_unique :
    (a : ℕ) (t : Str) (items : List (ℕ × Str)) (tokens : Dict ℕ Str) (ambiguous : List ℕ)
    → contains a ((assign_tokens items tokens ambiguous).1) ≡ false
    → lookup a ((assign_tokens items tokens ambiguous).0) ≡ some t
    → All (λ item. item.0 ≡ a → item.1 ≡ t) items
unfolding assign_tokens contains
assign_tokens_unique a t [] tokens ambiguous h k = tt
assign_tokens_unique a t ((b, u) ∷ items) tokens ambiguous h k =
    elim (Option-cases (lookup b tokens)) [
      | inl e ↦
          given_unique a b t u items tokens ambiguous (rw (e, assign_tokens) at h)
            (rw (e, assign_tokens) at k)
            (assign_tokens_unique a t items (insert b u tokens) ambiguous)
      | inr (old, e) ↦ elim (Bool-cases (old == u)) [
        | inl same ↦
            given_unique a b t u items tokens ambiguous (rw (e, same, assign_tokens) at h)
              (rw (e, same, assign_tokens) at k)
              (assign_tokens_unique a t items (insert b u tokens) ambiguous)
        | inr other ↦
            clash_unique a b t u items tokens ambiguous (rw (e, other, assign_tokens) at h)
              (rw (e, other, assign_tokens) at k)
              (assign_tokens_unique a t items tokens (b ∷ ambiguous))
      ]
    ]

-- A key that is still there after the pops is none of them.
lookup-pop_key :
    (a b : ℕ) (tokens : Dict ℕ Str)
    → lookup a (pop_key b tokens) ≡ (if b == a then none else lookup a tokens)
unfolding pop_key lookup
lookup-pop_key a b [] = ground arith
lookup-pop_key a b ((c, u) ∷ tokens) = ground (arith, lookup-pop_key a b tokens)

lookup-pop_keys :
    (a : ℕ) (t : Str) (keys : List ℕ) (tokens : Dict ℕ Str)
    → lookup a (pop_keys keys tokens) ≡ some t
    → (contains a keys ≡ false) × (lookup a tokens ≡ some t)
unfolding pop_keys contains
lookup-pop_keys a t [] tokens h = (refl, h)
lookup-pop_keys a t (b ∷ keys) tokens h =
    let (fresh, still) = lookup-pop_keys a t keys (pop_key b tokens) h in
    elim (Bool-cases (b == a)) [
      | inl e ↦ cc (rw e at (sym (lookup-pop_key a b tokens) ∙ still))
      | inr e ↦ (rw (e, fresh) refl, rw e at (sym (lookup-pop_key a b tokens) ∙ still))
    ]

-- Where unambiguous_tokens names an address, each pair of a shared name at that address asks for
-- the same token.
pub unambiguous_tokens_unique :
    (a : ℕ) (t : Str) (items : List (ℕ × Str))
    → lookup a (unambiguous_tokens items) ≡ some t
    → All (λ item. item.0 ≡ a → item.1 ≡ t) items
unfolding unambiguous_tokens
unambiguous_tokens_unique a t items h =
    let (tokens, ambiguous) = assign_tokens items [] [] in
    let (fresh, named) = lookup-pop_keys a t ambiguous tokens h in
    assign_tokens_unique a t items [] [] fresh named
