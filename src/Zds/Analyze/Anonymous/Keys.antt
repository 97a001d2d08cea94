-- ===== src/Zds/Analyze/Anonymous/Keys.antt =====
-- The keys of anonymous references are distinct: a line number, and a place on the line.
use mathlib.Core.List.{map-append}
use mos_agondev.Prelude.{
  All, All-append, Distinct, List, Option, [], arith, contains, false, inl, inr, list_eq, map,
  nat_eq, option_eq, pair_eq, refl, ℕ, ◌++◌, ◌+◌, ◌<◌, ◌||◌, ◌∷◌, ◌≡◌, ◌≤◌, ◌⊎◌,
}
use mos_agondev.Regex.{Match}
use mos_agondev.Text.{Str}
use mos_agondev.Zds.Analyze.Locals.{anonymous_references_of}
use mos_agondev.Zds.Analyze.Resolve.Resolved.{ref_key}
use mos_agondev.Zds.Analyze.State.{Line}
use mos_agondev.Zds.Records.{AnonymousReference}

pub record HasKeys (n : ℕ) (references : List AnonymousReference) : Type 0 where
  pub below : All (λ r. r.ordinal < n) references
  pub distinct : Distinct (map ref_key references)

contains-append :
    (k : ℕ × ℕ) (xs ys : List (ℕ × ℕ)) → contains k (xs ++ ys) ≡ (contains k xs || contains k ys)
unfolding contains
contains-append k [] ys = refl
contains-append k (x ∷ xs) ys = ground (arith, contains-append k xs ys)

All-weaken :
    (n m : ℕ) (references : List AnonymousReference)
    → n ≤ m
    → All (λ r. r.ordinal < n) references
    → All (λ r. r.ordinal < m) references
All-weaken n m [] h a = tt
All-weaken n m (r ∷ rest) h (first, others) = (omega arith, All-weaken n m rest h others)

new_below :
    (l : Line) (macro : Option Str) (k : ℕ) (tokens : List Match)
    → All (λ r. r.ordinal < l.ordinal + 1) (anonymous_references_of l macro k tokens)
unfolding anonymous_references_of
new_below l macro k [] = tt
new_below l macro k (t ∷ rest) = (omega arith, new_below l macro (k + 1) rest)

-- an earlier line, or an earlier place on the line
new_fresh :
    (l : Line) (macro : Option Str) (k n j : ℕ) (tokens : List Match)
    → (n < l.ordinal) ⊎ (j < k)
    → contains (n, j) (map ref_key (anonymous_references_of l macro k tokens)) ≡ false
unfolding anonymous_references_of contains
new_fresh l macro k n j [] h = refl
new_fresh l macro k n j (t ∷ rest) (inl h) =
    ground (arith, new_fresh l macro (k + 1) n j rest (inl h))
new_fresh l macro k n j (t ∷ rest) (inr h) =
    ground (arith, new_fresh l macro (k + 1) n j rest (inr (omega arith)))

new-Distinct :
    (l : Line) (macro : Option Str) (k : ℕ) (tokens : List Match)
    → Distinct (map ref_key (anonymous_references_of l macro k tokens))
unfolding anonymous_references_of
new-Distinct l macro k [] = tt
new-Distinct l macro k (t ∷ rest) = (
  new_fresh l macro (k + 1) l.ordinal k rest (inr (omega arith)),
  new-Distinct l macro (k + 1) rest,
)

append-Distinct :
    (l : Line) (macro : Option Str) (tokens : List Match) (old : List AnonymousReference)
    → All (λ r. r.ordinal < l.ordinal) old
    → Distinct (map ref_key old)
    → Distinct (map ref_key (old ++ anonymous_references_of l macro 0 tokens))
append-Distinct l macro tokens [] a d = new-Distinct l macro 0 tokens
append-Distinct l macro tokens (r ∷ old) (first, a) (fresh, d) = (
  rw (map-append ref_key old _) (
      rw (contains-append) (rw (fresh, new_fresh l macro 0 r.ordinal r.offset tokens (inl first)))),
  append-Distinct l macro tokens old a d,
)

-- the references of one more line keep the keys distinct
pub append-HasKeys :
    (l : Line) (macro : Option Str) (tokens : List Match) (old : List AnonymousReference)
    → HasKeys l.ordinal old
    → HasKeys (l.ordinal + 1) (old ++ anonymous_references_of l macro 0 tokens)
append-HasKeys l macro tokens old h = record {
  below =
      All-append _ old _ (All-weaken l.ordinal (l.ordinal + 1) old (omega arith) h.below)
        (new_below l macro 0 tokens);
  distinct = append-Distinct l macro tokens old h.below h.distinct;
}

pub HasKeys-weaken :
    (n : ℕ) (references : List AnonymousReference)
    → HasKeys n references
    → HasKeys (n + 1) references
HasKeys-weaken n references h = record {
  below = All-weaken n (n + 1) references (omega arith) h.below;
  distinct = h.distinct;
}
