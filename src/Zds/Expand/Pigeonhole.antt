-- ===== src/Zds/Expand/Pigeonhole.antt =====
-- A list with no element twice is no longer than a list that holds all its elements.
use mos_agondev.Prelude.{
  All, Bool-cases, Distinct, List, [], arith, contains, false, if◌then◌else◌, inl, inr, length,
  list_beq_iff, list_eq, nat_eq, option_eq, pair_eq, subst, true, ◌+◌, ◌==◌, ◌||◌, ◌∷◌, ◌≡◌, ◌≤◌,
}
use mos_agondev.Text.{Str}

remove : Str → List Str → List Str
remove x [] = []
remove x (y ∷ ys) = let rest = remove x ys in if y == x then ys else y ∷ rest

length-remove :
    (x : Str) (ys : List Str) → contains x ys ≡ true → length (remove x ys) + 1 ≡ length ys
unfolding remove contains
length-remove x [] h = ground arith
length-remove x (y ∷ ys) h = elim (Bool-cases (y == x)) [
  | inl e ↦ rw e (omega arith)
  | inr e ↦ rw e (omega (arith, length-remove x ys (ground arith)))
]

contains-remove :
    (x z : Str) (ys : List Str)
    → contains z ys ≡ true
    → (x == z) ≡ false
    → contains z (remove x ys) ≡ true
unfolding remove contains
contains-remove x z [] h d = ground arith
contains-remove x z (y ∷ ys) h d = elim (Bool-cases (y == x)) [
  | inl e ↦
      let same = (list_beq_iff y x).0 e in
      rw e (ground (arith, subst (λ t. (t == z || contains z ys) ≡ true) same h))
  | inr e ↦ rw e (ground (arith, contains-remove x z ys))
]

All-remove :
    (x : Str) (xs ys : List Str)
    → contains x xs ≡ false
    → All (λ z. contains z ys ≡ true) xs
    → All (λ z. contains z (remove x ys) ≡ true) xs
unfolding contains
All-remove x [] ys h a = tt
All-remove x (z ∷ xs) ys h (first, a) = (
  contains-remove x z ys first (ground (arith, list_beq_iff x z, list_beq_iff z x)),
  All-remove x xs ys (ground arith) a,
)

pub Distinct-length :
    (xs ys : List Str) → Distinct xs → All (λ x. contains x ys ≡ true) xs → length xs ≤ length ys
Distinct-length [] ys d a = omega arith
Distinct-length (x ∷ xs) ys (fresh, d) (first, a) = omega (
  arith,
  length-remove x ys first,
  Distinct-length xs (remove x ys) d (All-remove x xs ys fresh a),
)
