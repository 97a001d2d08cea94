-- ===== src/Prelude/Sorting.antt =====
-- Python's `sorted(xs, key=...)`: an insertion sort, which keeps the order of equal keys, and
-- `range`.
use Prim.Native.Nat.{ℕ, zero, suc, ◌+◌, ◌<◌, ◌≤◌}
use mos_agondev.Prelude.Lists.{All}
use mathlib.Core.Path.{◌≡◌, ap, refl, ◌∙◌}
use mathlib.Core.Bool.{Bool, false, true}
use mathlib.Core.List.{List, [], ◌∷◌, ◌++◌}
use mathlib.Core.List.{Perm}
use mathlib.Core.List.Perm
use mathlib.Core.Logic.{inl, inr}
use native.Mathlib.Omega.{arith}
use mos_agondev.Prelude.Tests.{if◌then◌else◌, Bool-cases}

module _ {ℓ} {A : Type ℓ} where
  unfoldable pub insert_by : (A → A → Bool) → A → List A → List A
  insert_by le x [] = x ∷ []
  insert_by le x (y ∷ ys) = if le x y then x ∷ (y ∷ ys) else y ∷ insert_by le x ys

  -- `sorted(xs)` for the order `le`
  unfoldable pub sort_by : (A → A → Bool) → List A → List A
  unfolding insert_by
  sort_by le [] = []
  sort_by le (x ∷ xs) = insert_by le x (sort_by le xs)

  -- `sum(measure(x) for x in xs)`
  abbrev pub sum_by : (A → ℕ) → List A → ℕ
  sum_by measure [] = 0
  sum_by measure (x ∷ xs) = measure x + sum_by measure xs

  pub sum_by-append :
      (measure : A → ℕ) (xs ys : List A)
      → sum_by measure (xs ++ ys) ≡ sum_by measure xs + sum_by measure ys
  sum_by-append measure [] ys = omega arith
  sum_by-append measure (x ∷ xs) ys = omega (arith, sum_by-append measure xs ys)

  pub sum_by-insert_by :
      (measure : A → ℕ) (le : A → A → Bool) (x : A) (xs : List A)
      → sum_by measure (insert_by le x xs) ≡ measure x + sum_by measure xs
  unfolding insert_by
  sum_by-insert_by measure le x [] = refl
  sum_by-insert_by measure le x (y ∷ ys) = elim (Bool-cases (le x y)) [
    | inl e ↦ rw e refl
    | inr e ↦ rw e (omega (arith, sum_by-insert_by measure le x ys))
  ]

  pub sum_by-sort_by :
      (measure : A → ℕ) (le : A → A → Bool) (xs : List A)
      → sum_by measure (sort_by le xs) ≡ sum_by measure xs
  unfolding sort_by
  sum_by-sort_by measure le [] = refl
  sum_by-sort_by measure le (x ∷ xs) =
      omega (arith, sum_by-insert_by measure le x (sort_by le xs), sum_by-sort_by measure le xs)

module _ {ℓ} {A : Type ℓ} where
  insert_by-Perm : (le : A → A → Bool) (x : A) (ys : List A) → Perm (insert_by le x ys) (x ∷ ys)
  unfolding insert_by
  insert_by-Perm le x [] = Perm.refl (x ∷ [])
  insert_by-Perm le x (y ∷ ys) = elim (Bool-cases (le x y)) [
    | inl e ↦ rw e (Perm.refl (x ∷ y ∷ ys))
    | inr e ↦ rw e (Perm.trans (Perm.cons y (insert_by-Perm le x ys)) (Perm.swap x y ys))
  ]

  -- Sorting keeps the elements, each as often as it occurs.
  pub sort_by-Perm : (le : A → A → Bool) (xs : List A) → Perm (sort_by le xs) xs
  unfolding sort_by
  sort_by-Perm le [] = Perm.refl []
  sort_by-Perm le (x ∷ xs) =
      Perm.trans (insert_by-Perm le x (sort_by le xs)) (Perm.cons x (sort_by-Perm le xs))

-- `range(from, from + count)`
abbrev pub range_from : ℕ → ℕ → List ℕ
range_from start zero = []
range_from start (suc n) = start ∷ range_from (suc start) n

pub range_from-below :
    (start count limit : ℕ) → start + count ≤ limit → All (λ i. i < limit) (range_from start count)
range_from-below start zero limit h = tt
range_from-below start (suc n) limit h =
    (omega (arith, h), range_from-below (suc start) n limit (omega (arith, h)))

module _ {ℓ} {A : Type ℓ} where
  abbrev Leads : (A → A → Bool) → A → List A → Type 0
  Leads le x [] = Unit
  Leads le x (y ∷ ys) = le x y ≡ true

  -- each element is at most the next one
  abbrev pub IsSorted : (A → A → Bool) → List A → Type 0
  IsSorted le [] = Unit
  IsSorted le (x ∷ xs) = Leads le x xs × IsSorted le xs

  insert_first :
      (le : A → A → Bool) (x : A) (xs : List A) → Leads le x xs → insert_by le x xs ≡ x ∷ xs
  unfolding insert_by
  insert_first le x [] p = refl
  insert_first le x (y ∷ ys) p = rw p refl

  -- Sorting leaves a sorted list as it is.
  pub sort_by-fixed : (le : A → A → Bool) (xs : List A) → IsSorted le xs → sort_by le xs ≡ xs
  unfolding sort_by
  sort_by-fixed le [] h = refl
  sort_by-fixed le (x ∷ xs) (p, h) =
      ap (insert_by le x) (sort_by-fixed le xs h) ∙ insert_first le x xs p

  -- what stands in front of an inserted element
  insert_by-IsSorted :
      (le : A → A → Bool) (x : A) (ys : List A)
      → ((a b : A) → le a b ≡ false → le b a ≡ true)
      → IsSorted le ys
      → IsSorted le (insert_by le x ys)
  unfolding insert_by
  insert_by-IsSorted le x [] total h = (tt, tt)
  insert_by-IsSorted le x (y ∷ []) total h = elim (Bool-cases (le x y)) [
    | inl e ↦ rw e (e, h)
    | inr e ↦ rw e (total x y e, (tt, tt))
  ]
  insert_by-IsSorted le x (y ∷ z ∷ zs) total (p, h) = elim (Bool-cases (le x y)) [
    | inl e ↦ rw e (e, (p, h))
    | inr e ↦ elim (Bool-cases (le x z)) [
      | inl f ↦ rw (e, f) (total x y e, (f, h))
      | inr f ↦ rw (e, f) (p, rw f at (insert_by-IsSorted le x (z ∷ zs) total h))
    ]
  ]

  -- Sorting sorts, for an order that compares any two elements.
  pub sort_by-IsSorted :
      (le : A → A → Bool) (xs : List A)
      → ((a b : A) → le a b ≡ false → le b a ≡ true)
      → IsSorted le (sort_by le xs)
  unfolding sort_by
  sort_by-IsSorted le [] total = tt
  sort_by-IsSorted le (x ∷ xs) total =
      insert_by-IsSorted le x (sort_by le xs) total (sort_by-IsSorted le xs total)
