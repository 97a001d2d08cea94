-- ===== src/Prelude/Membership.antt =====
-- Membership in the lists that the program makes of others.
use mathlib.Core.Path.{◌≡◌, ap, refl, subst, sym}
use mathlib.Core.Bool.{Bool}
use mathlib.Core.List.{List, [], ◌∷◌, ◌++◌, Memᴰ, map}
use mathlib.Core.Logic.{inl, inr}
use mos_agondev.Prelude.Tests.{Bool-cases}
use mos_agondev.Prelude.Lists.{All}
use mos_agondev.Prelude.Sorting.{insert_by, sort_by}

module _ {ℓ} {A : Type ℓ} where
  pub Memᴰ-left : (a : A) (xs ys : List A) → Memᴰ a xs → Memᴰ a (xs ++ ys)
  Memᴰ-left a [] ys m = elim m [ ]
  Memᴰ-left a (x ∷ xs) ys (Memᴰ.head e) = Memᴰ.head e
  Memᴰ-left a (x ∷ xs) ys (Memᴰ.tail m) = Memᴰ.tail (Memᴰ-left a xs ys m)

  pub Memᴰ-right : (a : A) (xs ys : List A) → Memᴰ a ys → Memᴰ a (xs ++ ys)
  Memᴰ-right a [] ys m = m
  Memᴰ-right a (x ∷ xs) ys m = Memᴰ.tail (Memᴰ-right a xs ys m)

  Memᴰ-insert_same :
      (le : A → A → Bool) (a x : A) (ys : List A) → a ≡ x → Memᴰ a (insert_by le x ys)
  unfolding insert_by
  Memᴰ-insert_same le a x [] e = Memᴰ.head e
  Memᴰ-insert_same le a x (y ∷ ys) e = elim (Bool-cases (le x y)) [
    | inl k ↦ rw k (Memᴰ.head e)
    | inr k ↦ rw k (Memᴰ.tail (Memᴰ-insert_same le a x ys e))
  ]

  Memᴰ-insert_other :
      (le : A → A → Bool) (a x : A) (ys : List A) → Memᴰ a ys → Memᴰ a (insert_by le x ys)
  unfolding insert_by
  Memᴰ-insert_other le a x [] m = Memᴰ.tail m
  Memᴰ-insert_other le a x (y ∷ ys) m = elim (Bool-cases (le x y)) [
    | inl k ↦ rw k (Memᴰ.tail m)
    | inr k ↦ rw k (elim m [
      | Memᴰ.head e ↦ Memᴰ.head e
      | Memᴰ.tail n ↦ Memᴰ.tail (Memᴰ-insert_other le a x ys n)
    ])
  ]

  -- Sorting keeps the elements.
  pub Memᴰ-sort_by : (le : A → A → Bool) (a : A) (xs : List A) → Memᴰ a xs → Memᴰ a (sort_by le xs)
  unfolding sort_by
  Memᴰ-sort_by le a [] m = elim m [ ]
  Memᴰ-sort_by le a (x ∷ xs) (Memᴰ.head e) = Memᴰ-insert_same le a x (sort_by le xs) e
  Memᴰ-sort_by le a (x ∷ xs) (Memᴰ.tail m) =
      Memᴰ-insert_other le a x (sort_by le xs) (Memᴰ-sort_by le a xs m)

module _ {ℓ κ} {A : Type ℓ} where
  pub Memᴰ-map : {B : Type κ} (f : A → B) (a : A) (xs : List A) → Memᴰ a xs → Memᴰ (f a) (map f xs)
  Memᴰ-map f a [] m = elim m [ ]
  Memᴰ-map f a (x ∷ xs) (Memᴰ.head e) = Memᴰ.head (ap f e)
  Memᴰ-map f a (x ∷ xs) (Memᴰ.tail m) = Memᴰ.tail (Memᴰ-map f a xs m)

  pub All-Memᴰ : (P : A → Type κ) (xs : List A) → ((a : A) → Memᴰ a xs → P a) → All P xs
  All-Memᴰ P [] f = tt
  All-Memᴰ P (x ∷ xs) f = (f x (Memᴰ.head refl), All-Memᴰ P xs (λ a m. f a (Memᴰ.tail m)))

  pub All-at : (P : A → Type κ) (a : A) (xs : List A) → All P xs → Memᴰ a xs → P a
  All-at P a [] h m = elim m [ ]
  All-at P a (x ∷ xs) (p, h) (Memᴰ.head e) = subst P (sym e) p
  All-at P a (x ∷ xs) (p, h) (Memᴰ.tail m) = All-at P a xs h m

  -- what holds of the elements of a list holds of those of the sorted one
  pub All-insert_by :
      (P : A → Type κ) (le : A → A → Bool) (x : A) (ys : List A)
      → P x
      → All P ys
      → All P (insert_by le x ys)
  unfolding insert_by
  All-insert_by P le x [] p h = (p, tt)
  All-insert_by P le x (y ∷ ys) p (q, h) = elim (Bool-cases (le x y)) [
    | inl e ↦ rw (e, All) (p, (q, h))
    | inr e ↦ rw (e, All) (q, All-insert_by P le x ys p h)
  ]

  pub All-sort_by :
      (P : A → Type κ) (le : A → A → Bool) (xs : List A) → All P xs → All P (sort_by le xs)
  unfolding sort_by
  All-sort_by P le [] h = h
  All-sort_by P le (x ∷ xs) (p, h) = All-insert_by P le x (sort_by le xs) p (All-sort_by P le xs h)

module _ {ℓ} {A : Type ℓ} where
  -- An element of the sorted list is one of the list.
  pub Memᴰ-sort_by_back :
      (le : A → A → Bool) (a : A) (xs : List A) → Memᴰ a (sort_by le xs) → Memᴰ a xs
  Memᴰ-sort_by_back le a xs m =
      let P = λ (x : A). Memᴰ x xs in
      All-at P a (sort_by le xs) (All-sort_by P le xs (All-Memᴰ P xs (λ x k. k))) m

module _ {ℓ κ η} {A : Type ℓ} {B : Type κ} where
  pub All-of_map :
      (P : B → Type η) (f : A → B) (xs : List A)
      → ((a : A) → Memᴰ a xs → P (f a))
      → All P (map f xs)
  All-of_map P f [] k = tt
  All-of_map P f (x ∷ xs) k = (k x (Memᴰ.head refl), All-of_map P f xs (λ a m. k a (Memᴰ.tail m)))
