-- ===== src/Compare/Image.antt =====
-- The bytes of an image: `data[start:end]`, `data[i]` and `int.from_bytes(..., "little")`, with
-- the laws of adjacent slices.
use mos_agondev.Prelude.{
  List, Option, [], ap, ap₂, arith, drop, length, none, refl, some, suc, sym, take, zero, ℕ, ◌*◌,
  ◌++◌, ◌+◌, ◌-◌, ◌∙◌, ◌∷◌, ◌≡◌, ◌≤◌,
}
use native.Mathlib.Nat.{zero-add}

-- `data[start:end]`
abbrev pub slice {ℓ} : {A : Type ℓ} → ℕ → ℕ → List A → List A
slice start stop bytes = take (stop - start) (drop start bytes)

-- `data[i]`, where it is there
abbrev pub byte_at : ℕ → List ℕ → Option ℕ
byte_at i [] = none
byte_at zero (b ∷ bs) = some b
byte_at (suc i) (b ∷ bs) = byte_at i bs

-- `int.from_bytes(data, "little")`
unfoldable pub little_endian : List ℕ → ℕ
little_endian [] = 0
little_endian (b ∷ bs) = b + 256 * little_endian bs

take_nil {ℓ} : {A : Type ℓ} (n : ℕ) → ◌≡◌ {A = List A} (take n []) []
take_nil zero = refl
take_nil (suc n) = refl

drop_nil {ℓ} : {A : Type ℓ} (n : ℕ) → ◌≡◌ {A = List A} (drop n []) []
drop_nil zero = refl
drop_nil (suc n) = refl

take-add {ℓ} :
    {A : Type ℓ} (m n : ℕ) (xs : List A) → take (m + n) xs ≡ take m xs ++ take n (drop m xs)
take-add zero n xs = ap (λ k. take k xs) (zero-add n)
take-add (suc m) n [] = take_nil (suc m + n) ∙ sym (take_nil n)
take-add (suc m) n (x ∷ xs) =
    let behind : suc m + n ≡ suc (m + n) = omega arith in
    ap (λ k. take k (x ∷ xs)) behind ∙ ap (◌∷◌ x) (take-add m n xs)

drop-add {ℓ} : {A : Type ℓ} (m n : ℕ) (xs : List A) → drop (m + n) xs ≡ drop n (drop m xs)
drop-add zero n xs = ap (λ k. drop k xs) (zero-add n)
drop-add (suc m) n [] = drop_nil (suc m + n) ∙ sym (drop_nil n)
drop-add (suc m) n (x ∷ xs) =
    let behind : suc m + n ≡ suc (m + n) = omega arith in
    ap (λ k. drop k (x ∷ xs)) behind ∙ drop-add m n xs

-- Two adjacent slices make one.
pub slice-append {ℓ} :
    {A : Type ℓ} (a b c : ℕ) (xs : List A)
    → a ≤ b
    → b ≤ c
    → slice a c xs ≡ slice a b xs ++ slice b c xs
slice-append a b c xs h k =
    let width : c - a ≡ (b - a) + (c - b) = omega (arith, h, k) in
    let reach : a + (b - a) ≡ b = omega (arith, h) in
    let rest : drop (b - a) (drop a xs) ≡ drop b xs =
      sym (drop-add a (b - a) xs) ∙ ap (λ n. drop n xs) reach in
    ap (λ n. take n (drop a xs)) width
    ∙ take-add (b - a) (c - b) (drop a xs)
    ∙ ap (λ ys. slice a b xs ++ take (c - b) ys) rest

-- An empty slice.
pub slice_self {ℓ} : {A : Type ℓ} (a : ℕ) (xs : List A) → slice a a xs ≡ []
slice_self a xs =
    let nothing_left : a - a ≡ 0 = omega arith in ap (λ n. take n (drop a xs)) nothing_left

-- Texts that agree at each place, up to the shorter length.
pub byte_at-ext :
    (xs ys : List ℕ) → length xs ≡ length ys → ((i : ℕ) → byte_at i xs ≡ byte_at i ys) → xs ≡ ys
byte_at-ext [] [] h k = refl
byte_at-ext (x ∷ xs) (y ∷ ys) h k =
    let first : x ≡ y = ground (arith, k 0) in
    ap₂ ◌∷◌ first (byte_at-ext xs ys (omega (arith, h)) (λ i. k (suc i)))
byte_at-ext _ _ h k = ground (arith, h)
