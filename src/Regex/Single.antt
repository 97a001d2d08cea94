-- ===== src/Regex/Single.antt =====
-- `re.sub` with a class of one character: each character of the class is replaced, the others
-- stay.
use mos_agondev.Prelude.{
  Bool, Bool-cases, [], ap, arith, if◌then◌else◌, inl, inr, none, refl, some, suc, zero, ℕ, ◌++◌,
  ◌-◌, ◌∷◌, ◌≡◌,
}
use mos_agondev.Regex.{Match, match_at, one, pieces_from, replace_pieces, run, sub}
use mos_agondev.Text.{Str}

-- the match of a single character
abbrev pub single : ℕ → Match
single c = record { text = c ∷ []; groups = [] }

unfoldable pub sub_each : (ℕ → Bool) → (Match → Str) → Str → Str
sub_each p f [] = []
sub_each p f (c ∷ cs) = (if p c then f (single c) else c ∷ []) ++ sub_each p f cs

suc-sub : (n : ℕ) → suc n - n ≡ 1
suc-sub n = omega arith

match_at-one :
    (p : ℕ → Bool) (before : Str) (c : ℕ) (cs : Str)
    → match_at (one p) before (c ∷ cs) ≡ (if p c then some (single c) else none)
unfolding match_at run
match_at-one p before c cs = elim (Bool-cases (p c)) [ inl e ↦ rw e (rw suc-sub) | inr e ↦ rw e ]

replace-pieces_from-one :
    (p : ℕ → Bool) (f : Match → Str) (before s : Str)
    → replace_pieces f (pieces_from (one p) before zero s) ≡ sub_each p f s
unfolding pieces_from replace_pieces sub_each
replace-pieces_from-one p f before [] = refl
replace-pieces_from-one p f before (c ∷ cs) =
    let ih = replace-pieces_from-one p f (c ∷ before) cs in
    elim (Bool-cases (p c)) [
      | inl e ↦ rw (match_at-one p before c cs, e, pieces_from) (ap (λ t. f (single c) ++ t) ih)
      | inr e ↦ rw (match_at-one p before c cs, e, pieces_from) (ap (◌∷◌ c) ih)
    ]

pub sub-one : (p : ℕ → Bool) (f : Match → Str) (s : Str) → sub (one p) f s ≡ sub_each p f s
unfolding sub
sub-one p f s = replace-pieces_from-one p f [] s
