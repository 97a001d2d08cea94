-- ===== src/Zds/Names/Safe.antt =====
-- Laws of safe_identifier: its results are assembler identifiers, and two names can share one.
use mos_agondev.Prelude.{
  Bool, Bool-cases, [], all, all-append, ap, append_assoc, arith, false, if◌then◌else◌, inl, inr,
  length, length-append, list_beq, list_eq, nat_eq, not, option_eq, pair_eq, refl, replicate, suc,
  sym, true, zero, ℕ, ◌%◌, ◌++◌, ◌-◌, ◌/◌, ◌<◌, ◌==◌, ◌||◌, ◌∙◌, ◌∷◌, ◌≡◌, ◌≢◌,
}
use mos_agondev.Regex.{Match}
use mos_agondev.Regex.Single.{sub-one, sub_each}
use mos_agondev.Text.{Str, codes, is_digit}
use mos_agondev.Text.Number.{digit_char, digits_onto, in_base, padded}
use mos_agondev.Zds.Names.{
  escape_char, escape_match, is_safe, mangle, safe_identifier, starts_with_digit,
}

-- every character is in `[A-Za-z0-9_]`, there is a first one, and it is no digit
abbrev starts_well : Str → Bool
starts_well [] = false
starts_well (c ∷ cs) = not (is_digit c)

pub record IsIdentifier (s : Str) : Type 0 where
  pub safe : all is_safe s ≡ true
  pub starts : starts_well s ≡ true

replicate-safe : (n : ℕ) → all is_safe (replicate n b'0') ≡ true
replicate-safe zero = refl
replicate-safe (suc n) = replicate-safe n

digit_char-safe : (d : ℕ) → d < 16 → is_safe (digit_char d) ≡ true
unfolding digit_char
digit_char-safe d h = ground arith

digits_onto-safe :
    (fuel n : ℕ) (acc : Str)
    → all is_safe acc ≡ true
    → all is_safe (digits_onto 16 fuel n acc) ≡ true
unfolding digits_onto
digits_onto-safe zero n acc h = h
digits_onto-safe (suc fuel) n acc h =
    let digit = digit_char-safe (n % 16) (omega arith) in
    let ih = digits_onto-safe fuel (n / 16) (digit_char (n % 16) ∷ acc) (rw (digit, h)) in
    elim (Bool-cases (n == 0)) [ inl e ↦ rw e h | inr e ↦ rw e ih ]

in_base-safe : (n : ℕ) → all is_safe (in_base 16 n) ≡ true
unfolding in_base
in_base-safe n = elim (Bool-cases (n == 0)) [
  | inl e ↦ rw e
  | inr e ↦ rw e (digits_onto-safe n n [] refl)
]

escape_char-safe : (c : ℕ) → all is_safe (escape_char c) ≡ true
unfolding escape_char padded
escape_char-safe c = rw (all-append is_safe _ (b'_' ∷ [])) (
    rw (all-append is_safe _ (in_base 16 c))
      (rw (replicate-safe (2 - length (in_base 16 c)), in_base-safe c)))

sub_each-safe : (s : Str) → all is_safe (sub_each (λ c. not (is_safe c)) escape_match s) ≡ true
unfolding sub_each escape_match
sub_each-safe [] = refl
sub_each-safe (c ∷ cs) = elim (Bool-cases (is_safe c)) [
  | inl e ↦ rw e (rw (e, sub_each-safe cs))
  | inr e ↦
      rw (e) (rw (all-append is_safe (escape_char c) _) (rw (escape_char-safe c, sub_each-safe cs)))
]

mangle-safe : (s : Str) → all is_safe (mangle s) ≡ true
unfolding mangle
mangle-safe s = rw sub-one (sub_each-safe s)

finish-IsIdentifier :
    (m : Str)
    → all is_safe m ≡ true
    → IsIdentifier (if m == [] || starts_with_digit m then codes "z_" ++ m else m)
unfolding list_beq starts_with_digit
finish-IsIdentifier [] h = record { safe = refl; starts = refl }
finish-IsIdentifier (c ∷ cs) h = elim (Bool-cases (is_digit c)) [
  | inl e ↦ rw e (record { safe = h; starts = refl })
  | inr e ↦ rw e (record { safe = h; starts = rw e })
]

-- The mangled name of any text is an identifier: only letters, digits and underscores, at least
-- one character, and no digit in front.
pub safe_identifier-IsIdentifier : (s : Str) → IsIdentifier (safe_identifier s)
unfolding safe_identifier
safe_identifier-IsIdentifier s = finish-IsIdentifier (mangle s) (mangle-safe s)

sub_each-append :
    (p : ℕ → Bool) (f : Match → Str) (s t : Str)
    → sub_each p f (s ++ t) ≡ sub_each p f s ++ sub_each p f t
unfolding sub_each
sub_each-append p f [] t = refl
sub_each-append p f (c ∷ cs) t = rw (sub_each-append p f cs t) (rw append_assoc)

sub_each_question :
    (t : Str)
    → sub_each (λ c. not (is_safe c)) escape_match (b'?' ∷ t)
      ≡ sub_each (λ c. not (is_safe c)) escape_match (codes "_3f_" ++ t)
unfolding sub_each escape_match escape_char padded
sub_each_question t = refl

mangle_question : (s t : Str) → mangle (s ++ (b'?' ∷ t)) ≡ mangle (s ++ (codes "_3f_" ++ t))
unfolding mangle
mangle_question s t =
    let p : ℕ → Bool = λ c. not (is_safe c) in
    sub-one p escape_match (s ++ (b'?' ∷ t))
    ∙ sub_each-append p escape_match s (b'?' ∷ t)
    ∙ ap (λ u. sub_each p escape_match s ++ u) (sub_each_question t)
    ∙ sym (sub_each-append p escape_match s (codes "_3f_" ++ t))
    ∙ sym (sub-one p escape_match (s ++ (codes "_3f_" ++ t)))

longer_ne : (s t : Str) → s ++ (b'?' ∷ t) ≢ s ++ (codes "_3f_" ++ t)
longer_ne s t e =
    omega (arith, ap length e, length-append s (b'?' ∷ t), length-append s (codes "_3f_" ++ t))

-- Two names that differ only in that one has `?` where the other has `_3f_` are two texts with
-- one mangled name.
pub safe_identifier_question :
    (s t : Str)
    → (s ++ (b'?' ∷ t) ≢ s ++ (codes "_3f_" ++ t))
      × (safe_identifier (s ++ (b'?' ∷ t)) ≡ safe_identifier (s ++ (codes "_3f_" ++ t)))
unfolding safe_identifier
safe_identifier_question s t = (longer_ne s t, rw (mangle_question s t))
