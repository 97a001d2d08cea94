-- ===== src/Zds/Lexical/Lines.antt =====
-- Laws of split_physical_line and of str.splitlines.
use mos_agondev.Prelude.{
  Bool-cases, List, Option, [], ap, append-nil, append_assoc, arith, inl, inr, list_eq, nat_eq,
  none, option_eq, pair_eq, refl, some, ℕ, ◌++◌, ◌==◌, ◌∙◌, ◌∷◌, ◌≡◌, ◌≢◌, ◌⊎◌,
}
use mos_agondev.Text.{Str, concat, push_char, split_lines}
use mos_agondev.Zds.Lexical.{split_crlf, split_ending, split_last, split_physical_line}

-- what `split_last` says of the text
abbrev Ends : Str → Option (Str × ℕ) → Type 0
Ends s none = s ≡ []
Ends s (some (front, c)) = s ≡ front ++ (c ∷ [])

Ends-cons :
    (x : ℕ) (s : Str) (o : Option (Str × ℕ))
    → Ends s o
    → Ends (x ∷ s) (elim o [ none ↦ some ([], x) | some (f, l) ↦ some (x ∷ f, l) ])
Ends-cons x s none h = ap (◌∷◌ x) h
Ends-cons x s (some (f, l)) h = ap (◌∷◌ x) h

pub split_last-Ends : (s : Str) → Ends s (split_last s)
unfolding split_last
split_last-Ends [] = refl
split_last-Ends (x ∷ s) = Ends-cons x s (split_last s) (split_last-Ends s)

split_crlf-append :
    (front : Str) (o : Option (Str × ℕ))
    → Ends front o
    → (split_crlf front o).0 ++ (split_crlf front o).1 ≡ front ++ (10 ∷ [])
unfolding split_crlf
split_crlf-append front none h = refl
split_crlf-append front (some (f, c)) h = elim (Bool-cases (c == 13)) [
  | inl e ↦ rw e (rw h (rw append_assoc (ground arith)))
  | inr e ↦ rw e
]

split_ending-append :
    (line : Str) (o : Option (Str × ℕ))
    → Ends line o
    → (split_ending line o).0 ++ (split_ending line o).1 ≡ line
unfolding split_ending
split_ending-append line none h = append-nil line
split_ending-append line (some (front, c)) h = elim (Bool-cases (c == 10)) [
  | inl e ↦
      rw e (split_crlf-append front (split_last front) (split_last-Ends front) ∙ ground (arith, h))
  | inr e ↦ ground (arith, append-nil line)
]

split_last-append : (front : Str) (c : ℕ) → split_last (front ++ (c ∷ [])) ≡ some (front, c)
unfolding split_last
split_last-append [] c = refl
split_last-append (x ∷ front) c = rw (split_last-append front c) refl

-- a text that does not end with a character
abbrev pub LacksEnd : ℕ → Str → Type 0
LacksEnd c s = (front : Str) → s ≢ front ++ (c ∷ [])

split_last-LacksEnd :
    (c : ℕ) (s : Str) → ((front : Str) → split_last s ≢ some (front, c)) → LacksEnd c s
split_last-LacksEnd c s h front e = h front (ap split_last e ∙ split_last-append front c)

-- the four ways in which a line is a text and an ending
abbrev pub IsEnding : Str → Str → Type 0
IsEnding text ending =
    (ending ≡ 13 ∷ 10 ∷ [])
    ⊎ ((ending ≡ 10 ∷ []) × LacksEnd 13 text)
    ⊎ (ending ≡ 13 ∷ [])
    ⊎ ((ending ≡ []) × LacksEnd 10 text × LacksEnd 13 text)

split_crlf-IsEnding :
    (front : Str) (o : Option (Str × ℕ))
    → split_last front ≡ o
    → IsEnding (split_crlf front o).0 (split_crlf front o).1
unfolding split_crlf
split_crlf-IsEnding front none h =
    inr (inl (refl, split_last-LacksEnd 13 front (λ f e. ground (arith, h, e))))
split_crlf-IsEnding front (some (text, c)) h = elim (Bool-cases (c == 13)) [
  | inl e ↦ rw e (inl refl)
  | inr other ↦
      rw other (inr (inl (refl, split_last-LacksEnd 13 front (λ f e. ground (arith, h, e, other)))))
]

split_ending-IsEnding :
    (line : Str) (o : Option (Str × ℕ))
    → split_last line ≡ o
    → IsEnding (split_ending line o).0 (split_ending line o).1
unfolding split_ending
split_ending-IsEnding line none h = inr (
    inr (
      inr (
        refl,
        split_last-LacksEnd 10 line (λ f e. ground (arith, h, e)),
        split_last-LacksEnd 13 line (λ f e. ground (arith, h, e)),
      )))
split_ending-IsEnding line (some (front, c)) h = elim (Bool-cases (c == 10)) [
  | inl e ↦ rw e (split_crlf-IsEnding front (split_last front) refl)
  | inr no_feed ↦ elim (Bool-cases (c == 13)) [
    | inl e ↦ rw (no_feed, e) (inr (inr (inl (ground (arith, e)))))
    | inr no_return ↦
        rw (no_feed, no_return)
          (inr (
            inr (
              inr (
                refl,
                split_last-LacksEnd 10 line (λ f e. ground (arith, h, e, no_feed)),
                split_last-LacksEnd 13 line (λ f e. ground (arith, h, e, no_return)),
              ))))
  ]
]

-- split_physical_line takes a line apart into its text and its ending. The ending is CR LF; or LF,
-- behind a text that does not end with CR; or CR; or nothing, for a line that ends with neither.
pub split_physical_line-IsEnding :
    (line : Str)
    → ((split_physical_line line).0 ++ (split_physical_line line).1 ≡ line)
      × IsEnding (split_physical_line line).0 (split_physical_line line).1
unfolding split_physical_line
split_physical_line-IsEnding line = (
  split_ending-append line (split_last line) (split_last-Ends line),
  split_ending-IsEnding line (split_last line) refl,
)

concat-push_char : (c : ℕ) (ls : List Str) → concat (push_char c ls) ≡ c ∷ concat ls
unfolding concat
concat-push_char c [] = refl
concat-push_char c (l ∷ ls) = refl

-- The lines of a text make up the text.
pub concat-split_lines : (s : Str) → concat (split_lines s) ≡ s
unfolding concat split_lines
concat-split_lines [] = refl
concat-split_lines (c ∷ []) = refl
concat-split_lines (c ∷ d ∷ cs) =
    ground (arith, concat-split_lines (d ∷ cs), concat-push_char c (split_lines (d ∷ cs)))
