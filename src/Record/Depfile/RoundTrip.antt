-- ===== src/Record/Depfile/RoundTrip.antt =====
-- The words that _split_make_words of projects/mos-port/tools/record_target_step.py reads back from
-- a line in which a compiler has escaped them.
use mos_agondev.Errors.{ok}
use mos_agondev.Prelude.{
  &&-true, All, Bool-cases, List, [], all, ap, append-nil, append_assoc, arith, false,
  if◌then◌else◌, inl, inr, list_eq, nat_eq, not, option_eq, pair_eq, refl, sym, true, ◌++◌, ◌==◌,
  ◌||◌, ◌∙◌, ◌∷◌, ◌≡◌, ◌≢◌,
}
use mos_agondev.Record.Depfile.{
  backslash, is_escapable, split_make_from, split_make_words, with_word,
}
use mos_agondev.Text.{Str, is_space}

-- A word as a compiler prints it: a backslash in front of each special character.
unfoldable pub escaped_word : Str → Str
escaped_word [] = []
escaped_word (c ∷ cs) =
    let rest = escaped_word cs in if is_escapable c then backslash ∷ c ∷ rest else c ∷ rest

-- The words with a blank between them.
unfoldable pub printed_words : List Str → Str
unfolding escaped_word
printed_words [] = []
printed_words (w ∷ ws) = escaped_word w ++ (b' ' ∷ printed_words ws)

-- A word that can be printed: not empty, and with no white space but blanks.
abbrev pub IsPrintable : Str → Type 0
IsPrintable w = (w ≢ []) × (all (λ c. is_escapable c || not (is_space c)) w ≡ true)

-- Reading an escaped word adds it to the current one.
pub split_make_from-escaped_word :
    (current w rest : Str)
    → all (λ c. is_escapable c || not (is_space c)) w ≡ true
    → split_make_from current false (escaped_word w ++ rest)
      ≡ split_make_from (current ++ w) false rest
unfolding split_make_from escaped_word
split_make_from-escaped_word current [] rest h =
    ap (λ s. split_make_from s false rest) (sym (append-nil current))
split_make_from-escaped_word current (c ∷ cs) rest h =
    let (this, others) = &&-true (is_escapable c || not (is_space c)) _ h in
    let ih =
      split_make_from-escaped_word (current ++ (c ∷ [])) cs rest others
      ∙ ap (λ s. split_make_from s false rest) (append_assoc current (c ∷ []) cs) in
    elim (Bool-cases (is_escapable c)) [
      | inl e ↦ rw e (rw e ih)
      | inr e ↦
          let no_blank : (c == backslash) ≡ false = ground (arith, e) in
          let no_space : is_space c ≡ false = ground (arith, e, this) in
          rw e (rw (no_blank, no_space) ih)
    ]

pub with_word-ok : (w : Str) (ws : List Str) → w ≢ [] → with_word w (ok ws) ≡ ok (w ∷ ws)
with_word-ok [] ws h = absurd (h refl)
with_word-ok (c ∷ cs) ws h = refl

-- Splitting the printed words gives the words back, if none is empty and each has no white space
-- but blanks.
pub split_make_words-printed_words :
    (ws : List Str) → All IsPrintable ws → split_make_words (printed_words ws) ≡ ok ws
unfolding split_make_words printed_words split_make_from is_space
split_make_words-printed_words [] h = refl
split_make_words-printed_words (w ∷ ws) ((filled, no_blank), h) =
    split_make_from-escaped_word [] w (b' ' ∷ printed_words ws) no_blank
    ∙ ap (with_word w) (split_make_words-printed_words ws h)
    ∙ with_word-ok w ws filled
