-- ===== src/Record/Depfile/Rule.antt =====
-- The rule that parse_depfile_rule of projects/mos-port/tools/record_target_step.py reads back.
use mos_agondev.Errors.{ok}
use mos_agondev.Prelude.{
  &&-true, All, Bool, Bool-cases, List, [], all, all-append, ap, append-nil, arith, false, inl, inr,
  list_beq, list_eq, map, nat_eq, not, option_eq, pair_eq, refl, some, sym, true, zero, ℕ, ◌++◌,
  ◌==◌, ◌||◌, ◌∙◌, ◌∷◌, ◌≡◌, ◌≢◌,
}
use mos_agondev.Record.Depfile.{
  at_plain_colon, backslash, checked_rule, colon_parts, extra_rules, first_rule, has_repeats,
  is_escapable, joined_lines, parse_depfile_rule, parse_rules, remove_from, split_make_from,
  split_make_words,
}
use mos_agondev.Record.Depfile.RoundTrip.{
  IsPrintable, escaped_word, printed_words, split_make_from-escaped_word,
  split_make_words-printed_words, with_word-ok,
}
use mos_agondev.Text.{Str, is_line_end, is_space, push_char, split_lines, starts_with}
use mos_agondev.Text.Words.{chop_line, lines_of}

-- `target: inputs` on one line, as a compiler prints it.
unfoldable pub printed_rule : Str → List Str → Str
unfolding escaped_word printed_words
printed_rule target dependencies = escaped_word target ++ (b':' ∷ b' ' ∷ printed_words dependencies)

abbrev in_line : ℕ → Bool
in_line c = not (is_line_end c)

abbrev OneLine : Str → Type 0
OneLine s = all in_line s ≡ true

escaped_word-OneLine :
    (w : Str) → all (λ c. is_escapable c || not (is_space c)) w ≡ true → OneLine (escaped_word w)
unfolding escaped_word is_space
escaped_word-OneLine [] h = refl
escaped_word-OneLine (c ∷ cs) h =
    let (this, others) = &&-true (is_escapable c || not (is_space c)) _ h in
    let rest = escaped_word-OneLine cs others in
    let first : in_line c ≡ true = ground (arith, this) in
    elim (Bool-cases (is_escapable c)) [
      | inl e ↦ rw e (rw (first, rest) refl)
      | inr e ↦ rw e (rw (first, rest) refl)
    ]

OneLine-append : (s t : Str) → OneLine s → OneLine t → OneLine (s ++ t)
OneLine-append s t h k = all-append in_line s t ∙ rw (h, k) refl

printed_words-OneLine : (ws : List Str) → All IsPrintable ws → OneLine (printed_words ws)
unfolding printed_words
printed_words-OneLine [] h = refl
printed_words-OneLine (w ∷ ws) ((filled, no_blank), h) =
    OneLine-append (escaped_word w) (b' ' ∷ printed_words ws) (escaped_word-OneLine w no_blank)
      (printed_words-OneLine ws h)

-- A text without line ends has no continued line, and is one line.
remove_from-OneLine :
    (stop : ℕ) (rest s : Str)
    → is_line_end stop ≡ true
    → OneLine s
    → remove_from (backslash ∷ stop ∷ rest) zero s ≡ s
unfolding remove_from starts_with
remove_from-OneLine stop rest [] e h = refl
remove_from-OneLine stop rest (c ∷ []) e h = elim (Bool-cases (backslash == c)) [
  | inl k ↦ rw k refl
  | inr k ↦ rw k refl
]
remove_from-OneLine stop rest (c ∷ d ∷ cs) e h =
    let (this, others) = &&-true (in_line c) (all in_line (d ∷ cs)) h in
    let (next, more) = &&-true (in_line d) (all in_line cs) others in
    let differ : (stop == d) ≡ false = ground (arith, e, next) in
    let ih = remove_from-OneLine stop rest (d ∷ cs) e others in
    elim (Bool-cases (backslash == c)) [
      | inl k ↦ rw (k, differ) (ap (◌∷◌ c) ih)
      | inr k ↦ rw k (ap (◌∷◌ c) ih)
    ]

split_lines-OneLine : (c : ℕ) (cs : Str) → OneLine (c ∷ cs) → split_lines (c ∷ cs) ≡ (c ∷ cs) ∷ []
unfolding split_lines
split_lines-OneLine c [] h = refl
split_lines-OneLine c (d ∷ cs) h =
    let (this, others) = &&-true (in_line c) (all in_line (d ∷ cs)) h in
    let inside : is_line_end c ≡ false = ground (arith, this) in
    rw inside (ap (push_char c) (split_lines-OneLine d cs others))

chop_line-OneLine : (s : Str) → OneLine s → chop_line s ≡ s
unfolding chop_line list_beq
chop_line-OneLine [] h = refl
chop_line-OneLine (c ∷ []) h =
    let (this, others) = &&-true (in_line c) (all in_line []) h in
    let in_this : is_line_end c ≡ false = ground (arith, this) in
    let no_return : (c == 13) ≡ false = ground (arith, this) in rw (in_this, no_return) refl
chop_line-OneLine (c ∷ d ∷ cs) h =
    let (this, others) = &&-true (in_line c) (all in_line (d ∷ cs)) h in
    let ih = chop_line-OneLine (d ∷ cs) others in
    let no_return : (c == 13) ≡ false = ground (arith, this) in rw no_return (ap (◌∷◌ c) ih)

lines_of-OneLine : (c : ℕ) (cs : Str) → OneLine (c ∷ cs) → lines_of (c ∷ cs) ≡ (c ∷ cs) ∷ []
unfolding lines_of
lines_of-OneLine c cs h =
    ap (map chop_line) (split_lines-OneLine c cs h)
    ∙ ap (λ s. s ∷ []) (chop_line-OneLine (c ∷ cs) h)

-- The first plain colon is the one behind the target.
at_plain_colon-escaped_word :
    (w rest : Str)
    → at_plain_colon false (escaped_word w ++ (b':' ∷ rest)) ≡ some (escaped_word w, rest)
unfolding at_plain_colon escaped_word
at_plain_colon-escaped_word [] rest = refl
at_plain_colon-escaped_word (c ∷ cs) rest =
    let ih = at_plain_colon-escaped_word cs rest in
    elim (Bool-cases (is_escapable c)) [
      | inl e ↦ rw e (rw ih refl)
      | inr e ↦
          let no_colon : (c == b':') ≡ false = ground (arith, e) in
          let no_slash : (c == backslash) ≡ false = ground (arith, e) in
          rw e (rw (no_colon, no_slash, ih) refl)
    ]

-- Reading an escaped word to the end gives the word.
split_make_words-escaped_word :
    (w : Str) → IsPrintable w → split_make_words (escaped_word w) ≡ ok (w ∷ [])
unfolding split_make_words split_make_from
split_make_words-escaped_word w (filled, no_blank) =
    ap (split_make_from [] false) (sym (append-nil (escaped_word w)))
    ∙ split_make_from-escaped_word [] w [] no_blank
    ∙ with_word-ok w [] filled

colon_parts-filled :
    (front back : Str) → front ≢ [] → colon_parts (some (front, back)) ≡ ok (front, back)
colon_parts-filled [] back h = absurd (h refl)
colon_parts-filled (c ∷ cs) back h = refl

escaped_word-filled : (w : Str) → w ≢ [] → escaped_word w ≢ []
unfolding escaped_word
escaped_word-filled [] h e = h refl
escaped_word-filled (c ∷ cs) h e = ground (arith, e)

printed_rule-filled : (s t : Str) (c : ℕ) → s ++ (c ∷ t) ≢ []
printed_rule-filled [] t c e = ground (arith, e)
printed_rule-filled (d ∷ s) t c e = ground (arith, e)

-- The input words behind the blank.
split_make_words-blank : (s : Str) → split_make_words (b' ' ∷ s) ≡ split_make_words s
unfolding split_make_words split_make_from is_space
split_make_words-blank s = refl

checked_rule-once :
    (t d : Str) (ds : List Str)
    → has_repeats (d ∷ ds) ≡ false
    → checked_rule (t ∷ []) (d ∷ ds) ≡ ok (t, d ∷ ds)
unfolding checked_rule
checked_rule-once t d ds h = rw h refl

first_rule-printed_rule :
    (t d : Str) (ds : List Str)
    → IsPrintable t
    → All IsPrintable (d ∷ ds)
    → has_repeats (d ∷ ds) ≡ false
    → first_rule (printed_rule t (d ∷ ds)) ≡ ok (t, d ∷ ds)
unfolding first_rule printed_rule
first_rule-printed_rule t d ds target inputs h =
    let front = split_make_words-escaped_word t target in
    let back =
      split_make_words-blank (printed_words (d ∷ ds))
      ∙ split_make_words-printed_words (d ∷ ds) inputs in
    let filled = escaped_word-filled t (target.0) in
    rw
      (
        at_plain_colon-escaped_word t (b' ' ∷ printed_words (d ∷ ds)),
        colon_parts-filled (escaped_word t) (b' ' ∷ printed_words (d ∷ ds)) filled,
        front,
        back,
      )
      (checked_rule-once t d ds h)

printed_rule-OneLine :
    (t : Str) (ws : List Str) → IsPrintable t → All IsPrintable ws → OneLine (printed_rule t ws)
unfolding printed_rule
printed_rule-OneLine t ws target inputs =
    OneLine-append (escaped_word t) (b':' ∷ b' ' ∷ printed_words ws)
      (escaped_word-OneLine t (target.1)) (printed_words-OneLine ws inputs)

joined_lines-OneLine : (s : Str) → OneLine s → joined_lines s ≡ s
unfolding joined_lines
joined_lines-OneLine s h =
    ap (remove_from (backslash ∷ 10 ∷ []) zero) (remove_from-OneLine 13 (10 ∷ []) s refl h)
    ∙ remove_from-OneLine 10 [] s refl h

-- A file of one line has no additional rule.
parse_depfile_rule-OneLine : (s : Str) → s ≢ [] → OneLine s → parse_depfile_rule s ≡ first_rule s
unfolding parse_depfile_rule parse_rules extra_rules
parse_depfile_rule-OneLine [] filled h = absurd (filled refl)
parse_depfile_rule-OneLine (c ∷ cs) filled h =
    ap (λ s. parse_rules (lines_of s)) (joined_lines-OneLine (c ∷ cs) h)
    ∙ ap parse_rules (lines_of-OneLine c cs h)

-- parse_depfile_rule reads back the target and the inputs of a rule that is printed on one line
-- with its special characters escaped, if no word is empty, each has no white space but blanks, and
-- there is at least one input and no input twice.
pub parse_depfile_rule-printed_rule :
    (t d : Str) (ds : List Str)
    → IsPrintable t
    → All IsPrintable (d ∷ ds)
    → has_repeats (d ∷ ds) ≡ false
    → parse_depfile_rule (printed_rule t (d ∷ ds)) ≡ ok (t, d ∷ ds)
unfolding printed_rule
parse_depfile_rule-printed_rule t d ds target inputs h =
    let filled = printed_rule-filled (escaped_word t) (b' ' ∷ printed_words (d ∷ ds)) b':' in
    parse_depfile_rule-OneLine (printed_rule t (d ∷ ds)) filled
      (printed_rule-OneLine t (d ∷ ds) target inputs)
    ∙ first_rule-printed_rule t d ds target inputs h
