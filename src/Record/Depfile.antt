-- ===== src/Record/Depfile.antt =====
-- Dependency files in projects/mos-port/tools/record_target_step.py: _split_make_words and
-- parse_depfile_rule on the text of the file.
pub mod RoundTrip
pub mod Rule
use mos_agondev.Errors.{Result, err, fail_if, ok, provenance_error, ◌>>=◌, ◌>>◌}
use mos_agondev.Prelude.{
  Bool, List, Option, [], contains, false, if◌then◌else◌, length, list_eq, nat_eq, none, not,
  option_eq, pair_eq, some, suc, true, zero, ℕ, ◌++◌, ◌-◌, ◌==◌, ◌||◌, ◌∷◌,
}
use mos_agondev.Text.{Str, is_space, starts_with, strip}
use mos_agondev.Text.Words.{lines_of}

abbrev pub backslash : ℕ
backslash = b'\\'

-- the characters that a backslash may stand in front of
abbrev pub is_escapable : ℕ → Bool
is_escapable c = c == b' ' || c == b'#' || c == b':' || c == backslash || c == b'$'

-- `if current: result.append("".join(current))`, in front of the words that follow
abbrev pub with_word : Str → Result (List Str) → Result (List Str)
with_word [] words = words
with_word (c ∷ cs) (ok words) = ok ((c ∷ cs) ∷ words)
with_word (c ∷ cs) (err fault) = err fault

-- the loop over the characters, with `current` and `escaped`
unfoldable pub split_make_from : Str → Bool → Str → Result (List Str)
unfolding is_space
split_make_from current true [] = err provenance_error
split_make_from current false [] = with_word current (ok [])
split_make_from current true (c ∷ cs) =
    let rest = split_make_from (current ++ (c ∷ [])) false cs in
    if is_escapable c then rest else err provenance_error
split_make_from current false (c ∷ cs) =
    let escape = split_make_from current true cs in
    let next = split_make_from [] false cs in
    let rest = split_make_from (current ++ (c ∷ [])) false cs in
    if c == backslash then escape else if is_space c then with_word current next else rest

unfoldable pub split_make_words : Str → Result (List Str)
unfolding split_make_from
split_make_words = split_make_from [] false

-- `text.replace(part, "")`, where `skip` characters are still to be passed over
remove_from : Str → ℕ → Str → Str
unfolding starts_with
remove_from part skip [] = []
remove_from part (suc skip) (c ∷ cs) = remove_from part skip cs
remove_from part zero (c ∷ cs) =
    let removed = remove_from part (length part - 1) cs in
    let kept = remove_from part zero cs in if starts_with part (c ∷ cs) then removed else c ∷ kept

unfoldable pub joined_lines : Str → Str
unfolding remove_from
joined_lines text =
    remove_from (backslash ∷ 10 ∷ []) zero (remove_from (backslash ∷ 13 ∷ 10 ∷ []) zero text)

-- what stands before and behind the first colon, and the first one that is not escaped
unfoldable pub at_colon : Str → Option (Str × Str)
at_colon [] = none
at_colon (c ∷ cs) = elim (at_colon cs) [
  | none ↦ if c == b':' then some ([], cs) else none
  | some (front, back) ↦ if c == b':' then some ([], cs) else some (c ∷ front, back)
]

unfoldable pub at_plain_colon : Bool → Str → Option (Str × Str)
at_plain_colon escaped [] = none
at_plain_colon true (c ∷ cs) = elim (at_plain_colon false cs) [
  | none ↦ none
  | some (front, back) ↦ some (c ∷ front, back)
]
at_plain_colon false (c ∷ cs) =
    let rest = at_plain_colon (c == backslash) cs in
    if c == b':'
    then some ([], cs)
    else elim rest [ none ↦ none | some (front, back) ↦ some (c ∷ front, back) ]

-- `separator < 1` is an error
abbrev colon_parts : Option (Str × Str) → Result (Str × Str)
colon_parts none = err provenance_error
colon_parts (some ([], back)) = err provenance_error
colon_parts (some (c ∷ front, back)) = ok (c ∷ front, back)

abbrev is_phony : List Str → List Str → Bool
is_phony (target ∷ []) [] = true
is_phony _ _ = false

-- one of the additional rules
unfoldable pub extra_rule : Str → Result (Unit {0})
unfolding at_colon split_make_words strip
extra_rule rule =
    if strip rule == []
    then ok tt
    else (colon_parts (at_colon rule) >>= λ (front, back). split_make_words front >>= λ targets.
        split_make_words back >>= λ dependencies.
        fail_if (not (is_phony targets dependencies)) provenance_error)

unfoldable pub extra_rules : List Str → Result (Unit {0})
unfolding extra_rule
extra_rules [] = ok tt
extra_rules (rule ∷ rules) = extra_rule rule >> extra_rules rules

unfoldable pub has_repeats : List Str → Bool
unfolding contains
has_repeats [] = false
has_repeats (x ∷ xs) = contains x xs || has_repeats xs

-- the target and the inputs of the first rule
unfoldable pub checked_rule : List Str → List Str → Result (Str × List Str)
unfolding has_repeats
checked_rule (target ∷ []) (d ∷ dependencies) =
    if has_repeats (d ∷ dependencies) then err provenance_error else ok (target, d ∷ dependencies)
checked_rule _ _ = err provenance_error

unfoldable pub first_rule : Str → Result (Str × List Str)
unfolding at_plain_colon split_make_words checked_rule
first_rule rule = colon_parts (at_plain_colon false rule) >>= λ (front, back).
    split_make_words front >>= λ targets.
    split_make_words back >>= λ dependencies. checked_rule targets dependencies

-- the first of the logical lines, when the other ones are checked
unfoldable pub parse_rules : List Str → Result (Str × List Str)
unfolding extra_rules first_rule
parse_rules [] = err provenance_error
parse_rules (rule ∷ rules) = extra_rules rules >> first_rule rule

unfoldable pub parse_depfile_rule : Str → Result (Str × List Str)
unfolding joined_lines parse_rules lines_of
parse_depfile_rule text = parse_rules (lines_of (joined_lines text))

-- parse_depfile: the inputs
unfoldable pub parse_depfile : Str → Result (List Str)
unfolding parse_depfile_rule
parse_depfile text = parse_depfile_rule text >>= λ (target, dependencies). ok dependencies
