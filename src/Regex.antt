-- ===== src/Regex.antt =====
-- Python's `re` as far as the program uses it: a backtracking matcher over syntax trees.
-- Every repetition in the program's patterns is of one character class, so the matcher is
-- structural: on the pattern, and in a repetition on the text. Of the matches of a pattern that
-- are tried the first is taken, in the order of `re`: the left alternative first, `*` the longest
-- first, `*?` the shortest first.
pub mod Single
use mos_agondev.Prelude.{
  Bool, Dict, List, Option, [], false, if◌then◌else◌, insert, length, list_eq, lookup, nat_eq, none,
  not, option_eq, pair_eq, some, suc, take, true, zero, ℕ, ◌++◌, ◌-◌, ◌==◌, ◌||◌, ◌∷◌,
}
use mos_agondev.Text.{Str, is_digit, is_lower, is_upper, lower_char}

pub data Regex : Type 0 where
  -- the empty text
  nothing : Regex
  -- one character of a class
  one : (ℕ → Bool) → Regex
  -- `[...]*` and `[...]*?`
  many few : (ℕ → Bool) → Regex
  seq alt : Regex → Regex → Regex
  -- `(?P<name>...)`
  group : Str → Regex → Regex
  -- `^`, `$` and `\b`
  line_start line_end boundary : Regex
  -- `(?<![...])` and `(?![...])`
  not_after not_before : (ℕ → Bool) → Regex

-- a position in the text, what was read before it (last character first), and the groups so far
pub record Cursor : Type 0 where
  pub before : Str
  pub rest : Str
  pub groups : Dict Str Str

-- `\w` on ASCII text
unfoldable pub is_word : ℕ → Bool
is_word c = is_digit c || is_upper c || is_lower c || c == b'_'

abbrev head_in : (ℕ → Bool) → Str → Bool
head_in p [] = false
head_in p (c ∷ cs) = p c

-- the text between two positions
abbrev between : Cursor → Cursor → Str
between s t = take (length s.rest - length t.rest) s.rest

abbrev Next : Type 0
Next = Cursor → Option Cursor

or_else : Option Cursor → Option Cursor → Option Cursor
or_else none b = b
or_else (some a) b = some a

greedy : (ℕ → Bool) → Next → Dict Str Str → Str → Str → Option Cursor
unfolding or_else
greedy p k gs before [] = k (record { before = before; rest = []; groups = gs })
greedy p k gs before (c ∷ cs) =
    let here = k (record { before = before; rest = c ∷ cs; groups = gs }) in
    elim (p c) [ true ↦ or_else (greedy p k gs (c ∷ before) cs) here | false ↦ here ]

lazy : (ℕ → Bool) → Next → Dict Str Str → Str → Str → Option Cursor
lazy p k gs before [] = k (record { before = before; rest = []; groups = gs })
lazy p k gs before (c ∷ cs) = elim (k (record { before = before; rest = c ∷ cs; groups = gs })) [
  | some t ↦ some t
  | none ↦ elim (p c) [ true ↦ lazy p k gs (c ∷ before) cs | false ↦ none ]
]

-- read one character of the class
step : (ℕ → Bool) → Next → Dict Str Str → Str → Str → Option Cursor
step p k gs before [] = none
step p k gs before (c ∷ cs) =
    if p c then k (record { before = c ∷ before; rest = cs; groups = gs }) else none

abbrev at_line_end : Str → Bool
at_line_end [] = true
at_line_end (c ∷ []) = c == 10
at_line_end _ = false

abbrev at_start : Str → Bool
at_start [] = true
at_start _ = false

abbrev at_boundary : Str → Str → Bool
at_boundary before rest =
    if head_in is_word before then not (head_in is_word rest) else head_in is_word rest

unfoldable pub run : Regex → Next → Next
unfolding greedy lazy step is_word or_else insert
run nothing k s = k s
run (one p) k s = step p k s.groups s.before s.rest
run (many p) k s = greedy p k s.groups s.before s.rest
run (few p) k s = lazy p k s.groups s.before s.rest
run (seq a b) k s = run a (run b k) s
run (alt a b) k s = elim (run a k s) [ some t ↦ some t | none ↦ run b k s ]
run (group name r) k s = run r (λ t. k (record t { groups = insert name (between s t) t.groups })) s
run line_start k s = if at_start s.before then k s else none
run line_end k s = if at_line_end s.rest then k s else none
run boundary k s = if at_boundary s.before s.rest then k s else none
run (not_after p) k s = if head_in p s.before then none else k s
run (not_before p) k s = if head_in p s.rest then none else k s

-- A match object: the text that was matched, and the named groups that took part.
pub record Match : Type 0 where
  pub text : Str
  pub groups : Dict Str Str

abbrev finished : Cursor → Option Cursor → Option Match
finished s none = none
finished s (some t) = some (record { text = between s t; groups = t.groups })

match_at : Regex → Str → Str → Option Match
match_at r before rest =
    let s : Cursor = record { before = before; rest = rest; groups = [] } in
    finished s (run r (λ t. some t) s)

-- `pattern.match(text)`
unfoldable pub match : Regex → Str → Option Match
unfolding match_at run
match r s = match_at r [] s

-- `pattern.fullmatch(text) is not None`
unfoldable pub full_match : Regex → Str → Bool
unfolding run
full_match r s =
    elim (run r (λ t. if length t.rest == 0 then some t else none)
      (record { before = []; rest = s; groups = [] })) [ none ↦ false | some t ↦ true ]

unfoldable pub matches : Regex → Str → Bool
matches r s = elim (match r s) [ none ↦ false | some m ↦ true ]

-- `m.group(name)` of a group that may be absent, and of one that takes part in every match
unfoldable pub group_of : Str → Match → Option Str
unfolding lookup
group_of name m = lookup name m.groups

unfoldable pub named : Str → Match → Str
unfolding group_of
named name m = elim (group_of name m) [ none ↦ [] | some s ↦ s ]

-- a text cut at the matches that `finditer` and `sub` meet
pub data Piece : Type 0 where
  plain : ℕ → Piece
  found : Match → Piece

-- `skip` counts the characters of the last match that are still to be passed over. The patterns
-- that the program searches for match no empty text.
pieces_from : Regex → Str → ℕ → Str → List Piece
pieces_from r before skip [] = []
pieces_from r before (suc skip) (c ∷ cs) = pieces_from r (c ∷ before) skip cs
pieces_from r before zero (c ∷ cs) = elim (match_at r before (c ∷ cs)) [
  | none ↦ plain c ∷ pieces_from r (c ∷ before) zero cs
  | some m ↦ elim (m.text) [
    | [] ↦ plain c ∷ pieces_from r (c ∷ before) zero cs
    | _ ∷ t ↦ found m ∷ pieces_from r (c ∷ before) (length t) cs
  ]
]

unfoldable pub pieces : Regex → Str → List Piece
unfolding pieces_from match_at run
pieces r s = pieces_from r [] zero s

unfoldable pub found_only : List Piece → List Match
found_only [] = []
found_only (plain c ∷ ps) = found_only ps
found_only (found m ∷ ps) = m ∷ found_only ps

-- `pattern.finditer(text)`
unfoldable pub find_iter : Regex → Str → List Match
unfolding pieces found_only
find_iter r s = found_only (pieces r s)

unfoldable pub replace_pieces : (Match → Str) → List Piece → Str
replace_pieces f [] = []
replace_pieces f (plain c ∷ ps) = c ∷ replace_pieces f ps
replace_pieces f (found m ∷ ps) = f m ++ replace_pieces f ps

-- `re.sub(pattern, f, text)`
unfoldable pub sub : Regex → (Match → Str) → Str → Str
unfolding pieces replace_pieces
sub r f s = replace_pieces f (pieces r s)

-- pattern notation
infixr 61 ◌▸◌
abbrev pub ◌▸◌ : Regex → Regex → Regex
a ▸ b = seq a b

abbrev pub opt : Regex → Regex
opt r = alt r nothing

abbrev pub some_of : (ℕ → Bool) → Regex
some_of p = one p ▸ many p

abbrev pub char : ℕ → Regex
char c = one (λ x. x == c)

abbrev pub lit : Str → Regex
lit [] = nothing
lit (c ∷ []) = char c
lit (c ∷ cs) = char c ▸ lit cs

-- one letter under `re.IGNORECASE`, with the four letters that fold into ASCII ones
unfoldable pub fold_char : ℕ → ℕ
unfolding lower_char
fold_char c =
    if c == 0x130 || c == 0x131
    then b'i'
    else if c == 0x17f
    then b's'
    else if c == 0x212a
    then b'k'
    else lower_char c

abbrev pub lit_ci : Str → Regex
lit_ci [] = nothing
lit_ci (c ∷ []) = one (λ x. fold_char x == fold_char c)
lit_ci (c ∷ cs) = one (λ x. fold_char x == fold_char c) ▸ lit_ci cs
