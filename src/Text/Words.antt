-- ===== src/Text/Words.antt =====
-- More of Python's `str`: lines, words, prefixes and parts of a text.
use mos_agondev.Prelude.{
  Bool, List, Option, [], drop, if◌then◌else◌, length, list_eq, map, nat_eq, none, option_eq,
  pair_eq, reverse, some, take, ℕ, ◌&&◌, ◌++◌, ◌-◌, ◌==◌, ◌||◌, ◌∷◌,
}
use mos_agondev.Text.{
  Str, codes, ends_with, is_line_end, is_space, join, split, split_lines, starts_with,
}

-- `text.splitlines()`: the lines with no line end
abbrev is_crlf_front : Str → Bool
is_crlf_front s = s == (13 ∷ 10 ∷ [])

unfoldable pub chop_line : Str → Str
chop_line [] = []
chop_line (c ∷ cs) =
    let rest = chop_line cs in
    if (cs == [] && is_line_end c) || is_crlf_front (c ∷ cs) then [] else c ∷ rest

unfoldable pub lines_of : Str → List Str
unfolding chop_line
lines_of s = map chop_line (split_lines s)

-- `text.split()`, with the word that is being read
words_from : Str → Str → List Str
words_from word [] = if word == [] then [] else word ∷ []
words_from word (c ∷ cs) =
    let outside_word = words_from [] cs in
    let inside_word = words_from (word ++ (c ∷ [])) cs in
    if is_space c then (if word == [] then outside_word else word ∷ outside_word) else inside_word

unfoldable pub words_of : Str → List Str
unfolding words_from is_space
words_of = words_from []

-- `part in text`
unfoldable pub has_part : Str → Str → Bool
unfolding starts_with
has_part part [] = part == []
has_part part (c ∷ cs) = starts_with part (c ∷ cs) || has_part part cs

-- `text.strip(chars)`
strip_left : (ℕ → Bool) → Str → Str
strip_left p [] = []
strip_left p (c ∷ cs) = let rest = strip_left p cs in if p c then rest else c ∷ cs

unfoldable pub strip_chars : (ℕ → Bool) → Str → Str
unfolding strip_left
strip_chars p s = reverse (strip_left p (reverse (strip_left p s)))

-- `text.lstrip(chars)` and `text.rstrip(chars)`
unfoldable pub lstrip_chars : (ℕ → Bool) → Str → Str
unfolding strip_left
lstrip_chars p s = strip_left p s

unfoldable pub rstrip_chars : (ℕ → Bool) → Str → Str
unfolding strip_left
rstrip_chars p s = reverse (strip_left p (reverse s))

-- `text.removeprefix(prefix)` and `text.removesuffix(suffix)`
unfoldable pub remove_prefix : Str → Str → Str
unfolding starts_with
remove_prefix prefix s = if starts_with prefix s then drop (length prefix) s else s

unfoldable pub remove_suffix : Str → Str → Str
unfolding ends_with
remove_suffix suffix s = if ends_with suffix s then take (length s - length suffix) s else s

-- `text.replace(c, "")` and `text.replace(c, d)` for single characters
unfoldable pub without_char : ℕ → Str → Str
without_char c [] = []
without_char c (x ∷ xs) = let rest = without_char c xs in if x == c then rest else x ∷ rest

abbrev pub replace_char : ℕ → ℕ → Str → Str
replace_char c d = map (λ x. if x == c then d else x)

-- `text.rsplit(sep, 1)` for one character: what stands before and behind the last `sep`
unfoldable pub split_last_at : ℕ → Str → Option (Str × Str)
split_last_at sep [] = none
split_last_at sep (c ∷ cs) = elim (split_last_at sep cs) [
  | some (front, back) ↦ some (c ∷ front, back)
  | none ↦ if c == sep then some ([], cs) else none
]

-- `text.rsplit(sep, 1)[0]`, and `[1]` where `sep` is there
unfoldable pub before_last : ℕ → Str → Str
unfolding split_last_at
before_last sep s = elim (split_last_at sep s) [ none ↦ s | some (front, back) ↦ front ]

unfoldable pub after_last : ℕ → Str → Str
unfolding split_last_at
after_last sep s = elim (split_last_at sep s) [ none ↦ s | some (front, back) ↦ back ]

-- `" ".join(text.split())`
unfoldable pub one_spaced : Str → Str
unfolding words_of
one_spaced s = join (codes " ") (words_of s)

last_of : List Str → Str
last_of [] = []
last_of (p ∷ ps) = elim ps [ [] ↦ p | _ ∷ _ ↦ last_of ps ]

not_empty_parts : List Str → List Str
not_empty_parts [] = []
not_empty_parts (p ∷ ps) =
    let rest = not_empty_parts ps in if p == [] || p == codes "." then rest else p ∷ rest

-- `PurePosixPath(text).name` of a path that does not end in `..`
unfoldable pub path_name : Str → Str
unfolding last_of not_empty_parts
path_name s = last_of (not_empty_parts (split b'/' s))

-- `Path(text).stem`: the name up to its last dot, unless the dot is its first or last character
unfoldable pub path_stem : Str → Str
unfolding path_name split_last_at
path_stem s = elim (split_last_at b'.' (path_name s)) [
  | none ↦ path_name s
  | some (front, back) ↦ if front == [] || back == [] then path_name s else front
]
