-- ===== src/Text.antt =====
-- Python's `str` as a list of code points, with the methods that the program calls.
pub mod Number
pub mod Words
use Prim.Native.Char.{code}
use Prim.Native.String.{String}
use mos_agondev.Prelude.{
  Bool, List, [], any, false, if◌then◌else◌, leb, list_eq, ltb, map, nat_eq, not, option_eq,
  pair_eq, reverse, true, ℕ, ◌&&◌, ◌++◌, ◌+◌, ◌-◌, ◌==◌, ◌||◌, ◌∷◌,
}

abbrev pub Str : Type 0
Str = List ℕ

abbrev pub codes : String → Str
codes String.[] = []
codes (String.◌∷◌ c s) = code c ∷ codes s

abbrev pub within : ℕ → ℕ → ℕ → Bool
within lo hi c = leb lo c && leb c hi

abbrev pub is_one_of : Str → ℕ → Bool
is_one_of cs c = any (λ x. x == c) cs

-- `str.isspace` of one character
unfoldable pub is_space : ℕ → Bool
is_space c =
    within 9 13 c
    || within 28 32 c
    || within 0x2000 0x200a c
    || is_one_of (0x85 ∷ 0xa0 ∷ 0x1680 ∷ 0x2028 ∷ 0x2029 ∷ 0x202f ∷ 0x205f ∷ 0x3000 ∷ []) c

abbrev pub is_digit : ℕ → Bool
is_digit = within b'0' b'9'

abbrev pub is_upper : ℕ → Bool
is_upper = within b'A' b'Z'

abbrev pub is_lower : ℕ → Bool
is_lower = within b'a' b'z'

-- `casefold`, `lower` and `upper` on the ASCII letters
unfoldable pub lower_char : ℕ → ℕ
lower_char c = if is_upper c then c + 32 else c

unfoldable pub upper_char : ℕ → ℕ
upper_char c = if is_lower c then c - 32 else c

unfoldable pub casefold : Str → Str
unfolding lower_char
casefold = map lower_char

unfoldable pub upper : Str → Str
unfolding upper_char
upper = map upper_char

unfoldable pub lstrip : Str → Str
unfolding is_space
lstrip [] = []
lstrip (c ∷ cs) = if is_space c then lstrip cs else c ∷ cs

unfoldable pub strip : Str → Str
unfolding lstrip
strip s = reverse (lstrip (reverse (lstrip s)))

unfoldable pub starts_with : Str → Str → Bool
starts_with [] s = true
starts_with (p ∷ ps) [] = false
starts_with (p ∷ ps) (c ∷ cs) = p == c && starts_with ps cs

unfoldable pub ends_with : Str → Str → Bool
unfolding starts_with
ends_with suffix s = starts_with (reverse suffix) (reverse s)

-- `text.split(sep)` for a separator of one character, as the first part and the others
split_parts : ℕ → Str → Str × List Str
split_parts sep [] = ([], [])
split_parts sep (c ∷ cs) =
    let (part, parts) = split_parts sep cs in
    if c == sep then ([], part ∷ parts) else (c ∷ part, parts)

unfoldable pub split : ℕ → Str → List Str
unfolding split_parts
split sep s = let (part, parts) = split_parts sep s in part ∷ parts

-- `sep.join(parts)`
unfoldable pub join : Str → List Str → Str
join sep [] = []
join sep (p ∷ []) = p
join sep (p ∷ q ∷ ps) = p ++ (sep ++ join sep (q ∷ ps))

-- the characters at which `str.splitlines` ends a line
abbrev pub is_line_end : ℕ → Bool
is_line_end c = within 10 13 c || within 28 30 c || c == 0x85 || c == 0x2028 || c == 0x2029

-- a character in front of the lines of the rest
abbrev pub push_char : ℕ → List Str → List Str
push_char c [] = (c ∷ []) ∷ []
push_char c (l ∷ ls) = (c ∷ l) ∷ ls

-- `text.splitlines(keepends=True)`
unfoldable pub split_lines : Str → List Str
split_lines [] = []
split_lines (c ∷ []) = (c ∷ []) ∷ []
split_lines (c ∷ d ∷ cs) =
    let rest = split_lines (d ∷ cs) in
    if is_line_end c && not (c == 13 && d == 10) then (c ∷ []) ∷ rest else push_char c rest

-- `"".join(parts)`
unfoldable pub concat : List Str → Str
concat [] = []
concat (s ∷ ss) = s ++ concat ss

-- `s < t` on strings
unfoldable pub str_lt : Str → Str → Bool
str_lt s [] = false
str_lt [] (d ∷ ds) = true
str_lt (c ∷ cs) (d ∷ ds) = if c == d then str_lt cs ds else ltb c d
