-- ===== src/Zds/Names.antt =====
-- Identifiers: parse_params, safe_identifier, macro_gas_name and file_key of
-- projects/mos-port/tools/zds2gas.py.
pub mod Safe
pub mod Params
use mos_agondev.Prelude.{
  Bool, List, Option, [], any, contains, false, if◌then◌else◌, length, list_eq, map, nat_eq, none,
  not, option_eq, pair_eq, reverse, some, take, ℕ, ◌&&◌, ◌++◌, ◌==◌, ◌||◌, ◌∷◌,
}
use mos_agondev.Regex.{Match, full_match, one, some_of, sub}
use mos_agondev.Text.{Str, casefold, codes, is_digit, join, split, strip}
use mos_agondev.Text.Number.{padded}
use mos_agondev.Zds.Patterns.{ident, is_alpha}
use mos_agondev.Errors.{Result, err, ok, value_error}

-- `set(params)`, as the list of the last occurrences
unfoldable pub unique : List Str → List Str
unique [] = []
unique (x ∷ xs) = let rest = unique xs in if contains x xs then rest else x ∷ rest

abbrev pub not_ident : Str → Bool
not_ident param = not (full_match ident param)

-- the two tests of the parameters
unfoldable pub checked_params : List Str → Result (List Str)
unfolding unique
checked_params params =
    if any not_ident params
    then err value_error
    else if not (length params == length (unique params))
    then err value_error
    else ok params

unfoldable pub parse_params : Option Str → Result (List Str)
unfolding checked_params
parse_params none = ok []
parse_params (some raw) =
    if strip raw == [] then ok [] else checked_params (map strip (split b',' raw))

-- `[A-Za-z0-9_]`
abbrev pub is_safe : ℕ → Bool
is_safe c = is_alpha c || is_digit c || c == b'_'

-- `f"_{ord(c):02x}_"`
unfoldable pub escape_char : ℕ → Str
escape_char c = b'_' ∷ (padded 16 2 c ++ b'_' ∷ [])

escape_match : Match → Str
unfolding escape_char
escape_match m = elim (m.text) [ [] ↦ [] | c ∷ cs ↦ escape_char c ]

unfoldable pub mangle : Str → Str
unfolding escape_match
mangle = sub (one (λ c. not (is_safe c))) escape_match

starts_with_digit : Str → Bool
starts_with_digit [] = false
starts_with_digit (c ∷ cs) = is_digit c

unfoldable pub safe_identifier : Str → Str
unfolding mangle starts_with_digit
safe_identifier value =
    let mangled = mangle value in
    if mangled == [] || starts_with_digit mangled then codes "z_" ++ mangled else mangled

unfoldable pub macro_gas_name : Str → Str
unfolding safe_identifier
macro_gas_name source_name = codes "zds_" ++ safe_identifier source_name

-- `text.replace("\\", "/")`
abbrev pub forward_slashes : Str → Str
forward_slashes = map (λ c. if c == b'\\' then b'/' else c)

abbrev pub keep_parts : List Str → List Str
keep_parts [] = []
keep_parts (p ∷ ps) =
    let rest = keep_parts ps in if p == [] || p == codes "." then rest else p ∷ rest

-- the root that `PurePosixPath` keeps: two slashes stay two, more are one
posix_root : Str → Str
posix_root (a ∷ b ∷ []) = if a == b'/' then if b == b'/' then codes "//" else codes "/" else []
posix_root (a ∷ b ∷ c ∷ rest) =
    if a == b'/' then if b == b'/' && not (c == b'/') then codes "//" else codes "/" else []
posix_root (a ∷ []) = if a == b'/' then codes "/" else []
posix_root [] = []

-- `PurePosixPath(text).as_posix()`
unfoldable pub as_posix : Str → Str
unfolding posix_root
as_posix text =
    let path = posix_root text ++ join (codes "/") (keep_parts (split b'/' text)) in
    if path == [] then codes "." else path

-- `text.strip("_")`
lstrip_underscores : Str → Str
lstrip_underscores [] = []
lstrip_underscores (c ∷ cs) = if c == b'_' then lstrip_underscores cs else c ∷ cs

strip_underscores : Str → Str
unfolding lstrip_underscores
strip_underscores s = reverse (lstrip_underscores (reverse (lstrip_underscores s)))

-- `hashlib.sha256(text.encode("utf-8")).hexdigest()` is a parameter.
unfoldable pub file_key : (Str → Str) → Str → Str
unfolding as_posix strip_underscores casefold
file_key sha256 source_name =
    let normalized = as_posix (forward_slashes source_name) in
    let words = sub (some_of (λ c. not (is_alpha c || is_digit c))) (λ _. codes "_") normalized in
    let readable = casefold (strip_underscores words) in
    (if readable == [] then codes "source" else readable) ++ (b'_' ∷ take 8 (sha256 normalized))
