-- ===== src/Zds/Expand/Scanned.antt =====
-- What a visit of expand_translation_unit does, as a relation: which lines it copies, which files
-- it includes, and in which order.
use mathlib.Core.List.{map-append}
use mos_agondev.Errors.{ok}
use mos_agondev.Prelude.{
  Bool, Dict, List, [], ap, append-nil, append_assoc, contains, false, insert, list_eq, lookup, map,
  nat_eq, none, option_eq, pair_eq, refl, some, sym, true, ℕ, ◌++◌, ◌+◌, ◌∙◌, ◌∷◌, ◌≡◌,
}
use mos_agondev.Regex.{Match, match, matches, named}
use mos_agondev.Text.{Str, codes, split_lines}
use mos_agondev.Zds.Expand.{
  Expansion, IncludeEntry, Resolver, add_include, add_line, add_source, unquote, with_line_end,
}
use mos_agondev.Zds.Lexical.{mask_quoted}
use mos_agondev.Zds.Macros.{code_of}
use mos_agondev.Zds.Patterns.{end_re, include_re}
use mos_agondev.Zds.Records.{SourceLocation}

-- a physical line that is copied, and where it stands
pub record Copied : Type 0 where
  pub physical : Str
  pub location : SourceLocation

abbrev pub copied_text : Copied → Str
copied_text c = with_line_end c.physical

abbrev pub copied_location : Copied → SourceLocation
copied_location c = c.location

-- the copied lines, the includes and the files that are read, with their digests
pub record Effects : Type 0 where
  pub copies : List Copied
  pub includes : List IncludeEntry
  pub reads : List (Str × Str)

abbrev pub no_effects : Effects
no_effects = record { copies = []; includes = []; reads = [] }

abbrev pub followed_by : Effects → Effects → Effects
followed_by x y = record {
  copies = x.copies ++ y.copies;
  includes = x.includes ++ y.includes;
  reads = x.reads ++ y.reads;
}

abbrev pub a_copy : Str → ℕ → Str → Effects
a_copy display n physical = record {
  copies = record { physical = physical; location = record { source = display; line = n } } ∷ [];
  includes = [];
  reads = [];
}

abbrev pub an_include : Str → ℕ → Str → Str → Effects
an_include display n spelling shown = record {
  copies = [];
  includes = record { including = display; line = n; spelling = spelling; resolved = shown } ∷ [];
  reads = [];
}

abbrev pub a_read : Str → Str → Effects
a_read display digest = record { copies = []; includes = []; reads = (display, digest) ∷ [] }

-- the last digest that is read under a name
abbrev pub recorded : List (Str × Str) → Dict Str Str → Dict Str Str
recorded [] d = d
recorded ((display, digest) ∷ rest) d = recorded rest (insert display digest d)

abbrev pub path_of : Match → Str
path_of include = unquote (named (codes "path") include)

-- The effects of the lines of a file from line `n` on, below the files of `stack`.
pub data Scanned (sha256 : Str → Str) (files : Dict Str Str) (resolver : Resolver)
    : List Str → Str → Str → Bool → ℕ → List Str → Effects → Type 0 where
  ends :
      (stack : List Str) (path display : Str) (is_root : Bool) (n : ℕ)
      → Scanned sha256 files resolver stack path display is_root n [] no_effects
  -- an INCLUDE of a file that is not being read yet
  includes_file :
      (stack : List Str) (path display : Str) (is_root : Bool) (n : ℕ) (physical : Str)
      (rest : List Str) (include : Match) (target shown text : Str) (inner others : Effects)
      → match include_re (code_of physical) ≡ some include
      → resolver path (path_of include) ≡ ok (target, shown)
      → contains target (path ∷ stack) ≡ false
      → lookup target files ≡ some text
      → Scanned sha256 files resolver (path ∷ stack) target shown false 1 (split_lines text) inner
      → Scanned sha256 files resolver stack path display is_root (n + 1) rest others
      → Scanned sha256 files resolver stack path display is_root n (physical ∷ rest) (
          followed_by
            (an_include display n (path_of include) shown)
            (followed_by (followed_by (a_read shown (sha256 text)) inner) others))
  -- END ends the file, and is copied from the root alone
  ends_root :
      (stack : List Str) (path display : Str) (n : ℕ) (physical : Str) (rest : List Str)
      → match include_re (code_of physical) ≡ none
      → matches end_re (mask_quoted (code_of physical)) ≡ true
      → Scanned sha256 files resolver stack path display true n
          (physical ∷ rest)
          (a_copy display n physical)
  ends_included :
      (stack : List Str) (path display : Str) (n : ℕ) (physical : Str) (rest : List Str)
      → match include_re (code_of physical) ≡ none
      → matches end_re (mask_quoted (code_of physical)) ≡ true
      → Scanned sha256 files resolver stack path display false n (physical ∷ rest) no_effects
  -- any other line is copied
  copies_line :
      (stack : List Str) (path display : Str) (is_root : Bool) (n : ℕ) (physical : Str)
      (rest : List Str) (others : Effects)
      → match include_re (code_of physical) ≡ none
      → matches end_re (mask_quoted (code_of physical)) ≡ false
      → Scanned sha256 files resolver stack path display is_root (n + 1) rest others
      → Scanned sha256 files resolver stack path display is_root n
          (physical ∷ rest)
          (followed_by (a_copy display n physical) others)

-- The effects of a file that is visited below the files of `stack`.
pub record Visited (sha256 : Str → Str) (files : Dict Str Str) (resolver : Resolver)
    (stack : List Str) (path display : Str) (is_root : Bool) (x : Effects) : Type 0 where
  pub text : Str
  pub inner : Effects
  pub is_new : contains path stack ≡ false
  pub found : lookup path files ≡ some text
  pub scanned : Scanned sha256 files resolver stack path display is_root 1 (split_lines text) inner
  pub all_effects : x ≡ followed_by (a_read display (sha256 text)) inner

-- the lists with the effects behind them
abbrev pub applied : Effects → Expansion → Expansion
applied x e = record {
  output = e.output ++ map copied_text x.copies;
  locations = e.locations ++ map copied_location x.copies;
  includes = e.includes ++ x.includes;
  source_files = recorded x.reads e.source_files;
}

recorded-append :
    (xs ys : List (Str × Str)) (d : Dict Str Str)
    → recorded ys (recorded xs d) ≡ recorded (xs ++ ys) d
recorded-append [] ys d = refl
recorded-append ((display, digest) ∷ rest) ys d = recorded-append rest ys (insert display digest d)

same_expansion :
    (o o' : List Str) (l l' : List SourceLocation) (i i' : List IncludeEntry) (f f' : Dict Str Str)
    → o ≡ o'
    → l ≡ l'
    → i ≡ i'
    → f ≡ f'
    → Path Expansion
        (record { output = o; locations = l; includes = i; source_files = f })
        (record { output = o'; locations = l'; includes = i'; source_files = f' })
same_expansion o o' l l' i i' f f' p q r s = cc

map-behind {ℓ} :
    {B : Type ℓ} (f : Copied → B) (x : List B) (ys zs : List Copied)
    → (x ++ map f ys) ++ map f zs ≡ x ++ map f (ys ++ zs)
map-behind f x ys zs =
    append_assoc x (map f ys) (map f zs) ∙ ap (λ t. x ++ t) (sym (map-append f ys zs))

pub applied-followed_by :
    (x y : Effects) (e : Expansion) → applied y (applied x e) ≡ applied (followed_by x y) e
applied-followed_by x y e =
    same_expansion _ _ _ _ _ _ _ _ (map-behind copied_text e.output x.copies y.copies)
      (map-behind copied_location e.locations x.copies y.copies)
      (append_assoc e.includes x.includes y.includes)
      (recorded-append x.reads y.reads e.source_files)

pub applied-nothing : (e : Expansion) → applied no_effects e ≡ e
applied-nothing e =
    same_expansion _ _ _ _ _ _ _ _ (append-nil e.output) (append-nil e.locations)
      (append-nil e.includes) refl

pub applied-line :
    (display : Str) (n : ℕ) (physical : Str) (e : Expansion)
    → applied (a_copy display n physical) e ≡ add_line display n physical e
applied-line display n physical e =
    same_expansion _ _ _ _ _ _ _ _ refl refl (append-nil e.includes) refl

pub applied-include :
    (display : Str) (n : ℕ) (spelling shown : Str) (e : Expansion)
    → applied (an_include display n spelling shown) e ≡ add_include display n spelling shown e
applied-include display n spelling shown e =
    same_expansion _ _ _ _ _ _ _ _ (append-nil e.output) (append-nil e.locations) refl refl

pub applied-read :
    (display digest : Str) (e : Expansion)
    → applied (a_read display digest) e ≡ add_source display digest e
applied-read display digest e =
    same_expansion _ _ _ _ _ _ _ _ (append-nil e.output) (append-nil e.locations)
      (append-nil e.includes) refl
