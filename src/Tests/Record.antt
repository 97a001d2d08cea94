-- ===== src/Tests/Record.antt =====
-- The theorems on the recorder of build steps, at a dependency file with a blank in a name and at
-- two states of one file, and at two declared roots.
use mos_agondev.Errors.{err, ok, provenance_error}
use mos_agondev.Prelude.{
  All, Dict, IsSorted, List, [], arith, false, list_beq, refl, some, true, ℕ, ◌++◌, ◌∷◌, ◌≡◌, ◌≢◌,
}
use mos_agondev.Record.Depfile.{has_repeats, parse_depfile_rule, split_make_words}
use mos_agondev.Record.Depfile.RoundTrip.{IsPrintable}
use mos_agondev.Record.Depfile.Rule.{parse_depfile_rule-printed_rule, printed_rule}
use mos_agondev.Record.Roots.{Paths, Root, longer_first, parse_roots}
use mos_agondev.Record.Roots.Apart.{AreApart, IsDirectory, parse_roots-AreApart}
use mos_agondev.Record.States.{FileState, states_by_resolved}
use mos_agondev.Record.States.Unaliased.{IsEntered, states_by_resolved-IsEntered}
use mos_agondev.Text.{Str, codes, is_space, split_lines}

abbrev object_name : Str
object_name = codes "a.o"

abbrev source_name : Str
source_name = codes "my file.c"

abbrev header_name : Str
header_name = codes "c:b.h"

abbrev printed_file : Str
printed_file = codes "a.o: my\\ file.c c\\:b.h "

printed : printed_rule object_name (source_name ∷ header_name ∷ []) ≡ printed_file
unfolding printed_rule
printed = refl

-- two lines, a phony rule, and a rule that is not phony
continued :
    parse_depfile_rule (codes "a.o: b.c \\\n c.h\n\nc.h:\n")
    ≡ ok (codes "a.o", codes "b.c" ∷ codes "c.h" ∷ [])
unfolding parse_depfile_rule split_lines list_beq
continued = refl

not_phony : parse_depfile_rule (codes "a.o: b.c\nc.h: d.h\n") ≡ err provenance_error
unfolding parse_depfile_rule split_lines list_beq
not_phony = refl

twice : parse_depfile_rule (codes "a.o: b.c b.c") ≡ err provenance_error
unfolding parse_depfile_rule split_lines list_beq
twice = refl

bad_escape : split_make_words (codes "a\\b") ≡ err provenance_error
unfolding split_make_words
bad_escape = refl

is_filled : (c : ℕ) (cs : Str) → (c ∷ cs) ≢ []
is_filled c cs e = ground (arith, e)

object_IsPrintable : IsPrintable object_name
unfolding is_space
object_IsPrintable = (is_filled b'a' (codes ".o"), refl)

header_IsPrintable : All IsPrintable (header_name ∷ [])
unfolding is_space
header_IsPrintable = ((is_filled b'c' (codes ":b.h"), refl), tt)

inputs_IsPrintable : All IsPrintable (source_name ∷ header_name ∷ [])
unfolding is_space
inputs_IsPrintable = ((is_filled b'm' (codes "y file.c"), refl), header_IsPrintable)

parse_depfile_rule-printed_rule_example :
    parse_depfile_rule (printed_rule object_name (source_name ∷ header_name ∷ []))
    ≡ ok (object_name, source_name ∷ header_name ∷ [])
unfolding has_repeats list_beq
parse_depfile_rule-printed_rule_example =
    parse_depfile_rule-printed_rule object_name source_name (header_name ∷ []) object_IsPrintable
      inputs_IsPrintable refl

abbrev state_of : Str → FileState
state_of path = record {
  lexical = path;
  resolved = codes "/r/b.c";
  normalized = codes "${SRC}/b.c";
  sha256 = codes "00";
  size = 1;
  leaf_symlink = false;
}

abbrev states : List FileState
states = state_of (codes "/r/b.c") ∷ state_of (codes "/r/b.c") ∷ []

abbrev entries : Dict Str FileState
entries = (codes "/r/b.c", state_of (codes "/r/b.c")) ∷ []

aliased :
    states_by_resolved (state_of (codes "/r/b.c") ∷ state_of (codes "/r/c.c") ∷ [])
    ≡ err provenance_error
unfolding states_by_resolved list_beq
aliased = refl

read_twice : states_by_resolved states ≡ ok entries
unfolding states_by_resolved list_beq
read_twice = refl

states_by_resolved-IsEntered_example : All (IsEntered entries) states
states_by_resolved-IsEntered_example = states_by_resolved-IsEntered states entries read_twice

-- A file system in which each path is its own resolved path and a directory.
abbrev plain_paths : Paths
plain_paths = record {
  is_absolute = λ path. true;
  joined = λ cwd path. cwd ++ path;
  abspath = λ path. path;
  resolve = λ path. some path;
  is_dir = λ path. true;
}

abbrev root_values : List Str
root_values = codes "A=/x" ∷ codes "SRC_2=/r/s=t" ∷ []

abbrev long_root : Root
long_root = record { name = codes "SRC_2"; lexical = codes "/r/s=t"; resolved = codes "/r/s=t" }

abbrev short_root : Root
short_root = record { name = codes "A"; lexical = codes "/x"; resolved = codes "/x" }

abbrev roots : List Root
roots = long_root ∷ short_root ∷ []

read_roots : parse_roots plain_paths [] root_values ≡ ok roots
unfolding parse_roots list_beq
read_roots = refl

same_name : parse_roots plain_paths [] (codes "A=/x" ∷ codes "A=/y" ∷ []) ≡ err provenance_error
unfolding parse_roots list_beq
same_name = refl

same_path : parse_roots plain_paths [] (codes "A=/x" ∷ codes "B=/x" ∷ []) ≡ err provenance_error
unfolding parse_roots list_beq
same_path = refl

lower_name : parse_roots plain_paths [] (codes "a=/x" ∷ []) ≡ err provenance_error
unfolding parse_roots
lower_name = refl

parse_roots-AreApart_example :
    All (IsDirectory plain_paths) roots × AreApart roots × IsSorted longer_first roots
parse_roots-AreApart_example = parse_roots-AreApart plain_paths [] root_values roots read_roots
