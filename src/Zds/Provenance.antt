-- ===== src/Zds/Provenance.antt =====
-- load_prepared_provenance of projects/mos-port/tools/zds2gas.py, with the helpers that it calls.
-- What the file system holds below the source root is a value, in the order of `sorted(rglob)`.
pub mod Document
pub mod Inside
pub mod Verified
pub mod Listed
pub mod Accepted
use mos_agondev.Prelude.{
  Bool, Dict, List, Option, [], all, any, contains, has_key, if◌then◌else◌, insert, length, list_eq,
  lookup, ltb, nat_eq, not, option_eq, pair_eq, ℕ, ◌%◌, ◌&&◌, ◌++◌, ◌+◌, ◌/◌, ◌==◌, ◌||◌, ◌∷◌,
}
use mos_agondev.Text.{Str, codes, is_digit, split, starts_with, str_lt, within}
use mos_agondev.Zds.Names.{as_posix, keep_parts}
use mos_agondev.Zds.Provenance.Document.{
  Json, bool_of, exact_object_keys, field, is_number, items_of, json_string, text_of,
}
use mos_agondev.Errors.{Result, err, fail_if, from_option, key_error, ok, value_error, ◌>>=◌, ◌>>◌}

pub record PreparedProvenance : Type 0 where
  pub source_head : Str
  pub tracked_dirty : Bool
  pub metadata_sha256 : Str
  pub prepared_file_count : ℕ

unfoldable pub identity : PreparedProvenance → Str
identity p = p.source_head ++ (if p.tracked_dirty then codes "+tracked-dirty" else [])

-- what `lstat` says of a path
pub data FileKind : Type 0 where
  symbolic_link directory regular special : FileKind

pub record TreeEntry : Type 0 where
  pub relative : Str
  pub kind : FileKind
  pub content : List ℕ
  pub mode : ℕ

-- the source root; the metadata are `none` where they cannot be read as a regular file
pub record PreparedTree : Type 0 where
  pub is_real_directory : Bool
  pub metadata : Option (List ℕ)
  pub entries : List TreeEntry

abbrev pub preparation_metadata : Str
preparation_metadata = codes ".mos-agondev-worktree.json"

abbrev pub unsafe_char : ℕ → Bool
unsafe_char c = ltb c 32 || c == b':'

unfoldable pub unsafe_part : Str → Bool
unsafe_part part = part == [] || part == codes "." || part == codes ".."

-- the tests of `_metadata_relative_path` on a text
unfoldable pub metadata_relative_path_of : Str → Result Str
unfolding unsafe_part
metadata_relative_path_of value =
    if value == [] || contains b'\\' value
    then err value_error
    else if any unsafe_char value
    then err value_error
    else if starts_with (codes "/") value
        || not (value == as_posix value)
        || any unsafe_part (keep_parts (split b'/' value))
    then err value_error
    else if value == preparation_metadata
    then err value_error
    else ok value

unfoldable pub metadata_relative_path : Json → Result Str
metadata_relative_path (json_string value) = metadata_relative_path_of value
metadata_relative_path _ = err value_error

unfoldable pub is_lower_hex : ℕ → Bool
is_lower_hex c = is_digit c || within b'a' b'f' c

unfoldable pub is_git_object : Str → Bool
is_git_object s = (length s == 40 || length s == 64) && all is_lower_hex s

unfoldable pub is_sha256 : Str → Bool
is_sha256 s = length s == 64 && all is_lower_hex s

abbrev is_bit : ℕ → Bool
is_bit c = c == b'0' || c == b'1'

unfoldable pub is_bits : Str → Bool
is_bits s = length s == 3 && all is_bit s

-- `expected_files` and `ordered_names`
pub record Listing : Type 0 where
  pub expected_files : Dict Str (Str × Str)
  pub ordered_names : List Str

abbrev entry_fields : List Str
entry_fields = codes "path" ∷ codes "sha256" ∷ codes "executable_bits" ∷ []

abbrev pub list_file : Str → Str → Str → Listing → Listing
list_file name digest bits st = record {
  expected_files = insert name (digest, bits) st.expected_files;
  ordered_names = st.ordered_names ++ (name ∷ []);
}

-- one round of the loop over the entries
unfoldable pub read_entry : Json → Listing → Result Listing
read_entry raw st = do
  entry ← exact_object_keys raw entry_fields
  path ← field (codes "path") entry
  name ← metadata_relative_path path
  fail_if (has_key name st.expected_files) value_error
  digest ← field (codes "sha256") entry >>= text_of
  fail_if (not (is_sha256 digest)) value_error
  bits ← field (codes "executable_bits") entry >>= text_of
  fail_if (not (is_bits bits)) value_error
  ok (list_file name digest bits st)

unfoldable pub read_entries : List Json → Listing → Result Listing
read_entries [] st = ok st
read_entries (raw ∷ rest) st = read_entry raw st >>= read_entries rest

insert_name : Str → List Str → List Str
insert_name name [] = name ∷ []
insert_name name (n ∷ ns) =
    let rest = insert_name name ns in if str_lt n name then n ∷ rest else name ∷ n ∷ ns

-- `sorted(names)`
unfoldable pub sorted : List Str → List Str
unfolding insert_name
sorted [] = []
sorted (name ∷ names) = insert_name name (sorted names)

-- the loop over the tree, which fills `actual_files`
unfoldable pub scan_tree : List TreeEntry → Dict Str TreeEntry → Result (Dict Str TreeEntry)
scan_tree [] actual = ok actual
scan_tree (path ∷ rest) actual =
    let same = scan_tree rest actual in
    let more = scan_tree rest (insert path.relative path actual) in
    elim (path.kind) [
      | symbolic_link ↦ err value_error
      | directory ↦ same
      | special ↦ err value_error
      | regular ↦ if path.relative == preparation_metadata then same else more
    ]

-- `f"{stat.S_IMODE(mode) & 0o111:03o}"`
unfoldable pub executable_bits : ℕ → Str
executable_bits mode = (b'0' + mode / 64 % 2) ∷ (b'0' + mode / 8 % 2) ∷ (b'0' + mode % 2) ∷ []

abbrev pub keys {ℓ} : {A : Type ℓ} → Dict Str A → List Str
keys [] = []
keys ((k, v) ∷ d) = k ∷ keys d

-- the loop over the names: the content and the bits of each file
unfoldable pub verify_files :
    (List ℕ → Str) → List Str → Dict Str TreeEntry → Dict Str (Str × Str) → Result (Unit {0})
verify_files sha256 [] actual expected = ok tt
verify_files sha256 (name ∷ rest) actual expected = do
  path ← from_option key_error (lookup name actual)
  (digest, bits) ← from_option key_error (lookup name expected)
  fail_if (not (sha256 path.content == digest)) value_error
  fail_if (not (executable_bits path.mode == bits)) value_error
  verify_files sha256 rest actual expected

-- the two sets of names are one
unfoldable pub same_names : Dict Str (Str × Str) → Dict Str TreeEntry → Bool
same_names expected actual =
    all (λ name. has_key name actual) (keys expected)
    && all (λ name. has_key name expected) (keys actual)

-- the part of the document on the source: `head` and `tracked_dirty`
unfoldable pub read_source : Json → Result (Str × Bool)
read_source raw = do
  source ← exact_object_keys raw (codes "head" ∷ codes "tracked_dirty" ∷ [])
  head ← field (codes "head") source >>= text_of
  fail_if (not (is_git_object head)) value_error
  tracked_dirty ← field (codes "tracked_dirty") source >>= bool_of
  ok (head, tracked_dirty)

-- the part on the files: `expected_files` and `ordered_names`
unfoldable pub read_listing : Json → Result Listing
read_listing raw = do
  raw_files ← items_of raw
  fail_if (length raw_files == 0) value_error
  listing ← read_entries raw_files (record { expected_files = []; ordered_names = [] })
  fail_if (not (listing.ordered_names == sorted listing.ordered_names)) value_error
  ok listing

-- the tests of the whole document
unfoldable pub read_document : (Str → ℕ → Bool) → Json → Result ((Str × Bool) × Listing)
read_document number_is document = do
  root ← exact_object_keys document (codes "schema" ∷ codes "source" ∷ codes "files" ∷ [])
  schema ← field (codes "schema") root
  fail_if (not (is_number number_is schema 1)) value_error
  source ← field (codes "source") root >>= read_source
  listing ← field (codes "files") root >>= read_listing
  ok (source, listing)

-- `json.loads`, `==` of a number of the document with an integer, and SHA-256 are parameters.
unfoldable pub load_prepared_provenance :
    (List ℕ → Option Json)
    → (Str → ℕ → Bool)
    → (List ℕ → Str)
    → PreparedTree
    → Result PreparedProvenance
load_prepared_provenance loads number_is sha256 tree = do
  fail_if (not tree.is_real_directory) value_error
  metadata_bytes ← from_option value_error tree.metadata
  document ← from_option value_error (loads metadata_bytes)
  ((head, tracked_dirty), listing) ← read_document number_is document
  actual ← scan_tree tree.entries []
  fail_if (not (same_names listing.expected_files actual)) value_error
  verify_files sha256 listing.ordered_names actual listing.expected_files
  ok (record {
    source_head = head;
    tracked_dirty = tracked_dirty;
    metadata_sha256 = sha256 metadata_bytes;
    prepared_file_count = length listing.ordered_names;
  })
