-- ===== src/Zds/Provenance/Accepted.antt =====
-- What load_prepared_provenance has checked when it returns.
use mathlib.Core.Option.{none-ne-some}
use mos_agondev.Prelude.{
  &&-true, All, Bool, Bool-cases, Dict, List, Option, [], all, ap, arith, has_key, inl, inr, length,
  list_beq_iff, list_eq, lookup, nat_eq, not, option_eq, pair_eq, refl, some, subst, true, ℕ, ◌==◌,
  ◌∷◌, ◌≡◌,
}
use mos_agondev.Text.{Str, codes}
use mos_agondev.Zds.Provenance.{
  Listing, PreparedProvenance, PreparedTree, TreeEntry, executable_bits, keys,
  load_prepared_provenance, read_document, read_entries, read_listing, read_source, same_names,
  scan_tree, sorted, verify_files,
}
use mos_agondev.Zds.Provenance.Document.{Json, exact_object_keys, field, is_number, items_of}
use mos_agondev.Zds.Provenance.Listed.{IsListing, read_entries-IsListing}
use mos_agondev.Zds.Provenance.Verified.{
  IsFile, IsScanned, IsVerified, Scanned, scan_tree-Scanned, verify_files-All,
}
use mos_agondev.Errors.{
  bind-eq-ok, fail_if, fail_if-not-ok, from_option, from_option-eq-ok, ok, ok-injective,
  value_error, ◌>>=◌,
}

-- a listed file: it is a regular file of the tree, with the digest and the bits that are listed
pub record IsCurrent (sha256 : List ℕ → Str) (tree : PreparedTree) (listing : Listing) (name : Str)
    : Type 0 where
  pub file : TreeEntry
  pub in_tree : IsFile tree.entries name file
  pub listed :
      lookup name listing.expected_files ≡ some (sha256 file.content, executable_bits file.mode)

pub record Accepted (number_is : Str → ℕ → Bool) (sha256 : List ℕ → Str) (document : Json)
    (tree : PreparedTree) (p : PreparedProvenance) : Type 0 where
  pub listing : Listing
  pub says : read_document number_is document ≡ ok ((p.source_head, p.tracked_dirty), listing)
  pub names : IsListing listing
  pub current : All (IsCurrent sha256 tree listing) listing.ordered_names
  pub complete : All (IsScanned listing.expected_files) tree.entries
  pub count : p.prepared_file_count ≡ length listing.ordered_names

all-keys :
    {A : Type 0} (p : Str → Bool) (name : Str) (d : Dict Str A)
    → all p (keys d) ≡ true
    → has_key name d ≡ true
    → p name ≡ true
unfolding has_key lookup
all-keys p name [] h k = ground arith
all-keys p name ((j, v) ∷ d) h k = elim (Bool-cases (j == name)) [
  | inl e ↦ subst (λ n. p n ≡ true) ((list_beq_iff j name).0 e) (ground arith)
  | inr e ↦ all-keys p name d (ground arith) (ground arith)
]

listed-IsScanned :
    (expected : Dict Str (Str × Str)) (actual : Dict Str TreeEntry) (entries : List TreeEntry)
    → all (λ name. has_key name expected) (keys actual) ≡ true
    → All (IsScanned actual) entries
    → All (IsScanned expected) entries
listed-IsScanned expected actual [] h s = tt
listed-IsScanned expected actual (path ∷ rest) h (first, s) = (
  elim first [
    | inl d ↦ inl d
    | inr (k, inl m) ↦ inr (k, inl m)
    | inr (k, inr e) ↦
        inr (k, inr (all-keys (λ name. has_key name expected) path.relative actual h e))
  ],
  listed-IsScanned expected actual rest h s,
)

IsCurrent-All :
    (sha256 : List ℕ → Str) (tree : PreparedTree) (listing : Listing) (actual : Dict Str TreeEntry)
    (names : List Str)
    → Scanned tree.entries [] actual
    → All (IsVerified sha256 actual listing.expected_files) names
    → All (IsCurrent sha256 tree listing) names
unfolding lookup
IsCurrent-All sha256 tree listing actual [] s v = tt
IsCurrent-All sha256 tree listing actual (name ∷ rest) s (first, v) = (
  record {
    file = first.file;
    in_tree = elim (s.origin name first.file first.found_file) [
      | inl old ↦ absurd (none-ne-some first.file old)
      | inr file ↦ file
    ];
    listed = first.listed;
  },
  IsCurrent-All sha256 tree listing actual rest s v,
)

read_listing-IsListing :
    (raw : Json) (listing : Listing) → read_listing raw ≡ ok listing → IsListing listing
unfolding read_listing
read_listing-IsListing raw listing h =
    let start : Listing = record { expected_files = []; ordered_names = [] } in
    let (raw_files, _, h1) = bind-eq-ok (items_of raw) _ h in
    let (_, _, h2) = bind-eq-ok (fail_if (length raw_files == 0) value_error) _ h1 in
    let (read, entries, h3) = bind-eq-ok (read_entries raw_files start) _ h2 in
    let (_, _, h4) =
      bind-eq-ok (fail_if (not (read.ordered_names == sorted read.ordered_names)) value_error) _
        h3 in
    subst IsListing (ok-injective read listing h4) (
      read_entries-IsListing raw_files start read entries
        (record { same_keys = refl; distinct = tt; inside = tt }))

read_document-IsListing :
    (number_is : Str → ℕ → Bool) (document : Json) (source : Str × Bool) (listing : Listing)
    → read_document number_is document ≡ ok (source, listing)
    → IsListing listing
unfolding read_document
read_document-IsListing number_is document source listing h =
    let (root, _, h1) = bind-eq-ok (exact_object_keys document _) _ h in
    let (schema, _, h2) = bind-eq-ok (field (codes "schema") root) _ h1 in
    let (_, _, h3) = bind-eq-ok (fail_if (not (is_number number_is schema 1)) value_error) _ h2 in
    let (from, _, h4) = bind-eq-ok (field (codes "source") root >>= read_source) _ h3 in
    let (read, files, h5) = bind-eq-ok (field (codes "files") root >>= read_listing) _ h4 in
    let (raw, _, reading) = bind-eq-ok (field (codes "files") root) read_listing files in
    let same =
      ap (λ (t : (Str × Bool) × Listing). t.1) (ok-injective (from, read) (source, listing) h5) in
    subst IsListing same (read_listing-IsListing raw read reading)

-- When the provenance is returned, the metadata are a document that lists names, each one once and
-- each a relative path that stays below the root.
-- Every listed name is a regular file of the tree with the digest and the executable bits that
-- are listed, and every path of the tree is a directory, a listed regular file or the metadata.
-- The head and the flag are those of the document, and the count is that of the listed names.
pub load_prepared_provenance-Accepted :
    (loads : List ℕ → Option Json) (number_is : Str → ℕ → Bool) (sha256 : List ℕ → Str)
    (tree : PreparedTree) (p : PreparedProvenance)
    → load_prepared_provenance loads number_is sha256 tree ≡ ok p
    → (bytes : List ℕ) × (document : Json) × (tree.metadata ≡ some bytes)
      × (loads bytes ≡ some document)
      × Accepted number_is sha256 document tree p
unfolding load_prepared_provenance same_names
load_prepared_provenance-Accepted loads number_is sha256 tree p h =
    let (_, _, h1) = bind-eq-ok (fail_if (not tree.is_real_directory) value_error) _ h in
    let (bytes, b, h2) = bind-eq-ok (from_option value_error tree.metadata) _ h1 in
    let (document, d, h3) = bind-eq-ok (from_option value_error (loads bytes)) _ h2 in
    let (((head, dirty), listing), r, h4) = bind-eq-ok (read_document number_is document) _ h3 in
    let (actual, s, h5) = bind-eq-ok (scan_tree tree.entries []) _ h4 in
    let (_, n, h6) =
      bind-eq-ok (fail_if (not (same_names listing.expected_files actual)) value_error) _ h5 in
    let (_, v, h7) =
      bind-eq-ok (verify_files sha256 listing.ordered_names actual listing.expected_files) _ h6 in
    let scan = scan_tree-Scanned tree.entries [] actual s in
    let same = &&-true _ _ (fail_if-not-ok _ value_error n) in
    let result : PreparedProvenance = record {
      source_head = head;
      tracked_dirty = dirty;
      metadata_sha256 = sha256 bytes;
      prepared_file_count = length listing.ordered_names;
    } in
    let last = ok-injective result p h7 in
    let accepted : Accepted number_is sha256 document tree result = record {
      listing = listing;
      says = r;
      names = read_document-IsListing number_is document (head, dirty) listing r;
      current =
          IsCurrent-All sha256 tree listing actual listing.ordered_names scan
            (verify_files-All sha256 listing.ordered_names actual listing.expected_files v);
      complete = listed-IsScanned listing.expected_files actual tree.entries same.1 scan.scanned;
      count = refl;
    } in
    (
      bytes,
      document,
      from_option-eq-ok value_error tree.metadata b,
      from_option-eq-ok value_error (loads bytes) d,
      subst (Accepted number_is sha256 document tree) last accepted,
    )
