-- ===== src/Zds/Provenance/Listed.antt =====
-- The files that the metadata list, in load_prepared_provenance.
use mos_agondev.Prelude.{
  All, All-append, Dict, Distinct, List, [], ap, arith, contains, false, has_key, insert_fresh,
  list_beq_iff, list_eq, lookup, nat_eq, none, not, option_eq, pair_eq, refl, subst, sym, ◌++◌,
  ◌==◌, ◌∙◌, ◌∷◌, ◌≡◌,
}
use mos_agondev.Text.{Str, codes}
use mos_agondev.Zds.Provenance.{
  Listing, is_bits, is_sha256, keys, list_file, metadata_relative_path, read_entries, read_entry,
}
use mos_agondev.Zds.Provenance.Document.{
  Json, exact_object_keys, field, json_bool, json_list, json_null, json_number, json_object,
  json_string, text_of,
}
use mos_agondev.Zds.Provenance.Inside.{IsInside, metadata_relative_path_of-IsInside}
use mos_agondev.Errors.{bind-eq-ok, fail_if, fail_if-ok, ok, value_error, ◌>>=◌}

-- the names are the keys of the dict, each one once, and paths inside the tree
pub record IsListing (st : Listing) : Type 0 where
  pub same_keys : keys st.expected_files ≡ st.ordered_names
  pub distinct : Distinct st.ordered_names
  pub inside : All IsInside st.ordered_names

pub contains-keys :
    {A : Type 0} (name : Str) (d : Dict Str A) → contains name (keys d) ≡ has_key name d
unfolding contains has_key lookup
contains-keys name [] = refl
contains-keys name ((k, v) ∷ d) = ground (arith, contains-keys name d)

keys-append :
    {A : Type 0} (d : Dict Str A) (name : Str) (a : A)
    → keys (d ++ ((name, a) ∷ [])) ≡ keys d ++ (name ∷ [])
keys-append [] name a = refl
keys-append ((k, v) ∷ d) name a = ap (◌∷◌ k) (keys-append d name a)

contains_snoc :
    (x name : Str) (names : List Str)
    → contains x names ≡ false
    → (name == x) ≡ false
    → contains x (names ++ (name ∷ [])) ≡ false
unfolding contains
contains_snoc x name [] h d = ground arith
contains_snoc x name (n ∷ ns) h d = ground (arith, contains_snoc x name ns)

Distinct-snoc :
    (name : Str) (names : List Str)
    → contains name names ≡ false
    → Distinct names
    → Distinct (names ++ (name ∷ []))
unfolding contains
Distinct-snoc name [] h d = (refl, tt)
Distinct-snoc name (n ∷ ns) h (fresh, rest) = (
  contains_snoc n name ns fresh (ground (arith, list_beq_iff name n, list_beq_iff n name)),
  Distinct-snoc name ns (ground arith) rest,
)

lookup-none :
    {A : Type 0} (name : Str) (d : Dict Str A) → has_key name d ≡ false → lookup name d ≡ none
unfolding has_key
lookup-none name d h = ground arith

list_file-IsListing :
    (name digest bits : Str) (st : Listing)
    → has_key name st.expected_files ≡ false
    → IsInside name
    → IsListing st
    → IsListing (list_file name digest bits st)
list_file-IsListing name digest bits st fresh safe h =
    let files = st.expected_files in
    let none_yet = lookup-none name files fresh in
    record {
      same_keys =
          ap keys (insert_fresh name (digest, bits) files none_yet)
          ∙ keys-append files name (digest, bits)
          ∙ ap (λ ns. ns ++ (name ∷ [])) h.same_keys;
      distinct =
          Distinct-snoc name st.ordered_names
            (ap (contains name) (sym h.same_keys) ∙ contains-keys name files ∙ fresh) h.distinct;
      inside = All-append IsInside st.ordered_names (name ∷ []) h.inside (safe, tt);
    }

metadata_relative_path-IsInside :
    (path : Json) (name : Str) → metadata_relative_path path ≡ ok name → IsInside name
unfolding metadata_relative_path
metadata_relative_path-IsInside (json_string value) name h =
    (metadata_relative_path_of-IsInside value name h).1
metadata_relative_path-IsInside json_null name h = cc
metadata_relative_path-IsInside (json_bool b) name h = cc
metadata_relative_path-IsInside (json_number n) name h = cc
metadata_relative_path-IsInside (json_list js) name h = cc
metadata_relative_path-IsInside (json_object js) name h = cc

read_entry-IsListing :
    (raw : Json) (st next : Listing) → read_entry raw st ≡ ok next → IsListing st → IsListing next
unfolding read_entry
read_entry-IsListing raw st next h before =
    let (entry, _, h1) = bind-eq-ok (exact_object_keys raw _) _ h in
    let (path, _, h2) = bind-eq-ok (field (codes "path") entry) _ h1 in
    let (name, path_read, h3) = bind-eq-ok (metadata_relative_path path) _ h2 in
    let (_, fresh, h4) = bind-eq-ok (fail_if (has_key name st.expected_files) value_error) _ h3 in
    let (digest, _, h5) = bind-eq-ok (field (codes "sha256") entry >>= text_of) _ h4 in
    let (_, _, h6) = bind-eq-ok (fail_if (not (is_sha256 digest)) value_error) _ h5 in
    let (bits, _, h7) = bind-eq-ok (field (codes "executable_bits") entry >>= text_of) _ h6 in
    let (_, _, h8) = bind-eq-ok (fail_if (not (is_bits bits)) value_error) _ h7 in
    let last : list_file name digest bits st ≡ next = ground arith in
    subst IsListing last (
      list_file-IsListing name digest bits st (fail_if-ok _ value_error fresh)
        (metadata_relative_path-IsInside path name path_read) before)

pub read_entries-IsListing :
    (raw : List Json) (st next : Listing)
    → read_entries raw st ≡ ok next
    → IsListing st
    → IsListing next
unfolding read_entries
read_entries-IsListing [] st next h before = subst IsListing (ground arith) before
read_entries-IsListing (r ∷ raw) st next h before =
    let (middle, first, others) = bind-eq-ok (read_entry r st) _ h in
    read_entries-IsListing raw middle next others (read_entry-IsListing r st middle first before)
