-- ===== src/Tests/Provenance.antt =====
-- The theorems on load_prepared_provenance, at a tree of one file.
use mos_agondev.Errors.{ok}
use mos_agondev.Prelude.{
  Bool, List, Option, [], contains, false, has_key, insert, list_beq, list_eq, lookup, nat_eq,
  option_eq, pair_eq, refl, replicate, some, true, ℕ, ◌==◌, ◌∷◌, ◌≡◌,
}
use mos_agondev.Text.{Str, codes, join, split, starts_with, str_lt}
use mos_agondev.Text.Number.{decimal, digit_char, digits_onto, in_base}
use mos_agondev.Zds.Names.{as_posix}
use mos_agondev.Zds.Provenance.{
  FileKind, PreparedProvenance, PreparedTree, TreeEntry, directory, executable_bits, is_bits,
  is_git_object, is_lower_hex, is_sha256, load_prepared_provenance, metadata_relative_path,
  metadata_relative_path_of, preparation_metadata, read_document, read_entries, read_entry,
  read_listing, read_source, regular, same_names, scan_tree, sorted, unsafe_part, verify_files,
}
use mos_agondev.Zds.Provenance.Accepted.{Accepted, load_prepared_provenance-Accepted}
use mos_agondev.Zds.Provenance.Document.{
  Json, add_field, add_item, bool_of, exact_object_keys, field, fields_dict, is_number, items_list,
  items_of, json_bool, json_list, json_number, json_object, json_string, no_fields, no_items,
  text_of,
}

abbrev some_path : Str
some_path = codes "src/mos.asm"

abbrev pub digest_of : List ℕ → Str
digest_of bytes = replicate 64 b'a'

abbrev pub some_head : Str
some_head = replicate 40 b'0'

abbrev document : Json
document = json_object (
    add_field (codes "schema") (json_number (codes "1")) (
      add_field (codes "source")
        (json_object (
          add_field (codes "head") (json_string some_head)
            (add_field (codes "tracked_dirty") (json_bool false) no_fields)))
        (add_field (codes "files")
          (json_list (
            add_item
              (json_object (
                add_field (codes "path") (json_string some_path) (
                  add_field (codes "sha256") (json_string (digest_of []))
                    (add_field (codes "executable_bits") (json_string (codes "000")) no_fields))))
              no_items))
          no_fields)))

abbrev pub loads : List ℕ → Option Json
loads bytes = some document

abbrev pub number_is : Str → ℕ → Bool
number_is text n = text == decimal n

abbrev tree_entry : Str → FileKind → ℕ → TreeEntry
tree_entry relative kind mode = record {
  relative = relative;
  kind = kind;
  content = [];
  mode = mode;
}

abbrev pub tree : PreparedTree
tree = record {
  is_real_directory = true;
  metadata = some [];
  entries =
      tree_entry preparation_metadata regular 420
      ∷ tree_entry (codes "src") directory 493
      ∷ tree_entry some_path regular 420
      ∷ [];
}

abbrev pub provenance : PreparedProvenance
provenance = record {
  source_head = some_head;
  tracked_dirty = false;
  metadata_sha256 = digest_of [];
  prepared_file_count = 1;
}

provenance_run : load_prepared_provenance loads number_is digest_of tree ≡ ok provenance
unfolding load_prepared_provenance read_document exact_object_keys has_key fields_dict list_beq
    contains field is_number in_base read_source text_of is_git_object is_lower_hex bool_of
    read_listing items_of insert lookup digit_char digits_onto join split starts_with str_lt
    as_posix items_list executable_bits is_bits is_sha256 metadata_relative_path
    metadata_relative_path_of read_entries read_entry same_names scan_tree sorted unsafe_part
    verify_files
provenance_run = refl

load_prepared_provenance-Accepted_example :
    (bytes : List ℕ) × (found_document : Json) × (tree.metadata ≡ some bytes)
    × (loads bytes ≡ some found_document)
    × Accepted number_is digest_of found_document tree provenance
load_prepared_provenance-Accepted_example =
    load_prepared_provenance-Accepted loads number_is digest_of tree provenance provenance_run
