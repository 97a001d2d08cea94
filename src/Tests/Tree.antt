-- ===== src/Tests/Tree.antt =====
-- The theorem on translate_tree, at a tree with one macro file.
use mos_agondev.Errors.{Result, err, ok, value_error}
use mos_agondev.Prelude.{
  All, Dict, Distinct, [], contains, false, has_key, insert, list_beq, list_eq, lookup, nat_eq,
  option_beq, option_eq, pair_eq, refl, true, ◌↔◌, ◌∷◌, ◌≡◌, ◌⊎◌,
}
use mos_agondev.Regex.{full_match, group_of, match, matches, named, sub}
use mos_agondev.Tests.Provenance.{digest_of, loads, number_is, provenance, some_head, tree}
use mos_agondev.Text.{
  Str, casefold, codes, ends_with, join, lower_char, split, split_lines, starts_with, str_lt, strip,
}
use mos_agondev.Text.Number.{digit_char, digits_onto, in_base}
use mos_agondev.Zds.Expand.{ExpandedSource}
use mos_agondev.Zds.Include.{is_below}
use mos_agondev.Zds.Lexical.{mask_quoted}
use mos_agondev.Zds.Macros.{code_of, discover_macros}
use mos_agondev.Zds.Names.{as_posix, macro_gas_name, parse_params, safe_identifier}
use mos_agondev.Zds.Patterns.{ident, macro_end_re, macro_start_re}
use mos_agondev.Zds.Provenance.{
  executable_bits, identity, is_bits, is_git_object, is_lower_hex, is_sha256, keys,
  load_prepared_provenance, metadata_relative_path, metadata_relative_path_of, read_document,
  read_entries, read_entry, read_listing, read_source, same_names, scan_tree, sorted, unsafe_part,
  verify_files,
}
use mos_agondev.Zds.Provenance.Document.{
  bool_of, exact_object_keys, field, fields_dict, is_number, items_list, items_of, text_of,
}
use mos_agondev.Zds.Tree.{
  Manifest, OutputRoot, Outside, TreeInput, build_tree, finish_tree, is_root_source,
  translate_roots, translate_tree, validate_output_root,
}
use mos_agondev.Zds.Tree.Check.{output_paths, translate_tree-check}

abbrev some_tools : Outside
some_tools = record {
  loads = loads;
  number_is = number_is;
  bytes_sha256 = digest_of;
  sha256 = λ s. s;
  dumps = λ m. m.input_identity;
}

abbrev no_expansion : Str → Result ExpandedSource
no_expansion relative = err value_error

abbrev some_input : TreeInput
some_input = record {
  source_root = codes "s" ∷ [];
  output_root = codes "o" ∷ [];
  output_is_symlink = false;
  prepared = tree;
  records = (codes "src/m.inc", codes "m MACRO x\n nop\n ENDMACRO\n") ∷ [];
}

abbrev some_manifest : Manifest
some_manifest = record {
  schema = 2;
  input_identity = some_head;
  input_provenance = provenance;
  files = [];
  macros =
      record {
        source_name = codes "m";
        gas_name = codes "zds_m";
        params = codes "x" ∷ [];
        source = codes "src/m.inc";
        line = 1;
      }
      ∷ [];
}

abbrev some_present : Dict Str Str
some_present = (codes "manifest.json", some_head) ∷ []

abbrev new_root : OutputRoot
new_root = record { is_no_directory = false; present = [] }

tree_run :
    translate_tree some_tools no_expansion some_input new_root false
    ≡ ok (some_manifest, some_present)
unfolding translate_tree build_tree finish_tree translate_roots is_root_source validate_output_root
    is_below identity discover_macros code_of match matches named group_of macro_start_re
    macro_end_re mask_quoted parse_params strip full_match macro_gas_name safe_identifier sub
    split_lines ident ends_with casefold lower_char load_prepared_provenance read_document
    exact_object_keys has_key fields_dict list_beq contains field is_number in_base read_source
    text_of is_git_object is_lower_hex bool_of read_listing items_of insert lookup digit_char
    digits_onto join split starts_with str_lt as_posix items_list executable_bits is_bits is_sha256
    metadata_relative_path metadata_relative_path_of read_entries read_entry same_names scan_tree
    sorted unsafe_part verify_files
tree_run = refl

abbrev written_root : OutputRoot
written_root = record { is_no_directory = false; present = some_present }

abbrev some_checked : Manifest × Dict Str Str
some_checked = (some_manifest, some_present)

one_record : Distinct (keys some_input.records)
unfolding contains
one_record = (refl, tt)

-- what a run has written passes, and an empty directory does not
translate_tree-check_example :
    ((translate_tree some_tools no_expansion some_input written_root true ≡ ok some_checked) ↔ (
      (some_checked ≡ (some_manifest, some_present))
      × All
          (λ path. lookup path some_present ≡ lookup path some_present)
          (output_paths some_input.records)))
    × ((contains (codes "other") (output_paths some_input.records) ≡ true)
        ⊎ (lookup (codes "other") some_present ≡ lookup (codes "other") []))
translate_tree-check_example =
    translate_tree-check some_tools no_expansion some_input new_root written_root some_manifest
      some_present some_checked (codes "other") one_record tree_run

root_is_file :
    finish_tree false
      (record { is_no_directory = true; present = [] })
      (record { manifest = some_manifest; units = []; manifest_text = [] })
    ≡ err value_error
unfolding finish_tree
root_is_file = refl

stale_manifest :
    finish_tree true new_root (record { manifest = some_manifest; units = []; manifest_text = [] })
    ≡ err value_error
unfolding finish_tree option_beq lookup
stale_manifest = refl
