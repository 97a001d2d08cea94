-- ===== src/Lib.antt =====
-- A verification library for mos-agondev, the port of the Agon MOS firmware to the AgonDev
-- toolchain.
--
-- The program's parts. The frontend projects/mos-port/tools/zds2gas.py turns assembly files in the
-- ZDS dialect into GNU assembler files. It discovers the macros of the sources, analyzes a
-- translation unit line by line (structures, macros, scopes, sections, equates and three kinds of
-- local labels), resolves every reference when all lines are read, and then rewrites each line and
-- checks that no `$` is left. The analyzer projects/binary-compare/analyze.py compares the image
-- that is built from these files with the official release: it reads the two link maps and the
-- symbol list, matches the module ranges, cuts each assembly module at the symbols that both images
-- have, classifies each slice, and enters in a queue what is left for review. The other tools
-- (recording of build steps, audits of the runtime, worktree preparation) stand beside them.
--
-- The shared files.
-- - Prelude, Text and Regex are shared: Booleans, lists and association lists, texts as lists of
--   code points with the methods of str that the source uses, and a matcher for the regular
--   expressions that the source uses, in which repetition is over character classes only.
-- - Errors: FrontendError, AnalysisError and the other exceptions as values.
--
-- The files about zds2gas.py.
-- - Zds/Records: the dataclasses.
-- - Zds/Patterns: the regular expressions by their names in the source.
-- - Zds/Lexical: split_physical_line, split_comment, map_unquoted and mask_quoted. The loops over
--   characters are recursions with the loop's variables as arguments.
-- - Zds/Names and Zds/Macros: parse_params, safe_identifier, macro_gas_name, file_key and
--   discover_macros.
-- - Zds/Values: rewrite_literals_and_locations, canonical_equate_value, parse_absolute_integer and
--   parse_section_definition.
-- - Zds/Analyze and its children: analyze. Its local variables are the record Progress, one
--   function models each part of the loop's body, and Zds/Analyze/Resolve models the loops behind.
-- - Zds/Rewrite and its children: the functions that rewrite one line.
-- - Zds/Translate: translate. Its local variables are the record Emission.
-- - Zds/Provenance and its children: load_prepared_provenance with _metadata_relative_path and
--   _exact_object_keys. The document is a Json value, and the tree below the source root is a list
--   of its paths with kind, content and mode.
-- - Zds/Include and its child: resolve_include. The file system is a record of questions, and an
--   error of it that the code does not catch is left out.
-- - Zds/Expand and its children: expand_translation_unit. The files are a dict from resolved paths
--   to texts, and what an include resolves to is a parameter.
-- - Zds/Tree and its children: manifest_entry, validate_output_root and translate_tree. The files below
--   the output root are a dict from paths to texts, before and after a run.
--
-- The files about analyze.py.
-- - Compare/Records: the dataclasses and the tables of the segments. Compare/Image: slices of bytes.
-- - Compare/Maps and its children: parse_gnu_map, parse_nm and parse_zds_map. The local variables of
--   parse_zds_map are the record MapState, and the parts of its loop are one function each.
-- - Compare/Ranges: candidate_range_for. Compare/Tokens: shared_symbol_tokens.
-- - Compare/Paired, Compare/Relocation, Compare/Disassembly and Compare/Normalize: paired_value_token,
--   relocation_byte_spans, run_disassembler, and the two functions that normalize instructions.
-- - Compare/Executable: compare_executable_range. Compare/Summary: binary_difference_summary.
-- - Compare/Modules, Compare/Boundaries, Compare/Slices, Compare/Anchors, Compare/Review: the loops of
--   analyze in their order. Compare/SymbolOrder: symbol_order_comparisons.
-- - Compare/Analyze and Compare/Counts: analyze from the texts of the tables to the report.
--
-- The files about record_target_step.py in projects/mos-port/tools.
-- - Record/Depfile: _split_make_words and parse_depfile_rule, from the text of the file. A line with a
--   rule is cut at the colon, and the two parts are the front and the back.
-- - Record/Roots: Root, lexical_absolute and parse_roots. The answers of pathlib and of the file system
--   are the record Paths, of which nothing is assumed.
-- - Record/States: FileState and states_by_resolved.
--
-- Tests: runs on small inputs, and the theorems at such inputs.
--
-- Choices. A line number is a natural number, a dict is an association list that keeps the order
-- of insertion, and a set of line numbers is a list. `\w`, `\b`, casefold, upper and lower are
-- those of ASCII, except for the four letters that IGNORECASE identifies with ASCII ones; white
-- space and line ends are those of Unicode. SHA-256 is a parameter, a function from texts to
-- texts, of which nothing is assumed; so are json.loads and the comparison of a JSON number. An
-- error keeps its code and its place, its message is left out. There is fuel in two places: for
-- the digits of a number, where the number itself is enough, and for the depth of includes, where
-- one more than the number of files is enough.
--
-- In the comparison a set is a list that is read by membership alone, and a difference of addresses
-- that may be negative is compared by sums. What the disassembler prints for a range of an image is
-- a function, of which nothing is assumed. The repetition of bytes in a row of the disassembly is
-- bounded by the length of the row, which is enough since each round reads two characters.
--
-- Not modelled: the table of include aliases, the reading and writing of files in zds2gas.py
-- (source_records, atomic_write), its command line and its JSON text; in analyze.py the checks of the
-- artifact files and their hashes, the digests and address deltas of the report, its Markdown text and
-- its command line; in record_target_step.py the uses of the roots, the check of the inputs after a
-- step and the records that are written; and the other tools of the repository.
pub mod Prelude
pub mod Text
pub mod Regex
pub mod Errors
pub mod Zds
pub mod Compare
pub mod Record
mod Tests
