-- ===== src/Zds/Tree.antt =====
-- manifest_entry, validate_output_root and translate_tree of projects/mos-port/tools/zds2gas.py.
-- The assembly sources that source_records reads are an argument, and so are the rendering of the
-- manifest as JSON, the files below the output root, and the expansion of a root.
pub mod Outputs
pub mod Check
use mos_agondev.Errors.{Result, err, ok, value_error, ◌>>=◌, ◌>>◌}
use mos_agondev.Prelude.{
  Bool, Dict, List, Option, [], false, if◌then◌else◌, insert, length, list_eq, lookup, nat_eq,
  option_eq, pair_eq, some, true, ℕ, ◌==◌, ◌∷◌,
}
use mos_agondev.Text.{Str, casefold, codes, ends_with, split_lines, str_lt}
use mos_agondev.Zds.Expand.{ExpandedSource, IncludeEntry}
use mos_agondev.Zds.Include.{is_below}
use mos_agondev.Zds.Macros.{discover_macros}
use mos_agondev.Zds.Provenance.{
  PreparedProvenance, PreparedTree, identity, load_prepared_provenance,
}
use mos_agondev.Zds.Provenance.Document.{Json}
use mos_agondev.Zds.Records.{
  LabelMapping, MacroSpec, Scope, SectionDefinition, SourceLocation, StructureSpec, Translation,
}
use mos_agondev.Zds.Translate.{frontend_version, translate}

-- an entry of `files`; `defined_at` of a structure is its source and its line
pub record ManifestEntry : Type 0 where
  pub source : Str
  pub source_sha256 : Str
  pub output_sha256 : Str
  pub input_lines : ℕ
  pub output_lines : ℕ
  pub output_to_source : List ℕ
  pub output_locations : List SourceLocation
  pub includes : List IncludeEntry
  pub source_files : Dict Str Str
  pub scopes : List Scope
  pub mappings : List LabelMapping
  pub sections : List SectionDefinition
  pub structures : List StructureSpec
  pub transformations : Dict Str ℕ

abbrev values {ℓ} : {A : Type ℓ} → Dict Str A → List A
values [] = []
values ((k, v) ∷ d) = v ∷ values d

-- `source` and `output` of an entry are both `relative`
unfoldable pub manifest_entry :
    (Str → Str) → Str → Str → Translation → List IncludeEntry → Dict Str Str → ManifestEntry
manifest_entry sha256 relative source_text translation includes source_files = record {
  source = relative;
  source_sha256 = sha256 source_text;
  output_sha256 = sha256 translation.text;
  input_lines = length (split_lines source_text);
  output_lines = length translation.output_to_source;
  output_to_source = translation.output_to_source;
  output_locations = translation.output_locations;
  includes = includes;
  source_files = source_files;
  scopes = translation.analysis.scopes;
  mappings = translation.analysis.mappings;
  sections = values translation.analysis.section_definitions;
  structures = values translation.analysis.structures;
  transformations = translation.transformations;
}

-- the two roots are given resolved
unfoldable pub validate_output_root : List Str → List Str → Bool → Result (Unit {0})
validate_output_root source output is_symlink =
    if is_below source output
    then err value_error
    else if is_symlink
    then err value_error
    else ok tt

-- an element of `translated`
pub record TranslatedUnit : Type 0 where
  pub relative : Str
  pub source_text : Str
  pub translation : Translation
  pub includes : List IncludeEntry
  pub source_files : Dict Str Str

-- the macros of the manifest, in the order of their names
insert_macro : MacroSpec → List MacroSpec → List MacroSpec
insert_macro macro [] = macro ∷ []
insert_macro macro (m ∷ ms) =
    let rest = insert_macro macro ms in
    if str_lt m.source_name macro.source_name then m ∷ rest else macro ∷ m ∷ ms

sort_macros : List MacroSpec → List MacroSpec
unfolding insert_macro
sort_macros [] = []
sort_macros (macro ∷ rest) = insert_macro macro (sort_macros rest)

pub record Manifest : Type 0 where
  pub schema : ℕ
  pub input_identity : Str
  pub input_provenance : PreparedProvenance
  pub files : List ManifestEntry
  pub macros : List MacroSpec

-- a source whose suffix is `.asm`
unfoldable pub is_root_source : Str → Bool
is_root_source relative = ends_with (codes ".asm") (casefold relative)

-- one round of the loop over the roots; `expand` is the expansion of a root
unfoldable pub translate_root :
    (Str → Str) → (Str → Result ExpandedSource) → Str → Str × Str → Result TranslatedUnit
translate_root sha256 expand input_identity (relative, source_text) = do
  source ← expand relative
  root_macros ← discover_macros ((relative, source.text) ∷ [])
  result ←
      translate sha256 relative source.text (some root_macros) (some source.locations)
        input_identity
  ok (record {
    relative = relative;
    source_text = source_text;
    translation = result;
    includes = source.includes;
    source_files = source.source_files;
  })

unfoldable pub translate_roots :
    (Str → Str)
    → (Str → Result ExpandedSource)
    → Str
    → List (Str × Str)
    → Result (List TranslatedUnit)
translate_roots sha256 expand input_identity [] = ok []
translate_roots sha256 expand input_identity (source ∷ rest) =
    let one_root = translate_root sha256 expand input_identity source in
    let others = translate_roots sha256 expand input_identity rest in
    if is_root_source source.0 then one_root >>= (λ u. others >>= λ us. ok (u ∷ us)) else others

unit_entries : (Str → Str) → List TranslatedUnit → List ManifestEntry
unit_entries sha256 [] = []
unit_entries sha256 (u ∷ us) =
    manifest_entry sha256 u.relative u.source_text u.translation u.includes u.source_files
    ∷ unit_entries sha256 us

abbrev pub manifest_name : Str
manifest_name = codes "manifest.json"

-- `if check`: every output is there with its text
unfoldable pub check_units : Dict Str Str → List TranslatedUnit → Result (Unit {0})
check_units present [] = ok tt
check_units present (u ∷ us) =
    if lookup u.relative present == some u.translation.text
    then check_units present us
    else err value_error

-- and so is the manifest
unfoldable pub check_outputs : Dict Str Str → List TranslatedUnit → Str → Result (Unit {0})
unfolding check_units
check_outputs present units manifest_text =
    check_units present units
    >> (if lookup manifest_name present == some manifest_text then ok tt else err value_error)

-- `else`: atomic_write of every output, and of the manifest
unfoldable pub write_units : List TranslatedUnit → Dict Str Str → Dict Str Str
unfolding insert
write_units [] present = present
write_units (u ∷ us) present = write_units us (insert u.relative u.translation.text present)

unfoldable pub write_outputs : List TranslatedUnit → Str → Dict Str Str → Dict Str Str
unfolding write_units insert
write_outputs units manifest_text present =
    insert manifest_name manifest_text (write_units units present)

-- what the command line and the file system give
pub record TreeInput : Type 0 where
  pub source_root : List Str
  pub output_root : List Str
  pub output_is_symlink : Bool
  pub prepared : PreparedTree
  pub records : List (Str × Str)

-- the functions that are not the frontend's own: JSON, numbers of a document, and SHA-256
pub record Outside : Type 0 where
  pub loads : List ℕ → Option Json
  pub number_is : Str → ℕ → Bool
  pub bytes_sha256 : List ℕ → Str
  pub sha256 : Str → Str
  pub dumps : Manifest → Str

-- the output root: whether something other than a directory is there, and the texts of the regular
-- files below it
pub record OutputRoot : Type 0 where
  pub is_no_directory : Bool
  pub present : Dict Str Str

-- `manifest`, `translated` and `manifest_text`
pub record Built : Type 0 where
  pub manifest : Manifest
  pub units : List TranslatedUnit
  pub manifest_text : Str

-- up to `if check`
unfoldable pub build_tree : Outside → (Str → Result ExpandedSource) → TreeInput → Result Built
unfolding sort_macros unit_entries identity
build_tree tools expand input = do
  validate_output_root input.source_root input.output_root input.output_is_symlink
  accepted ← load_prepared_provenance tools.loads tools.number_is tools.bytes_sha256 input.prepared
  macro_table ← discover_macros input.records
  translated ← translate_roots tools.sha256 expand (identity accepted) input.records
  let manifest : Manifest = record {
    schema = frontend_version;
    input_identity = identity accepted;
    input_provenance = accepted;
    files = unit_entries tools.sha256 translated;
    macros = sort_macros (values macro_table);
  }
  ok (record { manifest = manifest; units = translated; manifest_text = tools.dumps manifest })

-- the manifest, and the files below the output root at the end
unfoldable pub finish_tree : Bool → OutputRoot → Built → Result (Manifest × Dict Str Str)
unfolding check_outputs write_outputs
finish_tree true root b =
    check_outputs root.present b.units b.manifest_text >> ok (b.manifest, root.present)
finish_tree false root b =
    if root.is_no_directory
    then err value_error
    else ok (b.manifest, write_outputs b.units b.manifest_text root.present)

unfoldable pub translate_tree :
    Outside
    → (Str → Result ExpandedSource)
    → TreeInput
    → OutputRoot
    → Bool
    → Result (Manifest × Dict Str Str)
translate_tree tools expand input root check =
    build_tree tools expand input >>= finish_tree check root
