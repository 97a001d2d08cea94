-- ===== src/Zds/Tree/Check.antt =====
-- What a check of the tree accepts, by translate_tree of projects/mos-port/tools/zds2gas.py.
-- The paths of the outputs: the assembly roots and the manifest.
use mos_agondev.Errors.{Result, bind-eq-ok, bind_two-eq-ok, ok, ok-injective, ◌>>◌}
use mos_agondev.Prelude.{
  All, Bool-cases, Dict, Distinct, List, [], ap, ap₂, arith, contains, false, if◌then◌else◌, inl,
  inr, list_beq_iff, list_eq, lookup, nat_eq, option_eq, pair_eq, refl, some, subst, sym, true,
  ◌==◌, ◌↔◌, ◌∙◌, ◌∷◌, ◌≡◌, ◌⊎◌,
}
use mos_agondev.Text.{Str, casefold, ends_with, lower_char, starts_with}
use mos_agondev.Zds.Expand.{ExpandedSource}
use mos_agondev.Zds.Lexical.Regions.{after}
use mos_agondev.Zds.Macros.{discover_macros}
use mos_agondev.Zds.Provenance.{identity, keys, load_prepared_provenance}
use mos_agondev.Zds.Translate.{translate}
use mos_agondev.Zds.Tree.{
  Built, Manifest, OutputRoot, Outside, TranslatedUnit, TreeInput, build_tree, check_outputs,
  finish_tree, is_root_source, manifest_name, translate_root, translate_roots, translate_tree,
  validate_output_root,
}
use mos_agondev.Zds.Tree.Outputs.{
  Holds, Holds-same, check_outputs-Holds, outputs_of, write_all, write_all-Holds, write_all-keeps,
  write_outputs-write_all,
}

unfoldable pub output_paths : List (Str × Str) → List Str
output_paths [] = manifest_name ∷ []
output_paths (source ∷ rest) =
    let others = output_paths rest in if is_root_source source.0 then source.0 ∷ others else others

translate_root-relative :
    (sha256 : Str → Str) (expand : Str → Result ExpandedSource) (input_identity : Str)
    (source : Str × Str) (u : TranslatedUnit)
    → translate_root sha256 expand input_identity source ≡ ok u
    → u.relative ≡ source.0
unfolding translate_root
translate_root-relative sha256 expand input_identity (relative, source_text) u h =
    let (source, _, h1) = bind-eq-ok (expand relative) _ h in
    let (macros, _, h2) = bind-eq-ok (discover_macros ((relative, source.text) ∷ [])) _ h1 in
    let (result, _, h3) =
      bind-eq-ok
        (translate sha256 relative source.text (some macros) (some source.locations) input_identity)
        _ h2 in
    sym (ap (λ (t : TranslatedUnit). t.relative) (ok-injective _ u h3))

translate_roots-keys :
    (sha256 : Str → Str) (expand : Str → Result ExpandedSource) (input_identity : Str)
    (records : List (Str × Str)) (units : List TranslatedUnit) (manifest_text : Str)
    → translate_roots sha256 expand input_identity records ≡ ok units
    → keys (outputs_of units manifest_text) ≡ output_paths records
unfolding translate_roots outputs_of output_paths
translate_roots-keys sha256 expand input_identity [] units manifest_text h =
    ap (λ us. keys (outputs_of us manifest_text)) (sym (ok-injective [] units h))
translate_roots-keys sha256 expand input_identity (source ∷ rest) units manifest_text h =
    elim (Bool-cases (is_root_source source.0)) [
      | inl root ↦
          let (u, us, first, others, joined) =
            bind_two-eq-ok (translate_root sha256 expand input_identity source)
              (translate_roots sha256 expand input_identity rest) ◌∷◌
              (rw (root, translate_roots) at h) in
          let named_so = translate_root-relative sha256 expand input_identity source u first in
          let ih = translate_roots-keys sha256 expand input_identity rest us manifest_text others in
          rw root (ap (λ t. keys (outputs_of t manifest_text)) (sym joined) ∙ ap₂ ◌∷◌ named_so ih)
      | inr other ↦ rw other (
          translate_roots-keys sha256 expand input_identity rest units manifest_text
            (rw (other, translate_roots) at h))
    ]

build_tree-keys :
    (tools : Outside) (expand : Str → Result ExpandedSource) (input : TreeInput) (b : Built)
    → build_tree tools expand input ≡ ok b
    → keys (outputs_of b.units b.manifest_text) ≡ output_paths input.records
unfolding build_tree
build_tree-keys tools expand input b h =
    let (_, _, h1) =
      bind-eq-ok (validate_output_root input.source_root input.output_root input.output_is_symlink)
        _ h in
    let (accepted, _, h2) =
      bind-eq-ok
        (load_prepared_provenance tools.loads tools.number_is tools.bytes_sha256 input.prepared) _
        h1 in
    let (table, _, h3) = bind-eq-ok (discover_macros input.records) _ h2 in
    let (units, translated, h4) =
      bind-eq-ok (translate_roots tools.sha256 expand (identity accepted) input.records) _ h3 in
    let same = ok-injective _ b h4 in
    ap (λ (t : Built). keys (outputs_of t.units t.manifest_text)) (sym same)
    ∙ translate_roots-keys tools.sha256 expand (identity accepted) input.records units _ translated

not_root : (path : Str) → manifest_name ≡ path → is_root_source path ≡ true → ⊥
unfolding is_root_source ends_with casefold lower_char starts_with
not_root path same root = cc (ap is_root_source same, root)

-- A root is no other record and not the manifest.
contains-output_paths :
    (path : Str) (records : List (Str × Str))
    → is_root_source path ≡ true
    → contains path (keys records) ≡ false
    → contains path (output_paths records) ≡ false
unfolding contains output_paths
contains-output_paths path [] root h = elim (Bool-cases (manifest_name == path)) [
  | inl e ↦ absurd (not_root path ((list_beq_iff manifest_name path).0 e) root)
  | inr e ↦ rw e refl
]
contains-output_paths path ((name, text) ∷ rest) root h = elim (Bool-cases (is_root_source name)) [
  | inl e ↦ rw e (ground (arith, h, contains-output_paths path rest root))
  | inr e ↦ rw e (contains-output_paths path rest root (ground (arith, h)))
]

output_paths-Distinct :
    (records : List (Str × Str)) → Distinct (keys records) → Distinct (output_paths records)
unfolding output_paths contains
output_paths-Distinct [] h = (refl, tt)
output_paths-Distinct ((name, text) ∷ rest) (fresh, h) = elim (Bool-cases (is_root_source name)) [
  | inl e ↦ rw (e, Distinct) (contains-output_paths name rest e fresh, output_paths-Distinct rest h)
  | inr e ↦ rw e (output_paths-Distinct rest h)
]

-- What a run without a check leaves: the texts of the outputs, and the other files as they were.
finish_tree-wrote :
    (root : OutputRoot) (b : Built) (manifest : Manifest) (after : Dict Str Str)
    → finish_tree false root b ≡ ok (manifest, after)
    → (b.manifest ≡ manifest)
      × (write_all (outputs_of b.units b.manifest_text) root.present ≡ after)
unfolding finish_tree
finish_tree-wrote root b manifest after h = elim (Bool-cases root.is_no_directory) [
  | inl e ↦ absurd (ground (arith, e, h))
  | inr e ↦
      let same = ok-injective _ (manifest, after) (rw e at h) in
      (
        ap (λ p. p.0) same,
        sym (write_outputs-write_all b.units b.manifest_text root.present) ∙ ap (λ p. p.1) same,
      )
]

-- A check, for outputs that stand in `after` with their texts.
finish_tree-accepts :
    (other : OutputRoot) (b : Built) (after : Dict Str Str) (checked : Manifest × Dict Str Str)
    → Holds after (outputs_of b.units b.manifest_text)
    → (finish_tree true other b ≡ ok checked) ↔ (
        (checked ≡ (b.manifest, other.present))
        × All
            (λ path. lookup path other.present ≡ lookup path after)
            (keys (outputs_of b.units b.manifest_text)))
unfolding finish_tree
finish_tree-accepts other b after checked held =
    let outputs = outputs_of b.units b.manifest_text in
    let holds = check_outputs-Holds other.present b.units b.manifest_text in
    let agrees = Holds-same other.present after outputs held in
    (
      (λ h.
          let (u, passed, last) =
            bind-eq-ok (check_outputs other.present b.units b.manifest_text) _ h in
          (sym (ok-injective (b.manifest, other.present) checked last), agrees.0 (holds.0 passed))),
      (λ (same, k).
          ap (λ r. r >> ok (b.manifest, other.present)) (holds.1 (agrees.1 k)) ∙ ap ok (sym same)),
    )

-- Where the records have different names, let a run of translate_tree without a check succeed, and
-- leave the files `after` below the output root. A run with a check on any files succeeds exactly
-- when these agree with `after` on each assembly root and on the manifest, and it then returns the
-- same manifest and leaves the files as they are. The run without a check leaves every other path
-- as it was.
pub translate_tree-check :
    (tools : Outside) (expand : Str → Result ExpandedSource) (input : TreeInput)
    (root other : OutputRoot) (manifest : Manifest) (after : Dict Str Str)
    (checked : Manifest × Dict Str Str) (path : Str)
    → Distinct (keys input.records)
    → translate_tree tools expand input root false ≡ ok (manifest, after)
    → ((translate_tree tools expand input other true ≡ ok checked) ↔ (
        (checked ≡ (manifest, other.present))
        × All (λ path. lookup path other.present ≡ lookup path after) (output_paths input.records)))
      × ((contains path (output_paths input.records) ≡ true)
          ⊎ (lookup path after ≡ lookup path root.present))
unfolding translate_tree
translate_tree-check tools expand input root other manifest after checked path different h =
    let (b, built, finished) =
      bind-eq-ok (build_tree tools expand input) (finish_tree false root) h in
    let (same_manifest, wrote) = finish_tree-wrote root b manifest after finished in
    let outputs = outputs_of b.units b.manifest_text in
    let names = build_tree-keys tools expand input b built in
    let distinct = subst Distinct (sym names) (output_paths-Distinct input.records different) in
    let held = subst (λ d. Holds d outputs) wrote (write_all-Holds outputs root.present distinct) in
    let accepts = finish_tree-accepts other b after checked held in
    let accepted_at =
      subst
        (λ m. (finish_tree true other b ≡ ok checked) ↔ (
          (checked ≡ (m, other.present))
          × All (λ path. lookup path other.present ≡ lookup path after) (keys outputs)))
        same_manifest accepts in
    (
      rw built (
          subst
            (λ paths. (finish_tree true other b ≡ ok checked) ↔ (
              (checked ≡ (manifest, other.present))
              × All (λ path. lookup path other.present ≡ lookup path after) paths))
            names accepted_at),
      elim (Bool-cases (contains path (output_paths input.records))) [
        | inl listed ↦ inl listed
        | inr fresh ↦ inr (
            ap (lookup path) (sym wrote)
            ∙ write_all-keeps outputs root.present path (ap (contains path) names ∙ fresh))
      ],
    )
