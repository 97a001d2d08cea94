-- ===== src/Zds/Tree/Outputs.antt =====
-- The outputs of translate_tree of projects/mos-port/tools/zds2gas.py as one list: what its check
-- reads and what its writes leave.
use mos_agondev.Errors.{ok}
use mos_agondev.Prelude.{
  All, Dict, Distinct, List, [], arith, contains, false, insert, list_beq_iff, list_eq, lookup,
  lookup-insert, lookup-insert_self, nat_eq, option_beq_iff, option_eq, pair_eq, refl, some, sym,
  ◌==◌, ◌↔◌, ◌∙◌, ◌∷◌, ◌≡◌,
}
use mos_agondev.Text.{Str}
use mos_agondev.Zds.Lexical.Regions.{after}
use mos_agondev.Zds.Provenance.{keys}
use mos_agondev.Zds.Tree.{
  TranslatedUnit, check_outputs, check_units, manifest_name, write_outputs, write_units,
}

-- the outputs with their texts
unfoldable pub outputs_of : List TranslatedUnit → Str → List (Str × Str)
outputs_of [] manifest_text = (manifest_name, manifest_text) ∷ []
outputs_of (u ∷ us) manifest_text = (u.relative, u.translation.text) ∷ outputs_of us manifest_text

abbrev pub Holds : Dict Str Str → List (Str × Str) → Type 0
Holds present outputs = All (λ o. lookup o.0 present ≡ some o.1) outputs

-- A check passes exactly when each output is there with its text.
pub check_outputs-Holds :
    (present : Dict Str Str) (units : List TranslatedUnit) (manifest_text : Str)
    → (check_outputs present units manifest_text ≡ ok tt)
      ↔ Holds present (outputs_of units manifest_text)
unfolding check_outputs check_units outputs_of
check_outputs-Holds present [] manifest_text =
    ground (arith, option_beq_iff (lookup manifest_name present) (some manifest_text))
check_outputs-Holds present (u ∷ us) manifest_text = ground (
  arith,
  check_outputs-Holds present us manifest_text,
  option_beq_iff (lookup u.relative present) (some u.translation.text),
)

-- the files behind the writes of a list of outputs
unfoldable pub write_all : List (Str × Str) → Dict Str Str → Dict Str Str
write_all [] present = present
write_all ((path, text) ∷ rest) present = write_all rest (insert path text present)

pub write_outputs-write_all :
    (units : List TranslatedUnit) (manifest_text : Str) (present : Dict Str Str)
    → write_outputs units manifest_text present ≡ write_all (outputs_of units manifest_text) present
unfolding write_outputs write_units write_all outputs_of
write_outputs-write_all [] manifest_text present = refl
write_outputs-write_all (u ∷ us) manifest_text present =
    write_outputs-write_all us manifest_text (insert u.relative u.translation.text present)

list_same-sym : (s t : Str) → (s == t) ≡ (t == s)
list_same-sym s t = ground (arith, list_beq_iff s t, list_beq_iff t s)

pub write_all-keeps :
    (outputs : List (Str × Str)) (present : Dict Str Str) (path : Str)
    → contains path (keys outputs) ≡ false
    → lookup path (write_all outputs present) ≡ lookup path present
unfolding write_all contains
write_all-keeps [] present path h = refl
write_all-keeps ((p, text) ∷ rest) present path h =
    ground (
      arith,
      h,
      write_all-keeps rest (insert p text present) path,
      lookup-insert path p text present,
    )

pub write_all-Holds :
    (outputs : List (Str × Str)) (present : Dict Str Str)
    → Distinct (keys outputs)
    → Holds (write_all outputs present) outputs
unfolding write_all
write_all-Holds [] present h = tt
write_all-Holds ((path, text) ∷ rest) present (fresh, h) = (
  write_all-keeps rest (insert path text present) path fresh ∙ lookup-insert_self path text present,
  write_all-Holds rest (insert path text present) h,
)

-- Two directories hold the same outputs when they agree on the paths.
pub Holds-same :
    (present after : Dict Str Str) (outputs : List (Str × Str))
    → Holds after outputs
    → Holds present outputs ↔ All (λ path. lookup path present ≡ lookup path after) (keys outputs)
Holds-same present after [] h = ((λ k. tt), (λ k. tt))
Holds-same present after ((path, text) ∷ rest) (first, h) =
    let others = Holds-same present after rest h in
    ((λ (this, k). (this ∙ sym first, others.0 k)), (λ (this, k). (this ∙ first, others.1 k)))
