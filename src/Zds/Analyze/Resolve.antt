-- ===== src/Zds/Analyze/Resolve.antt =====
-- The references are resolved when all lines are read: the last loops of analyze in
-- projects/mos-port/tools/zds2gas.py.
pub mod Nearest
pub mod Resolved
use mos_agondev.Prelude.{
  Bool, Dict, List, Option, [], false, has_key, if◌then◌else◌, insert, list_eq, ltb, nat_eq, none,
  option_eq, pair_eq, some, true, ℕ, ◌&&◌, ◌==◌, ◌∷◌,
}
use mos_agondev.Text.{Str, codes}
use mos_agondev.Zds.Analyze.State.{AnonymousDefinition, MacroReference, Progress}
use mos_agondev.Zds.Records.{AnonymousReference, LocalReference}
use mos_agondev.Errors.{
  Result, ok, raise, unresolved_anonymous, unresolved_local, unresolved_macro_local,
  unterminated_structure, ◌>>=◌, ◌>>◌,
}

unfoldable pub check_named : Dict (ℕ × Str) Str → List LocalReference → Result (Unit {0})
check_named named_locals [] = ok tt
check_named named_locals (reference ∷ rest) =
    if has_key (reference.scope, reference.token) named_locals
    then check_named named_locals rest
    else raise reference.source reference.line unresolved_local

unfoldable pub check_macro : Dict (Str × Str) Str → List MacroReference → Result (Unit {0})
check_macro macro_locals [] = ok tt
check_macro macro_locals (reference ∷ rest) =
    if has_key (reference.macro_name, reference.local_name) macro_locals
    then check_macro macro_locals rest
    else raise reference.location.source reference.location.line unresolved_macro_local

-- whether a definition stands on the side that the reference points to, in the same macro
unfoldable pub is_candidate : AnonymousReference → AnonymousDefinition → Bool
is_candidate reference candidate =
    candidate.macro_name == reference.macro_name
    && (if reference.direction == codes "f"
        then ltb reference.ordinal candidate.ordinal
        else ltb candidate.ordinal reference.ordinal)

unfoldable pub candidates_of :
    AnonymousReference → List AnonymousDefinition → List AnonymousDefinition
candidates_of reference [] = []
candidates_of reference (d ∷ ds) =
    let rest = candidates_of reference ds in if is_candidate reference d then d ∷ rest else rest

-- `min(candidates, key=lambda item: item[0])`, of a first element and the others
unfoldable pub earliest : AnonymousDefinition → List AnonymousDefinition → AnonymousDefinition
earliest best [] = best
earliest best (d ∷ ds) = earliest (if ltb d.ordinal best.ordinal then d else best) ds

-- `max(candidates, key=lambda item: item[0])`
unfoldable pub latest : AnonymousDefinition → List AnonymousDefinition → AnonymousDefinition
latest best [] = best
latest best (d ∷ ds) = latest (if ltb best.ordinal d.ordinal then d else best) ds

abbrev pub pick : Bool → AnonymousDefinition → List AnonymousDefinition → AnonymousDefinition
pick true d ds = earliest d ds
pick false d ds = latest d ds

abbrev pub points_forward : AnonymousReference → Bool
points_forward reference = reference.direction == codes "f"

pick_any : Bool → List AnonymousDefinition → Option AnonymousDefinition
pick_any forward [] = none
pick_any forward (d ∷ ds) = some (pick forward d ds)

unfoldable pub target_of :
    AnonymousReference → List AnonymousDefinition → Option AnonymousDefinition
unfolding candidates_of earliest latest pick_any
target_of reference definitions =
    pick_any (points_forward reference) (candidates_of reference definitions)

unfoldable pub resolve_anonymous :
    List AnonymousDefinition
    → List AnonymousReference
    → Dict (ℕ × ℕ) Str
    → Result (Dict (ℕ × ℕ) Str)
resolve_anonymous definitions [] resolved = ok resolved
resolve_anonymous definitions (reference ∷ rest) resolved = elim (target_of reference definitions) [
  | none ↦ raise reference.source reference.line unresolved_anonymous
  | some target ↦
      resolve_anonymous definitions rest
        (insert (reference.ordinal, reference.offset) target.generated resolved)
]

-- `if active_structure_name is not None`, behind the loops
unfoldable pub check_structure : Progress → Result (Unit {0})
check_structure p = elim (p.active_structure) [
  | none ↦ ok tt
  | some s ↦ raise s.start.source s.start.line unterminated_structure
]

-- all that stands behind the loop over the lines
unfoldable pub resolve : Progress → Result (Dict (ℕ × ℕ) Str)
resolve p = do
  check_named p.named_locals p.named_refs
  check_macro p.macro_locals p.macro_refs
  resolved ← resolve_anonymous p.anonymous_defs p.anonymous_refs []
  check_structure p
  ok resolved
