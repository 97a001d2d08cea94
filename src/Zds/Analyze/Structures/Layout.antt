-- ===== src/Zds/Analyze/Structures/Layout.antt =====
-- The layout of a structure: its members follow one another without overlap.
use mos_agondev.Prelude.{
  Distinct, List, [], arith, contains, false, list_beq_iff, list_eq, map, nat_eq, option_eq,
  pair_eq, refl, ℕ, ◌++◌, ◌+◌, ◌==◌, ◌∷◌, ◌≡◌, ◌≤◌,
}
use mos_agondev.Text.{Str}
use mos_agondev.Zds.Analyze.Structures.{has_member}
use mos_agondev.Zds.Records.{StructureMember}

-- the members stand in order between `lo` and `hi`, none overlaps the next
abbrev pub Chain : ℕ → List StructureMember → ℕ → Type 0
Chain lo [] hi = lo ≤ hi
Chain lo (m ∷ ms) hi = (lo ≤ m.offset) × Chain (m.offset + m.size) ms hi

abbrev pub member_name : StructureMember → Str
member_name m = m.name

pub Chain-weaken :
    (lo hi hi' : ℕ) (ms : List StructureMember) → hi ≤ hi' → Chain lo ms hi → Chain lo ms hi'
Chain-weaken lo hi hi' [] h c = omega arith
Chain-weaken lo hi hi' (m ∷ ms) h (first, rest) =
    (first, Chain-weaken (m.offset + m.size) hi hi' ms h rest)

pub Chain-append :
    (lo hi : ℕ) (ms : List StructureMember) (m : StructureMember)
    → m.offset ≡ hi
    → Chain lo ms hi
    → Chain lo (ms ++ (m ∷ [])) (hi + m.size)
Chain-append lo hi [] m e c = (omega arith, omega arith)
Chain-append lo hi (x ∷ ms) m e (first, rest) =
    (first, Chain-append (x.offset + x.size) hi ms m e rest)

pub contains-names-append :
    (name : Str) (ms : List StructureMember) (m : StructureMember)
    → contains name (map member_name ms) ≡ false
    → (m.name == name) ≡ false
    → contains name (map member_name (ms ++ (m ∷ []))) ≡ false
unfolding contains
contains-names-append name [] m h d = ground arith
contains-names-append name (x ∷ ms) m h d = ground (arith, contains-names-append name ms m)

pub Distinct-append :
    (ms : List StructureMember) (m : StructureMember)
    → has_member m.name ms ≡ false
    → Distinct (map member_name ms)
    → Distinct (map member_name (ms ++ (m ∷ [])))
unfolding contains
Distinct-append [] m h d = (refl, tt)
Distinct-append (x ∷ ms) m h (fresh, rest) = (
  contains-names-append x.name ms m fresh
      (ground (arith, list_beq_iff m.name x.name, list_beq_iff x.name m.name)),
  Distinct-append ms m (ground arith) rest,
)
