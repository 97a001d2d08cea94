-- ===== src/Zds/Analyze/Steps.antt =====
-- What every line keeps: the tables of analyze in projects/mos-port/tools/zds2gas.py are written
-- once for each key, and structures are laid out well.
pub mod Operations
pub mod Structures
pub mod Loop
use mos_agondev.Prelude.{
  Dict, Distinct, Comparable, list_eq, lookup, map, nat_eq, none, option_eq, pair_eq, some, ◌≡◌,
}
use mos_agondev.Text.{Str}
use mos_agondev.Zds.Analyze.State.{OpenStructure, Progress}
use mos_agondev.Zds.Analyze.Structures.Layout.{Chain, member_name}
use mos_agondev.Zds.Records.{StructureSpec}

-- an open structure, whose name is not taken, and a closed one
pub record IsOpenLayout (structures : Dict Str StructureSpec) (s : OpenStructure) : Type 0 where
  pub fresh : lookup s.name structures ≡ none
  pub chain : Chain 0 s.members s.offset
  pub distinct : Distinct (map member_name s.members)

pub record IsLayout (name : Str) (spec : StructureSpec) : Type 0 where
  pub same_name : spec.name ≡ name
  pub chain : Chain 0 spec.members spec.size
  pub distinct : Distinct (map member_name spec.members)

pub record HasLayouts (p : Progress) : Type 0 where
  pub closed :
      (name : Str) (spec : StructureSpec)
      → lookup name p.structures ≡ some spec
      → IsLayout name spec
  pub opened : (s : OpenStructure) → p.active_structure ≡ some s → IsOpenLayout p.structures s

-- what is found under a key before is found under it afterwards
abbrev pub Keeps {ℓ κ} :
    {K : Type ℓ} {V : Type κ} ⦃e : Comparable K⦄ → Dict K V → Dict K V → Type (ℓ ⊔ κ)
Keeps {K} {V} d d' = (k : K) (v : V) → lookup k d ≡ some v → lookup k d' ≡ some v

pub record Advances (p q : Progress) : Type 0 where
  pub equates : Keeps p.equates q.equates
  pub named_locals : Keeps p.named_locals q.named_locals
  pub macro_locals : Keeps p.macro_locals q.macro_locals
  pub structures : HasLayouts p → Keeps p.structures q.structures
  pub layouts : HasLayouts p → HasLayouts q

pub Advances-trans : (p q r : Progress) → Advances p q → Advances q r → Advances p r
Advances-trans p q r g h = record {
  equates = λ k v e. h.equates k v (g.equates k v e);
  named_locals = λ k v e. h.named_locals k v (g.named_locals k v e);
  macro_locals = λ k v e. h.macro_locals k v (g.macro_locals k v e);
  structures = λ l k v e. h.structures (g.layouts l) k v (g.structures l k v e);
  layouts = λ l. h.layouts (g.layouts l);
}

-- the fields that a step leaves as they are
pub record SameTables (p q : Progress) : Type 0 where
  pub equates : q.equates ≡ p.equates
  pub named_locals : q.named_locals ≡ p.named_locals
  pub macro_locals : q.macro_locals ≡ p.macro_locals
  pub structures : q.structures ≡ p.structures
  pub active_structure : q.active_structure ≡ p.active_structure

pub HasLayouts-same :
    (p q : Progress)
    → q.structures ≡ p.structures
    → q.active_structure ≡ p.active_structure
    → HasLayouts p
    → HasLayouts q
HasLayouts-same p q s a l = record {
  closed = λ name spec e. l.closed name spec (rw s at e);
  opened = λ o e. rw s (l.opened o (rw a at e));
}

pub SameTables-Advances : (p q : Progress) → SameTables p q → Advances p q
SameTables-Advances p q s = record {
  equates = λ k v e. rw s.equates e;
  named_locals = λ k v e. rw s.named_locals e;
  macro_locals = λ k v e. rw s.macro_locals e;
  structures = λ l k v e. rw s.structures e;
  layouts = HasLayouts-same p q s.structures s.active_structure;
}
