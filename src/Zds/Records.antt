-- ===== src/Zds/Records.antt =====
-- The dataclasses of the frontend.
use mos_agondev.Prelude.{Bool, Dict, List, Option, ℕ}
use mos_agondev.Text.{Str}

pub record MacroSpec : Type 0 where
  pub source_name : Str
  pub gas_name : Str
  pub params : List Str
  pub source : Str
  pub line : ℕ

pub record SourceLocation : Type 0 where
  pub source : Str
  pub line : ℕ

pub record LocalReference : Type 0 where
  pub token : Str
  pub scope : ℕ
  pub source : Str
  pub line : ℕ

pub record EquateSpec : Type 0 where
  pub name : Str
  pub canonical_value : Str
  pub source : Str
  pub line : ℕ

pub record StructureMember : Type 0 where
  pub name : Str
  pub offset : ℕ
  pub size : ℕ
  pub source : Str
  pub line : ℕ

pub record StructureSpec : Type 0 where
  pub name : Str
  pub size_name : Option Str
  pub size : ℕ
  pub members : List StructureMember
  pub source : Str
  pub line : ℕ

pub record AnonymousReference : Type 0 where
  pub ordinal : ℕ
  pub offset : ℕ
  pub direction : Str
  pub macro_name : Option Str
  pub source : Str
  pub line : ℕ

-- an entry of `scopes`
pub record Scope : Type 0 where
  pub ordinal : ℕ
  pub source : Str
  pub line : ℕ
  pub explicit : Bool

-- the `kind` of a mapping, with the key that only this kind has
pub data MappingKind : Type 0 where
  macro_local : Str → MappingKind
  named_local : ℕ → MappingKind
  anonymous : Option Str → MappingKind

-- an entry of `mappings`
pub record LabelMapping : Type 0 where
  pub kind : MappingKind
  pub token : Str
  pub generated : Str
  pub defined_in : Str
  pub line : ℕ

-- a value of `section_definitions`
pub record SectionDefinition : Type 0 where
  pub name : Str
  pub space : Str
  pub align : Option Str

pub record Analysis : Type 0 where
  pub source : Str
  pub file_key : Str
  pub macros : Dict Str MacroSpec
  pub named_locals : Dict (ℕ × Str) Str
  pub macro_locals : Dict (Str × Str) Str
  pub anonymous_definitions : Dict ℕ Str
  pub anonymous_references : Dict (ℕ × ℕ) Str
  pub duplicate_equates : List ℕ
  pub equates : Dict Str EquateSpec
  pub structures : Dict Str StructureSpec
  pub structure_lines : Dict ℕ (List Str)
  pub scopes : List Scope
  pub mappings : List LabelMapping
  pub section_definitions : Dict Str SectionDefinition
  pub line_sections : Dict ℕ (Str × Str)

pub record Translation : Type 0 where
  pub text : Str
  pub analysis : Analysis
  pub output_to_source : List ℕ
  pub output_locations : List SourceLocation
  pub transformations : Dict Str ℕ
