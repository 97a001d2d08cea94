-- ===== src/Zds/Analyze/State.antt =====
-- The local variables of the loop of analyze in projects/mos-port/tools/zds2gas.py.
use mos_agondev.Prelude.{Dict, List, Option, [], false, none, ℕ, ◌∷◌}
use mos_agondev.Text.{Str, codes}
use mos_agondev.Zds.Records.{
  AnonymousReference, EquateSpec, LabelMapping, LocalReference, MacroSpec, Scope, SectionDefinition,
  SourceLocation, StructureMember, StructureSpec,
}
use mos_agondev.Errors.{Code, Result, raise}

-- active_structure_name, _start, _offset and _members, while a structure is open
pub record OpenStructure : Type 0 where
  pub name : Str
  pub start : SourceLocation
  pub offset : ℕ
  pub members : List StructureMember

-- an entry of anonymous_defs: the line, the macro around it and the label made for it
pub record AnonymousDefinition : Type 0 where
  pub ordinal : ℕ
  pub macro_name : Option Str
  pub generated : Str

-- an entry of macro_refs
pub record MacroReference : Type 0 where
  pub macro_name : Str
  pub local_name : Str
  pub location : SourceLocation

pub record Progress : Type 0 where
  pub named_locals : Dict (ℕ × Str) Str
  pub macro_locals : Dict (Str × Str) Str
  pub named_refs : List LocalReference
  pub macro_refs : List MacroReference
  pub anonymous_defs : List AnonymousDefinition
  pub anonymous_refs : List AnonymousReference
  pub anonymous_definitions : Dict ℕ Str
  pub duplicate_equates : List ℕ
  pub equates : Dict Str EquateSpec
  pub structures : Dict Str StructureSpec
  pub structure_lines : Dict ℕ (List Str)
  pub scopes : List Scope
  pub mappings : List LabelMapping
  pub section_definitions : Dict Str SectionDefinition
  pub line_sections : Dict ℕ (Str × Str)
  pub current_section : Str
  pub current_space : Str
  pub scope : ℕ
  pub active_macro : Option MacroSpec
  pub active_structure : Option OpenStructure

abbrev pub initial_progress : Str → Progress
initial_progress source_name = record {
  named_locals = [];
  macro_locals = [];
  named_refs = [];
  macro_refs = [];
  anonymous_defs = [];
  anonymous_refs = [];
  anonymous_definitions = [];
  duplicate_equates = [];
  equates = [];
  structures = [];
  structure_lines = [];
  scopes = record { ordinal = 0; source = source_name; line = 1; explicit = false } ∷ [];
  mappings = [];
  section_definitions = [];
  line_sections = [];
  current_section = codes ".text";
  current_space = codes "ROM";
  scope = 0;
  active_macro = none;
  active_structure = none;
}

-- one line of the expanded input, as the loop sees it
pub record Line : Type 0 where
  pub ordinal : ℕ
  pub location : SourceLocation
  pub code : Str
  pub masked : Str

-- `raise FrontendError(location.source, location.line, code, ...)`
abbrev pub raise_at {ℓ} : {A : Type ℓ} → Line → Code → Result A
raise_at l code = raise l.location.source l.location.line code
