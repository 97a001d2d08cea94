-- ===== src/Zds.antt =====
-- The ZDS-compatibility frontend, projects/mos-port/tools/zds2gas.py.
pub mod Lexical
pub mod Records
pub mod Patterns
pub mod Names
pub mod Macros
pub mod Values
pub mod Analyze
pub mod Rewrite
pub mod Provenance
pub mod Include
pub mod Expand
pub mod Translate
pub mod Tree
