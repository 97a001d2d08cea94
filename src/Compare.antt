-- ===== src/Compare.antt =====
-- The binary comparison of projects/binary-compare/analyze.py: the readers of the two link maps
-- and of the symbol list, the comparison of byte ranges, and the classification of the modules.
pub mod Records
pub mod Image
pub mod Maps
pub mod Ranges
pub mod Tokens
pub mod Paired
pub mod Relocation
pub mod Summary
pub mod Disassembly
pub mod Normalize
pub mod Executable
pub mod Modules
pub mod Boundaries
pub mod Slices
pub mod Anchors
pub mod SymbolOrder
pub mod Review
pub mod Counts
pub mod Analyze
