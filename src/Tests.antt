-- ===== src/Tests.antt =====
-- Runs of the models on small inputs.
mod Basics
mod Values
mod Translation
mod Scanners
mod Frontend
mod Provenance
mod Expand
mod Include
mod Tree
mod Ranges
mod Modules
mod Record
