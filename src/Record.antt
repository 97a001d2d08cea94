-- ===== src/Record.antt =====
-- The recorder of build steps projects/mos-port/tools/record_target_step.py: dependency files, the
-- declared roots, and the states of the files that a step reads.
pub mod Depfile
pub mod Roots
pub mod States
