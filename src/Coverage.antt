-- ===== src/Coverage.antt =====
-- The branch analysis of src/coverage.
pub mod Branches
