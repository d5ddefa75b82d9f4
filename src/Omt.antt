-- ===== src/Omt.antt =====
-- The crate hla-omt.
pub mod Fom
pub mod Merge
