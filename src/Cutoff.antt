-- ===== src/Cutoff.antt =====
-- The checks at the cutoff, toolkit/scripts/cutoff.
pub mod Provenance
mod Tests
