-- ===== src/Claims.antt =====
-- The claim filters and ledgers of toolkit/scripts/claims.
pub mod Threshold
pub mod Ledger
mod Tests
