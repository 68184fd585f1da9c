-- ===== src/Census.antt =====
-- toolkit/scripts/census: the accounts of both shards.
pub mod Merge
