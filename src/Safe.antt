-- ===== src/Safe.antt =====
-- The Safe transactions of airdrop/tools/safe_batch.py and airdrop/tools/vault_batch.py.
pub mod MultiSend
pub mod Transactions
