-- ===== src/Vault.antt =====
-- The vaults of validators: airdrop/tools/vault_batch.py.
pub mod Calls
pub mod Plan
pub mod Assembly
