-- ===== src/Airdrop.antt =====
-- The airdrop tools, airdrop/tools.
pub mod BatchTree
pub mod Recipients
pub mod Run
