-- ===== src/Chain.antt =====
-- What the tools read of a chain by RPC: the searches for a block and the fetching of logs. What a
-- node answers is a parameter.
pub mod Search
pub mod Logs
mod Tests
