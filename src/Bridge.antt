-- ===== src/Bridge.antt =====
-- The bridge tools, toolkit/scripts/bridge.
pub mod Allocations
mod Tests
