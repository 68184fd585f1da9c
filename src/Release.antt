-- ===== src/Release.antt =====
-- The release of the bridges' collateral: bridge-claims/tools/release_plan.py.
pub mod OneSplit
pub mod Owners
