-- ===== src/Routing.antt =====
-- The claim routing of toolkit/scripts/routing/apply-routes.py.
pub mod ProRata
pub mod Destinations
pub mod Compile
mod Tests
