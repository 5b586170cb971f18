-- ===== src/Discrete.antt =====
-- The discrete distributions of stats_goko: counts at node addresses.
pub mod Params
pub mod Pairs
pub mod Updates
pub mod Runs
pub mod Refine
pub mod Merge
pub mod Data
mod Tests
