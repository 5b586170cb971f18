-- ===== src/Query.antt =====
-- goko/src/covertree/query_tools: the heaps of a search for the k nearest points.
pub mod Heap
pub mod Nearest
pub mod Pushes
pub mod Pops
pub mod Bound
mod Tests
