-- ===== src/Cover.antt =====
-- goko/src/covertree: the nodes, the caches that split a node's points, the query heap and the tree.
pub mod Lists
pub mod Node
pub mod Caches
pub mod Build
pub mod Nearest
mod Tests
