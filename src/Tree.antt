-- ===== src/Tree.antt =====
-- goko/src/covertree/tree.rs and layer.rs: the layers of a finished tree and the walks over them.
pub mod Reader
pub mod Levels
pub mod Layers
pub mod Dangling
pub mod Final
pub mod Knn
mod Sample
mod Tests
pub mod Paths
