-- ===== src/Monomap.antt =====
-- goko/src/monomap: the eventually consistent map of a layer, two copies of a hash map with a log.
-- `Table` stands for the hash map, `Defs` for the handles, `Refine` compares them with a map that
-- is published at each refresh, and `Readers` interleaves the writer with its readers.
pub mod Table
pub mod Defs
pub mod Spec
pub mod Refine
pub mod Reads
pub mod Destroy
pub mod Readers
pub mod Safety
mod Tests
