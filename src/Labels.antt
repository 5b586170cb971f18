-- ===== src/Labels.antt =====
-- pointcloud: the summaries of labels, and the counter around a summary.
pub mod Category
pub mod Vectors
pub mod Counter
mod Tests
