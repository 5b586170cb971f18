-- ===== src/Points.antt =====
-- pointcloud: the distances of a cloud, the glued cloud and the summaries of labels.
pub mod Float
pub mod Distances
pub mod Glued
pub mod Tests
