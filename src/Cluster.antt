-- ===== src/Cluster.antt =====
-- The parts of grumpydb-server/src/cluster.
pub mod ReadRepair
