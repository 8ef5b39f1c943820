-- ===== src/Replication.antt =====
-- The crate grumpydb-replication: the parts without I/O.
pub mod Writer
pub mod Lag
pub mod Frame
pub mod Idempotent
