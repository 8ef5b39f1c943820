-- ===== src/Wal.antt =====
-- The write-ahead log: src/wal/.
pub mod Hlc
pub mod VClock
pub mod Applied
pub mod Recovery
pub mod Record
pub mod Legacy
