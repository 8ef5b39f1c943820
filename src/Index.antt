-- ===== src/Index.antt =====
-- The keys of secondary indexes: src/index/encoding.rs.
pub mod Encoding
