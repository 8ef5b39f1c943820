-- ===== src/Document.antt =====
-- The document model: src/document/.
pub mod Text
pub mod Value
pub mod Crdt
pub mod Codec
pub mod Framing
