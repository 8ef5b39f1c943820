-- ===== src/Btree.antt =====
-- The B+ tree of src/btree/.
pub mod Key
pub mod Node
pub mod Layout
