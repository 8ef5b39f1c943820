-- ===== src/Auth.antt =====
-- Access control of grumpydb-server/src/auth/.
pub mod Role
pub mod Session
