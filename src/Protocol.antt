-- ===== src/Protocol.antt =====
-- The crate grumpydb-protocol: commands, their lines, and responses.
pub mod Text
pub mod Decimal
pub mod Command
pub mod Words
pub mod Documents
pub mod Admin
pub mod Cluster
pub mod Parser
pub mod Wire
pub mod Line
pub mod Response
