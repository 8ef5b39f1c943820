-- ===== src/Witnesses.antt =====
-- The theorems at concrete inputs.
mod Document
mod Log
mod Pages
mod Names
mod Replicas
mod Json
mod Crdt
mod Ring
mod Files
mod Cluster
mod Queue
mod Wire
mod Access
mod Btree
