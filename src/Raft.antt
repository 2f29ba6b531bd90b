-- ===== src/Raft.antt =====
-- crates/hyperion-vault-api/src/raft: the log, the state machine and the snapshots that openraft drives.
pub mod Types
pub mod Log
pub mod Machine
pub mod Snapshot
pub mod Meta
pub mod Refine
pub mod Batch
pub mod Agree
pub mod Replicas
pub mod Install
pub mod Stale
pub mod Normalize
pub mod Sample
mod Tests
pub mod Peer
