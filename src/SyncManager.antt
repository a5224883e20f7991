-- ===== src/SyncManager.antt =====
-- crates/nx-core/src/sync_manager: how a node applies, deduplicates and logs the operations of its
-- peers.
pub mod SeenOps
pub mod OpLog
pub mod Updates
pub mod Apply
pub mod Peer
