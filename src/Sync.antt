-- ===== src/Sync.antt =====
-- crates/nx-sync: the operations that replicas exchange, and the replicated data types.
pub mod Op
pub mod GCounter
pub mod PnCounter
pub mod LwwRegister
pub mod LwwMap
pub mod OrSet
pub mod Rga
pub mod Convergence
