-- ===== src/HostApi.antt =====
-- crates/nx-core/src/host_api: the functions that a guest calls.
pub mod Encode
pub mod Guest
pub mod Db
pub mod Crdt
pub mod Reads
