-- ===== src/Store.antt =====
-- crates/nx-store/src/store.rs: the key-value store of a node, over the embedded database sled.
pub mod Sled
pub mod Scan
pub mod Writes
pub mod Visible
pub mod Loops
pub mod Pages
use numax.Prelude.{ℕ}

-- `StoreError` of error.rs, around the errors of sled and of the file system.
pub data StoreError (E : Type 0) : Type 0 where
  sled io : E → StoreError E
  not_a_directory : StoreError E
  scan_batch_byte_limit_exceeded : ℕ → ℕ → StoreError E
  write_lock_poisoned : StoreError E
