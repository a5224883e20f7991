-- ===== src/Sdk.antt =====
-- crates/nx-sdk/src: what a guest sees of the host functions.
pub mod Parse
pub mod Ffi
pub mod Db
pub mod Buffer
pub mod Inverts
pub mod RoundTrip
pub mod Grow
pub mod Pages
pub mod Link
pub mod Served
pub mod Cursors
pub mod PageCalls
pub mod Scan
pub mod Items
pub mod Writes
pub mod Calls
pub mod OrSet
use numax.Prelude.Int.{ℤ}

-- `NxError` of error.rs.
pub data NxError : Type 0 where
  internal buffer_too_small not_found reserved_key sync_disabled : NxError
  unknown_code : ℤ → NxError
