-- ===== src/Abi.antt =====
-- What the host functions (crates/nx-core/src/host_api) and the guest SDK (crates/nx-sdk) agree on:
-- return codes, `u32` numbers as bytes, and UTF-8.
pub mod Utf8
pub mod Words
use numax.Prelude.Int.{ℤ, negsuc}

-- Host calls return an `i32`; below 0 it is one of these.
abbrev pub err_not_found : ℤ
err_not_found = negsuc 0

abbrev pub err_buf_too_small : ℤ
err_buf_too_small = negsuc 1

abbrev pub err_internal : ℤ
err_internal = negsuc 2

abbrev pub err_reserved_key : ℤ
err_reserved_key = negsuc 3

abbrev pub err_sync_disabled : ℤ
err_sync_disabled = negsuc 4
