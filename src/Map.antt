-- ===== src/Map.antt =====
-- `BTreeMap` and `HashMap` of the Rust standard library, as lists of entries in strictly increasing
-- key order. Of a `HashMap`'s iteration order the code relies on nothing.
mod Defs
pub mod Laws
pub mod Join
pub mod Upsert
pub use Defs.{BTreeMap, HashMap}
unfoldable pub use Defs.{get, insert, is_some, contains_key, for_entries, get_or, upsert}
