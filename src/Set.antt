-- ===== src/Set.antt =====
-- `BTreeSet` and `HashSet`: maps to the unit.
mod Defs
pub mod Laws
pub mod Counting
pub use Defs.{BTreeSet}
unfoldable pub use Defs.{contains, add, remove, extend, keys, member}
