-- ===== src/Sdk/OrSet.antt =====
-- crates/nx-sdk/src/crdt/orset.rs: observed-remove sets as a guest uses them.
pub mod Elements
use numax.Prelude.{ℕ, zero, suc, Bool, true, false, List, Bytes, length}
use numax.Prelude.Int.{ℤ, pos, negsuc}
use numax.Prelude.Result.{Result, ok, err}
use numax.Sdk.{NxError, internal, reserved_key, sync_disabled, unknown_code}
use numax.Sdk.Parse.{parse_elements}
use numax.Sdk.Ffi.{Run, Outcome, failed, grow, page_outcome}
use numax.Sdk.Db.{attempts}

-- `crdt_orset_*` of ffi.rs, with slices as their bytes.
pub record OrSetFfi : Type 0 where
  pub crdt_orset_add : Bytes → Bytes → ℤ
  pub crdt_orset_remove : Bytes → Bytes → ℤ
  pub crdt_orset_contains : Bytes → Bytes → ℤ
  pub crdt_orset_elements : Bytes → ℕ → ℤ × Bytes

unfoldable pub map_unit_result : ℤ → Result NxError (Unit {0})
map_unit_result (pos zero) = ok tt
map_unit_result (pos (suc n)) = err (unknown_code (pos (suc n)))
map_unit_result (negsuc (suc (suc zero))) = err internal
map_unit_result (negsuc (suc (suc (suc zero)))) = err reserved_key
map_unit_result (negsuc (suc (suc (suc (suc zero))))) = err sync_disabled
map_unit_result (negsuc n) = err (unknown_code (negsuc n))

-- The match of `contains`.
unfoldable pub contains_of_rc : ℤ → Result NxError Bool
contains_of_rc (pos zero) = ok false
contains_of_rc (pos (suc zero)) = ok true
contains_of_rc (pos (suc (suc n))) = err internal
contains_of_rc (negsuc (suc (suc zero))) = err internal
contains_of_rc (negsuc (suc (suc (suc zero)))) = err reserved_key
contains_of_rc (negsuc (suc (suc (suc (suc zero))))) = err sync_disabled
contains_of_rc (negsuc n) = err (unknown_code (negsuc n))

-- The match of `elements`.
unfoldable pub elements_outcome : ℤ → Outcome
unfolding page_outcome
elements_outcome (negsuc (suc (suc (suc (suc zero))))) = failed sync_disabled
elements_outcome rc = page_outcome rc

module _ (ffi : OrSetFfi) where
  unfoldable pub add : Bytes → Bytes → Result NxError (Unit {0})
  unfolding map_unit_result
  add key element = map_unit_result (ffi.crdt_orset_add key element)

  unfoldable pub remove : Bytes → Bytes → Result NxError (Unit {0})
  unfolding map_unit_result
  remove key element = map_unit_result (ffi.crdt_orset_remove key element)

  unfoldable pub contains : Bytes → Bytes → Result NxError Bool
  unfolding contains_of_rc
  contains key element = contains_of_rc (ffi.crdt_orset_contains key element)

  unfoldable pub elements : Bytes → Run (List Bytes)
  unfolding grow elements_outcome parse_elements
  elements key =
      grow elements_outcome (err internal) parse_elements (ffi.crdt_orset_elements key) attempts 256
