-- ===== src/Store/Writes.antt =====
-- The writes of the store, with its state and that of its write lock.
use numax.Prelude.{Bool, not, List, ◌++◌, map, Bytes}
use numax.Prelude.Result.{Result, ok, err, ◌>>◌, require}
use numax.Store.{StoreError, write_lock_poisoned}
use numax.Store.Sled.{Sled, Entry, put, erase}
use numax.Store.Scan.{from_sled}

-- `Store`. The lock is poisoned once a thread panics while it holds it for writing. No call waits
-- here for another.
pub record Store (s : Sled) : Type 0 where
  pub db : s.Db
  pub poisoned : Bool

-- What a call returns, and the store behind it.
abbrev pub Written : Sled → Type 0
Written s = Result (StoreError s.Error) (Unit {0}) × Store s

module _ (s : Sled) where
  -- The answer of sled, `?` on it, and the database behind it.
  unfoldable pub keep : Store s → Result s.Error (Unit {0}) × s.Db → Written s
  unfolding from_sled
  keep store (answer, db) = (from_sled answer, record store { db = db })

  -- Without the feature `test-utils`.
  unfoldable pub check_injected_write_failure : Result (StoreError s.Error) (Unit {0})
  check_injected_write_failure = ok tt

  -- What follows a guard only runs where it passes.
  unfoldable pub after_check :
      Store s → Result (StoreError s.Error) (Unit {0}) → Written s → Written s
  after_check store (ok tt) next = next
  after_check store (err e) next = (err e, store)

  unfoldable pub set_unlocked : Store s → Bytes → Bytes → Written s
  unfolding keep after_check check_injected_write_failure
  set_unlocked store key value =
      after_check store check_injected_write_failure (keep store (s.put_key store.db key value))

  unfoldable pub delete_unlocked : Store s → Bytes → Written s
  unfolding keep after_check check_injected_write_failure
  delete_unlocked store key =
      after_check store check_injected_write_failure (keep store (s.remove_key store.db key))

  unfoldable pub apply_batch_unlocked : Store s → List Entry → List Bytes → Written s
  unfolding keep after_check check_injected_write_failure
  apply_batch_unlocked store sets deletes =
      let batch = map (λ e. put e.0 e.1) sets ++ map erase deletes in
      after_check store check_injected_write_failure (keep store (s.apply_changes store.db batch))

  -- `write_lock.read()` and `write_lock.write()`, with the error of a poisoned lock.
  unfoldable pub lock : Store s → Result (StoreError s.Error) (Unit {0})
  lock store = require (not store.poisoned) write_lock_poisoned

  unfoldable pub set : Store s → Bytes → Bytes → Written s
  unfolding set_unlocked lock after_check
  set store key value = after_check store (lock store) (set_unlocked store key value)

  unfoldable pub delete : Store s → Bytes → Written s
  unfolding delete_unlocked lock after_check
  delete store key = after_check store (lock store) (delete_unlocked store key)

  unfoldable pub apply_batch : Store s → List Entry → List Bytes → Written s
  unfolding apply_batch_unlocked lock after_check
  apply_batch store sets deletes =
      after_check store (lock store) (apply_batch_unlocked store sets deletes)

  unfoldable pub flush : Store s → Written s
  unfolding keep after_check check_injected_write_failure
  flush store =
      after_check store check_injected_write_failure (keep store (s.sync_to_disk store.db))

  unfoldable pub acquire_write_lease : Store s → Result (StoreError s.Error) (Store s)
  unfolding lock
  acquire_write_lease store = do lock store; ok store
