-- ===== src/Sdk/Db.antt =====
-- crates/nx-sdk/src/db.rs: the store as a guest uses it.
use numax.Prelude.{
  ℕ, zero, suc, Bool, true, false, Option, none, some, List, [], ◌∷◌, ◌++◌, Bytes, length, ltb,
}
use numax.Prelude.Int.{ℤ, pos, negsuc}
use numax.Prelude.Result.{Result, ok, err}
use numax.Map.{get_or}
use numax.Sdk.{NxError, internal, reserved_key, unknown_code}
use numax.Sdk.Parse.{parse_scan_rows, parse_keys}
use numax.Sdk.Ffi.{Ffi, Run, grow, page_outcome, get_outcome}

unfoldable pub map_rc_unit : ℤ → Result NxError (Unit {0})
map_rc_unit (pos zero) = ok tt
map_rc_unit (pos (suc n)) = err (unknown_code (pos (suc n)))
map_rc_unit (negsuc (suc (suc zero))) = err internal
map_rc_unit (negsuc (suc (suc (suc zero)))) = err reserved_key
map_rc_unit (negsuc n) = err (unknown_code (negsuc n))

unfoldable pub exists_of_rc : ℤ → Result NxError Bool
exists_of_rc (pos zero) = ok false
exists_of_rc (pos (suc zero)) = ok true
exists_of_rc (pos (suc (suc n))) = err (unknown_code (pos (suc (suc n))))
exists_of_rc (negsuc (suc (suc zero))) = err internal
exists_of_rc (negsuc (suc (suc (suc zero)))) = err reserved_key
exists_of_rc (negsuc n) = err (unknown_code (negsuc n))

abbrev pub default_scan_limit : ℕ
default_scan_limit = 64

-- More than the number of times that a buffer can be doubled.
abbrev pub attempts : ℕ
attempts = 16

-- `page.last()`, and its key
unfoldable pub last_of : {A : Type 0} → (A → Bytes) → List A → Option Bytes
last_of key [] = none
last_of key (x ∷ []) = some (key x)
last_of key (x ∷ y ∷ xs) = last_of key (y ∷ xs)

-- The loops of `scan` and `keys`: pages behind the last key, until one is not full.
unfoldable pub collect_pages :
    {A : Type 0}
    → (A → Bytes)
    → (Option Bytes → Run (List A))
    → ℕ
    → Option Bytes
    → List A
    → Run (List A)
unfolding last_of
collect_pages key page zero last_key out = none
collect_pages key page (suc fuel) last_key out = elim (page last_key) [
  | none ↦ none
  | some (err e) ↦ some (err e)
  | some (ok []) ↦ some (ok out)
  | some (ok (row ∷ rows)) ↦ elim (ltb (length (row ∷ rows)) default_scan_limit) [
    | true ↦ some (ok (out ++ row ∷ rows))
    | false ↦ collect_pages key page fuel (last_of key (row ∷ rows)) (out ++ row ∷ rows)
  ]
]

module _ (ffi : Ffi) where
  unfoldable pub set : Bytes → Bytes → Result NxError (Unit {0})
  unfolding map_rc_unit
  set key value = map_rc_unit (ffi.db_set key value)

  unfoldable pub delete : Bytes → Result NxError (Unit {0})
  unfolding map_rc_unit
  delete key = map_rc_unit (ffi.db_delete key)

  unfoldable pub exists : Bytes → Result NxError Bool
  unfolding exists_of_rc
  exists key = exists_of_rc (ffi.db_exists key)

  unfoldable pub get : Bytes → Run (Option Bytes)
  unfolding grow get_outcome
  get key = grow get_outcome (ok none) (λ out. ok (some out)) (ffi.db_get key) attempts 64

  unfoldable pub scan_page : Bytes → ℕ → ℕ → Run (List (Bytes × Bytes))
  unfolding grow page_outcome parse_scan_rows
  scan_page prefix cursor limit =
      grow page_outcome (err internal) parse_scan_rows (ffi.db_scan prefix cursor limit) attempts
        256

  unfoldable pub scan_page_after : Bytes → Option Bytes → ℕ → Run (List (Bytes × Bytes))
  unfolding grow page_outcome parse_scan_rows
  scan_page_after prefix start_after_key limit =
      grow page_outcome (err internal) parse_scan_rows
        (ffi.db_scan_after prefix (get_or start_after_key []) limit) attempts 256

  unfoldable pub keys_page : Bytes → ℕ → ℕ → Run (List Bytes)
  unfolding grow page_outcome parse_keys
  keys_page prefix cursor limit =
      grow page_outcome (err internal) parse_keys (ffi.db_keys prefix cursor limit) attempts 256

  unfoldable pub keys_page_after : Bytes → Option Bytes → ℕ → Run (List Bytes)
  unfolding grow page_outcome parse_keys
  keys_page_after prefix start_after_key limit =
      grow page_outcome (err internal) parse_keys
        (ffi.db_keys_after prefix (get_or start_after_key []) limit) attempts 256

  -- The fuel is a number of pages.
  unfoldable pub scan : ℕ → Bytes → Run (List (Bytes × Bytes))
  unfolding collect_pages scan_page_after
  scan pages prefix =
      collect_pages (λ row. row.0) (λ last_key. scan_page_after prefix last_key default_scan_limit)
        pages none []

  unfoldable pub keys : ℕ → Bytes → Run (List Bytes)
  unfolding collect_pages keys_page_after
  keys pages prefix =
      collect_pages (λ key. key) (λ last_key. keys_page_after prefix last_key default_scan_limit)
        pages none []
