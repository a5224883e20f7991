-- ===== src/Sdk/Calls.antt =====
-- The calls of the SDK end, whatever host answers them.
use numax.Prelude.{ℕ, ◌≡◌, Option, none, some, [], Bytes, arith}
use numax.Prelude.Result.{Result, ok, err}
use numax.Map.{get_or}
use numax.Sdk.{NxError, internal}
use numax.Sdk.Parse.{parse_scan_rows, parse_keys}
use numax.Sdk.Ffi.{Ffi, Run, page_outcome, get_outcome}
use numax.Sdk.Db.{get, scan_page, keys_page, scan_page_after, keys_page_after, attempts}
use numax.Sdk.Grow.{grow_total}

-- A run that has ended.
abbrev pub Ends : {A : Type 0} → Run A → Type 0
Ends {A} run = (result : Result NxError A) × (run ≡ some result)

-- Whatever a host answers, `get`, `scan_page`, `keys_page`, `scan_page_after` and `keys_page_after`
-- of the SDK end: the fuel of their loops is enough.
pub calls_end :
    (ffi : Ffi) (key : Bytes) (start_after : Option Bytes) (cursor limit : ℕ)
    → Ends (get ffi key)
      × Ends (scan_page ffi key cursor limit)
      × Ends (keys_page ffi key cursor limit)
      × Ends (scan_page_after ffi key start_after limit)
      × Ends (keys_page_after ffi key start_after limit)
unfolding get scan_page keys_page scan_page_after keys_page_after
calls_end ffi key start_after cursor limit = (
  grow_total get_outcome (ok none) (λ out. ok (some out)) (ffi.db_get key) attempts 64 (omega arith)
      (omega arith),
  grow_total page_outcome (err internal) parse_scan_rows (ffi.db_scan key cursor limit) attempts 256
      (omega arith) (omega arith),
  grow_total page_outcome (err internal) parse_keys (ffi.db_keys key cursor limit) attempts 256
      (omega arith) (omega arith),
  grow_total page_outcome (err internal) parse_scan_rows
      (ffi.db_scan_after key (get_or start_after []) limit) attempts 256 (omega arith)
      (omega arith),
  grow_total page_outcome (err internal) parse_keys
      (ffi.db_keys_after key (get_or start_after []) limit) attempts 256 (omega arith)
      (omega arith),
)
