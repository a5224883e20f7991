-- ===== src/HostApi/Db.antt =====
-- crates/nx-core/src/host_api/db.rs: the functions on the store of a node that a guest calls.
use numax.Prelude.{ℕ, Bool, true, false, Option, none, some, Bytes, leb}
use numax.Prelude.Int.{ℤ, pos}
use numax.Prelude.Result.{Result, ok, err, ◌>>=◌, ◌>>◌, require}
use numax.Abi.{err_internal, err_not_found}
use numax.Store.{StoreError}
use numax.Store.Sled.{Sled, Entry}
use numax.Store.Writes.{Store, Written}
use numax.Store.Writes
use numax.Store.Scan
use numax.HostApi.Guest.{
  Memory, Answer, returns, answers, get_memory, read_bytes, read_validated_key, read_scan_cursor,
  validate_page_request, write_out, max_out_cap, max_value_len, reserved_prefix,
}
use numax.HostApi.Encode.{encode_scan_rows, encode_keys}

-- `KeyCursorPageRequest`
pub record KeyCursorPageRequest : Type 0 where
  pub prefix_ptr : ℕ
  pub prefix_len : ℕ
  pub start_after_ptr : ℕ
  pub start_after_len : ℕ
  pub limit : ℕ
  pub out_ptr : ℕ
  pub out_cap : ℕ

-- Each error of the store becomes one code.
unfoldable pub from_store : {E A : Type 0} → Result (StoreError E) A → Result ℤ A
from_store (ok a) = ok a
from_store (err _) = err err_internal

-- `let Some(value) = value else { return ERR_NOT_FOUND }`
unfoldable pub found : Option Bytes → Result ℤ Bytes
found none = err err_not_found
found (some value) = ok value

abbrev number_of : Bool → ℕ
number_of false = 0
number_of true = 1

module _ (s : Sled) where
  -- The code of a write, and the store behind it.
  unfoldable pub finish_write : Written s → ℤ × Store s
  finish_write (ok _, next) = (pos 0, next)
  finish_write (err _, next) = (err_internal, next)

  -- A call that ends before it writes leaves the store.
  unfoldable pub write_or : {A : Type 0} → Store s → Result ℤ A → (A → Written s) → ℤ × Store s
  unfolding finish_write
  write_or store (err code) write = (code, store)
  write_or store (ok a) write = finish_write (write a)

module _ (s : Sled) (guest : Option Memory) (store : Store s) where
  unfoldable pub db_get_impl : ℕ → ℕ → ℕ → ℕ → Answer
  unfolding get_memory read_validated_key from_store found write_out Scan.get
  db_get_impl key_ptr key_len out_ptr out_cap = answers do
    memory ← get_memory guest
    require (leb out_cap max_out_cap) err_internal
    key ← read_validated_key memory key_ptr key_len
    entry ← from_store (Scan.get s store.db key)
    value ← found entry
    write_out memory out_ptr out_cap value

  unfoldable pub db_exists_impl : ℕ → ℕ → Answer
  unfolding get_memory read_validated_key from_store Scan.exists
  db_exists_impl key_ptr key_len = answers do
    memory ← get_memory guest
    key ← read_validated_key memory key_ptr key_len
    there ← from_store (Scan.exists s store.db key)
    ok (returns (pos (number_of there)))

  unfoldable pub db_scan_impl : ℕ → ℕ → ℕ → ℕ → ℕ → ℕ → Answer
  unfolding get_memory validate_page_request read_validated_key from_store write_out
      Scan.scan_prefix_page encode_scan_rows
  db_scan_impl prefix_ptr prefix_len cursor limit out_ptr out_cap = answers do
    memory ← get_memory guest
    validate_page_request limit out_cap
    prefix ← read_validated_key memory prefix_ptr prefix_len
    rows ← from_store (Scan.scan_prefix_page s store.db prefix cursor limit (some reserved_prefix))
    encoded ← encode_scan_rows rows
    write_out memory out_ptr out_cap encoded

  unfoldable pub db_keys_impl : ℕ → ℕ → ℕ → ℕ → ℕ → ℕ → Answer
  unfolding get_memory validate_page_request read_validated_key from_store write_out
      Scan.keys_prefix_page encode_keys
  db_keys_impl prefix_ptr prefix_len cursor limit out_ptr out_cap = answers do
    memory ← get_memory guest
    validate_page_request limit out_cap
    prefix ← read_validated_key memory prefix_ptr prefix_len
    keys ← from_store (Scan.keys_prefix_page s store.db prefix cursor limit (some reserved_prefix))
    encoded ← encode_keys keys
    write_out memory out_ptr out_cap encoded

  unfoldable pub db_scan_after_impl : KeyCursorPageRequest → Answer
  unfolding get_memory validate_page_request read_validated_key read_scan_cursor from_store
      write_out Scan.scan_prefix_page_after encode_scan_rows
  db_scan_after_impl req = answers do
    memory ← get_memory guest
    validate_page_request req.limit req.out_cap
    prefix ← read_validated_key memory req.prefix_ptr req.prefix_len
    start_after ← read_scan_cursor memory req.start_after_ptr req.start_after_len prefix
    rows ←
        from_store (
          Scan.scan_prefix_page_after s store.db prefix start_after req.limit
            (some reserved_prefix))
    encoded ← encode_scan_rows rows
    write_out memory req.out_ptr req.out_cap encoded

  unfoldable pub db_keys_after_impl : KeyCursorPageRequest → Answer
  unfolding get_memory validate_page_request read_validated_key read_scan_cursor from_store
      write_out Scan.keys_prefix_page_after encode_keys
  db_keys_after_impl req = answers do
    memory ← get_memory guest
    validate_page_request req.limit req.out_cap
    prefix ← read_validated_key memory req.prefix_ptr req.prefix_len
    start_after ← read_scan_cursor memory req.start_after_ptr req.start_after_len prefix
    keys ←
        from_store (
          Scan.keys_prefix_page_after s store.db prefix start_after req.limit
            (some reserved_prefix))
    encoded ← encode_keys keys
    write_out memory req.out_ptr req.out_cap encoded

  unfoldable pub db_set_impl : ℕ → ℕ → ℕ → ℕ → ℤ × Store s
  unfolding get_memory read_validated_key read_bytes write_or Writes.set
  db_set_impl key_ptr key_len val_ptr val_len =
      write_or s {A = Entry} store
        (do
          memory ← get_memory guest
          require (leb val_len max_value_len) err_internal
          key ← read_validated_key memory key_ptr key_len
          val ← read_bytes memory val_ptr val_len
          ok (key, val))
        (λ entry. Writes.set s store entry.0 entry.1)

  unfoldable pub db_delete_impl : ℕ → ℕ → ℤ × Store s
  unfolding get_memory read_validated_key write_or Writes.delete
  db_delete_impl key_ptr key_len =
      write_or s {A = Bytes} store
        (do memory ← get_memory guest; read_validated_key memory key_ptr key_len)
        (λ key. Writes.delete s store key)
