-- ===== src/HostApi/Guest.antt =====
-- What a host function sees of its caller, a WebAssembly module run by the third-party wasmtime:
-- its exported memory, what lies in it, and where it may be written.
use numax.Prelude.{
  ℕ, ◌*◌, ◌%◌, ◌^◌, ◌-◌, ◌||◌, Bool, true, false, not, Option, none, some, [], ◌∷◌, Bytes, length,
  leb, ltb, ◌==◌, starts_with, if◌then◌else◌,
}
use numax.Prelude.Int.{ℤ, pos, negsuc}
use numax.Prelude.Result.{Result, ok, err, ◌>>=◌, ◌>>◌, require}
use numax.Abi.{err_internal, err_reserved_key, err_buf_too_small}

pub record Memory : Type 0 where
  -- The bytes from an address on, if they lie in the memory.
  pub load : ℕ → ℕ → Option Bytes
  -- Whether so many bytes from an address on lie in the memory.
  pub holds : ℕ → ℕ → Bool

-- What a call answers: its code, and the write to the guest's memory, with its address.
pub record Answer : Type 0 where
  pub code : ℤ
  pub written : Option (ℕ × Bytes)

abbrev pub returns : ℤ → Answer
returns code = record { code = code; written = none }

abbrev pub answers : Result ℤ Answer → Answer
answers (ok answer) = answer
answers (err code) = returns code

abbrev pub max_key_len : ℕ
max_key_len = 8 * 1024

abbrev pub max_value_len : ℕ
max_value_len = 1024 * 1024

abbrev pub max_out_cap : ℕ
max_out_cap = 1024 * 1024

abbrev pub max_scan_limit : ℕ
max_scan_limit = 1024

abbrev pub max_read_len : ℕ
max_read_len = 1024 * 1024

-- `RESERVED_PREFIX`, "__nx/"
abbrev pub reserved_prefix : Bytes
reserved_prefix = 95 ∷ 95 ∷ 110 ∷ 120 ∷ 47 ∷ []

unfoldable pub get_memory : Option Memory → Result ℤ Memory
get_memory none = err err_internal
get_memory (some memory) = ok memory

-- `read_bytes`, with the code to which its callers map each of its errors.
unfoldable pub read_bytes : Memory → ℕ → ℕ → Result ℤ Bytes
read_bytes memory ptr len =
    if ltb max_read_len len
    then err err_internal
    else elim (memory.load ptr len) [ none ↦ err err_internal | some bytes ↦ ok bytes ]

unfoldable pub read_validated_key : Memory → ℕ → ℕ → Result ℤ Bytes
unfolding read_bytes starts_with
read_validated_key memory key_ptr key_len = do
  require (leb key_len max_key_len) err_internal
  key ← read_bytes memory key_ptr key_len
  require (not (starts_with key reserved_prefix)) err_reserved_key
  ok key

abbrev is_empty : Bytes → Bool
is_empty [] = true
is_empty (_ ∷ _) = false

unfoldable pub read_scan_cursor : Memory → ℕ → ℕ → Bytes → Result ℤ (Option Bytes)
unfolding read_bytes starts_with
read_scan_cursor memory cursor_ptr cursor_len prefix = if cursor_len == 0 then ok none else do
  require (leb cursor_len max_key_len) err_internal
  cursor ← read_bytes memory cursor_ptr cursor_len
  require (not (starts_with cursor reserved_prefix)) err_reserved_key
  require (is_empty prefix || starts_with cursor prefix) err_internal
  ok (some cursor)

unfoldable pub validate_page_request : ℕ → ℕ → Result ℤ (Unit {0})
validate_page_request limit out_cap = do
  require (not (limit == 0 || ltb max_scan_limit limit)) err_internal
  require (leb out_cap max_out_cap) err_internal

-- `n as i32`, for a `usize`.
unfoldable pub as_i32 : ℕ → ℤ
as_i32 n = let low = n % 2 ^ 32 in if ltb low (2 ^ 31) then pos low else negsuc (2 ^ 32 - 1 - low)

-- The end of every function that writes bytes: they fit the output buffer, and are written there.
unfoldable pub write_out : Memory → ℕ → ℕ → Bytes → Result ℤ Answer
unfolding as_i32
write_out memory out_ptr out_cap bytes = do
  require (leb (length bytes) out_cap) err_buf_too_small
  require (memory.holds out_ptr (length bytes)) err_internal
  ok (record { code = as_i32 (length bytes); written = some (out_ptr, bytes) })
