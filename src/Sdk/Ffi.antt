-- ===== src/Sdk/Ffi.antt =====
-- The host functions as the SDK calls them (ffi.rs). A slice of the guest is the list of its bytes;
-- its address and its length are what crosses the border. A call with an output buffer is given the
-- length of the buffer, and answers its code and what the buffer holds then.
use numax.Prelude.{ℕ, zero, suc, ◌*◌, min, Bytes, take, ltb, true, false, Option, none, some}
use numax.Prelude.Int.{ℤ, pos, negsuc}
use numax.Prelude.Result.{Result, err}
use numax.Abi.Words.{u32_max}
use numax.Sdk.{NxError, internal, buffer_too_small, reserved_key, unknown_code}

pub record Ffi : Type 0 where
  pub db_get : Bytes → ℕ → ℤ × Bytes
  pub db_set : Bytes → Bytes → ℤ
  pub db_delete : Bytes → ℤ
  pub db_exists : Bytes → ℤ
  pub db_scan : Bytes → ℕ → ℕ → ℕ → ℤ × Bytes
  pub db_keys : Bytes → ℕ → ℕ → ℕ → ℤ × Bytes
  pub db_scan_after : Bytes → Bytes → ℕ → ℕ → ℤ × Bytes
  pub db_keys_after : Bytes → Bytes → ℕ → ℕ → ℤ × Bytes

-- What a caller makes of a code.
pub data Outcome : Type 0 where
  absent too_small : Outcome
  failed : NxError → Outcome
  filled : ℕ → Outcome

unfoldable pub page_outcome : ℤ → Outcome
page_outcome (pos n) = filled n
page_outcome (negsuc zero) = failed (unknown_code (negsuc 0))
page_outcome (negsuc (suc zero)) = too_small
page_outcome (negsuc (suc (suc zero))) = failed internal
page_outcome (negsuc (suc (suc (suc zero)))) = failed reserved_key
page_outcome (negsuc (suc (suc (suc (suc n))))) =
    failed (unknown_code (negsuc (suc (suc (suc (suc n))))))

unfoldable pub get_outcome : ℤ → Outcome
unfolding page_outcome
get_outcome (negsuc zero) = absent
get_outcome (negsuc (suc n)) = page_outcome (negsuc (suc n))
get_outcome (pos n) = page_outcome (pos n)

abbrev pub max_scan_buffer : ℕ
max_scan_buffer = 1024 * 1024

-- `room.saturating_mul(2)`
abbrev pub double : ℕ → ℕ
double room = min (room * 2) u32_max

-- A result, or `none` where the fuel of a loop is used up.
abbrev pub Run : Type 0 → Type 0
Run A = Option (Result NxError A)

module _ {A : Type 0} (outcome : ℤ → Outcome) (missing : Result NxError A)
    (parse : Bytes → Result NxError A) (call : ℕ → ℤ × Bytes) where
  -- The loop that calls the host with an output buffer twice as long each time.
  unfoldable pub grow : ℕ → ℕ → Run A
  grow zero room = none
  grow (suc fuel) room = elim (outcome (call room).0) [
    | absent ↦ some missing
    | failed e ↦ some (err e)
    | filled n ↦ some (parse (take n (call room).1))
    | too_small ↦ elim (ltb max_scan_buffer (double room)) [
      | true ↦ some (err buffer_too_small)
      | false ↦ grow fuel (double room)
    ]
  ]
