-- ===== src/Abi/Words.antt =====
-- `u32::to_le_bytes` and `from_le_bytes`.
use numax.Prelude.{
  ℕ, ◌+◌, ◌*◌, ◌/◌, ◌%◌, ◌^◌, ◌-◌, ◌≤◌, ◌≡◌, [], ◌∷◌, ◌++◌, Bytes, arith, leb, if◌then◌else◌,
}
use numax.Prelude.Int.{ℤ, pos, negsuc}
use numax.Prelude.Result.{Result, ok, err}

abbrev pub u32_max : ℕ
u32_max = 2 ^ 32 - 1

unfoldable pub to_le_bytes : ℕ → Bytes
to_le_bytes n = (n % 256) ∷ (n / 256 % 256) ∷ (n / 65536 % 256) ∷ (n / 16777216 % 256) ∷ []

unfoldable pub from_le_bytes : ℕ → ℕ → ℕ → ℕ → ℕ
from_le_bytes a b c d = a + b * 256 + c * 65536 + d * 16777216

pub from-to_le_bytes :
    (n : ℕ)
    → n ≤ u32_max
    → from_le_bytes (n % 256) (n / 256 % 256) (n / 65536 % 256) (n / 16777216 % 256) ≡ n
unfolding from_le_bytes
from-to_le_bytes n h = omega arith

-- `u32::try_from(n)`, with the error that replaces its own.
unfoldable pub try_u32 : {E : Type 0} → E → ℕ → Result E ℕ
try_u32 e n = if leb n u32_max then ok n else err e

-- `u64::to_le_bytes`
unfoldable pub le_bytes_u64 : ℕ → Bytes
unfolding to_le_bytes
le_bytes_u64 n = to_le_bytes n ++ to_le_bytes (n / 2 ^ 32)

-- `i64::to_le_bytes`, in two's complement.
unfoldable pub le_bytes_i64 : ℤ → Bytes
unfolding le_bytes_u64
le_bytes_i64 (pos n) = le_bytes_u64 n
le_bytes_i64 (negsuc n) = le_bytes_u64 (2 ^ 64 - 1 - n)
