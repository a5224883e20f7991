-- ===== src/Prelude/Word.antt =====
-- `u64`: its bound, and the addition that stops there.
use Prim.Native.Nat.{ℕ, ◌+◌, ◌-◌, ◌^◌, ◌≤◌, min}
use mathlib.Core.Path.{◌≡◌}
use native.Mathlib.Omega.{arith}

abbrev pub u64_max : ℕ
u64_max = 2 ^ 64 - 1

unfoldable pub saturating_add : ℕ → ℕ → ℕ
saturating_add a b = min (a + b) u64_max

pub saturating_add-le : (a b : ℕ) → saturating_add a b ≤ u64_max
unfolding saturating_add
saturating_add-le a b = omega arith

pub saturating_add_right_comm :
    (a b c : ℕ) → saturating_add (saturating_add a b) c ≡ saturating_add (saturating_add a c) b
unfolding saturating_add
saturating_add_right_comm a b c = omega arith
