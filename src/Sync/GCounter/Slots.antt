-- ===== src/Sync/GCounter/Slots.antt =====
-- The sum over the slots, and what one write does to it.
use numax.Prelude.{ℕ, ◌+◌, ◌≡◌, [], ◌∷◌, Bytes, bytes_ord, arith}
use numax.Map.{HashMap, get, insert, get_or}
use numax.Map.Laws.{IsSorted, IsAbove-trans, get-eq-none_of_IsAbove}
use numax.Sync.GCounter.{sum_values}

-- Writing a slot replaces its share of the sum.
pub sum-insert :
    (m : HashMap Bytes ℕ) (k : Bytes) (v : ℕ)
    → IsSorted m
    → sum_values (insert m k v) + get_or (get m k) 0 ≡ sum_values m + v
unfolding sum_values insert get
sum-insert [] k v s = omega arith
sum-insert ((j, w) ∷ m) k v s =
    ground (arith, sum-insert m k v s.1, get-eq-none_of_IsAbove k m, IsAbove-trans k j m)
