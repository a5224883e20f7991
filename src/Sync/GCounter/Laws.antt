-- ===== src/Sync/GCounter/Laws.antt =====
-- `GCounter::increment` and what `value` shows of it.
use numax.Prelude.{
  ℕ, ◌+◌, ◌≤◌, ◌<◌, not, Option, ◌==◌, ◌≡◌, ap, Bytes, bytes_ord, same, u64_max, saturating_add,
  saturating_add-le, saturating_add_right_comm, arith, if◌then◌else◌,
}
use numax.Map.{get, get_or}
use numax.Map.Laws.{IsSorted-insert, get-insert}
use numax.Map.Upsert.{get-upsert, get-upsert_self, upsert_comm}
use numax.Sync.Op.{NodeId, OpId, ok, new_gcounter_increment}
use numax.Sync.GCounter.{GCounter, sum_values, value, value_for, increment, apply_op}
use numax.Sync.GCounter.Slots.{sum-insert}
use numax.Sync.GCounter.Merge.{IsValid}

abbrev added : ℕ → Option ℕ → ℕ
added delta entry = saturating_add (get_or entry 0) delta

-- An increment keeps the counter valid.
pub increment-IsValid : (c : GCounter) (n : NodeId) (d : ℕ) → IsValid c → IsValid (increment c n d)
unfolding increment
increment-IsValid c n d v = record {
  slots = record {
    sorted = IsSorted-insert c.counts n _ v.slots.sorted;
    values = λ k u e. ground (
      arith,
      get-upsert c.counts n (added d) k,
      v.slots.values k u,
      saturating_add-le (get_or (get c.counts k) 0) d,
    );
  };
}

-- An increment adds to its node's slot, stopping at the largest `u64`, and to no other slot.
pub value_for-increment :
    (c : GCounter) (n m : NodeId) (d : ℕ)
    → value_for (increment c n d) m
      ≡ (if same m n then saturating_add (value_for c m) d else value_for c m)
unfolding increment value_for
value_for-increment c n m d = ground (arith, get-upsert c.counts n (added d) m)

-- Two increments of a valid counter may be applied in either order, by one node or by two.
pub increment_comm :
    (c : GCounter) (n m : NodeId) (d e : ℕ)
    → IsValid c
    → increment (increment c n d) m e ≡ increment (increment c m e) n d
unfolding increment
increment_comm c n m d e v =
    ap (λ s. record { counts = s })
      (upsert_comm c.counts n m (added d) (added e) v.slots.sorted
        (λ _. saturating_add_right_comm (get_or (get c.counts n) 0) d e))

-- While the slot has room, the sum of the slots grows by exactly the increment.
pub sum-increment :
    (c : GCounter) (n : NodeId) (d : ℕ)
    → IsValid c
    → value_for c n + d ≤ u64_max
    → sum_values (increment c n d).counts ≡ sum_values c.counts + d
unfolding increment value_for saturating_add
sum-increment c n d v room =
    omega
      (arith, sum-insert c.counts n (saturating_add (get_or (get c.counts n) 0) d) v.slots.sorted)

-- On a valid counter, `value` counts an increment exactly, as long as the slot and the sum of all
-- slots stay within `u64`.
pub value-increment :
    (c : GCounter) (n : NodeId) (d : ℕ)
    → IsValid c
    → sum_values c.counts + d ≤ u64_max
    → value_for c n + d ≤ u64_max
    → value (increment c n d) ≡ value c + d
unfolding value
value-increment c n d v fits room = omega (arith, sum-increment c n d v room)

-- On a valid counter whose slots sum up to a `u64`, an increment that its slot can hold but that
-- takes the sum past `u64` lowers `value`.
pub value-increment_wraps :
    (c : GCounter) (n : NodeId) (d : ℕ)
    → IsValid c
    → value_for c n + d ≤ u64_max
    → sum_values c.counts ≤ u64_max
    → u64_max < sum_values c.counts + d
    → value (increment c n d) < value c
unfolding value
value-increment_wraps c n d v room fits over = omega (arith, sum-increment c n d v room)

-- A received `GCounterIncrement` gives every slot the value that `increment` gives it, and reports
-- exactly whether its origin's slot changed; it never fails.
pub apply_op-new_gcounter_increment :
    (c : GCounter) (id : OpId) (origin : NodeId) (key : Bytes) (d : ℕ)
    → ((m : NodeId)
        → value_for (apply_op c (new_gcounter_increment id origin key d)).0 m
          ≡ value_for (increment c origin d) m)
      × ((apply_op c (new_gcounter_increment id origin key d)).1
          ≡ ok (not (value_for (increment c origin d) origin == value_for c origin)))
unfolding apply_op new_gcounter_increment value_for increment
apply_op-new_gcounter_increment c id origin key d = (
  λ m. ground (
    arith,
    get-upsert c.counts origin (added d) m,
    get-insert c.counts origin (added d (get c.counts origin)) m,
    bytes_ord.eq_of_cmp m origin,
  ),
  ground (arith, get-upsert_self c.counts origin (added d)),
)
