-- ===== src/Sync/PnCounter.antt =====
-- crates/nx-sync/src/crdt/pncounter.rs: a counter that goes up and down, as two growing counters.
pub mod Laws
use numax.Prelude.{
  ℕ, ◌-◌, ◌^◌, min, Bool, true, false, not, List, [], ◌∷◌, ◌++◌, Bytes, bytes_ord, length, ◌==◌,
  if◌then◌else◌,
}
use numax.Prelude.Int.{ℤ, pos, negsuc, sub_ℕ}
use numax.Set.{member}
use numax.Sync.GCounter
use numax.Sync.GCounter.{GCounter}
use numax.Sync.Op.{NodeId, Op, OpKind, pncounter_increment, pncounter_decrement, SyncResult, ok}

pub record PnCounter : Type 0 where
  pub positive : GCounter
  pub negative : GCounter

abbrev pub new : PnCounter
new = record { positive = GCounter.new; negative = GCounter.new }

-- `-2^63` is `negsuc (2^63 - 1)`.
unfoldable pub clamp_i128_to_i64 : ℤ → ℤ
clamp_i128_to_i64 (pos n) = pos (min n (2 ^ 63 - 1))
clamp_i128_to_i64 (negsuc n) = negsuc (min n (2 ^ 63 - 1))

-- Both parts fit `u64`, so that the difference is exact in `i128`.
unfoldable pub value : PnCounter → ℤ
unfolding clamp_i128_to_i64
value c = clamp_i128_to_i64 (sub_ℕ (GCounter.value c.positive) (GCounter.value c.negative))

unfoldable pub positive_for : PnCounter → NodeId → ℕ
positive_for c node = GCounter.value_for c.positive node

unfoldable pub negative_for : PnCounter → NodeId → ℕ
negative_for c node = GCounter.value_for c.negative node

unfoldable pub increment : PnCounter → NodeId → ℕ → PnCounter
increment c node delta = record c { positive = GCounter.increment c.positive node delta }

unfoldable pub decrement : PnCounter → NodeId → ℕ → PnCounter
decrement c node delta = record c { negative = GCounter.increment c.negative node delta }

unfoldable pub apply_kind : PnCounter → NodeId → OpKind → PnCounter × SyncResult Bool
unfolding increment decrement positive_for negative_for
apply_kind c origin (pncounter_increment _ amount) =
    let before = positive_for c origin in
    let c' = increment c origin amount in (c', ok (not (positive_for c' origin == before)))
apply_kind c origin (pncounter_decrement _ amount) =
    let before = negative_for c origin in
    let c' = decrement c origin amount in (c', ok (not (negative_for c' origin == before)))
apply_kind c origin _ = (c, ok false)

unfoldable pub apply_op : PnCounter → Op → PnCounter × SyncResult Bool
unfolding apply_kind
apply_op c op = apply_kind c op.origin op.kind

unfoldable pub merge : PnCounter → PnCounter → PnCounter
merge c other = record {
  positive = GCounter.merge c.positive other.positive;
  negative = GCounter.merge c.negative other.negative;
}

unfoldable pub merged_with : PnCounter → PnCounter → PnCounter
unfolding merge
merged_with c other = let result = c in merge result other

-- The loop of `nodes`: a negative slot's node is pushed unless it is there.
unfoldable pub push_new : List Bytes → List Bytes → List Bytes
push_new seen [] = seen
push_new seen (node ∷ rest) = push_new (if member seen node then seen else seen ++ node ∷ []) rest

unfoldable pub nodes : PnCounter → List Bytes
unfolding push_new
nodes c = push_new (GCounter.nodes c.positive) (GCounter.nodes c.negative)

unfoldable pub node_count : PnCounter → ℕ
unfolding nodes
node_count c = length (nodes c)
