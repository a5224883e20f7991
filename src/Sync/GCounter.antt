-- ===== src/Sync/GCounter.antt =====
-- crates/nx-sync/src/crdt/gcounter.rs: a counter that only grows, with one slot for each node.
-- `value` sums in `u64`: a build with the repository's release profile, which leaves overflow
-- checks off, wraps around (a debug build panics there).
mod Slots
pub mod Laws
pub mod Merge
use numax.Prelude.{
  ℕ, ◌+◌, ◌%◌, ◌^◌, max, Bool, true, false, not, List, [], ◌∷◌, map, Bytes, bytes_ord, length,
  saturating_add, ◌==◌, if◌then◌else◌,
}
use numax.Map.{BTreeMap, HashMap, get, insert, for_entries, get_or, upsert}
use numax.Sync.Op.{
  NodeId, OpId, Op, OpKind, gcounter_increment, SyncResult, ok, new_gcounter_increment,
}

pub record GCounter : Type 0 where
  pub counts : HashMap Bytes ℕ

abbrev pub new : GCounter
new = record { counts = [] }

unfoldable pub sum_values : HashMap Bytes ℕ → ℕ
sum_values [] = 0
sum_values ((_, v) ∷ m) = v + sum_values m

unfoldable pub value : GCounter → ℕ
value c = sum_values c.counts % 2 ^ 64

unfoldable pub value_for : GCounter → NodeId → ℕ
value_for c node = get_or (get c.counts node) 0

unfoldable pub increment : GCounter → NodeId → ℕ → GCounter
increment c node delta = record {
  counts = upsert c.counts node (λ entry. saturating_add (get_or entry 0) delta);
}

-- `apply_op` on `&mut self`: the counter after it, and what it returns.
unfoldable pub apply_increment : GCounter → NodeId → ℕ → GCounter × SyncResult Bool
apply_increment c node_key amount =
    let current = get_or (get c.counts node_key) 0 in
    let new_value = saturating_add current amount in
    if not (new_value == current)
    then (record { counts = insert c.counts node_key new_value }, ok true)
    else (c, ok false)

unfoldable pub apply_kind : GCounter → NodeId → OpKind → GCounter × SyncResult Bool
unfolding apply_increment
apply_kind c origin (gcounter_increment _ amount) = apply_increment c origin amount
apply_kind c origin _ = (c, ok false)

unfoldable pub apply_op : GCounter → Op → GCounter × SyncResult Bool
unfolding apply_kind
apply_op c op = apply_kind c op.origin op.kind

-- The body of the loop of `merge`.
unfoldable pub merge_slot : HashMap Bytes ℕ → Bytes → ℕ → HashMap Bytes ℕ
merge_slot counts node v = upsert counts node (λ entry. max (get_or entry 0) v)

unfoldable pub merge : GCounter → GCounter → GCounter
merge c other = record { counts = for_entries merge_slot c.counts other.counts }

unfoldable pub merged_with : GCounter → GCounter → GCounter
unfolding merge
merged_with c other = let result = c in merge result other

unfoldable pub nodes : GCounter → List Bytes
nodes c = map (λ e. e.0) c.counts

unfoldable pub node_count : GCounter → ℕ
node_count c = length c.counts

unfoldable pub create_increment_op : OpId → NodeId → Bytes → ℕ → Op
unfolding new_gcounter_increment
create_increment_op id node key amount = new_gcounter_increment id node key amount
