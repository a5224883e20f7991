-- ===== src/SyncManager/SeenOps.antt =====
-- `SeenOps` of types.rs, and the batch eviction of replication.rs: the bounded window of operation
-- identifiers that a node has seen.
pub mod Window
mod Slices
pub mod Batch
use numax.Prelude.{
  ℕ, zero, suc, ◌-◌, max, Bool, true, false, List, [], ◌∷◌, ◌++◌, Bytes, bytes_ord, length, take,
  ltb, ◌==◌, saturating_add, if◌then◌else◌,
}
use numax.Set
use numax.Set.{BTreeSet}

pub record SeenOps : Type 0 where
  pub ids : BTreeSet Bytes
  pub order : List Bytes
  pub limit : ℕ

pub data SeenOpsInsert : Type 0 where
  already_seen : SeenOpsInsert
  -- the evicted identifiers
  inserted : List Bytes → SeenOpsInsert

unfoldable pub normalize_seen_ops_limit : ℕ → ℕ
normalize_seen_ops_limit limit = max limit 1

unfoldable pub new : ℕ → SeenOps
unfolding normalize_seen_ops_limit
new limit = record { ids = []; order = []; limit = normalize_seen_ops_limit limit }

-- The `while` of `insert`, which pops from the front until the window has its size: the identifiers
-- that stay known, the window, and what was evicted.
unfoldable pub evict : ℕ → BTreeSet Bytes → List Bytes → BTreeSet Bytes × List Bytes × List Bytes
evict limit ids [] = (ids, [], [])
evict limit ids (front ∷ order) =
    let (ids', order', evicted) = evict limit (Set.remove ids front) order in
    if ltb limit (length (front ∷ order))
    then (ids', order', front ∷ evicted)
    else (ids, front ∷ order, [])

unfoldable pub insert : SeenOps → Bytes → SeenOps × SeenOpsInsert
unfolding evict
insert seen op_id =
    if Set.contains seen.ids op_id
    then (seen, already_seen)
    else (let (ids', order', evicted) =
          evict seen.limit (Set.add seen.ids op_id) (seen.order ++ op_id ∷ []) in
        (record seen { ids = ids'; order = order' }, inserted evicted))

unfoldable pub len : SeenOps → ℕ
len seen = length seen.ids

unfoldable pub plan_seen_evictions : SeenOps → List Bytes → List Bytes
plan_seen_evictions seen inserted_ids =
    let total_len = saturating_add (length seen.order) (length inserted_ids) in
    let remove_count = total_len - seen.limit in
    if remove_count == 0
    then []
    else (let evicted = take remove_count seen.order in
        if ltb (length seen.order) remove_count
        then evicted ++ take (remove_count - length seen.order) inserted_ids
        else evicted)

-- The first loop of `apply_seen_insertions`.
unfoldable pub push_ids : SeenOps → List Bytes → SeenOps
push_ids seen [] = seen
push_ids seen (op_id ∷ rest) =
    push_ids (record seen { ids = Set.add seen.ids op_id; order = seen.order ++ op_id ∷ [] }) rest

abbrev pub pop_front : List Bytes → List Bytes
pop_front [] = []
pop_front (_ ∷ order) = order

-- Its second loop.
unfoldable pub drop_ids : SeenOps → List Bytes → SeenOps
drop_ids seen [] = seen
drop_ids seen (op_id ∷ rest) =
    drop_ids (record seen { ids = Set.remove seen.ids op_id; order = pop_front seen.order }) rest

unfoldable pub apply_seen_insertions : SeenOps → List Bytes → List Bytes → SeenOps
unfolding push_ids drop_ids
apply_seen_insertions seen inserted_ids evicted = drop_ids (push_ids seen inserted_ids) evicted
