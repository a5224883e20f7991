-- ===== src/SyncManager/Apply.antt =====
-- `apply_remote_ops` of apply.rs and `remember_ops` of replication.rs: the batches that a node receives
-- and those that it sends. Writing the batch to the store is an argument, which returns the store's
-- error if it fails; the metrics that the code records are left out.
pub mod Fresh
pub mod Redelivery
pub mod Reachable
pub mod Laws
use numax.Prelude.{
  ℕ, ◌+◌, ◌-◌, Bool, true, false, ◌||◌, Option, none, some, List, [], ◌∷◌, ◌++◌, foldl, Bytes,
  bytes_ord, length, ◌==◌, saturating_add, if◌then◌else◌,
}
use numax.Set
use numax.Set.{member}
use numax.Sync.Op.{Op}
use numax.SyncManager.SeenOps.{SeenOps, plan_seen_evictions, apply_seen_insertions}
use numax.SyncManager.OpLog.{plan_op_log_evictions, prune_op_log_and_return_evicted}
use numax.SyncManager.Updates.{Registries, no_updates, apply_remote_op_to_crdt_updates, commit}

-- What `RemoteOpApplyContext` and `BroadcastLoopContext` share with the other tasks of the node.
pub record NodeState : Type 0 where
  pub registries : Registries
  pub seen_ops : SeenOps
  pub seen_ops_next_sequence : ℕ
  pub op_log : List Op
  pub op_log_next_sequence : ℕ
  pub op_log_limit : ℕ

pub record OpPersistencePlan : Type 0 where
  pub op : Op
  pub seen_sequence : ℕ
  pub op_log_sequence : ℕ
  pub seen_evicted : List Bytes
  pub op_log_evicted : List Op

-- What the loop over the received operations collects.
pub record Batch : Type 0 where
  pub inserted_ids : List Bytes
  pub inserted_ops : List Op
  pub updates : Registries

abbrev pub empty_batch : Batch
empty_batch = record { inserted_ids = []; inserted_ops = []; updates = no_updates }

-- One round: a duplicate is skipped.
unfoldable pub collect : SeenOps → Registries → Batch → Op → Batch
collect seen registries batch op =
    if Set.contains seen.ids op.id || member batch.inserted_ids op.id then batch else (record {
      inserted_ids = batch.inserted_ids ++ op.id ∷ [];
      inserted_ops = batch.inserted_ops ++ op ∷ [];
      updates = apply_remote_op_to_crdt_updates op registries batch.updates;
    })

unfoldable pub collect_all : SeenOps → Registries → Batch → List Op → Batch
unfolding collect
collect_all seen registries batch [] = batch
collect_all seen registries batch (op ∷ ops) =
    collect_all seen registries (collect seen registries batch op) ops

-- The loop that numbers the operations; the last one carries what the whole batch evicts. The plans,
-- and the next two sequence numbers.
unfoldable pub number_plans :
    ℕ → ℕ → List Bytes → List Op → ℕ → ℕ → List Op → List OpPersistencePlan × ℕ × ℕ
number_plans index last_insert_index seen_evicted op_log_evicted seen_sequence op_log_sequence [] =
    ([], seen_sequence, op_log_sequence)
number_plans index last_insert_index seen_evicted op_log_evicted seen_sequence op_log_sequence
      (op ∷ ops) =
    let (plans, next_seen_sequence, next_op_log_sequence) =
      number_plans (index + 1) last_insert_index seen_evicted op_log_evicted
        (saturating_add seen_sequence 1) (saturating_add op_log_sequence 1) ops in
    (
      record {
        op = op;
        seen_sequence = seen_sequence;
        op_log_sequence = op_log_sequence;
        seen_evicted = if index == last_insert_index then seen_evicted else [];
        op_log_evicted = if index == last_insert_index then op_log_evicted else [];
      }
          ∷ plans,
      next_seen_sequence,
      next_op_log_sequence,
    )

-- The plans of a batch on a node.
unfoldable pub plans_of : NodeState → List Bytes → List Op → List OpPersistencePlan × ℕ × ℕ
unfolding number_plans
plans_of node inserted_ids inserted_ops =
    number_plans 0 (length inserted_ops - 1) (plan_seen_evictions node.seen_ops inserted_ids)
      (plan_op_log_evictions node.op_log (length inserted_ops) node.op_log_limit)
      node.seen_ops_next_sequence node.op_log_next_sequence inserted_ops

-- The node after the batch became durable.
unfoldable pub remember : NodeState → List Bytes → List Op → NodeState
unfolding plans_of
remember node inserted_ids inserted_ops =
    let (plans, next_seen_sequence, next_op_log_sequence) =
      plans_of node inserted_ids inserted_ops in
    record node {
      seen_ops =
          apply_seen_insertions node.seen_ops inserted_ids
            (plan_seen_evictions node.seen_ops inserted_ids);
      seen_ops_next_sequence = next_seen_sequence;
      op_log = (prune_op_log_and_return_evicted (node.op_log ++ inserted_ops) node.op_log_limit).0;
      op_log_next_sequence = next_op_log_sequence;
    }

-- The end of `apply_remote_ops`, behind the answer of the store.
unfoldable pub finish_remote : {E : Type 0} → NodeState → Batch → Option E → NodeState × Option E
unfolding remember
finish_remote node batch (some error) = (node, some error)
finish_remote node batch none = (
  record (remember node batch.inserted_ids batch.inserted_ops) {
    registries = commit node.registries batch.updates;
  },
  none,
)

-- The node after the call, and the error if there is one.
unfoldable pub apply_remote_ops :
    {E : Type 0}
    → (List OpPersistencePlan → Registries → Option E)
    → NodeState
    → List Op
    → NodeState × Option E
unfolding collect_all plans_of finish_remote
apply_remote_ops persist node [] = (node, none)
apply_remote_ops persist node (op ∷ ops) =
    let batch = collect_all node.seen_ops node.registries empty_batch (op ∷ ops) in
    let plans = (plans_of node batch.inserted_ids batch.inserted_ops).0 in
    finish_remote node batch (persist plans batch.updates)

-- The loop of `remember_ops`: the identifiers and the operations that are new.
unfoldable pub select_new : SeenOps → List Bytes → List Op → List Op → List Bytes × List Op
select_new seen inserted_ids inserted_ops [] = (inserted_ids, inserted_ops)
select_new seen inserted_ids inserted_ops (op ∷ ops) =
    let skipped = select_new seen inserted_ids inserted_ops ops in
    let taken = select_new seen (inserted_ids ++ op.id ∷ []) (inserted_ops ++ op ∷ []) ops in
    if Set.contains seen.ids op.id || member inserted_ids op.id then skipped else taken

unfoldable pub finish_local :
    {E : Type 0} → NodeState → List Bytes → List Op → Option E → NodeState × Option E
unfolding remember
finish_local node inserted_ids inserted_ops (some error) = (node, some error)
finish_local node inserted_ids inserted_ops none = (remember node inserted_ids inserted_ops, none)

unfoldable pub remember_ops :
    {E : Type 0} → (List OpPersistencePlan → Option E) → NodeState → List Op → NodeState × Option E
unfolding select_new plans_of finish_local
remember_ops persist node ops =
    let (inserted_ids, inserted_ops) = select_new node.seen_ops [] [] ops in
    finish_local node inserted_ids inserted_ops
      (persist (plans_of node inserted_ids inserted_ops).0)
