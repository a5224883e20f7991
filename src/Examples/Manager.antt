-- ===== src/Examples/Manager.antt =====
-- Batches on a node that knows one operation, with room for two identifiers and two log entries.
use numax.Prelude.{
  ◌+◌, ◌≤◌, u64_max, ◌<◌, ◌≡◌, refl, ap, ◌⊎◌, Option, none, some, List, [], ◌∷◌, ◌++◌, foldl, Bytes,
  bytes_ord, length, arith,
}
use numax.Set.{member}
use numax.Sync.Op.{Op, gcounter_increment, lww_map_set, orset_add}
use numax.SyncManager.SeenOps.{SeenOps, plan_seen_evictions, apply_seen_insertions, insert}
use numax.SyncManager.SeenOps.Window.{IsWindow}
use numax.SyncManager.SeenOps.Batch.{insert_all, apply_seen_insertions-eq-insert_all}
use numax.SyncManager.OpLog.{prune_op_log_and_return_evicted, plan_op_log_evictions, op_log_since}
use numax.SyncManager.OpLog.Laws.{
  plan-eq-prune, plan-lt-prune_of_long_batch, op_log_since_lem, Cut, Lacks,
}
use numax.SyncManager.Updates.{Registries, no_updates, commit}
use numax.SyncManager.Updates.Batch.{AreSorted, updates_of, apply_one, commit-batch}
use numax.SyncManager.Apply.{NodeState, OpPersistencePlan, apply_remote_ops, remember_ops}
use numax.SyncManager.Apply.Fresh.{fresh_ops}
use numax.SyncManager.Apply.Laws.{
  IsNode, new_ops, HasRemembered, apply_remote_ops_lem, apply_remote_ops_atomic,
}
use numax.SyncManager.Apply.Reachable.{empty_node, remote, start, after_step, Reachable-IsNode}
use numax.SyncManager.SeenOps
use numax.SyncManager.Apply.Redelivery.{apply_remote_ops_redelivery, remember_ops_lem}

abbrev first_op : Op
first_op = record { id = 1 ∷ []; origin = 97 ∷ []; kind = gcounter_increment (107 ∷ []) 5 }

abbrev second_op : Op
second_op = record {
  id = 2 ∷ [];
  origin = 98 ∷ [];
  kind = orset_add (107 ∷ []) (120 ∷ []) (9 ∷ []);
}

abbrev third_op : Op
third_op = record {
  id = 3 ∷ [];
  origin = 98 ∷ [];
  kind = lww_map_set (107 ∷ []) (102 ∷ []) (118 ∷ []) 7;
}

abbrev window : SeenOps
window = record { ids = (1 ∷ [], tt) ∷ []; order = (1 ∷ []) ∷ []; limit = 2 }

window-IsWindow : IsWindow window
unfolding numax.Map.get member
window-IsWindow = record {
  sorted = (tt, tt);
  known = λ k. ground arith;
  distinct = (refl, tt);
  bounded = omega arith;
}

abbrev node : NodeState
node = record {
  registries = no_updates;
  seen_ops = window;
  seen_ops_next_sequence = 1;
  op_log = first_op ∷ [];
  op_log_next_sequence = 1;
  op_log_limit = 2;
}

no_updates-AreSorted : AreSorted no_updates
no_updates-AreSorted = record {
  counters = tt;
  pncounters = tt;
  lww_registers = tt;
  lww_maps = tt;
  orsets = tt;
  rgas = tt;
}

node-IsNode : IsNode node
node-IsNode = record {
  registries = no_updates-AreSorted;
  seen_ops = window-IsWindow;
  op_log = omega arith;
}

abbrev batch : List Op
batch = first_op ∷ second_op ∷ second_op ∷ third_op ∷ []

abbrev takes : List OpPersistencePlan → Registries → Option Bytes
takes plans updates = none

abbrev takes_local : List OpPersistencePlan → Option Bytes
takes_local plans = none

abbrev fails : List OpPersistencePlan → Registries → Option Bytes
fails plans updates = some (101 ∷ [])

new_ops-batch : new_ops node batch ≡ second_op ∷ third_op ∷ []
unfolding fresh_ops numax.Map.get member
new_ops-batch = refl

apply_remote_ops_lem_example :
    let next = (apply_remote_ops takes node batch).0 in
    HasRemembered node (new_ops node batch) next
    × (next.registries ≡ foldl apply_one node.registries (new_ops node batch))
    × IsNode next
unfolding apply_remote_ops numax.SyncManager.Apply.finish_remote
apply_remote_ops_lem_example =
    apply_remote_ops_lem takes node batch node-IsNode
      (omega (arith, ap (λ (l : List Op). length l) new_ops-batch)) refl

apply_remote_ops_atomic_example : (apply_remote_ops fails node batch).0 ≡ node
unfolding apply_remote_ops numax.SyncManager.Apply.finish_remote
apply_remote_ops_atomic_example = apply_remote_ops_atomic fails node batch (101 ∷ []) refl

apply_remote_ops_redelivery_example :
    (apply_remote_ops takes node (first_op ∷ first_op ∷ [])).0 ≡ node
unfolding numax.Map.get
apply_remote_ops_redelivery_example =
    apply_remote_ops_redelivery takes node (first_op ∷ first_op ∷ []) node-IsNode (omega arith)
      (refl, (refl, tt))

remember_ops_lem_example :
    let (next, answer) = remember_ops takes_local node batch in
    ((error : Bytes) × (answer ≡ some error) × (next ≡ node))
    ⊎ ((answer ≡ none) × HasRemembered node (new_ops node batch) next × IsNode next)
remember_ops_lem_example =
    remember_ops_lem takes_local node batch node-IsNode
      (omega (arith, ap (λ (l : List Op). length l) new_ops-batch))

commit-batch_example :
    commit no_updates (updates_of no_updates no_updates batch) ≡ foldl apply_one no_updates batch
commit-batch_example = commit-batch no_updates batch no_updates-AreSorted

apply_seen_insertions-eq-insert_all_example :
    apply_seen_insertions window
      ((2 ∷ []) ∷ (3 ∷ []) ∷ [])
      (plan_seen_evictions window ((2 ∷ []) ∷ (3 ∷ []) ∷ []))
    ≡ insert_all window ((2 ∷ []) ∷ (3 ∷ []) ∷ [])
unfolding numax.Map.get member
apply_seen_insertions-eq-insert_all_example =
    apply_seen_insertions-eq-insert_all window ((2 ∷ []) ∷ (3 ∷ []) ∷ []) window-IsWindow
      (refl, (refl, tt)) (refl, (refl, tt)) (omega arith)

op_log_since_lem_example :
    Cut
      (first_op ∷ second_op ∷ [])
      (1 ∷ [])
      (op_log_since (first_op ∷ second_op ∷ []) (some (1 ∷ [])))
    ⊎ ((op_log_since (first_op ∷ second_op ∷ []) (some (1 ∷ [])) ≡ first_op ∷ second_op ∷ [])
        × Lacks (1 ∷ []) (first_op ∷ second_op ∷ []))
op_log_since_lem_example = op_log_since_lem (first_op ∷ second_op ∷ []) (1 ∷ [])

plan-eq-prune_example :
    plan_op_log_evictions batch (length (first_op ∷ [])) 2
    ≡ (prune_op_log_and_return_evicted (batch ++ first_op ∷ []) 2).1
plan-eq-prune_example = plan-eq-prune batch (first_op ∷ []) 2 (omega arith) (omega arith)

plan-lt-prune_of_long_batch_example :
    length (plan_op_log_evictions (first_op ∷ []) (length batch) 2)
    < length (prune_op_log_and_return_evicted (first_op ∷ batch) 2).1
plan-lt-prune_of_long_batch_example =
    plan-lt-prune_of_long_batch (first_op ∷ []) batch 2 (omega arith) (omega arith)

new_ops-empty : new_ops (empty_node 2 2) batch ≡ first_op ∷ second_op ∷ third_op ∷ []
unfolding fresh_ops numax.Map.get member SeenOps.new
new_ops-empty = refl

fits_empty :
    length (empty_node 2 2).seen_ops.order + length (new_ops (empty_node 2 2) batch) ≤ u64_max
unfolding SeenOps.new
fits_empty = omega (arith, ap (λ (l : List Op). length l) new_ops-empty)

Reachable-IsNode_example : IsNode (apply_remote_ops takes (empty_node 2 2) batch).0
Reachable-IsNode_example =
    Reachable-IsNode 2 2 (apply_remote_ops takes (empty_node 2 2) batch).0
      (after_step start (remote takes batch fits_empty))
