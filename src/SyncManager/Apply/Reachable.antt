-- ===== src/SyncManager/Apply/Reachable.antt =====
-- The states that a node goes through, as batches of others and its own operations come in.
use numax.Prelude.{
  ℕ, ◌+◌, ◌≤◌, refl, sym, subst, inl, inr, Option, List, [], length, u64_max, arith, bytes_ord,
  Option-cases,
}
use numax.Sync.Op.{Op}
use numax.SyncManager.SeenOps
use numax.SyncManager.Updates.{Registries, no_updates}
use numax.SyncManager.Apply.{NodeState, OpPersistencePlan, apply_remote_ops, remember_ops}
use numax.SyncManager.Apply.Laws.{IsNode, new_ops, apply_remote_ops_atomic, apply_remote_ops_lem}
use numax.SyncManager.Apply.Redelivery.{remember_ops_lem}

-- A node with nothing yet, for its two limits.
abbrev pub empty_node : ℕ → ℕ → NodeState
empty_node seen_ops_limit op_log_limit = record {
  registries = no_updates;
  seen_ops = SeenOps.new seen_ops_limit;
  seen_ops_next_sequence = 0;
  op_log = [];
  op_log_next_sequence = 0;
  op_log_limit = op_log_limit;
}

-- A batch comes in, and the store takes it or fails. What is in memory counts within `u64`.
pub data Step (E : Type 0) (node : NodeState) : NodeState → Type 0 where
  remote :
      (persist : List OpPersistencePlan → Registries → Option E) (ops : List Op)
      → length node.seen_ops.order + length (new_ops node ops) ≤ u64_max
      → Step E node (apply_remote_ops persist node ops).0
  own :
      (persist : List OpPersistencePlan → Option E) (ops : List Op)
      → length node.seen_ops.order + length (new_ops node ops) ≤ u64_max
      → Step E node (remember_ops persist node ops).0

pub data Reachable (E : Type 0) (seen_ops_limit op_log_limit : ℕ) : NodeState → Type 0 where
  start : Reachable E seen_ops_limit op_log_limit (empty_node seen_ops_limit op_log_limit)
  after_step :
      {before after : NodeState}
      → Reachable E seen_ops_limit op_log_limit before
      → Step E before after
      → Reachable E seen_ops_limit op_log_limit after

empty_node-IsNode :
    (seen_ops_limit op_log_limit : ℕ) → IsNode (empty_node seen_ops_limit op_log_limit)
unfolding SeenOps.new SeenOps.normalize_seen_ops_limit numax.Map.get numax.Set.member
empty_node-IsNode seen_ops_limit op_log_limit = record {
  registries = record {
    counters = tt;
    pncounters = tt;
    lww_registers = tt;
    lww_maps = tt;
    orsets = tt;
    rgas = tt;
  };
  seen_ops = record { sorted = tt; known = λ k. refl; distinct = tt; bounded = omega arith };
  op_log = omega arith;
}

Step-IsNode :
    {E : Type 0} (before after : NodeState) → IsNode before → Step E before after → IsNode after
Step-IsNode before after w (remote persist ops fits) =
    elim (Option-cases (apply_remote_ops persist before ops).1) [
      | inl e ↦ (apply_remote_ops_lem persist before ops w fits e).2
      | inr (error, e) ↦ subst IsNode (sym (apply_remote_ops_atomic persist before ops error e)) w
    ]
Step-IsNode before after w (own persist ops fits) =
    elim (remember_ops_lem persist before ops w fits) [
      | inl (error, e, kept) ↦ subst IsNode (sym kept) w
      | inr (e, done, kept) ↦ kept
    ]

-- A node that starts empty is well formed after any sequence of remote batches and batches of its
-- own, whether the store takes each or fails: its maps are in key order, its window is one, and its
-- log is within the limit. The window and the new operations of each batch together count within
-- `u64`.
pub Reachable-IsNode :
    {E : Type 0} (seen_ops_limit op_log_limit : ℕ) (node : NodeState)
    → Reachable E seen_ops_limit op_log_limit node
    → IsNode node
Reachable-IsNode seen_ops_limit op_log_limit node start =
    empty_node-IsNode seen_ops_limit op_log_limit
Reachable-IsNode seen_ops_limit op_log_limit node (after_step {before = before} reached step) =
    Step-IsNode before node (Reachable-IsNode seen_ops_limit op_log_limit before reached) step
