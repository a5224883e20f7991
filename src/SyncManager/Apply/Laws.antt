-- ===== src/SyncManager/Apply/Laws.antt =====
-- `apply_remote_ops` of apply.rs: what a well-formed node is, and what a batch does to one.
use numax.Prelude.{
  ◌+◌, ◌≤◌, max, min, ◌≡◌, refl, sym, ap, ◌∙◌, subst, Option, none, some, List, [], ◌∷◌, ◌++◌,
  foldl, length, length-append, u64_max, arith,
}
use mathlib.Core.List.{append-nil}
use numax.Sync.Op.{Op}
use numax.SyncManager.SeenOps.Window.{IsWindow}
use numax.SyncManager.SeenOps.Batch.{
  insert_all, apply_seen_insertions-eq-insert_all, order-insert_all,
}
use numax.SyncManager.OpLog.{prune_op_log_and_return_evicted}
use numax.SyncManager.OpLog.Laws.{prune_split}
use numax.SyncManager.Updates.{Registries, no_updates}
use numax.SyncManager.Updates.Batch.{
  AreSorted, updates_of, apply_one, commit-batch, AreSorted-commit,
}
use numax.SyncManager.Apply.{
  NodeState, OpPersistencePlan, Batch, empty_batch, collect_all, plans_of, remember, finish_remote,
  apply_remote_ops,
}
use numax.SyncManager.Apply.Fresh.{
  ids_of, fresh_ops, collect_all-eq-fresh_ops, fresh_ops-AreFresh, fresh_ops-Distinct,
}

finish_remote_atomic :
    {E : Type 0} (node : NodeState) (batch : Batch) (answer : Option E) (error : E)
    → (finish_remote node batch answer).1 ≡ some error
    → (finish_remote node batch answer).0 ≡ node
unfolding finish_remote
finish_remote_atomic node batch (some e) error h = refl
finish_remote_atomic node batch none error h = absurd (cc h)

-- If a remote batch ends in an error, the node is as it was before the call, sequence numbers
-- included.
pub apply_remote_ops_atomic :
    {E : Type 0} (persist : List OpPersistencePlan → Registries → Option E) (node : NodeState)
    (ops : List Op) (error : E)
    → (apply_remote_ops persist node ops).1 ≡ some error
    → (apply_remote_ops persist node ops).0 ≡ node
unfolding apply_remote_ops
apply_remote_ops_atomic persist node [] error h = refl
apply_remote_ops_atomic persist node (op ∷ ops) error h =
    let batch = collect_all node.seen_ops node.registries empty_batch (op ∷ ops) in
    finish_remote_atomic node batch
      (persist (plans_of node batch.inserted_ids batch.inserted_ops).0 batch.updates) error h

-- A node is well formed: its maps are in key order, its identifiers are a window, and its log is
-- within its limit.
pub record IsNode (node : NodeState) : Type 0 where
  pub registries : AreSorted node.registries
  pub seen_ops : IsWindow node.seen_ops
  pub op_log : length node.op_log ≤ max node.op_log_limit 1

-- What a node keeps of new operations: the window with their identifiers inserted one after another,
-- and the log with them at its end, cut to its limit.
pub record HasRemembered (node : NodeState) (new : List Op) (next : NodeState) : Type 0 where
  pub seen_ops : next.seen_ops ≡ insert_all node.seen_ops (ids_of new)
  pub evicted : List Op
  pub op_log : evicted ++ next.op_log ≡ node.op_log ++ new
  pub op_log_length :
      length next.op_log ≡ min (length node.op_log + length new) (max node.op_log_limit 1)
  pub op_log_limit : next.op_log_limit ≡ node.op_log_limit

length-ids_of : (ops : List Op) → length (ids_of ops) ≡ length ops
length-ids_of [] = refl
length-ids_of (op ∷ ops) = omega (arith, length-ids_of ops)

-- The new operations of a batch on a node.
abbrev pub new_ops : NodeState → List Op → List Op
new_ops node ops = fresh_ops node.seen_ops [] ops

module _ (node : NodeState) (ops : List Op) (w : IsNode node)
    (fits : length node.seen_ops.order + length (new_ops node ops) ≤ u64_max) where
  pub remember_parts :
      HasRemembered node
        (new_ops node ops)
        (remember node (ids_of (new_ops node ops)) (new_ops node ops))
  unfolding remember
  remember_parts =
      let (split, kept) = prune_split (node.op_log ++ new_ops node ops) node.op_log_limit in
      record {
        seen_ops =
            apply_seen_insertions-eq-insert_all node.seen_ops (ids_of (new_ops node ops)) w.seen_ops
              (fresh_ops-Distinct node.seen_ops [] ops) (fresh_ops-AreFresh node.seen_ops [] ops)
              (omega (arith, length-ids_of (new_ops node ops)));
        evicted =
            (prune_op_log_and_return_evicted (node.op_log ++ new_ops node ops) node.op_log_limit).1;
        op_log = split;
        op_log_length =
            kept
            ∙ ap (λ n. min n (max node.op_log_limit 1))
                (length-append node.op_log (new_ops node ops));
        op_log_limit = refl;
      }

  pub remember-IsNode : IsNode (remember node (ids_of (new_ops node ops)) (new_ops node ops))
  unfolding remember
  remember-IsNode =
      let parts = remember_parts in
      let after =
        order-insert_all node.seen_ops (ids_of (new_ops node ops)) w.seen_ops
          (fresh_ops-Distinct node.seen_ops [] ops) (fresh_ops-AreFresh node.seen_ops [] ops) in
      record {
        registries = w.registries;
        seen_ops = subst IsWindow (sym parts.seen_ops) after.1;
        op_log = omega (arith, parts.op_log_length);
      }

  -- The node after the batch, its registries included.
  Applies : NodeState → Type 0
  Applies next =
      HasRemembered node (new_ops node ops) next
      × (next.registries ≡ foldl apply_one node.registries (new_ops node ops))
      × IsNode next

  abbrev new_batch : Batch
  new_batch = record {
    inserted_ids = ids_of (new_ops node ops);
    inserted_ops = new_ops node ops;
    updates = updates_of node.registries no_updates (new_ops node ops);
  }

  finish_remote_parts :
      {E : Type 0} (answer : Option E)
      → (finish_remote node new_batch answer).1 ≡ none
      → Applies (finish_remote node new_batch answer).0
  unfolding finish_remote Applies
  finish_remote_parts (some e) h = absurd (cc h)
  finish_remote_parts none h =
      let parts = remember_parts in
      let kept = remember-IsNode in
      (
        record {
          seen_ops = parts.seen_ops;
          evicted = parts.evicted;
          op_log = parts.op_log;
          op_log_length = parts.op_log_length;
          op_log_limit = parts.op_log_limit;
        },
        commit-batch node.registries (new_ops node ops) w.registries,
        record {
          registries = AreSorted-commit node.registries _ w.registries;
          seen_ops = kept.seen_ops;
          op_log = kept.op_log;
        },
      )

  collected : collect_all node.seen_ops node.registries empty_batch ops ≡ new_batch
  collected = collect_all-eq-fresh_ops node.seen_ops node.registries empty_batch ops

-- On a well-formed node, a remote batch that the store takes leaves the registries that its new
-- operations make one after another, the window with their identifiers inserted one by one, and the
-- log with them at its end, cut to its limit; the node is well formed again. A new operation is the
-- first of its identifier in the batch, and its identifier is not known. The window and the new
-- operations together count within `u64`.
pub apply_remote_ops_lem :
    {E : Type 0} (persist : List OpPersistencePlan → Registries → Option E) (node : NodeState)
    (ops : List Op)
    → IsNode node
    → length node.seen_ops.order + length (new_ops node ops) ≤ u64_max
    → (apply_remote_ops persist node ops).1 ≡ none
    → let next = (apply_remote_ops persist node ops).0 in
      HasRemembered node (new_ops node ops) next
      × (next.registries ≡ foldl apply_one node.registries (new_ops node ops))
      × IsNode next
unfolding apply_remote_ops Applies fresh_ops insert_all
apply_remote_ops_lem persist node [] w fits h = (
  record {
    seen_ops = refl;
    evicted = [];
    op_log = sym (append-nil node.op_log);
    op_log_length = omega (arith, w.op_log);
    op_log_limit = refl;
  },
  refl,
  w,
)
apply_remote_ops_lem persist node (op ∷ ops) w fits h =
    subst
      (λ batch.
        let taken =
          finish_remote node batch
            (persist (plans_of node batch.inserted_ids batch.inserted_ops).0 batch.updates) in
        taken.1 ≡ none → Applies node (op ∷ ops) w fits taken.0)
      (sym (collected node (op ∷ ops) w fits)) (finish_remote_parts node (op ∷ ops) w fits _) h
