-- ===== src/SyncManager/Apply/Redelivery.antt =====
-- `apply_remote_ops` on operations that are known, and `remember_ops` on those of the node itself.
use numax.Prelude.{
  ℕ, ◌+◌, ◌≤◌, max, ◌≡◌, refl, sym, ap, ◌∙◌, ◌⊎◌, inl, inr, subst, true, Option, none, some, List,
  [], ◌∷◌, Bytes, bytes_ord, length, u64_max, arith,
}
use mathlib.Core.List.{append-nil}
use numax.Set
use numax.Sync.Op.{Op}
use numax.SyncManager.SeenOps.Batch.{insert_all, apply_seen_insertions-eq-insert_all}
use numax.SyncManager.OpLog.{prune_op_log_and_return_evicted}
use numax.SyncManager.Updates.{Registries, no_updates}
use numax.SyncManager.Updates.Batch.{updates_of, commit-no_updates}
use numax.SyncManager.Apply.{
  NodeState, OpPersistencePlan, empty_batch, collect_all, plans_of, remember, finish_remote,
  apply_remote_ops, finish_local, remember_ops,
}
use numax.SyncManager.Apply.Fresh.{
  ids_of, fresh_ops, collect_all-eq-fresh_ops, select_new-eq-fresh_ops,
}
use numax.SyncManager.Apply.Laws.{IsNode, new_ops, HasRemembered, remember_parts, remember-IsNode}

-- Every operation is known.
abbrev pub AllKnown : NodeState → List Op → Type 0
AllKnown node [] = Unit
AllKnown node (op ∷ ops) = (Set.contains node.seen_ops.ids op.id ≡ true) × AllKnown node ops

fresh_ops-of_known :
    (node : NodeState) (taken : List Bytes) (ops : List Op)
    → AllKnown node ops
    → fresh_ops node.seen_ops taken ops ≡ []
unfolding fresh_ops
fresh_ops-of_known node taken [] known = refl
fresh_ops-of_known node taken (op ∷ ops) known =
    rw known.0 (fresh_ops-of_known node taken ops known.1)

prune-of_short :
    (log : List Op) (limit : ℕ)
    → length log ≤ max limit 1
    → (prune_op_log_and_return_evicted log limit).0 ≡ log
unfolding prune_op_log_and_return_evicted
prune-of_short log limit short = ground arith

module _ (node : NodeState) (w : IsNode node) (fits : length node.seen_ops.order ≤ u64_max) where
  remember_nothing : remember node [] [] ≡ node
  unfolding remember plans_of insert_all
  remember_nothing = λ i. record node {
    seen_ops =
        apply_seen_insertions-eq-insert_all node.seen_ops [] w.seen_ops tt tt (omega (arith, fits))
          i;
    op_log =
        (ap (λ l. (prune_op_log_and_return_evicted l node.op_log_limit).0) (append-nil node.op_log)
            ∙ prune-of_short node.op_log node.op_log_limit w.op_log)
          i;
  }

  finish_nothing :
      {E : Type 0} (answer : Option E) → (finish_remote node empty_batch answer).0 ≡ node
  unfolding finish_remote
  finish_nothing (some e) = refl
  finish_nothing none =
      λ i. record (remember_nothing i) { registries = commit-no_updates node.registries i }

-- On a well-formed node whose window counts within `u64`, a remote batch of operations that are all
-- known leaves the node unchanged, whatever the store answers.
pub apply_remote_ops_redelivery :
    {E : Type 0} (persist : List OpPersistencePlan → Registries → Option E) (node : NodeState)
    (ops : List Op)
    → IsNode node
    → length node.seen_ops.order ≤ u64_max
    → AllKnown node ops
    → (apply_remote_ops persist node ops).0 ≡ node
unfolding apply_remote_ops
apply_remote_ops_redelivery persist node [] w fits known = refl
apply_remote_ops_redelivery persist node (op ∷ ops) w fits known =
    let nothing : collect_all node.seen_ops node.registries empty_batch (op ∷ ops) ≡ empty_batch =
      collect_all-eq-fresh_ops node.seen_ops node.registries empty_batch (op ∷ ops)
      ∙ ap
          (λ fresh. record {
            inserted_ids = ids_of fresh;
            inserted_ops = fresh;
            updates = updates_of node.registries no_updates fresh;
          })
          (fresh_ops-of_known node [] (op ∷ ops) known) in
    subst
      (λ batch.
        (finish_remote node batch
          (persist (plans_of node batch.inserted_ids batch.inserted_ops).0 batch.updates)).0
        ≡ node)
      (sym nothing) (finish_nothing node w fits _)

finish_local_atomic :
    {E : Type 0} (node : NodeState) (ids : List Bytes) (new : List Op) (answer : Option E)
    → ((finish_local node ids new answer).1 ≡ answer)
      × (((error : E) × (answer ≡ some error) × ((finish_local node ids new answer).0 ≡ node))
          ⊎ ((answer ≡ none) × ((finish_local node ids new answer).0 ≡ remember node ids new)))
unfolding finish_local
finish_local_atomic node ids new (some error) = (refl, inl (error, refl, refl))
finish_local_atomic node ids new none = (refl, inr (refl, refl))

-- On a well-formed node, remembering local operations either reports the error of the store and
-- leaves the node as it was, or leaves the window with the identifiers of the new ones inserted one
-- by one and the log with them at its end, cut to its limit, and the node well formed. The window
-- and the new operations together count within `u64`.
pub remember_ops_lem :
    {E : Type 0} (persist : List OpPersistencePlan → Option E) (node : NodeState) (ops : List Op)
    → IsNode node
    → length node.seen_ops.order + length (new_ops node ops) ≤ u64_max
    → let (next, answer) = remember_ops persist node ops in
      ((error : E) × (answer ≡ some error) × (next ≡ node))
      ⊎ ((answer ≡ none) × HasRemembered node (new_ops node ops) next × IsNode next)
unfolding remember_ops
remember_ops_lem persist node ops w fits =
    let (same_answer, cases) =
      finish_local_atomic node (ids_of (new_ops node ops)) (new_ops node ops)
        (persist (plans_of node (ids_of (new_ops node ops)) (new_ops node ops)).0) in
    elim cases [
      | inl (error, e, kept) ↦
          rw (select_new-eq-fresh_ops node.seen_ops [] [] ops) (inl (error, same_answer ∙ e, kept))
      | inr (e, done) ↦ rw (select_new-eq-fresh_ops node.seen_ops [] [] ops) (
          inr (
            same_answer ∙ e,
            subst (HasRemembered node (new_ops node ops)) (sym done)
                (remember_parts node ops w fits),
            subst IsNode (sym done) (remember-IsNode node ops w fits),
          ))
    ]
