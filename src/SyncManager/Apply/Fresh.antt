-- ===== src/SyncManager/Apply/Fresh.antt =====
-- The operations of a batch that are new: neither known before, nor a repetition within the batch.
use numax.Prelude.{
  ◌≡◌, refl, sym, ◌∙◌, Bool, true, false, ◌||◌, List, [], ◌∷◌, ◌++◌, map, Bytes, bytes_ord, same→eq,
  same_refl, arith, if◌then◌else◌, Bool-cases, inl, inr,
}
use mathlib.Core.List.{append_assoc, append-nil}
use numax.Set
use numax.Set.{member}
use numax.Sync.Op.{Op}
use numax.SyncManager.SeenOps.{SeenOps}
use numax.SyncManager.SeenOps.Window.{Distinct, member-append, member-cons, member-singleton}
use numax.SyncManager.SeenOps.Batch.{AreFresh}
use numax.SyncManager.Updates.{Registries, apply_remote_op_to_crdt_updates}
use numax.SyncManager.Updates.Batch.{updates_of}
use numax.SyncManager.Apply.{Batch, collect, collect_all, select_new}

abbrev pub ids_of : List Op → List Bytes
ids_of = map (λ op. op.id)

-- The operations whose identifier is neither known nor taken, the first of each identifier.
unfoldable pub fresh_ops : SeenOps → List Bytes → List Op → List Op
fresh_ops seen taken [] = []
fresh_ops seen taken (op ∷ ops) =
    let skipped = fresh_ops seen taken ops in
    let rest = fresh_ops seen (taken ++ op.id ∷ []) ops in
    if Set.contains seen.ids op.id || member taken op.id then skipped else op ∷ rest

abbrev taken_batch : Registries → Batch → Op → Batch
taken_batch r batch op = record {
  inserted_ids = batch.inserted_ids ++ op.id ∷ [];
  inserted_ops = batch.inserted_ops ++ op ∷ [];
  updates = apply_remote_op_to_crdt_updates op r batch.updates;
}

collect_branches :
    (seen : SeenOps) (r : Registries) (batch : Batch) (op : Op) (b : Bool)
    → (Set.contains seen.ids op.id || member batch.inserted_ids op.id) ≡ b
    → collect seen r batch op ≡ (if b then batch else taken_batch r batch op)
unfolding collect
collect_branches seen r batch op b e = rw e refl

-- What the loop over received operations collects: the fresh ones, and their updates.
pub collect_all-eq-fresh_ops :
    (seen : SeenOps) (r : Registries) (batch : Batch) (ops : List Op)
    → let fresh = fresh_ops seen batch.inserted_ids ops in
      collect_all seen r batch ops ≡ record {
        inserted_ids = batch.inserted_ids ++ ids_of fresh;
        inserted_ops = batch.inserted_ops ++ fresh;
        updates = updates_of r batch.updates fresh;
      }
unfolding collect_all fresh_ops
collect_all-eq-fresh_ops seen r batch [] = λ i. record {
  inserted_ids = sym (append-nil batch.inserted_ids) i;
  inserted_ops = sym (append-nil batch.inserted_ops) i;
  updates = batch.updates;
}
collect_all-eq-fresh_ops seen r batch (op ∷ ops) =
    elim (Bool-cases (Set.contains seen.ids op.id || member batch.inserted_ids op.id)) [
      | inl e ↦
          rw (collect_branches seen r batch op true e, e)
            (collect_all-eq-fresh_ops seen r batch ops)
      | inr e ↦
          let taken = taken_batch r batch op in
          let fresh = fresh_ops seen (batch.inserted_ids ++ op.id ∷ []) ops in
          rw (collect_branches seen r batch op false e, e)
            (collect_all-eq-fresh_ops seen r taken ops ∙ (λ i. record {
              inserted_ids = append_assoc batch.inserted_ids (op.id ∷ []) (ids_of fresh) i;
              inserted_ops = append_assoc batch.inserted_ops (op ∷ []) fresh i;
              updates = updates_of r taken.updates fresh;
            }))
    ]

-- What the loop over local operations selects is the same.
pub select_new-eq-fresh_ops :
    (seen : SeenOps) (ids : List Bytes) (taken ops : List Op)
    → select_new seen ids taken ops
      ≡ (ids ++ ids_of (fresh_ops seen ids ops), taken ++ fresh_ops seen ids ops)
unfolding select_new fresh_ops
select_new-eq-fresh_ops seen ids taken [] = λ i. (sym (append-nil ids) i, sym (append-nil taken) i)
select_new-eq-fresh_ops seen ids taken (op ∷ ops) =
    elim (Bool-cases (Set.contains seen.ids op.id || member ids op.id)) [
      | inl e ↦ rw e (select_new-eq-fresh_ops seen ids taken ops)
      | inr e ↦ rw e (
          select_new-eq-fresh_ops seen (ids ++ op.id ∷ []) (taken ++ op ∷ []) ops ∙ (λ i. (
            append_assoc ids (op.id ∷ []) (ids_of (fresh_ops seen (ids ++ op.id ∷ []) ops)) i,
            append_assoc taken (op ∷ []) (fresh_ops seen (ids ++ op.id ∷ []) ops) i,
          )))
    ]

-- No taken identifier is among the fresh ones.
fresh_ops-avoids :
    (seen : SeenOps) (taken : List Bytes) (ops : List Op) (k : Bytes)
    → member taken k ≡ true
    → member (ids_of (fresh_ops seen taken ops)) k ≡ false
unfolding fresh_ops member
fresh_ops-avoids seen taken [] k h = refl
fresh_ops-avoids seen taken (op ∷ ops) k h =
    elim (Bool-cases (Set.contains seen.ids op.id || member taken op.id)) [
      | inl e ↦ rw e (fresh_ops-avoids seen taken ops k h)
      | inr e ↦
          let later =
            fresh_ops-avoids seen (taken ++ op.id ∷ []) ops k
              (ground (arith, member-append taken (op.id ∷ []) k)) in
          rw e (
            ground (
              arith,
              later,
              member-cons op.id (ids_of (fresh_ops seen (taken ++ op.id ∷ []) ops)) k,
              same→eq k op.id,
            ))
    ]

pub fresh_ops-AreFresh :
    (seen : SeenOps) (taken : List Bytes) (ops : List Op)
    → AreFresh seen (ids_of (fresh_ops seen taken ops))
unfolding fresh_ops
fresh_ops-AreFresh seen taken [] = tt
fresh_ops-AreFresh seen taken (op ∷ ops) =
    elim (Bool-cases (Set.contains seen.ids op.id || member taken op.id)) [
      | inl e ↦ rw e (fresh_ops-AreFresh seen taken ops)
      | inr e ↦ rw e (ground arith, fresh_ops-AreFresh seen (taken ++ op.id ∷ []) ops)
    ]

pub fresh_ops-Distinct :
    (seen : SeenOps) (taken : List Bytes) (ops : List Op)
    → Distinct (ids_of (fresh_ops seen taken ops))
unfolding fresh_ops
fresh_ops-Distinct seen taken [] = tt
fresh_ops-Distinct seen taken (op ∷ ops) =
    elim (Bool-cases (Set.contains seen.ids op.id || member taken op.id)) [
      | inl e ↦ rw e (fresh_ops-Distinct seen taken ops)
      | inr e ↦ rw e (
        fresh_ops-avoids seen (taken ++ op.id ∷ []) ops op.id (
            ground (
              arith,
              member-append taken (op.id ∷ []) op.id,
              member-singleton op.id op.id,
              same_refl op.id,
            )),
        fresh_ops-Distinct seen (taken ++ op.id ∷ []) ops,
      )
    ]
