-- ===== src/SyncManager/OpLog/Laws.antt =====
-- Pruning, eviction plans and pulls of the operation log (replication.rs).
use numax.Prelude.{
  ℕ, zero, suc, ◌≢◌, ◌+◌, ◌-◌, ◌≤◌, ◌<◌, max, min, ◌≡◌, refl, ap, ◌⊎◌, inl, inr, none, some, List,
  [], ◌∷◌, ◌++◌, Bytes, bytes_ord, same, same→eq, same_refl, length, take, length-append,
  length-take, length-drop, take-append-drop, u64_max, saturating_add, arith, ltb, Bool-cases,
}
use numax.Sync.Op.{Op}
use numax.SyncManager.OpLog.{
  plan_op_log_evictions, prune_op_log_and_return_evicted, after_position, op_log_since,
}

-- Pruning splits the log: the evicted part stood in front of the kept one, which has as many
-- operations as there were or as the limit, at least one, allows, whichever is less.
pub prune_split :
    (log : List Op) (limit : ℕ)
    → let (kept, evicted) = prune_op_log_and_return_evicted log limit in
      (evicted ++ kept ≡ log) × (length kept ≡ min (length log) (max limit 1))
unfolding prune_op_log_and_return_evicted
prune_split log limit = elim (Bool-cases (ltb (max limit 1) (length log))) [
  | inl e ↦ rw e (
    take-append-drop (length log - max limit 1) log,
    ground (arith, length-drop (length log - max limit 1) log),
  )
  | inr e ↦ rw e (refl, ground arith)
]

take-append : (n : ℕ) (xs ys : List Op) → n ≤ length xs → take n (xs ++ ys) ≡ take n xs
take-append zero xs ys h = refl
take-append (suc n) [] ys h = absurd (omega arith)
take-append (suc n) (x ∷ xs) ys h = ap (◌∷◌ x) (take-append n xs ys (omega arith))

-- For a batch no longer than the limit, or than one, the operations planned for eviction from the
-- store are those that the log with the batch at its end then evicts, if they count within `u64`
-- together.
pub plan-eq-prune :
    (log batch : List Op) (limit : ℕ)
    → length log + length batch ≤ u64_max
    → length batch ≤ max limit 1
    → plan_op_log_evictions log (length batch) limit
      ≡ (prune_op_log_and_return_evicted (log ++ batch) limit).1
unfolding plan_op_log_evictions prune_op_log_and_return_evicted saturating_add
plan-eq-prune log batch limit fits small = ground (
  arith,
  length-append log batch,
  take-append (length log + length batch - max limit 1) log batch,
  length-take 0 log,
)

-- For a batch longer than the limit, and than one, fewer operations are planned for eviction from
-- the store than the log with the batch at its end then evicts, if they count within `u64`
-- together.
pub plan-lt-prune_of_long_batch :
    (log batch : List Op) (limit : ℕ)
    → length log + length batch ≤ u64_max
    → max limit 1 < length batch
    → length (plan_op_log_evictions log (length batch) limit)
      < length (prune_op_log_and_return_evicted (log ++ batch) limit).1
unfolding plan_op_log_evictions prune_op_log_and_return_evicted saturating_add
plan-lt-prune_of_long_batch log batch limit fits long = ground (
  arith,
  length-append log batch,
  length-take (length log + length batch - max limit 1) log,
  length-take (length (log ++ batch) - max limit 1) (log ++ batch),
)

-- The operations of a log that come before the first with the identifier, if there is one.
abbrev pub Lacks : Bytes → List Op → Type 0
Lacks op_id [] = Unit
Lacks op_id (op ∷ log) = (op.id ≢ op_id) × Lacks op_id log

-- Where a log is cut: behind the first operation with the identifier, if there is one.
abbrev pub Cut : List Op → Bytes → List Op → Type 0
Cut log op_id rest =
    (before : List Op) × (op : Op) × (log ≡ before ++ op ∷ rest)
    × (op.id ≡ op_id)
    × Lacks op_id before

position_cases :
    (log : List Op) (op_id : Bytes)
    → ((rest : List Op) × (after_position op_id log ≡ some rest) × Cut log op_id rest)
      ⊎ ((after_position op_id log ≡ none) × Lacks op_id log)
unfolding after_position
position_cases [] op_id = inr (refl, tt)
position_cases (op ∷ log) op_id = elim (Bool-cases (same op.id op_id)) [
  | inl e ↦ inl (log, (rw e), ([], op, refl, same→eq op.id op_id e, tt))
  | inr e ↦
      let here : op.id ≢ op_id = λ p. ground (arith, p, e, same_refl op_id) in
      elim (position_cases log op_id) [
        | inl (rest, found, (before, op', split, named, lacks)) ↦
            inl (rest, (rw e found), (op ∷ before, op', ap (◌∷◌ op) split, named, (here, lacks)))
        | inr (missing, lacks) ↦ inr ((rw e missing), (here, lacks))
      ]
]

-- A pull since an operation of the log gets exactly what stands behind its first occurrence, and a
-- pull since an unknown operation gets the whole log.
pub op_log_since_lem :
    (log : List Op) (op_id : Bytes)
    → Cut log op_id (op_log_since log (some op_id))
      ⊎ ((op_log_since log (some op_id) ≡ log) × Lacks op_id log)
unfolding op_log_since
op_log_since_lem log op_id = elim (position_cases log op_id) [
  | inl (rest, found, cut) ↦ inl (rw found cut)
  | inr (missing, lacks) ↦ inr ((rw missing), lacks)
]
