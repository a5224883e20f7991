-- ===== src/SyncManager/OpLog.antt =====
-- The bounded operation log of replication.rs, which answers the pulls of peers.
pub mod Laws
use numax.Prelude.{
  ℕ, ◌-◌, max, Option, none, some, List, [], ◌∷◌, Bytes, bytes_ord, same, length, take, drop, ltb,
  saturating_add, if◌then◌else◌,
}
use numax.Sync.Op.{Op}

unfoldable pub normalize_op_log_limit : ℕ → ℕ
normalize_op_log_limit limit = max limit 1

unfoldable pub plan_op_log_evictions : List Op → ℕ → ℕ → List Op
unfolding normalize_op_log_limit
plan_op_log_evictions log inserted_count limit =
    let total_len = saturating_add (length log) inserted_count in
    let remove_count = total_len - normalize_op_log_limit limit in take remove_count log

-- The log that stays, and what was evicted.
unfoldable pub prune_op_log_and_return_evicted : List Op → ℕ → List Op × List Op
unfolding normalize_op_log_limit
prune_op_log_and_return_evicted log limit =
    let limit' = normalize_op_log_limit limit in
    if ltb limit' (length log)
    then (let remove_count = length log - limit' in (drop remove_count log, take remove_count log))
    else (log, [])

-- `position` of the operation, and the log behind it.
unfoldable pub after_position : Bytes → List Op → Option (List Op)
after_position op_id [] = none
after_position op_id (op ∷ log) = if same op.id op_id then some log else after_position op_id log

abbrev or_whole : List Op → Option (List Op) → List Op
or_whole log none = log
or_whole log (some rest) = rest

unfoldable pub op_log_since : List Op → Option Bytes → List Op
unfolding after_position
op_log_since log none = log
op_log_since log (some op_id) = or_whole log (after_position op_id log)
