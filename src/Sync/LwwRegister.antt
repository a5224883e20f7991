-- ===== src/Sync/LwwRegister.antt =====
-- crates/nx-sync/src/crdt/lww_register.rs: the last write wins, by timestamp and then by writer.
pub mod Laws
use numax.Prelude.{
  ℕ, Bool, true, false, ◌&&◌, ◌||◌, Bytes, bytes_ord, above, ltb, ◌==◌, if◌then◌else◌,
}
use numax.Sync.Op.{NodeId}

pub record LwwRegister : Type 0 where
  pub value : Bytes
  pub timestamp_ms : ℕ
  pub writer : NodeId

abbrev pub new : Bytes → ℕ → NodeId → LwwRegister
new value timestamp_ms writer = record {
  value = value;
  timestamp_ms = timestamp_ms;
  writer = writer;
}

unfoldable pub candidate_wins : LwwRegister → LwwRegister → Bool
candidate_wins candidate current =
    ltb current.timestamp_ms candidate.timestamp_ms
    || (candidate.timestamp_ms == current.timestamp_ms && above candidate.writer current.writer)

unfoldable pub assign : LwwRegister → Bytes → ℕ → NodeId → LwwRegister × Bool
assign current value timestamp_ms writer =
    let candidate = new value timestamp_ms writer in
    if candidate_wins candidate current then (candidate, true) else (current, false)

unfoldable pub merge : LwwRegister → LwwRegister → LwwRegister × Bool
merge current other = if candidate_wins other current then (other, true) else (current, false)

unfoldable pub merged_with : LwwRegister → LwwRegister → LwwRegister
unfolding merge
merged_with current other = (merge current other).0
