-- ===== src/SyncManager/Updates.antt =====
-- The dispatch of apply.rs: a batch of remote operations is worked out in a table of updates over the
-- registries, which stay as they are until the batch is durable.
pub mod Maps
pub mod Batch
use numax.Prelude.{
  ℕ, Bool, true, false, Option, none, some, List, [], ◌∷◌, Bytes, bytes_ord, if◌then◌else◌,
}
use numax.Map.{HashMap, get, insert, get_or, upsert, for_entries}
use numax.Sync.GCounter
use numax.Sync.GCounter.{GCounter}
use numax.Sync.PnCounter
use numax.Sync.PnCounter.{PnCounter}
use numax.Sync.LwwRegister
use numax.Sync.LwwRegister.{LwwRegister}
use numax.Sync.LwwMap as LwwMaps
use numax.Sync.LwwMap.{LwwMap}
use numax.Sync.OrSet
use numax.Sync.OrSet.{OrSet}
use numax.Sync.Rga
use numax.Sync.Rga.{Rga}
use numax.Sync.Op.{
  NodeId, Op, OpKind, gcounter_increment, pncounter_increment, pncounter_decrement,
  lww_register_set, lww_map_set, lww_map_remove, orset_add, orset_remove, rga_insert, rga_delete,
}

-- `RemoteCrdtRegistries`, `RemoteCrdtUpdates` and `RemoteCrdtUpdateBatch`: six maps by key.
pub record Registries : Type 0 where
  pub counters : HashMap Bytes GCounter
  pub pncounters : HashMap Bytes PnCounter
  pub lww_registers : HashMap Bytes LwwRegister
  pub lww_maps : HashMap Bytes LwwMap
  pub orsets : HashMap Bytes OrSet
  pub rgas : HashMap Bytes Rga

abbrev pub no_updates : Registries
no_updates = record {
  counters = [];
  pncounters = [];
  lww_registers = [];
  lww_maps = [];
  orsets = [];
  rgas = [];
}

-- `updates.entry(key).or_insert_with(|| registry.get(key).cloned().unwrap_or_else(new))`, and then a
-- change of the entry.
abbrev pub with_entry :
    {V : Type 0} → V → HashMap Bytes V → HashMap Bytes V → Bytes → (V → V) → HashMap Bytes V
with_entry new registry updates key change =
    upsert updates key (λ entry. change (get_or entry (get_or (get registry key) new)))

unfoldable pub apply_remote_gcounter_increment :
    NodeId → Bytes → ℕ → HashMap Bytes GCounter → HashMap Bytes GCounter → HashMap Bytes GCounter
apply_remote_gcounter_increment origin key amount counters counter_updates =
    with_entry GCounter.new counters counter_updates key
      (λ counter. GCounter.increment counter origin amount)

unfoldable pub apply_remote_pncounter_op :
    Op → Bytes → HashMap Bytes PnCounter → HashMap Bytes PnCounter → HashMap Bytes PnCounter
apply_remote_pncounter_op op key counters counter_updates =
    with_entry PnCounter.new counters counter_updates key
      (λ counter. (PnCounter.apply_op counter op).0)

-- The second half: no update is there yet.
unfoldable pub set_existing_register :
    NodeId
    → Bytes
    → Bytes
    → ℕ
    → Option LwwRegister
    → HashMap Bytes LwwRegister
    → HashMap Bytes LwwRegister
set_existing_register origin key value timestamp_ms none register_updates =
    insert register_updates key (LwwRegister.new value timestamp_ms origin)
set_existing_register origin key value timestamp_ms (some existing) register_updates =
    let (register, assigned) = LwwRegister.assign existing value timestamp_ms origin in
    if assigned then insert register_updates key register else register_updates

unfoldable pub set_register :
    NodeId
    → Bytes
    → Bytes
    → ℕ
    → Option LwwRegister
    → HashMap Bytes LwwRegister
    → HashMap Bytes LwwRegister
    → HashMap Bytes LwwRegister
unfolding set_existing_register
set_register origin key value timestamp_ms (some register) registers register_updates =
    insert register_updates key (LwwRegister.assign register value timestamp_ms origin).0
set_register origin key value timestamp_ms none registers register_updates =
    set_existing_register origin key value timestamp_ms (get registers key) register_updates

unfoldable pub apply_remote_lww_register_set :
    NodeId
    → Bytes
    → Bytes
    → ℕ
    → HashMap Bytes LwwRegister
    → HashMap Bytes LwwRegister
    → HashMap Bytes LwwRegister
unfolding set_register
apply_remote_lww_register_set origin key value timestamp_ms registers register_updates =
    set_register origin key value timestamp_ms (get register_updates key) registers register_updates

unfoldable pub apply_remote_lww_map_set :
    NodeId
    → Bytes
    → Bytes
    → Bytes
    → ℕ
    → HashMap Bytes LwwMap
    → HashMap Bytes LwwMap
    → HashMap Bytes LwwMap
apply_remote_lww_map_set origin key field value timestamp_ms maps map_updates =
    with_entry LwwMaps.new maps map_updates key
      (λ m. (LwwMaps.set m field value timestamp_ms origin).0)

unfoldable pub apply_remote_lww_map_remove :
    NodeId → Bytes → Bytes → ℕ → HashMap Bytes LwwMap → HashMap Bytes LwwMap → HashMap Bytes LwwMap
apply_remote_lww_map_remove origin key field timestamp_ms maps map_updates =
    with_entry LwwMaps.new maps map_updates key
      (λ m. (LwwMaps.remove m field timestamp_ms origin).0)

unfoldable pub apply_remote_orset_add :
    Bytes → Bytes → Bytes → HashMap Bytes OrSet → HashMap Bytes OrSet → HashMap Bytes OrSet
apply_remote_orset_add key element tag sets set_updates =
    with_entry OrSet.new sets set_updates key (λ s. (OrSet.apply_add s element tag).0)

unfoldable pub apply_remote_orset_remove :
    Bytes → Bytes → List Bytes → HashMap Bytes OrSet → HashMap Bytes OrSet → HashMap Bytes OrSet
apply_remote_orset_remove key element observed_tags sets set_updates =
    with_entry OrSet.new sets set_updates key (λ s. (OrSet.apply_remove s element observed_tags).0)

unfoldable pub apply_remote_rga_insert :
    Bytes → Bytes → Option Bytes → Bytes → HashMap Bytes Rga → HashMap Bytes Rga → HashMap Bytes Rga
apply_remote_rga_insert key id parent value rgas rga_updates =
    with_entry Rga.new rgas rga_updates key (λ r. (Rga.apply_insert r id parent value).0)

unfoldable pub apply_remote_rga_delete :
    Bytes → Bytes → HashMap Bytes Rga → HashMap Bytes Rga → HashMap Bytes Rga
apply_remote_rga_delete key id rgas rga_updates =
    with_entry Rga.new rgas rga_updates key (λ r. (Rga.apply_delete r id).0)

-- The `match` on the kind, through the appliers of each data type.
unfoldable pub apply_kind : Op → OpKind → Registries → Registries → Registries
apply_kind op (gcounter_increment key amount) r u = record u {
  counters = apply_remote_gcounter_increment op.origin key amount r.counters u.counters;
}
apply_kind op (pncounter_increment key _) r u = record u {
  pncounters = apply_remote_pncounter_op op key r.pncounters u.pncounters;
}
apply_kind op (pncounter_decrement key _) r u = record u {
  pncounters = apply_remote_pncounter_op op key r.pncounters u.pncounters;
}
apply_kind op (lww_register_set key value timestamp_ms) r u = record u {
  lww_registers =
      apply_remote_lww_register_set op.origin key value timestamp_ms r.lww_registers
        u.lww_registers;
}
apply_kind op (lww_map_set key field value timestamp_ms) r u = record u {
  lww_maps = apply_remote_lww_map_set op.origin key field value timestamp_ms r.lww_maps u.lww_maps;
}
apply_kind op (lww_map_remove key field timestamp_ms) r u = record u {
  lww_maps = apply_remote_lww_map_remove op.origin key field timestamp_ms r.lww_maps u.lww_maps;
}
apply_kind op (orset_add key element tag) r u = record u {
  orsets = apply_remote_orset_add key element tag r.orsets u.orsets;
}
apply_kind op (orset_remove key element observed_tags) r u = record u {
  orsets = apply_remote_orset_remove key element observed_tags r.orsets u.orsets;
}
apply_kind op (rga_insert key id parent value) r u = record u {
  rgas = apply_remote_rga_insert key id parent value r.rgas u.rgas;
}
apply_kind op (rga_delete key id) r u = record u {
  rgas = apply_remote_rga_delete key id r.rgas u.rgas;
}

unfoldable pub apply_remote_op_to_crdt_updates : Op → Registries → Registries → Registries
unfolding apply_kind
apply_remote_op_to_crdt_updates op registries updates = apply_kind op op.kind registries updates

-- `for (key, value) in updates { registry.insert(key, value) }`
unfoldable pub commit_map : {V : Type 0} → HashMap Bytes V → HashMap Bytes V → HashMap Bytes V
commit_map registry updates = for_entries insert registry updates

-- The six loops at the end of `apply_remote_ops`.
unfoldable pub commit : Registries → Registries → Registries
unfolding commit_map
commit registries updates = record {
  counters = commit_map registries.counters updates.counters;
  pncounters = commit_map registries.pncounters updates.pncounters;
  lww_registers = commit_map registries.lww_registers updates.lww_registers;
  lww_maps = commit_map registries.lww_maps updates.lww_maps;
  orsets = commit_map registries.orsets updates.orsets;
  rgas = commit_map registries.rgas updates.rgas;
}
