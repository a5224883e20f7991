-- ===== src/SyncManager/Updates/Batch.antt =====
-- The updates of a batch (apply.rs), beside its operations applied to the registries one after another.
use numax.Prelude.{◌≡◌, refl, ap, ◌∙◌, List, [], ◌∷◌, Bytes, bytes_ord, foldl}
use numax.Map.{HashMap, insert, get_or, upsert, for_entries}
use numax.Map.Laws.{IsSorted, IsSorted-insert}
use numax.Sync.GCounter
use numax.Sync.GCounter.{GCounter}
use numax.Sync.PnCounter
use numax.Sync.PnCounter.{PnCounter}
use numax.Sync.LwwRegister.{LwwRegister}
use numax.Sync.LwwMap as LwwMaps
use numax.Sync.LwwMap.{LwwMap}
use numax.Sync.OrSet
use numax.Sync.OrSet.{OrSet}
use numax.Sync.Rga
use numax.Sync.Rga.{Rga}
use numax.Sync.Op.{
  Op, OpKind, gcounter_increment, pncounter_increment, pncounter_decrement, lww_register_set,
  lww_map_set, lww_map_remove, orset_add, orset_remove, rga_insert, rga_delete,
}
use numax.SyncManager.Updates.{
  Registries, no_updates, apply_remote_gcounter_increment, apply_remote_pncounter_op,
  apply_remote_lww_map_set, apply_remote_lww_map_remove, apply_remote_orset_add,
  apply_remote_orset_remove, apply_remote_rga_insert, apply_remote_rga_delete, apply_kind,
  apply_remote_op_to_crdt_updates, commit_map, commit,
}
use numax.SyncManager.Updates.Maps.{
  assigned, commit_map-with_entry, IsSorted-lww_register_set, commit_map-lww_register_set,
}

-- The six maps are in key order.
pub record AreSorted (r : Registries) : Type 0 where
  pub counters : IsSorted r.counters
  pub pncounters : IsSorted r.pncounters
  pub lww_registers : IsSorted r.lww_registers
  pub lww_maps : IsSorted r.lww_maps
  pub orsets : IsSorted r.orsets
  pub rgas : IsSorted r.rgas

all_sorted :
    {c : HashMap Bytes GCounter} {p : HashMap Bytes PnCounter} {l : HashMap Bytes LwwRegister}
    {m : HashMap Bytes LwwMap} {o : HashMap Bytes OrSet} {g : HashMap Bytes Rga}
    → IsSorted c
    → IsSorted p
    → IsSorted l
    → IsSorted m
    → IsSorted o
    → IsSorted g
    → AreSorted (record {
      counters = c;
      pncounters = p;
      lww_registers = l;
      lww_maps = m;
      orsets = o;
      rgas = g;
    })
all_sorted sc sp sl sm so sg = record {
  counters = sc;
  pncounters = sp;
  lww_registers = sl;
  lww_maps = sm;
  orsets = so;
  rgas = sg;
}

pub commit-no_updates : (r : Registries) → commit r no_updates ≡ r
unfolding commit commit_map for_entries
commit-no_updates r = refl

-- One operation, applied to the registries themselves.
unfoldable pub apply_one_kind : Op → OpKind → Registries → Registries
apply_one_kind op (gcounter_increment key amount) r = record r {
  counters =
      upsert r.counters key (λ e. GCounter.increment (get_or e GCounter.new) op.origin amount);
}
apply_one_kind op (pncounter_increment key _) r = record r {
  pncounters = upsert r.pncounters key (λ e. (PnCounter.apply_op (get_or e PnCounter.new) op).0);
}
apply_one_kind op (pncounter_decrement key _) r = record r {
  pncounters = upsert r.pncounters key (λ e. (PnCounter.apply_op (get_or e PnCounter.new) op).0);
}
apply_one_kind op (lww_register_set key value timestamp_ms) r = record r {
  lww_registers = upsert r.lww_registers key (assigned op.origin value timestamp_ms);
}
apply_one_kind op (lww_map_set key field value timestamp_ms) r = record r {
  lww_maps =
      upsert r.lww_maps key
        (λ e. (LwwMaps.set (get_or e LwwMaps.new) field value timestamp_ms op.origin).0);
}
apply_one_kind op (lww_map_remove key field timestamp_ms) r = record r {
  lww_maps =
      upsert r.lww_maps key
        (λ e. (LwwMaps.remove (get_or e LwwMaps.new) field timestamp_ms op.origin).0);
}
apply_one_kind op (orset_add key element tag) r = record r {
  orsets = upsert r.orsets key (λ e. (OrSet.apply_add (get_or e OrSet.new) element tag).0);
}
apply_one_kind op (orset_remove key element observed_tags) r = record r {
  orsets =
      upsert r.orsets key (λ e. (OrSet.apply_remove (get_or e OrSet.new) element observed_tags).0);
}
apply_one_kind op (rga_insert key id parent value) r = record r {
  rgas = upsert r.rgas key (λ e. (Rga.apply_insert (get_or e Rga.new) id parent value).0);
}
apply_one_kind op (rga_delete key id) r = record r {
  rgas = upsert r.rgas key (λ e. (Rga.apply_delete (get_or e Rga.new) id).0);
}

unfoldable pub apply_one : Registries → Op → Registries
unfolding apply_one_kind
apply_one r op = apply_one_kind op op.kind r

module _ (op : Op) (r u : Registries) (sr : AreSorted r) (su : AreSorted u) where
  commit-apply_kind :
      (kind : OpKind) → commit r (apply_kind op kind r u) ≡ apply_one_kind op kind (commit r u)
  unfolding commit apply_kind apply_one_kind apply_remote_gcounter_increment
      apply_remote_pncounter_op apply_remote_lww_map_set apply_remote_lww_map_remove
      apply_remote_orset_add apply_remote_orset_remove apply_remote_rga_insert
      apply_remote_rga_delete
  commit-apply_kind (gcounter_increment key amount) =
      ap (λ m. record (commit r u) { counters = m })
        (commit_map-with_entry GCounter.new r.counters u.counters key
          (λ c. GCounter.increment c op.origin amount) sr.counters su.counters)
  commit-apply_kind (pncounter_increment key amount) =
      ap (λ m. record (commit r u) { pncounters = m })
        (commit_map-with_entry PnCounter.new r.pncounters u.pncounters key
          (λ c. (PnCounter.apply_op c op).0) sr.pncounters su.pncounters)
  commit-apply_kind (pncounter_decrement key amount) =
      ap (λ m. record (commit r u) { pncounters = m })
        (commit_map-with_entry PnCounter.new r.pncounters u.pncounters key
          (λ c. (PnCounter.apply_op c op).0) sr.pncounters su.pncounters)
  commit-apply_kind (lww_register_set key value timestamp_ms) =
      ap (λ m. record (commit r u) { lww_registers = m })
        (commit_map-lww_register_set op.origin key value timestamp_ms r.lww_registers
          u.lww_registers sr.lww_registers su.lww_registers)
  commit-apply_kind (lww_map_set key field value timestamp_ms) =
      ap (λ m. record (commit r u) { lww_maps = m })
        (commit_map-with_entry LwwMaps.new r.lww_maps u.lww_maps key
          (λ m. (LwwMaps.set m field value timestamp_ms op.origin).0) sr.lww_maps su.lww_maps)
  commit-apply_kind (lww_map_remove key field timestamp_ms) =
      ap (λ m. record (commit r u) { lww_maps = m })
        (commit_map-with_entry LwwMaps.new r.lww_maps u.lww_maps key
          (λ m. (LwwMaps.remove m field timestamp_ms op.origin).0) sr.lww_maps su.lww_maps)
  commit-apply_kind (orset_add key element tag) =
      ap (λ m. record (commit r u) { orsets = m })
        (commit_map-with_entry OrSet.new r.orsets u.orsets key
          (λ s. (OrSet.apply_add s element tag).0) sr.orsets su.orsets)
  commit-apply_kind (orset_remove key element observed_tags) =
      ap (λ m. record (commit r u) { orsets = m })
        (commit_map-with_entry OrSet.new r.orsets u.orsets key
          (λ s. (OrSet.apply_remove s element observed_tags).0) sr.orsets su.orsets)
  commit-apply_kind (rga_insert key id parent value) =
      ap (λ m. record (commit r u) { rgas = m })
        (commit_map-with_entry Rga.new r.rgas u.rgas key
          (λ g. (Rga.apply_insert g id parent value).0) sr.rgas su.rgas)
  commit-apply_kind (rga_delete key id) =
      ap (λ m. record (commit r u) { rgas = m })
        (commit_map-with_entry Rga.new r.rgas u.rgas key (λ g. (Rga.apply_delete g id).0) sr.rgas
          su.rgas)

  AreSorted-apply_kind : (kind : OpKind) → AreSorted (apply_kind op kind r u)
  unfolding apply_kind apply_remote_gcounter_increment apply_remote_pncounter_op
      apply_remote_lww_map_set apply_remote_lww_map_remove apply_remote_orset_add
      apply_remote_orset_remove apply_remote_rga_insert apply_remote_rga_delete
  AreSorted-apply_kind (gcounter_increment key amount) =
      all_sorted (IsSorted-insert u.counters key _ su.counters) su.pncounters su.lww_registers
        su.lww_maps su.orsets su.rgas
  AreSorted-apply_kind (pncounter_increment key amount) =
      all_sorted su.counters (IsSorted-insert u.pncounters key _ su.pncounters) su.lww_registers
        su.lww_maps su.orsets su.rgas
  AreSorted-apply_kind (pncounter_decrement key amount) =
      all_sorted su.counters (IsSorted-insert u.pncounters key _ su.pncounters) su.lww_registers
        su.lww_maps su.orsets su.rgas
  AreSorted-apply_kind (lww_map_set key field value timestamp_ms) =
      all_sorted su.counters su.pncounters su.lww_registers
        (IsSorted-insert u.lww_maps key _ su.lww_maps) su.orsets su.rgas
  AreSorted-apply_kind (lww_map_remove key field timestamp_ms) =
      all_sorted su.counters su.pncounters su.lww_registers
        (IsSorted-insert u.lww_maps key _ su.lww_maps) su.orsets su.rgas
  AreSorted-apply_kind (orset_add key element tag) =
      all_sorted su.counters su.pncounters su.lww_registers su.lww_maps
        (IsSorted-insert u.orsets key _ su.orsets) su.rgas
  AreSorted-apply_kind (orset_remove key element observed_tags) =
      all_sorted su.counters su.pncounters su.lww_registers su.lww_maps
        (IsSorted-insert u.orsets key _ su.orsets) su.rgas
  AreSorted-apply_kind (rga_insert key id parent value) =
      all_sorted su.counters su.pncounters su.lww_registers su.lww_maps su.orsets
        (IsSorted-insert u.rgas key _ su.rgas)
  AreSorted-apply_kind (rga_delete key id) =
      all_sorted su.counters su.pncounters su.lww_registers su.lww_maps su.orsets
        (IsSorted-insert u.rgas key _ su.rgas)
  AreSorted-apply_kind (lww_register_set key value timestamp_ms) =
      all_sorted su.counters su.pncounters
        (IsSorted-lww_register_set op.origin key value timestamp_ms r.lww_registers u.lww_registers
          su.lww_registers)
        su.lww_maps su.orsets su.rgas

-- The updates of a batch, from the first operation to the last.
abbrev pub updates_of : Registries → Registries → List Op → Registries
updates_of r u [] = u
updates_of r u (op ∷ ops) = updates_of r (apply_remote_op_to_crdt_updates op r u) ops

commit-updates_of :
    (r u : Registries) (ops : List Op)
    → AreSorted r
    → AreSorted u
    → commit r (updates_of r u ops) ≡ foldl apply_one (commit r u) ops
unfolding apply_remote_op_to_crdt_updates apply_one
commit-updates_of r u [] sr su = refl
commit-updates_of r u (op ∷ ops) sr su =
    commit-updates_of r (apply_kind op op.kind r u) ops sr
      (AreSorted-apply_kind op r u sr su op.kind)
    ∙ ap (λ t. foldl apply_one t ops) (commit-apply_kind op r u sr su op.kind)

-- On registries in key order, committing the table of updates that a batch builds leaves what
-- applying its operations to the registries one after another leaves.
pub commit-batch :
    (r : Registries) (ops : List Op)
    → AreSorted r
    → commit r (updates_of r no_updates ops) ≡ foldl apply_one r ops
commit-batch r ops sr =
    commit-updates_of r no_updates ops sr (all_sorted tt tt tt tt tt tt)
    ∙ ap (λ t. foldl apply_one t ops) (commit-no_updates r)

IsSorted-commit_map :
    {V : Type 0} (registry updates : HashMap Bytes V)
    → IsSorted registry
    → IsSorted (commit_map registry updates)
unfolding commit_map for_entries
IsSorted-commit_map registry [] s = s
IsSorted-commit_map registry ((key, value) ∷ updates) s =
    IsSorted-commit_map (insert registry key value) updates (IsSorted-insert registry key value s)

-- Committing keeps the maps in key order.
pub AreSorted-commit : (r u : Registries) → AreSorted r → AreSorted (commit r u)
unfolding commit
AreSorted-commit r u s =
    all_sorted (IsSorted-commit_map r.counters u.counters s.counters)
      (IsSorted-commit_map r.pncounters u.pncounters s.pncounters)
      (IsSorted-commit_map r.lww_registers u.lww_registers s.lww_registers)
      (IsSorted-commit_map r.lww_maps u.lww_maps s.lww_maps)
      (IsSorted-commit_map r.orsets u.orsets s.orsets) (IsSorted-commit_map r.rgas u.rgas s.rgas)
