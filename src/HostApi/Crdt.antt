-- ===== src/HostApi/Crdt.antt =====
-- crates/nx-core/src/host_api/crdt.rs: the changes of replicated data that a guest asks for. A call
-- changes the registry of its node, stores the new state, and sends an operation to the broadcast
-- queue. Whether storing succeeds, the clock and the generated identifier are arguments; metrics and
-- logging are left out.
pub mod Published
pub mod Calls
pub mod Unsent
use numax.Prelude.{
  ℕ, ◌+◌, max, Bool, true, false, not, Option, none, some, List, [], ◌∷◌, ◌++◌, Bytes, bytes_ord,
  length, leb, ltb, ◌==◌, starts_with, saturating_add, if◌then◌else◌,
}
use numax.Prelude.Int.{ℤ, pos}
use numax.Prelude.Result.{Result, ok, err, ◌>>=◌, ◌>>◌, require}
use numax.Abi.{err_internal, err_reserved_key, err_sync_disabled, err_buf_too_small}
use numax.Abi.Utf8.{is_utf8}
use numax.Map.{get, insert, get_or}
use numax.Sync.GCounter
use numax.Sync.PnCounter
use numax.Sync.PnCounter.{PnCounter}
use numax.Sync.LwwRegister
use numax.Sync.LwwRegister.{LwwRegister}
use numax.Sync.LwwMap as LwwMaps
use numax.Sync.LwwMap.{LwwMap, LwwMapEntry}
use numax.Sync.OrSet
use numax.Sync.Rga
use numax.Sync.Op.{
  NodeId, Op, new_gcounter_increment, new_pncounter_increment, new_pncounter_decrement,
  new_lww_register_set, new_lww_map_set, new_lww_map_remove, orset_add_with_op_id_tag,
  new_orset_remove, rga_insert_with_op_id, new_rga_delete,
}
use numax.SyncManager.Updates.{Registries}
use numax.HostApi.Guest.{
  Memory, get_memory, read_bytes, max_key_len, max_out_cap, reserved_prefix, as_i32,
}

-- What a host call uses of the manager: `sync_handle`.
pub record Handle : Type 0 where
  pub node_id : NodeId
  pub registries : Registries
  -- The broadcast queue, and its capacity.
  pub queue : List Op
  pub queue_capacity : ℕ

abbrev pub max_element_len : ℕ
max_element_len = max_key_len

-- `read_utf8_arg`
unfoldable pub read_utf8_arg : Memory → ℕ → ℕ → ℕ → Result ℤ Bytes
unfolding read_bytes is_utf8
read_utf8_arg memory ptr len max_len = do
  require (leb len max_len) err_internal
  bytes ← read_bytes memory ptr len
  require (is_utf8 bytes) err_internal
  ok bytes

-- `read_validated_key` of crdt.rs, which wants UTF-8.
unfoldable pub read_utf8_key : Memory → ℕ → ℕ → Result ℤ Bytes
unfolding read_utf8_arg starts_with
read_utf8_key memory ptr len = do
  key ← read_utf8_arg memory ptr len max_key_len
  require (not (starts_with key reserved_prefix)) err_reserved_key
  ok key

-- A later timestamp than the one that is there.
abbrev pub later_than : ℕ → Option ℕ → ℕ
later_than now none = now
later_than now (some timestamp_ms) = max now (saturating_add timestamp_ms 1)

-- `unix_epoch_millis`, of a clock that may stand before the epoch or past `u64`.
unfoldable pub unix_epoch_millis : Option ℕ → Result ℤ ℕ
unix_epoch_millis none = err err_internal
unix_epoch_millis (some now) = ok now

-- `sync_handle`, and a place in its queue.
unfoldable pub reserve : Option Handle → Result ℤ Handle
reserve none = err err_sync_disabled
reserve (some h) = do require (ltb (length h.queue) h.queue_capacity) err_internal; ok h

-- The code of a call, and the handle behind it; a call that fails has changed nothing.
unfoldable pub settle : Option Handle → Result ℤ (ℤ × Handle) → ℤ × Option Handle
settle before (ok (code, h)) = (code, some h)
settle before (err code) = (code, before)

-- The new registries, and the operation sent.
unfoldable pub publish : Handle → Registries → Op → Handle
publish h registries op = record h { registries = registries; queue = h.queue ++ op ∷ [] }

pub data PnCounterChange : Type 0 where
  increment decrement : PnCounterChange

unfoldable pub change_counter : PnCounterChange → PnCounter → NodeId → ℕ → PnCounter
change_counter increment counter node_id delta = PnCounter.increment counter node_id delta
change_counter decrement counter node_id delta = PnCounter.decrement counter node_id delta

unfoldable pub change_op : PnCounterChange → Bytes → NodeId → Bytes → ℕ → Op
change_op increment id node_id key delta = new_pncounter_increment id node_id key delta
change_op decrement id node_id key delta = new_pncounter_decrement id node_id key delta

-- The registers after a local set: a candidate that loses leaves them, and nothing is stored then.
unfoldable pub set_register :
    Bool → Registries → Bytes → LwwRegister → Option LwwRegister → Result ℤ Registries
set_register stored registries key candidate none = do
  require stored err_internal
  ok (record registries { lww_registers = insert registries.lww_registers key candidate })
set_register stored registries key candidate (some register) =
    let (merged, changed) = LwwRegister.merge register candidate in
    if changed
    then (do
      require stored err_internal
      ok (record registries { lww_registers = insert registries.lww_registers key merged }))
    else ok registries

abbrev pub stamp_of : Option LwwRegister → Option ℕ
stamp_of none = none
stamp_of (some register) = some register.timestamp_ms

abbrev pub entry_stamp : Option LwwMapEntry → Option ℕ
entry_stamp none = none
entry_stamp (some entry) = some entry.timestamp_ms

-- `RgaInsertArgs`
pub record RgaInsertArgs : Type 0 where
  pub key_ptr : ℕ
  pub key_len : ℕ
  pub parent_ptr : ℕ
  pub parent_len : ℕ
  pub value_ptr : ℕ
  pub value_len : ℕ
  pub out_id_ptr : ℕ
  pub out_id_cap : ℕ

unfoldable pub read_parent : Memory → ℕ → ℕ → Result ℤ (Option Bytes)
unfolding read_utf8_arg
read_parent memory ptr len =
    if len == 0
    then ok none
    else do parent ← read_utf8_arg memory ptr len max_element_len; ok (some parent)

-- The end of an insertion: the element is in the registry and in the store, and then its identifier is
-- written to the guest. Where that fails the operation is not sent.
unfoldable pub finish_insert : Memory → ℕ → Handle → Registries → Op → ℤ × Handle
unfolding publish as_i32
finish_insert memory out_id_ptr h registries op =
    if memory.holds out_id_ptr (length op.id)
    then (as_i32 (length op.id), publish h registries op)
    else (err_internal, record h { registries = registries })

module _ (guest : Option Memory) (handle : Option Handle) (stored : Bool) (op_id : Bytes) where
  unfoldable pub crdt_gcounter_inc_impl : ℕ → ℕ → ℕ → ℤ × Option Handle
  unfolding get_memory read_utf8_key reserve settle publish
  crdt_gcounter_inc_impl key_ptr key_len delta = settle handle do
    memory ← get_memory guest
    key ← read_utf8_key memory key_ptr key_len
    h ← reserve handle
    require stored err_internal
    let counters = h.registries.counters
    let counter = GCounter.increment (get_or (get counters key) GCounter.new) h.node_id delta
    ok (
      pos 0,
      publish h (record h.registries { counters = insert counters key counter })
          (new_gcounter_increment op_id h.node_id key delta),
    )

  unfoldable pub crdt_pncounter_change_impl : ℕ → ℕ → ℕ → PnCounterChange → ℤ × Option Handle
  unfolding get_memory read_utf8_key reserve settle publish change_counter change_op
  crdt_pncounter_change_impl key_ptr key_len delta change = settle handle do
    memory ← get_memory guest
    key ← read_utf8_key memory key_ptr key_len
    h ← reserve handle
    require stored err_internal
    let counters = h.registries.pncounters
    let counter = change_counter change (get_or (get counters key) PnCounter.new) h.node_id delta
    ok (
      pos 0,
      publish h (record h.registries { pncounters = insert counters key counter })
          (change_op change op_id h.node_id key delta),
    )

  unfoldable pub crdt_pncounter_inc_impl : ℕ → ℕ → ℕ → ℤ × Option Handle
  unfolding crdt_pncounter_change_impl
  crdt_pncounter_inc_impl key_ptr key_len delta =
      crdt_pncounter_change_impl key_ptr key_len delta increment

  unfoldable pub crdt_pncounter_dec_impl : ℕ → ℕ → ℕ → ℤ × Option Handle
  unfolding crdt_pncounter_change_impl
  crdt_pncounter_dec_impl key_ptr key_len delta =
      crdt_pncounter_change_impl key_ptr key_len delta decrement

  unfoldable pub crdt_orset_add_impl : ℕ → ℕ → ℕ → ℕ → ℤ × Option Handle
  unfolding get_memory read_utf8_key read_utf8_arg reserve settle publish
  crdt_orset_add_impl key_ptr key_len element_ptr element_len = settle handle do
    memory ← get_memory guest
    key ← read_utf8_key memory key_ptr key_len
    element ← read_utf8_arg memory element_ptr element_len max_element_len
    h ← reserve handle
    require stored err_internal
    let sets = h.registries.orsets
    let set = (OrSet.add (get_or (get sets key) OrSet.new) element op_id).0
    ok (
      pos 0,
      publish h (record h.registries { orsets = insert sets key set })
          (orset_add_with_op_id_tag op_id h.node_id key element),
    )

  unfoldable pub crdt_orset_remove_impl : ℕ → ℕ → ℕ → ℕ → ℤ × Option Handle
  unfolding get_memory read_utf8_key read_utf8_arg reserve settle publish
  crdt_orset_remove_impl key_ptr key_len element_ptr element_len = settle handle do
    memory ← get_memory guest
    key ← read_utf8_key memory key_ptr key_len
    element ← read_utf8_arg memory element_ptr element_len max_element_len
    h ← reserve handle
    let sets = h.registries.orsets
    let removed = OrSet.remove (get_or (get sets key) OrSet.new) element
    if length removed.1 == 0 then ok (pos 0, h) else do
      require stored err_internal
      ok (
        pos 0,
        publish h (record h.registries { orsets = insert sets key removed.0 })
            (new_orset_remove op_id h.node_id key element removed.1),
      )

  unfoldable pub crdt_rga_insert_impl : RgaInsertArgs → ℤ × Option Handle
  unfolding get_memory read_utf8_key read_parent reserve settle finish_insert
  crdt_rga_insert_impl args = settle handle do
    memory ← get_memory guest
    require (leb args.out_id_cap max_out_cap) err_internal
    key ← read_utf8_key memory args.key_ptr args.key_len
    parent ← read_parent memory args.parent_ptr args.parent_len
    value ← read_bytes memory args.value_ptr args.value_len
    h ← reserve handle
    let op = rga_insert_with_op_id op_id h.node_id key parent value
    require (leb (length op_id) args.out_id_cap) err_buf_too_small
    require stored err_internal
    let rgas = h.registries.rgas
    let rga = (Rga.rga_insert (get_or (get rgas key) Rga.new) op_id parent value).0
    ok (
        finish_insert memory args.out_id_ptr h (record h.registries { rgas = insert rgas key rga })
          op)

  unfoldable pub crdt_rga_delete_impl : ℕ → ℕ → ℕ → ℕ → ℤ × Option Handle
  unfolding get_memory read_utf8_key read_utf8_arg reserve settle publish
  crdt_rga_delete_impl key_ptr key_len id_ptr id_len = settle handle do
    memory ← get_memory guest
    key ← read_utf8_key memory key_ptr key_len
    id ← read_utf8_arg memory id_ptr id_len max_element_len
    h ← reserve handle
    require stored err_internal
    let rgas = h.registries.rgas
    let rga = (Rga.delete (get_or (get rgas key) Rga.new) id).0
    ok (
      pos 0,
      publish h (record h.registries { rgas = insert rgas key rga })
          (new_rga_delete op_id h.node_id key id),
    )

module _ (guest : Option Memory) (handle : Option Handle) (stored : Bool) (op_id : Bytes)
    (clock : Option ℕ) where
  unfoldable pub crdt_lww_set_impl : ℕ → ℕ → ℕ → ℕ → ℤ × Option Handle
  unfolding get_memory read_utf8_key read_bytes unix_epoch_millis reserve settle publish
      set_register
  crdt_lww_set_impl key_ptr key_len value_ptr value_len = settle handle do
    memory ← get_memory guest
    key ← read_utf8_key memory key_ptr key_len
    value ← read_bytes memory value_ptr value_len
    now ← unix_epoch_millis clock
    h ← reserve handle
    let there = get h.registries.lww_registers key
    let timestamp_ms = later_than now (stamp_of there)
    registries ←
        set_register stored h.registries key (LwwRegister.new value timestamp_ms h.node_id) there
    ok (pos 0, publish h registries (new_lww_register_set op_id h.node_id key value timestamp_ms))

  unfoldable pub crdt_lww_map_set_impl : ℕ → ℕ → ℕ → ℕ → ℕ → ℕ → ℤ × Option Handle
  unfolding get_memory read_utf8_key read_utf8_arg read_bytes unix_epoch_millis reserve settle
      publish
  crdt_lww_map_set_impl key_ptr key_len field_ptr field_len value_ptr value_len = settle handle do
    memory ← get_memory guest
    key ← read_utf8_key memory key_ptr key_len
    field ← read_utf8_arg memory field_ptr field_len max_element_len
    value ← read_bytes memory value_ptr value_len
    now ← unix_epoch_millis clock
    h ← reserve handle
    require stored err_internal
    let maps = h.registries.lww_maps
    let there = get_or (get maps key) LwwMaps.new
    let timestamp_ms = later_than now (entry_stamp (get there.entries field))
    let map = (LwwMaps.set there field value timestamp_ms h.node_id).0
    ok (
      pos 0,
      publish h (record h.registries { lww_maps = insert maps key map })
          (new_lww_map_set op_id h.node_id key field value timestamp_ms),
    )

  unfoldable pub crdt_lww_map_remove_impl : ℕ → ℕ → ℕ → ℕ → ℤ × Option Handle
  unfolding get_memory read_utf8_key read_utf8_arg unix_epoch_millis reserve settle publish
  crdt_lww_map_remove_impl key_ptr key_len field_ptr field_len = settle handle do
    memory ← get_memory guest
    key ← read_utf8_key memory key_ptr key_len
    field ← read_utf8_arg memory field_ptr field_len max_element_len
    now ← unix_epoch_millis clock
    h ← reserve handle
    require stored err_internal
    let maps = h.registries.lww_maps
    let there = get_or (get maps key) LwwMaps.new
    let timestamp_ms = later_than now (entry_stamp (get there.entries field))
    let map = (LwwMaps.remove there field timestamp_ms h.node_id).0
    ok (
      pos 0,
      publish h (record h.registries { lww_maps = insert maps key map })
          (new_lww_map_remove op_id h.node_id key field timestamp_ms),
    )
