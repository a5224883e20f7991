-- ===== src/HostApi/Reads/OwnWrites.antt =====
-- What a guest reads of the registers and sets that it has just changed.
use numax.Prelude.{
  ℕ, ◌≤◌, ◌<◌, ◌≡◌, refl, ap, ◌∙◌, true, false, Option, none, some, Bytes, bytes_ord, length, leb,
  ltb, ◌==◌, Bool-cases, inl, inr, u64_max, arith, saturating_add, max, same_refl, if◌then◌else◌,
}
use numax.Prelude.Int.{pos}
use numax.Prelude.Result.{ok}
use numax.Map.{BTreeMap, get, insert, get_or}
use numax.Map.Laws.{get-insert}
use numax.Sync.LwwRegister
use numax.Sync.LwwRegister.{LwwRegister, candidate_wins}
use numax.Sync.OrSet
use numax.Sync.OrSet.Merge.{has_tag}
use numax.Sync.OrSet.Laws.{contains-add_self, contains-remove_self, contains-unobserved}
use numax.SyncManager.Updates.{Registries}
use numax.HostApi.Guest.{Memory, get_memory, read_bytes, max_out_cap, write_out, as_i32}
use numax.HostApi.Crdt.{
  Handle, read_utf8_key, read_utf8_arg, max_element_len, later_than, stamp_of, set_register,
  unix_epoch_millis, reserve, settle, publish, crdt_lww_set_impl, crdt_orset_add_impl,
  crdt_orset_remove_impl,
}
use numax.HostApi.Reads.{
  i32_from, sync_handle, register_value, set_contains, crdt_lww_get_impl, crdt_orset_contains_impl,
}

wins_lem :
    (before now : ℕ) → before < u64_max → ltb before (max now (saturating_add before 1)) ≡ true
unfolding saturating_add
wins_lem before now early = ground arith

-- The register behind a set that the clock of the registered one has left room for.
set_register_wins :
    (registries : Registries) (key value node_id : Bytes) (now : ℕ) (there : Option LwwRegister)
    → ((r : LwwRegister) → there ≡ some r → r.timestamp_ms < u64_max)
    → let stamp = later_than now (stamp_of there) in
      let written = LwwRegister.new value stamp node_id in
      set_register true registries key written there
      ≡ ok (record registries { lww_registers = insert registries.lww_registers key written })
unfolding set_register LwwRegister.merge candidate_wins
set_register_wins registries key value node_id now none room = refl
set_register_wins registries key value node_id now (some r) room =
    let early : r.timestamp_ms < u64_max = room r refl in
    let wins : ltb r.timestamp_ms (max now (saturating_add r.timestamp_ms 1)) ≡ true =
      wins_lem r.timestamp_ms now early in
    rw wins refl

get-inserted :
    {V : Type 0} (m : BTreeMap Bytes V) (key : Bytes) (v : V) → get (insert m key v) key ≡ some v
get-inserted m key v =
    get-insert m key v key ∙ ap (λ b. if b then some v else get m key) (same_refl key)

-- Where a guest sets a register, the key and the value are read, the clock answers, the queue has
-- room and the store takes the state, and the register that was there is not at the last timestamp,
-- the guest then reads the value that it has set, into a buffer that is in its memory, within the
-- bound and long enough.
pub lww_get-set :
    (memory : Memory) (h : Handle) (op_id : Bytes) (now : ℕ) (key value : Bytes)
    (key_ptr key_len value_ptr value_len out_ptr out_cap : ℕ)
    → read_utf8_key memory key_ptr key_len ≡ ok key
    → read_bytes memory value_ptr value_len ≡ ok value
    → length h.queue < h.queue_capacity
    → ((r : LwwRegister) → get h.registries.lww_registers key ≡ some r → r.timestamp_ms < u64_max)
    → length value ≤ out_cap
    → out_cap ≤ max_out_cap
    → memory.holds out_ptr (length value) ≡ true
    → crdt_lww_get_impl
        (some memory)
        (crdt_lww_set_impl
          (some memory)
          (some h)
          true
          op_id
          (some now)
          key_ptr
          key_len
          value_ptr
          value_len).1
        key_ptr
        key_len
        out_ptr
        out_cap
      ≡ record { code = as_i32 (length value); written = some (out_ptr, value) }
unfolding crdt_lww_get_impl crdt_lww_set_impl get_memory reserve settle publish unix_epoch_millis
    sync_handle register_value write_out
lww_get-set memory h op_id now key value key_ptr key_len value_ptr value_len out_ptr out_cap k v
      room early fits bound there =
    let t1 : ltb (length h.queue) h.queue_capacity ≡ true = ground arith in
    let t2 : leb out_cap max_out_cap ≡ true = ground arith in
    let t3 : leb (length value) out_cap ≡ true = ground arith in
    rw
      (
        k,
        v,
        t1,
        set_register_wins h.registries key value h.node_id now (get h.registries.lww_registers key)
            early,
        t2,
        get-inserted h.registries.lww_registers key (
            LwwRegister.new value (later_than now (stamp_of (get h.registries.lww_registers key)))
              h.node_id),
        t3,
        there,
      )
      refl

-- Where a guest adds an element to a set, the key and the element are read, the queue has room and
-- the store takes the state, and the set has not removed the generated identifier, the guest then
-- reads that the set contains the element.
pub orset_contains-add :
    (memory : Memory) (h : Handle) (op_id key element : Bytes)
    (key_ptr key_len element_ptr element_len : ℕ)
    → read_utf8_key memory key_ptr key_len ≡ ok key
    → read_utf8_arg memory element_ptr element_len max_element_len ≡ ok element
    → length h.queue < h.queue_capacity
    → has_tag (get_or (get h.registries.orsets key) OrSet.new).removes element op_id ≡ false
    → crdt_orset_contains_impl
        (some memory)
        (crdt_orset_add_impl
          (some memory)
          (some h)
          true
          op_id
          key_ptr
          key_len
          element_ptr
          element_len).1
        key_ptr
        key_len
        element_ptr
        element_len
      ≡ pos 1
unfolding crdt_orset_contains_impl crdt_orset_add_impl get_memory reserve settle publish sync_handle
    set_contains
orset_contains-add memory h op_id key element key_ptr key_len element_ptr element_len k e room
      fresh =
    let t1 : ltb (length h.queue) h.queue_capacity ≡ true = ground arith in
    let set = get_or (get h.registries.orsets key) OrSet.new in
    rw
      (
        k,
        e,
        t1,
        get-inserted h.registries.orsets key (OrSet.add set element op_id).0,
        contains-add_self set element op_id fresh,
      )
      refl

set_contains_unobserved :
    (there : Option OrSet.OrSet) (element : Bytes)
    → (length (OrSet.remove (get_or there OrSet.new) element).1 == 0) ≡ true
    → set_contains there element ≡ false
unfolding set_contains
set_contains_unobserved none element h = refl
set_contains_unobserved (some set) element h = contains-unobserved set element h

-- Where a guest removes an element from a set, the key and the element are read, the queue has room
-- and the store takes the state, the guest then reads that the set does not contain the element.
pub orset_contains-remove :
    (memory : Memory) (h : Handle) (op_id key element : Bytes)
    (key_ptr key_len element_ptr element_len : ℕ)
    → read_utf8_key memory key_ptr key_len ≡ ok key
    → read_utf8_arg memory element_ptr element_len max_element_len ≡ ok element
    → length h.queue < h.queue_capacity
    → crdt_orset_contains_impl
        (some memory)
        (crdt_orset_remove_impl
          (some memory)
          (some h)
          true
          op_id
          key_ptr
          key_len
          element_ptr
          element_len).1
        key_ptr
        key_len
        element_ptr
        element_len
      ≡ pos 0
unfolding crdt_orset_contains_impl crdt_orset_remove_impl get_memory reserve settle publish
    sync_handle set_contains
orset_contains-remove memory h op_id key element key_ptr key_len element_ptr element_len k e room =
    let t1 : ltb (length h.queue) h.queue_capacity ≡ true = ground arith in
    let set = get_or (get h.registries.orsets key) OrSet.new in
    let removed = OrSet.remove set element in
    elim (Bool-cases (length removed.1 == 0)) [
      | inl none_observed ↦
          rw (k, e, t1, none_observed)
            (ap i32_from
              (set_contains_unobserved (get h.registries.orsets key) element none_observed))
      | inr observed ↦
          rw
            (
              k,
              e,
              t1,
              observed,
              get-inserted h.registries.orsets key removed.0,
              contains-remove_self set element,
            )
            refl
    ]
