-- ===== src/HostApi/Reads.antt =====
-- crates/nx-core/src/host_api/crdt.rs: the functions by which a guest reads replicated data. They take
-- the registries of `sync_handle` and change nothing.
pub mod OwnWrites
use numax.Prelude.{
  ℕ, Bool, true, false, Option, none, some, List, [], Bytes, bytes_ord, leb, ◌-◌, ◌^◌,
}
use numax.Prelude.Int.{ℤ, pos, negsuc}
use numax.Prelude.Result.{Result, ok, err, ◌>>=◌, ◌>>◌, require}
use numax.Abi.{err_internal, err_not_found, err_sync_disabled, err_buf_too_small}
use numax.Abi.Words.{le_bytes_u64, le_bytes_i64}
use numax.Map.{get}
use numax.Sync.GCounter.{GCounter}
use numax.Sync.GCounter
use numax.Sync.PnCounter.{PnCounter}
use numax.Sync.PnCounter
use numax.Sync.LwwRegister.{LwwRegister}
use numax.Sync.LwwMap.{LwwMap}
use numax.Sync.LwwMap as LwwMaps
use numax.Sync.OrSet.{OrSet}
use numax.Sync.OrSet
use numax.Sync.Rga.{Rga}
use numax.Sync.Rga
use numax.HostApi.Guest.{Memory, Answer, returns, answers, get_memory, max_out_cap, write_out}
use numax.HostApi.Encode.{encode_string_list, encode_bytes_list, encode_lww_map_entries}
use numax.HostApi.Crdt.{Handle, read_utf8_key, read_utf8_arg, max_element_len}

-- `caller.data().sync_handle`
unfoldable pub sync_handle : Option Handle → Result ℤ Handle
sync_handle none = err err_sync_disabled
sync_handle (some h) = ok h

-- `U64_LEN` and `I64_LEN`
abbrev pub u64_len : ℕ
u64_len = 8

-- `i32::from`, for a Boolean.
abbrev pub i32_from : Bool → ℤ
i32_from false = pos 0
i32_from true = pos 1

-- `map(|c| c.value()).unwrap_or(0)`
abbrev pub value_or_zero : Option GCounter → ℕ
value_or_zero none = 0
value_or_zero (some counter) = GCounter.value counter

abbrev pub signed_value_or_zero : Option PnCounter → ℤ
signed_value_or_zero none = pos 0
signed_value_or_zero (some counter) = PnCounter.value counter

-- `let Some(register) = … else { return ERR_NOT_FOUND }`, and its value.
unfoldable pub register_value : Option LwwRegister → Result ℤ Bytes
register_value none = err err_not_found
register_value (some register) = ok register.value

abbrev field_value : Option Bytes → Result ℤ Bytes
field_value none = err err_not_found
field_value (some value) = ok value

unfoldable pub map_value : Option LwwMap → Bytes → Result ℤ Bytes
unfolding LwwMaps.get
map_value none field = err err_not_found
map_value (some map) field = field_value (LwwMaps.get map field)

unfoldable pub map_contains : Option LwwMap → Bytes → Bool
unfolding LwwMaps.contains
map_contains none field = false
map_contains (some map) field = LwwMaps.contains map field

unfoldable pub map_entries : Option LwwMap → List (Bytes × Bytes)
unfolding LwwMaps.entries
map_entries none = []
map_entries (some map) = LwwMaps.entries map

unfoldable pub set_contains : Option OrSet → Bytes → Bool
unfolding OrSet.contains
set_contains none element = false
set_contains (some set) element = OrSet.contains set element

unfoldable pub set_elements : Option OrSet → List Bytes
unfolding OrSet.elements
set_elements none = []
set_elements (some set) = OrSet.elements set

unfoldable pub rga_values : Option Rga → Option (List Bytes)
unfolding Rga.values
rga_values none = some []
rga_values (some rga) = Rga.values rga

-- The end of `crdt_rga_values_impl`; `none` passes on that the depth of the sequence did not suffice.
unfoldable pub write_values : ℕ → ℕ → Result ℤ (Memory × Option (List Bytes)) → Option Answer
unfolding write_out encode_bytes_list
write_values out_ptr out_cap (err code) = some (returns code)
write_values out_ptr out_cap (ok (memory, none)) = none
write_values out_ptr out_cap (ok (memory, some values)) =
    some (answers do encoded ← encode_bytes_list values; write_out memory out_ptr out_cap encoded)

abbrev pub code_of : Result ℤ ℤ → ℤ
code_of (ok code) = code
code_of (err code) = code

module _ (guest : Option Memory) (handle : Option Handle) where
  unfoldable pub crdt_gcounter_value_impl : ℕ → ℕ → ℕ → ℕ → Answer
  unfolding get_memory read_utf8_key sync_handle write_out GCounter.value le_bytes_u64
  crdt_gcounter_value_impl key_ptr key_len out_ptr out_cap = answers do
    memory ← get_memory guest
    require (leb u64_len out_cap) err_buf_too_small
    key ← read_utf8_key memory key_ptr key_len
    h ← sync_handle handle
    let value = value_or_zero (get h.registries.counters key)
    write_out memory out_ptr out_cap (le_bytes_u64 value)

  unfoldable pub crdt_pncounter_value_impl : ℕ → ℕ → ℕ → ℕ → Answer
  unfolding get_memory read_utf8_key sync_handle write_out PnCounter.value le_bytes_i64
  crdt_pncounter_value_impl key_ptr key_len out_ptr out_cap = answers do
    memory ← get_memory guest
    require (leb u64_len out_cap) err_buf_too_small
    key ← read_utf8_key memory key_ptr key_len
    h ← sync_handle handle
    let value = signed_value_or_zero (get h.registries.pncounters key)
    write_out memory out_ptr out_cap (le_bytes_i64 value)

  unfoldable pub crdt_lww_get_impl : ℕ → ℕ → ℕ → ℕ → Answer
  unfolding get_memory read_utf8_key sync_handle write_out register_value
  crdt_lww_get_impl key_ptr key_len out_ptr out_cap = answers do
    memory ← get_memory guest
    require (leb out_cap max_out_cap) err_internal
    key ← read_utf8_key memory key_ptr key_len
    h ← sync_handle handle
    value ← register_value (get h.registries.lww_registers key)
    write_out memory out_ptr out_cap value

  unfoldable pub crdt_lww_map_get_impl : ℕ → ℕ → ℕ → ℕ → ℕ → ℕ → Answer
  unfolding get_memory read_utf8_key read_utf8_arg sync_handle write_out map_value
  crdt_lww_map_get_impl key_ptr key_len field_ptr field_len out_ptr out_cap = answers do
    memory ← get_memory guest
    require (leb out_cap max_out_cap) err_internal
    key ← read_utf8_key memory key_ptr key_len
    field ← read_utf8_arg memory field_ptr field_len max_element_len
    h ← sync_handle handle
    value ← map_value (get h.registries.lww_maps key) field
    write_out memory out_ptr out_cap value

  unfoldable pub crdt_lww_map_contains_impl : ℕ → ℕ → ℕ → ℕ → ℤ
  unfolding get_memory read_utf8_key read_utf8_arg sync_handle map_contains
  crdt_lww_map_contains_impl key_ptr key_len field_ptr field_len = code_of do
    memory ← get_memory guest
    key ← read_utf8_key memory key_ptr key_len
    field ← read_utf8_arg memory field_ptr field_len max_element_len
    h ← sync_handle handle
    ok (i32_from (map_contains (get h.registries.lww_maps key) field))

  unfoldable pub crdt_lww_map_entries_impl : ℕ → ℕ → ℕ → ℕ → Answer
  unfolding get_memory read_utf8_key sync_handle write_out map_entries encode_lww_map_entries
  crdt_lww_map_entries_impl key_ptr key_len out_ptr out_cap = answers do
    memory ← get_memory guest
    require (leb out_cap max_out_cap) err_internal
    key ← read_utf8_key memory key_ptr key_len
    h ← sync_handle handle
    encoded ← encode_lww_map_entries (map_entries (get h.registries.lww_maps key))
    write_out memory out_ptr out_cap encoded

  unfoldable pub crdt_orset_contains_impl : ℕ → ℕ → ℕ → ℕ → ℤ
  unfolding get_memory read_utf8_key read_utf8_arg sync_handle set_contains
  crdt_orset_contains_impl key_ptr key_len element_ptr element_len = code_of do
    memory ← get_memory guest
    key ← read_utf8_key memory key_ptr key_len
    element ← read_utf8_arg memory element_ptr element_len max_element_len
    h ← sync_handle handle
    ok (i32_from (set_contains (get h.registries.orsets key) element))

  unfoldable pub crdt_orset_elements_impl : ℕ → ℕ → ℕ → ℕ → Answer
  unfolding get_memory read_utf8_key sync_handle write_out set_elements encode_string_list
  crdt_orset_elements_impl key_ptr key_len out_ptr out_cap = answers do
    memory ← get_memory guest
    require (leb out_cap max_out_cap) err_internal
    key ← read_utf8_key memory key_ptr key_len
    h ← sync_handle handle
    encoded ← encode_string_list (set_elements (get h.registries.orsets key))
    write_out memory out_ptr out_cap encoded

  unfoldable pub crdt_rga_values_impl : ℕ → ℕ → ℕ → ℕ → Option Answer
  unfolding get_memory read_utf8_key sync_handle rga_values write_values
  crdt_rga_values_impl key_ptr key_len out_ptr out_cap = write_values out_ptr out_cap do
    memory ← get_memory guest
    require (leb out_cap max_out_cap) err_internal
    key ← read_utf8_key memory key_ptr key_len
    h ← sync_handle handle
    ok (memory, rga_values (get h.registries.rgas key))
