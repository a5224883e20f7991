-- ===== src/Sdk/Link.antt =====
-- The SDK linked to the host: `extern "C"` of crates/nx-sdk/src/ffi.rs, and the functions that
-- host_api/db.rs registers under those names. WebAssembly passes addresses and lengths: where the
-- guest keeps its slices and its output buffer is a parameter.
use numax.Prelude.{
  ℕ, zero, suc, ◌≤◌, ◌≡◌, true, Option, none, some, [], ◌∷◌, ◌++◌, Bytes, length, drop,
}
use numax.Prelude.Int.{ℤ}
use numax.Store.Sled.{Sled}
use numax.Store.Writes.{Store}
use numax.HostApi.Guest.{Memory, Answer}
use numax.HostApi.Db.{
  KeyCursorPageRequest, db_get_impl, db_set_impl, db_delete_impl, db_exists_impl, db_scan_impl,
  db_keys_impl, db_scan_after_impl, db_keys_after_impl,
}
use numax.Sdk.Ffi.{Ffi}

-- The memory of the guest at a call with two slices and an output buffer.
pub record Layout : Type 0 where
  pub memory : Memory
  pub first_ptr : ℕ
  pub second_ptr : ℕ
  pub out_ptr : ℕ

-- A layout for every two slices and length of the buffer.
abbrev pub Placement : Type 0
Placement = Bytes → Bytes → ℕ → Layout

pub record Places (l : Layout) (first second : Bytes) (room : ℕ) : Type 0 where
  pub first_there : l.memory.load l.first_ptr (length first) ≡ some first
  pub second_there : l.memory.load l.second_ptr (length second) ≡ some second
  pub buffer_there : (n : ℕ) → n ≤ room → l.memory.holds l.out_ptr n ≡ true

unfoldable pub zeros : ℕ → Bytes
zeros zero = []
zeros (suc n) = 0 ∷ zeros n

-- The output buffer, `vec![0u8; cap]`, after the call.
unfoldable pub buffer_after : ℕ → Answer → ℤ × Bytes
unfolding zeros
buffer_after room answer = (
  answer.code,
  elim answer.written [
    | none ↦ zeros room
    | some (_, bytes) ↦ bytes ++ drop (length bytes) (zeros room)
  ],
)

-- A request for a page behind a key, at a layout of its two slices.
abbrev pub request : Layout → Bytes → Bytes → ℕ → ℕ → KeyCursorPageRequest
request l prefix start limit room = record {
  prefix_ptr = l.first_ptr;
  prefix_len = length prefix;
  start_after_ptr = l.second_ptr;
  start_after_len = length start;
  limit = limit;
  out_ptr = l.out_ptr;
  out_cap = room;
}

module _ (s : Sled) (store : Store s) (place : Placement) where
  abbrev guest : Layout → Option Memory
  guest l = some l.memory

  abbrev pub linked_get : Bytes → ℕ → Answer
  linked_get key room =
      let l = place key [] room in
      db_get_impl s (guest l) store l.first_ptr (length key) l.out_ptr room

  abbrev pub linked_scan_after : Bytes → Bytes → ℕ → ℕ → Answer
  linked_scan_after prefix start limit room =
      let l = place prefix start room in
      db_scan_after_impl s (guest l) store (request l prefix start limit room)

  abbrev pub linked_keys_after : Bytes → Bytes → ℕ → ℕ → Answer
  linked_keys_after prefix start limit room =
      let l = place prefix start room in
      db_keys_after_impl s (guest l) store (request l prefix start limit room)

  -- A write: its code, and the store that it leaves.
  abbrev pub linked_set : Bytes → Bytes → ℤ × Store s
  linked_set key value =
      let l = place key value 0 in
      db_set_impl s (guest l) store l.first_ptr (length key) l.second_ptr (length value)

  abbrev pub linked_delete : Bytes → ℤ × Store s
  linked_delete key =
      let l = place key [] 0 in db_delete_impl s (guest l) store l.first_ptr (length key)

  -- The host functions over a store, as the SDK sees them.
  abbrev pub linked : Ffi
  linked = record {
    db_get = λ key room. buffer_after room (linked_get key room);
    db_set = λ key value. (linked_set key value).0;
    db_delete = λ key. (linked_delete key).0;
    db_exists = λ key.
        let l = place key [] 0 in (db_exists_impl s (guest l) store l.first_ptr (length key)).code;
    db_scan = λ prefix cursor limit room.
        let l = place prefix [] room in
        buffer_after room
          (db_scan_impl s (guest l) store l.first_ptr (length prefix) cursor limit l.out_ptr room);
    db_keys = λ prefix cursor limit room.
        let l = place prefix [] room in
        buffer_after room
          (db_keys_impl s (guest l) store l.first_ptr (length prefix) cursor limit l.out_ptr room);
    db_scan_after =
        λ prefix start limit room. buffer_after room (linked_scan_after prefix start limit room);
    db_keys_after =
        λ prefix start limit room. buffer_after room (linked_keys_after prefix start limit room);
  }
