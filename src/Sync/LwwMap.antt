-- ===== src/Sync/LwwMap.antt =====
-- crates/nx-sync/src/crdt/lww_map.rs: a map whose fields are last-write-wins, with tombstones.
pub mod Order
pub mod Laws
use numax.Prelude.{
  ℕ, Bool, true, false, not, ◌&&◌, ◌||◌, Option, none, some, List, [], ◌∷◌, Bytes, bytes_ord, same,
  above, ltb, ◌==◌, if◌then◌else◌,
}
use numax.Map
use numax.Map.{BTreeMap, insert, is_some, for_entries}
use numax.Sync.Op.{NodeId}

pub record LwwMapEntry : Type 0 where
  pub value : Option Bytes
  pub timestamp_ms : ℕ
  pub writer : NodeId

unfoldable pub present : Bytes → ℕ → NodeId → LwwMapEntry
present value timestamp_ms writer = record {
  value = some value;
  timestamp_ms = timestamp_ms;
  writer = writer;
}

unfoldable pub tombstone : ℕ → NodeId → LwwMapEntry
tombstone timestamp_ms writer = record {
  value = none;
  timestamp_ms = timestamp_ms;
  writer = writer;
}

unfoldable pub is_visible : LwwMapEntry → Bool
is_visible entry = is_some entry.value

pub record LwwMap : Type 0 where
  pub entries : BTreeMap Bytes LwwMapEntry

abbrev pub new : LwwMap
new = record { entries = [] }

unfoldable pub value_wins : Option Bytes → Option Bytes → Bool
value_wins none (some _) = true
value_wins (some _) none = false
value_wins none none = false
value_wins (some candidate) (some current) = above candidate current

unfoldable pub entry_wins : LwwMapEntry → LwwMapEntry → Bool
entry_wins candidate current =
    ltb current.timestamp_ms candidate.timestamp_ms
    || (candidate.timestamp_ms == current.timestamp_ms
        && (above candidate.writer current.writer
            || (same candidate.writer current.writer && value_wins candidate.value current.value)))

-- The guard of the `match` in `apply_entry`: an entry is there and the candidate does not win.
unfoldable pub loses : Option LwwMapEntry → LwwMapEntry → Bool
loses none candidate = false
loses (some current) candidate = not (entry_wins candidate current)

unfoldable pub apply_entry : LwwMap → Bytes → LwwMapEntry → LwwMap × Bool
unfolding loses
apply_entry m field candidate =
    if loses (Map.get m.entries field) candidate
    then (m, false)
    else (record { entries = insert m.entries field candidate }, true)

unfoldable pub set : LwwMap → Bytes → Bytes → ℕ → NodeId → LwwMap × Bool
unfolding apply_entry present
set m field value timestamp_ms writer = apply_entry m field (present value timestamp_ms writer)

unfoldable pub remove : LwwMap → Bytes → ℕ → NodeId → LwwMap × Bool
unfolding apply_entry tombstone
remove m field timestamp_ms writer = apply_entry m field (tombstone timestamp_ms writer)

abbrev visible : Option LwwMapEntry → Option Bytes
visible none = none
visible (some entry) = entry.value

unfoldable pub get : LwwMap → Bytes → Option Bytes
get m field = visible (Map.get m.entries field)

unfoldable pub contains : LwwMap → Bytes → Bool
unfolding get
contains m field = is_some (get m field)

abbrev push_visible : Bytes → Option Bytes → List (Bytes × Bytes) → List (Bytes × Bytes)
push_visible field none rest = rest
push_visible field (some value) rest = (field, value) ∷ rest

unfoldable pub visible_entries : BTreeMap Bytes LwwMapEntry → List (Bytes × Bytes)
visible_entries [] = []
visible_entries ((field, entry) ∷ m) = push_visible field entry.value (visible_entries m)

unfoldable pub entries : LwwMap → List (Bytes × Bytes)
unfolding visible_entries
entries m = visible_entries m.entries

-- The body of the loop of `merge`, with `changed` beside the map.
unfoldable pub merge_entry : LwwMap × Bool → Bytes → LwwMapEntry → LwwMap × Bool
unfolding apply_entry
merge_entry (m, changed) field entry =
    let (m', wrote) = apply_entry m field entry in (m', changed || wrote)

unfoldable pub merge : LwwMap → LwwMap → LwwMap × Bool
unfolding merge_entry
merge m other = for_entries merge_entry (m, false) other.entries

unfoldable pub merged_with : LwwMap → LwwMap → LwwMap
unfolding merge
merged_with m other = (merge m other).0
