-- ===== src/Sdk/Writes.antt =====
-- What a guest reads after it wrote, and the keys that no guest reaches.
use numax.Prelude.{
  ℕ, ◌≤◌, ◌≡◌, refl, sym, ap, ◌∙◌, Bool, true, false, not, Option, none, some, [], ◌∷◌, Bytes,
  bytes_ord, same, length, leb, starts_with, arith, if◌then◌else◌,
}
use numax.Prelude.Int.{ℤ}
use numax.Prelude.Result.{ok, err}
use numax.Abi.{err_reserved_key}
use numax.Map
use numax.Store.Sled.{Sled, Entries, Shows, IsLawful, change, erase}
use numax.Store.Writes.{
  Store, after_check, lock, set_unlocked, delete_unlocked, keep, check_injected_write_failure,
}
use numax.Store.Writes
use numax.HostApi.Guest.{
  Memory, Answer, returns, get_memory, read_validated_key, max_key_len, max_value_len, max_out_cap,
  reserved_prefix,
}
use numax.HostApi.Db.{
  db_get_impl, db_set_impl, db_delete_impl, db_exists_impl, finish_write, write_or,
}
use numax.Sdk.{reserved_key}
use numax.Sdk.Ffi.{Run, get_outcome, max_scan_buffer}
use numax.Sdk.Db.{get, set, delete, exists, map_rc_unit}
use numax.Sdk.Grow.{grow_failed}
use numax.Sdk.Link.{Placement, Places, linked, linked_get, linked_set, linked_delete, buffer_after}
use numax.Sdk.Served.{IsAllowed, read_bytes_lem}
use numax.Map.Laws.{get-insert}
use numax.Prelude.{filter}
use numax.Sdk.Items.{got, get_lem, set_answered, delete_answered, set_done, delete_done}

get-erase :
    (entries : Entries) (k j : Bytes)
    → Map.get (filter (λ e. not (same e.0 k)) entries) j
      ≡ (if same j k then none else Map.get entries j)
unfolding Map.get
get-erase [] k j = ground arith
get-erase (e ∷ entries) k j = ground (
  arith,
  get-erase entries k j,
  bytes_ord.eq_of_cmp e.0 k,
  bytes_ord.eq_of_cmp j k,
  bytes_ord.eq_of_cmp j e.0,
  bytes_ord.cmp_refl k,
)

got_put :
    (here : Bool) (value : Bytes) (o : Option Bytes) (before : Run (Option Bytes))
    → length value ≤ max_value_len
    → before ≡ some (got o)
    → some (got (if here then some value else o))
      ≡ (if here then some (ok (some value)) else before)
got_put true value o before small e =
    let test : leb (length value) max_scan_buffer ≡ true = ground arith in rw test refl
got_put false value o before small e = sym e

got_erase :
    (here : Bool) (o : Option Bytes) (before : Run (Option Bytes))
    → before ≡ some (got o)
    → some (got (if here then none else o)) ≡ (if here then some (ok none) else before)
got_erase true o before e = refl
got_erase false o before e = sym e

-- A reserved key is refused before the store is asked.
read_reserved :
    (memory : Memory) (ptr : ℕ) (key : Bytes)
    → length key ≤ max_key_len
    → starts_with key reserved_prefix ≡ true
    → memory.load ptr (length key) ≡ some key
    → read_validated_key memory ptr (length key) ≡ err err_reserved_key
unfolding read_validated_key
read_reserved memory ptr key short is there =
    let test : leb (length key) max_key_len ≡ true = ground arith in
    rw (test, read_bytes_lem memory ptr key (omega (arith, short)) there, is) refl

module _ (s : Sled) (store : Store s) (entries : Entries) (shows : Shows s store.db entries)
    (place : Placement)
    (places : (first second : Bytes) (room : ℕ)
      → Places (place first second room) first second room) where
  -- After a `set` that succeeds, `get` returns the new value for its key, and for every other key
  -- what it returned before. The keys are allowed, the value is at most 1 MiB long, sled shows the
  -- entries of the store and keeps what it promises of writes, and the guest has its slices and its
  -- buffer in memory.
  pub get-set :
      (key value j : Bytes)
      → IsLawful s
      → IsAllowed key
      → IsAllowed j
      → length value ≤ max_value_len
      → set (linked s store place) key value ≡ ok tt
      → get (linked s (linked_set s store place key value).1 place) j
        ≡ (if same j key then some (ok (some value)) else get (linked s store place) j)
  unfolding set change
  get-set key value j lawful allowed allowed_j small done =
      let is = set_answered s store entries shows place places key value allowed small in
      let later =
        set_done s store entries shows place places key value lawful
          (ap (λ (w : ℤ × Store s). map_rc_unit w.0) (sym is) ∙ done) in
      let before = get_lem s store entries shows place places j allowed_j in
      let after =
        get_lem s (finish_write s (Writes.set s store key value)).1 (Map.insert entries key value)
          later place places j allowed_j in
      ap (λ (w : ℤ × Store s). get (linked s w.1 place) j) is
      ∙ after
      ∙ ap (λ (o : Option Bytes). some (got o)) (get-insert entries key value j)
      ∙ got_put (same j key) value (Map.get entries j) _ small before

  -- After a `delete` that succeeds, `get` finds nothing under its key, and for every other key
  -- returns what it returned before. The keys are allowed, sled shows the entries of the store and
  -- keeps what it promises of writes, and the guest has its slices and its buffer in memory.
  pub get-delete :
      (key j : Bytes)
      → IsLawful s
      → IsAllowed key
      → IsAllowed j
      → delete (linked s store place) key ≡ ok tt
      → get (linked s (linked_delete s store place key).1 place) j
        ≡ (if same j key then some (ok none) else get (linked s store place) j)
  unfolding delete change
  get-delete key j lawful allowed allowed_j done =
      let is = delete_answered s store entries shows place places key allowed in
      let later =
        delete_done s store entries shows place places key lawful
          (ap (λ (w : ℤ × Store s). map_rc_unit w.0) (sym is) ∙ done) in
      let before = get_lem s store entries shows place places j allowed_j in
      let after =
        get_lem s (finish_write s (Writes.delete s store key)).1 (change entries (erase key)) later
          place places j allowed_j in
      ap (λ (w : ℤ × Store s). get (linked s w.1 place) j) is
      ∙ after
      ∙ ap (λ (o : Option Bytes). some (got o)) (get-erase entries key j)
      ∙ got_erase (same j key) (Map.get entries j) _ before

-- Whatever the store holds and sled answers.
module _ (s : Sled) (store : Store s) (place : Placement)
    (places : (first second : Bytes) (room : ℕ)
      → Places (place first second room) first second room) where
  reserved_get :
      (key : Bytes)
      → length key ≤ max_key_len
      → starts_with key reserved_prefix ≡ true
      → (room : ℕ) → room ≤ max_scan_buffer
      → linked_get s store place key room ≡ returns err_reserved_key
  unfolding db_get_impl get_memory
  reserved_get key short is room small =
      let l = place key [] room in
      let test : leb room max_out_cap ≡ true = ground arith in
      rw (test, read_reserved l.memory l.first_ptr key short is (places key [] room).first_there)
        refl

  reserved_set :
      (key value : Bytes)
      → length key ≤ max_key_len
      → starts_with key reserved_prefix ≡ true
      → length value ≤ max_value_len
      → linked_set s store place key value ≡ (err_reserved_key, store)
  unfolding db_set_impl get_memory write_or
  reserved_set key value short is small =
      let l = place key value 0 in
      let test : leb (length value) max_value_len ≡ true = ground arith in
      rw (test, read_reserved l.memory l.first_ptr key short is (places key value 0).first_there)
        refl

  reserved_delete :
      (key : Bytes)
      → length key ≤ max_key_len
      → starts_with key reserved_prefix ≡ true
      → linked_delete s store place key ≡ (err_reserved_key, store)
  unfolding db_delete_impl get_memory write_or
  reserved_delete key short is =
      let l = place key [] 0 in
      rw (read_reserved l.memory l.first_ptr key short is (places key [] 0).first_there) refl

  reserved_exists :
      (key : Bytes)
      → length key ≤ max_key_len
      → starts_with key reserved_prefix ≡ true
      → exists (linked s store place) key ≡ err reserved_key
  unfolding exists db_exists_impl get_memory
  reserved_exists key short is =
      let l = place key [] 0 in
      rw (read_reserved l.memory l.first_ptr key short is (places key [] 0).first_there) refl

  -- For a key of at most 8 KiB under the reserved prefix, and a value of at most 1 MiB, `get`,
  -- `exists`, `set` and `delete` over the host functions return the error of a reserved key, and
  -- the last two leave the store as it was, whatever sled answers. The guest has its slices and its
  -- buffer in memory.
  pub reserved_refused :
      (key value : Bytes)
      → length key ≤ max_key_len
      → starts_with key reserved_prefix ≡ true
      → length value ≤ max_value_len
      → (get (linked s store place) key ≡ some (err reserved_key))
        × (exists (linked s store place) key ≡ err reserved_key)
        × (set (linked s store place) key value ≡ err reserved_key)
        × ((linked_set s store place key value).1 ≡ store)
        × (delete (linked s store place) key ≡ err reserved_key)
        × ((linked_delete s store place key).1 ≡ store)
  unfolding get set delete buffer_after
  reserved_refused key value short is small =
      let refused_set = reserved_set key value short is small in
      let refused_delete = reserved_delete key short is in
      (
        grow_failed get_outcome (ok none) (λ out. ok (some out))
            (λ room. buffer_after room (linked_get s store place key room)) 15 64 reserved_key
            (ap (λ (a : Answer). get_outcome a.code) (reserved_get key short is 64 (omega arith))),
        reserved_exists key short is,
        ap (λ (w : ℤ × Store s). map_rc_unit w.0) refused_set,
        ap (λ (w : ℤ × Store s). w.1) refused_set,
        ap (λ (w : ℤ × Store s). map_rc_unit w.0) refused_delete,
        ap (λ (w : ℤ × Store s). w.1) refused_delete,
      )
