-- ===== src/Sdk/Items.antt =====
-- The guest's `get`, `set`, `delete` and `exists` over the host functions over a store.
use numax.Prelude.{
  ℕ, ◌≤◌, ◌≡◌, refl, sym, ap, subst, true, Option, none, some, Option-cases, [], Bytes, bytes_ord,
  length, leb, Bool-cases, inl, inr, arith, if◌then◌else◌,
}
use numax.Prelude.Result.{Result, ok, err}
use numax.Abi.{err_not_found}
use numax.Map
use numax.Store.Sled.{Sled, Entries, Shows, IsLawful, change, put, erase}
use numax.Store.Writes.{
  Store, after_check, lock, set_unlocked, delete_unlocked, keep, check_injected_write_failure,
}
use numax.Store.Writes
use numax.Store.Scan.{from_sled}
use numax.HostApi.Guest.{
  Answer, answers, returns, get_memory, write_out, max_value_len, max_out_cap,
}
use numax.HostApi.Db.{
  db_get_impl, db_set_impl, db_delete_impl, from_store, found, finish_write, write_or,
}
use numax.Sdk.{NxError, buffer_too_small}
use numax.Sdk.Ffi.{get_outcome, max_scan_buffer}
use numax.Sdk.Db.{get, map_rc_unit, attempts}
use numax.Sdk.Grow.{grow_lem, grow_absent}
use numax.Sdk.Link.{Placement, Places, linked, linked_get, linked_set, linked_delete, buffer_after}
use numax.Sdk.Served.{IsAllowed, read_validated_key_lem, read_bytes_lem, write_out-Serves}

-- What `get` makes of an entry: a value larger than the largest buffer is out of reach.
abbrev pub got : Option Bytes → Result NxError (Option Bytes)
got none = ok none
got (some value) =
    if leb (length value) max_scan_buffer then ok (some value) else err buffer_too_small

-- Behind the lock and the check, a write that is answered as done is one that sled has done.
kept :
    (s : Sled) (store : Store s) (write : Result s.Error (Unit {0}) × s.Db)
    → map_rc_unit
        (finish_write s (
          after_check s store
            (lock s store)
            (after_check s store (check_injected_write_failure s) (keep s store write)))).0
      ≡ ok tt
    → (write.0 ≡ ok tt)
      × ((finish_write s (
            after_check s store
              (lock s store)
              (after_check s store (check_injected_write_failure s) (keep s store write)))).1.db
          ≡ write.1)
unfolding finish_write lock map_rc_unit after_check check_injected_write_failure keep
kept s store (ok tt, db) done = elim (Bool-cases store.poisoned) [
  | inl poisoned ↦ let done' = rw poisoned at done in absurd (cc)
  | inr clean ↦ rw clean (refl, refl)
]
kept s store (err e, db) done = elim (Bool-cases store.poisoned) [
  | inl poisoned ↦ let done' = rw poisoned at done in absurd (cc)
  | inr clean ↦ let done' = rw clean at done in absurd (cc)
]

module _ (s : Sled) (store : Store s) (entries : Entries) (shows : Shows s store.db entries)
    (place : Placement)
    (places : (first second : Bytes) (room : ℕ)
      → Places (place first second room) first second room) where
  get_answered :
      (key value : Bytes)
      → IsAllowed key
      → Map.get entries key ≡ some value
      → (room : ℕ) → room ≤ max_scan_buffer
      → (let l = place key [] room in
          linked_get s store place key room ≡ answers (write_out l.memory l.out_ptr room value))
  unfolding db_get_impl get_memory from_store found from_sled
  get_answered key value allowed e room small =
      let l = place key [] room in
      let test : leb room max_out_cap ≡ true = ground arith in
      rw
        (
          test,
          read_validated_key_lem l.memory l.first_ptr key allowed (places key [] room).first_there,
          shows.shows_get key,
          e,
        )
        refl

  get_missing :
      (key : Bytes)
      → IsAllowed key
      → Map.get entries key ≡ none
      → (room : ℕ) → room ≤ max_scan_buffer
      → linked_get s store place key room ≡ returns err_not_found
  unfolding db_get_impl get_memory from_store found from_sled
  get_missing key allowed e room small =
      let l = place key [] room in
      let test : leb room max_out_cap ≡ true = ground arith in
      rw
        (
          test,
          read_validated_key_lem l.memory l.first_ptr key allowed (places key [] room).first_there,
          shows.shows_get key,
          e,
        )
        refl

  pub get_lem :
      (key : Bytes)
      → IsAllowed key
      → get (linked s store place) key ≡ some (got (Map.get entries key))
  unfolding get buffer_after
  get_lem key allowed = elim (Option-cases (Map.get entries key)) [
    | inl e ↦ rw e (
        grow_absent get_outcome (ok none) (λ out. ok (some out))
          (λ room. buffer_after room (linked_get s store place key room)) 15 64
          (ap (λ (a : Answer). get_outcome a.code) (get_missing key allowed e 64 (omega arith))))
    | inr (value, e) ↦ rw e (
        grow_lem get_outcome (ok none) (λ out. ok (some out)) _ value attempts 14 64 (λ n. refl)
          refl
          (write_out-Serves (linked_get s store place key) (place key []) key [] value
            (places key []) (get_answered key value allowed e))
          refl (omega arith))
  ]

  pub set_answered :
      (key value : Bytes)
      → IsAllowed key
      → length value ≤ max_value_len
      → linked_set s store place key value ≡ finish_write s (Writes.set s store key value)
  unfolding db_set_impl get_memory write_or
  set_answered key value allowed small =
      let l = place key value 0 in
      let test : leb (length value) max_value_len ≡ true = ground arith in
      rw
        (
          test,
          read_validated_key_lem l.memory l.first_ptr key allowed (places key value 0).first_there,
          read_bytes_lem l.memory l.second_ptr value small (places key value 0).second_there,
        )
        refl

  pub delete_answered :
      (key : Bytes)
      → IsAllowed key
      → linked_delete s store place key ≡ finish_write s (Writes.delete s store key)
  unfolding db_delete_impl get_memory write_or
  delete_answered key allowed =
      let l = place key [] 0 in
      rw (read_validated_key_lem l.memory l.first_ptr key allowed (places key [] 0).first_there)
        refl

  -- A write that is answered as done changed the entries.
  pub set_done :
      (key value : Bytes)
      → IsLawful s
      → map_rc_unit (finish_write s (Writes.set s store key value)).0 ≡ ok tt
      → Shows s
          (finish_write s (Writes.set s store key value)).1.db
          (change entries (put key value))
  unfolding Writes.set
  set_done key value lawful done =
      let (written, is) = kept s store (s.put_key store.db key value) done in
      subst (λ (db : s.Db). Shows s db (change entries (put key value))) (sym is)
        (lawful.puts store.db entries key value shows written)

  pub delete_done :
      (key : Bytes)
      → IsLawful s
      → map_rc_unit (finish_write s (Writes.delete s store key)).0 ≡ ok tt
      → Shows s (finish_write s (Writes.delete s store key)).1.db (change entries (erase key))
  unfolding Writes.delete
  delete_done key lawful done =
      let (written, is) = kept s store (s.remove_key store.db key) done in
      subst (λ (db : s.Db). Shows s db (change entries (erase key))) (sym is)
        (lawful.removes store.db entries key shows written)
