-- ===== src/Store/Sled.antt =====
-- What the store uses of sled, a third-party database, and what its documentation promises: entries
-- in the order of their keys, iterated in that order. An iterator is the list of what it yields.
use numax.Prelude.{
  ◌≡◌, Bool, not, Option, List, [], ◌∷◌, map, Bytes, bytes_ord, above, same, filter, starts_with,
}
use numax.Prelude.Result.{Result, ok}
use numax.Map.{BTreeMap, get, insert, contains_key}
use numax.Map.Laws.{IsSorted}

abbrev pub Entry : Type 0
Entry = Bytes × Bytes

-- A change of a `sled::Batch`.
pub data Change : Type 0 where
  put : Bytes → Bytes → Change
  erase : Bytes → Change

pub record Sled : Type 1 where
  pub Db : Type 0
  pub Error : Type 0
  pub get_key : Db → Bytes → Result Error (Option Bytes)
  pub has_key : Db → Bytes → Result Error Bool
  pub scan_prefix : Db → Bytes → List (Result Error Entry)
  pub range_from : Db → Bytes → List (Result Error Entry)
  pub iter : Db → List (Result Error Entry)
  pub put_key : Db → Bytes → Bytes → Result Error (Unit {0}) × Db
  pub remove_key : Db → Bytes → Result Error (Unit {0}) × Db
  pub apply_changes : Db → List Change → Result Error (Unit {0}) × Db
  pub sync_to_disk : Db → Result Error (Unit {0}) × Db

abbrev pub Entries : Type 0
Entries = BTreeMap Bytes Bytes

-- The entries that a change, or a batch of changes in its order, leaves.
unfoldable pub change : Entries → Change → Entries
change entries (put k v) = insert entries k v
change entries (erase k) = filter (λ e. not (same e.0 k)) entries

unfoldable pub change_all : Entries → List Change → Entries
unfolding change
change_all entries [] = entries
change_all entries (c ∷ changes) = change_all (change entries c) changes

-- What a database without faults answers while it holds some entries.
pub record Shows (s : Sled) (db : s.Db) (entries : Entries) : Type 0 where
  pub sorted : IsSorted entries
  pub shows_get : (k : Bytes) → s.get_key db k ≡ ok (get entries k)
  pub shows_has : (k : Bytes) → s.has_key db k ≡ ok (contains_key entries k)
  pub shows_prefix :
      (p : Bytes) → s.scan_prefix db p ≡ map ok (filter (λ e. starts_with e.0 p) entries)
  pub shows_range :
      (k : Bytes) → s.range_from db k ≡ map ok (filter (λ e. not (above k e.0)) entries)
  pub shows_iter : s.iter db ≡ map ok entries

-- A write that succeeds leaves the entries that it means to.
pub record IsLawful (s : Sled) : Type 0 where
  pub puts :
      (db : s.Db) (entries : Entries) (k v : Bytes)
      → Shows s db entries
      → (s.put_key db k v).0 ≡ ok tt
      → Shows s (s.put_key db k v).1 (change entries (put k v))
  pub removes :
      (db : s.Db) (entries : Entries) (k : Bytes)
      → Shows s db entries
      → (s.remove_key db k).0 ≡ ok tt
      → Shows s (s.remove_key db k).1 (change entries (erase k))
  pub applies :
      (db : s.Db) (entries : Entries) (changes : List Change)
      → Shows s db entries
      → (s.apply_changes db changes).0 ≡ ok tt
      → Shows s (s.apply_changes db changes).1 (change_all entries changes)
