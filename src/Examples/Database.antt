-- ===== src/Examples/Database.antt =====
-- A database in memory that keeps what sled promises, and a guest that lays its slices one behind the
-- other.
use numax.Prelude.{
  ℕ, zero, suc, ◌+◌, ◌≡◌, refl, sym, ap, ◌∙◌, subst, true, not, none, some, List, [], ◌∷◌, ◌++◌,
  map, Bytes, bytes_ord, above, length, length-append, take, drop, take-append, drop-append, leb,
  starts_with, filter, arith, if◌then◌else◌,
}
use numax.Prelude.Result.{Result, ok, err}
use numax.Map.{get, contains_key}
use numax.Map.Laws.{IsSorted, IsSorted-insert}
use numax.Store.Sled.{Sled, Entry, Entries, Change, put, erase, Shows, IsLawful, change, change_all}
use numax.Store.Visible.{IsSorted-filter}
use numax.Sdk.Link.{Placement, Places, zeros}

abbrev pub in_memory : Sled
in_memory = record {
  Db = Entries;
  Error = Unit {0};
  get_key = λ db k. ok (get db k);
  has_key = λ db k. ok (contains_key db k);
  scan_prefix = λ db p. map ok (filter (λ e. starts_with e.0 p) db);
  range_from = λ db k. map ok (filter (λ e. not (above k e.0)) db);
  iter = λ db. map ok db;
  put_key = λ db k v. (ok tt, change db (put k v));
  remove_key = λ db k. (ok tt, change db (erase k));
  apply_changes = λ db changes. (ok tt, change_all db changes);
  sync_to_disk = λ db. (ok tt, db);
}

pub in_memory-Shows : (entries : Entries) → IsSorted entries → Shows in_memory entries entries
in_memory-Shows entries sorted = record {
  sorted = sorted;
  shows_get = λ k. refl;
  shows_has = λ k. refl;
  shows_prefix = λ p. refl;
  shows_range = λ k. refl;
  shows_iter = refl;
}

-- The entries that an iterator yields.
yielded : List (Result (Unit {0}) Entry) → Entries
yielded [] = []
yielded (ok e ∷ items) = e ∷ yielded items
yielded (err _ ∷ items) = yielded items

yielded-map : (xs : Entries) → yielded (map ok xs) ≡ xs
unfolding yielded
yielded-map [] = refl
yielded-map (x ∷ xs) = ap (◌∷◌ x) (yielded-map xs)

items_eq :
    (xs ys : Entries) → ◌≡◌ {A = List (Result (Unit {0}) Entry)} (map ok xs) (map ok ys) → xs ≡ ys
items_eq xs ys h = sym (yielded-map xs) ∙ ap yielded h ∙ yielded-map ys

change-IsSorted : (entries : Entries) (c : Change) → IsSorted entries → IsSorted (change entries c)
unfolding change
change-IsSorted entries (put k v) s = IsSorted-insert entries k v s
change-IsSorted entries (erase k) s = IsSorted-filter _ entries s

change_all-IsSorted :
    (entries : Entries) (changes : List Change)
    → IsSorted entries
    → IsSorted (change_all entries changes)
unfolding change_all
change_all-IsSorted entries [] s = s
change_all-IsSorted entries (c ∷ changes) s =
    change_all-IsSorted (change entries c) changes (change-IsSorted entries c s)

-- The same entries, changed alike.
changed :
    (db entries : Entries) (f : Entries → Entries)
    → ((m : Entries) → IsSorted m → IsSorted (f m))
    → Shows in_memory db entries
    → Shows in_memory (f db) (f entries)
changed db entries f keeps shows =
    subst (λ (m : Entries). Shows in_memory (f m) (f entries))
      (sym (items_eq db entries shows.shows_iter))
      (in_memory-Shows (f entries) (keeps entries shows.sorted))

pub in_memory-IsLawful : IsLawful in_memory
in_memory-IsLawful = record {
  puts = λ db entries k v shows _.
      changed db entries (λ m. change m (put k v)) (λ m. change-IsSorted m (put k v)) shows;
  removes = λ db entries k shows _.
      changed db entries (λ m. change m (erase k)) (λ m. change-IsSorted m (erase k)) shows;
  applies = λ db entries changes shows _.
      changed db entries (λ m. change_all m changes) (λ m. change_all-IsSorted m changes) shows;
}

-- The bytes of a guest's memory: its two slices, and the output buffer.
abbrev pub laid_out : Placement
laid_out first second room =
    let all = first ++ (second ++ zeros room) in
    record {
      memory = record {
        load = λ ptr len.
            if leb (ptr + len) (length all) then some (take len (drop ptr all)) else none;
        holds = λ ptr n. leb (ptr + n) (length all);
      };
      first_ptr = 0;
      second_ptr = length first;
      out_ptr = length first + length second;
    }

length-zeros : (n : ℕ) → length (zeros n) ≡ n
unfolding zeros
length-zeros zero = refl
length-zeros (suc n) = ap suc (length-zeros n)

pub laid_out-Places :
    (first second : Bytes) (room : ℕ) → Places (laid_out first second room) first second room
laid_out-Places first second room =
    let all = first ++ (second ++ zeros room) in
    let whole : length all ≡ length first + (length second + room) = omega (
      arith,
      length-append first (second ++ zeros room),
      length-append second (zeros room),
      length-zeros room,
    ) in
    let in_first : leb (0 + length first) (length all) ≡ true = ground arith in
    let in_second : leb (length first + length second) (length all) ≡ true = ground arith in
    record {
      first_there = rw in_first (ap some (take-append first (second ++ zeros room)));
      second_there =
          rw (in_second, drop-append first (second ++ zeros room), take-append second (zeros room))
            refl;
      buffer_there = λ n h. ground arith;
    }
