-- ===== src/Sync/LwwMap/Laws.antt =====
-- `LwwMap::merge`, field by field, and the change that it reports.
use numax.Prelude.{
  ◌≡◌, refl, subst, inl, inr, Bool-cases, sym, ap, ◌∙◌, ◌↔◌, Bool, true, false, Option, none, some,
  [], ◌∷◌, Bytes, bytes_ord, same, same_refl, arith, if◌then◌else◌,
}
use numax.Map
use numax.Map.{BTreeMap, for_entries}
use numax.Map.Laws.{IsSorted, IsSorted-insert, get-insert, get-eq-none_of_IsAbove}
use numax.Map.Join.{
  IsJoin, IsMap, join, get-for_entries, IsSorted-for_entries, for_entries_comm, for_entries_idem,
  for_entries_assoc, for_entries_part,
}
use numax.Sync.LwwMap.{
  LwwMap, LwwMapEntry, entry_wins, apply_entry, merge_entry, merge, merged_with, loses,
}
use numax.Sync.LwwMap.Order.{entry_wins_irrefl, entry_wins_asym, entry_wins_trans, entry_wins_total}

-- The fields are in order, one entry to a field.
abbrev pub IsValid : LwwMap → Type 0
IsValid m = IsSorted m.entries

-- The entry that stays when `v` comes in.
abbrev pub later : Option LwwMapEntry → LwwMapEntry → LwwMapEntry
later none v = v
later (some x) v = if entry_wins v x then v else x

abbrev Any : Bytes → LwwMapEntry → Type 0
Any field entry = Unit {0}

later-IsJoin : IsJoin Any later
later-IsJoin = record {
  fresh = λ k x p. refl;
  idem = λ k x p. ground arith;
  comm = λ k x y p q. ground (arith, entry_wins_asym x y, entry_wins_total x y);
  assoc = λ k x y z p q r. ground (
    arith,
    entry_wins_trans z y x,
    entry_wins_trans z x y,
    entry_wins_total y x,
    entry_wins_asym y x,
  );
  closed = λ k x y p q. tt;
}

abbrev write : BTreeMap Bytes LwwMapEntry → Bytes → LwwMapEntry → BTreeMap Bytes LwwMapEntry
write m field entry = (apply_entry (record { entries = m }) field entry).0.entries

-- After an entry came in, its field holds the later of the two, and the others are as before.
pub get-apply_entry :
    (m : BTreeMap Bytes LwwMapEntry) (k : Bytes) (v : LwwMapEntry) (i : Bytes)
    → Map.get (write m k v) i ≡ (if same i k then some (later (Map.get m i) v) else Map.get m i)
unfolding apply_entry
get-apply_entry m k v i = ground (arith, get-insert m k v i, bytes_ord.eq_of_cmp i k)

IsSorted-apply_entry :
    (m : BTreeMap Bytes LwwMapEntry) (k : Bytes) (v : LwwMapEntry)
    → IsSorted m
    → IsSorted (write m k v)
unfolding apply_entry
IsSorted-apply_entry m k v s = ground (arith, IsSorted-insert m k v s)

pub entries-merged_with :
    (a b : LwwMap) → (merged_with a b).entries ≡ for_entries write a.entries b.entries
unfolding merged_with merge_entry
entries-merged_with a b =
    for_entries_part (λ (s : LwwMap × Bool). s.0.entries) merge_entry write (λ s k v. refl)
      (a, false) b.entries

-- After a merge with a valid map a field has the entry that wins over the other one, or the only
-- one, or none if neither map has one.
pub get-merged_with :
    (a b : LwwMap) (field : Bytes)
    → IsValid b
    → Map.get (merged_with a b).entries field
      ≡ join later (Map.get a.entries field) (Map.get b.entries field)
get-merged_with a b field vb =
    ap (λ (m : BTreeMap Bytes LwwMapEntry). Map.get m field) (entries-merged_with a b)
    ∙ get-for_entries write later get-apply_entry IsSorted-apply_entry a.entries b.entries field vb

as_map : (a : LwwMap) → IsValid a → IsMap Any a.entries
as_map a v = record { sorted = v; values = λ k u e. tt }

pub merged_with-IsValid : (a b : LwwMap) → IsValid a → IsValid (merged_with a b)
merged_with-IsValid a b va =
    subst IsSorted (sym (entries-merged_with a b))
      (IsSorted-for_entries write later get-apply_entry IsSorted-apply_entry a.entries b.entries va)

abbrev wrap : BTreeMap Bytes LwwMapEntry → LwwMap
wrap m = record { entries = m }

-- Two replicas that merge each other end in one state, ties of timestamp and writer included.
pub merged_with_comm : (a b : LwwMap) → IsValid a → IsValid b → merged_with a b ≡ merged_with b a
merged_with_comm a b va vb = ap wrap (
    entries-merged_with a b
    ∙ for_entries_comm write later get-apply_entry IsSorted-apply_entry Any later-IsJoin a.entries
        b.entries (as_map a va) (as_map b vb)
    ∙ sym (entries-merged_with b a))

-- The order in which three states are merged does not matter.
pub merged_with_assoc :
    (a b c : LwwMap)
    → IsValid a
    → IsValid b
    → IsValid c
    → merged_with (merged_with a b) c ≡ merged_with a (merged_with b c)
merged_with_assoc a b c va vb vc = ap wrap (
    entries-merged_with (merged_with a b) c
    ∙ ap (λ m. for_entries write m c.entries) (entries-merged_with a b)
    ∙ for_entries_assoc write later get-apply_entry IsSorted-apply_entry Any later-IsJoin a.entries
        b.entries c.entries (as_map a va) (as_map b vb) (as_map c vc)
    ∙ sym (ap (λ m. for_entries write a.entries m) (entries-merged_with b c))
    ∙ sym (entries-merged_with a (merged_with b c)))

-- A state that is merged again changes nothing.
pub merged_with_idem : (a : LwwMap) → IsValid a → merged_with a a ≡ a
merged_with_idem a va = ap wrap (
    entries-merged_with a a
    ∙ for_entries_idem write later get-apply_entry IsSorted-apply_entry Any later-IsJoin a.entries
        (as_map a va))

merge_entry_of_loses :
    (a : LwwMap) (changed : Bool) (k : Bytes) (v : LwwMapEntry)
    → loses (Map.get a.entries k) v ≡ true
    → merge_entry (a, changed) k v ≡ (a, changed)
unfolding merge_entry apply_entry
merge_entry_of_loses a changed k v e = ground arith

merge_entry_of_wins :
    (a : LwwMap) (changed : Bool) (k : Bytes) (v : LwwMapEntry)
    → loses (Map.get a.entries k) v ≡ false
    → merge_entry (a, changed) k v ≡ ((apply_entry a k v).0, true)
unfolding merge_entry apply_entry
merge_entry_of_wins a changed k v e = ground arith

-- Once a round has written, `changed` stays.
changed_stays :
    (a : LwwMap) (b : BTreeMap Bytes LwwMapEntry) → (for_entries merge_entry (a, true) b).1 ≡ true
unfolding for_entries merge_entry
changed_stays a [] = refl
changed_stays a ((k, v) ∷ b) = changed_stays (apply_entry a k v).0 b

-- While nothing is written, the map is the same.
unchanged_same :
    (a : LwwMap) (b : BTreeMap Bytes LwwMapEntry)
    → (for_entries merge_entry (a, false) b).1 ≡ false
    → (for_entries merge_entry (a, false) b).0 ≡ a
unfolding for_entries
unchanged_same a [] h = refl
unchanged_same a ((k, v) ∷ b) h = elim (Bool-cases (loses (Map.get a.entries k) v)) [
  | inl e ↦
      let stays = merge_entry_of_loses a false k v e in
      ap (λ (t : LwwMap × Bool). (for_entries merge_entry t b).0) stays
      ∙ unchanged_same a b
          (sym (ap (λ (t : LwwMap × Bool). (for_entries merge_entry t b).1) stays) ∙ h)
  | inr e ↦ cc (h, merge_entry_of_wins a false k v e, changed_stays (apply_entry a k v).0 b)
]

-- If every entry of `b` loses, nothing is written.
unchanged_of_all_lose :
    (a : LwwMap) (b : BTreeMap Bytes LwwMapEntry)
    → IsSorted b
    → ((k : Bytes) (v : LwwMapEntry) → Map.get b k ≡ some v → loses (Map.get a.entries k) v ≡ true)
    → (for_entries merge_entry (a, false) b).1 ≡ false
unfolding for_entries
unchanged_of_all_lose a [] s h = refl
unchanged_of_all_lose a ((k, v) ∷ b) s h =
    ap (λ (t : LwwMap × Bool). (for_entries merge_entry t b).1)
      (merge_entry_of_loses a false k v (h k v (unfold Map.get in rw (same_refl k))))
    ∙ unchanged_of_all_lose a b s.1 λ i u e.
      h i u
        (unfold Map.get in ground (arith, get-eq-none_of_IsAbove k b s.0, bytes_ord.eq_of_cmp i k))

-- `merge` with a valid map reports no change exactly if it leaves the map as it was.
pub merge-false_iff : (a b : LwwMap) → IsValid b → ((merge a b).1 ≡ false) ↔ (merged_with a b ≡ a)
unfolding merge merged_with loses
merge-false_iff a b vb = (
  unchanged_same a b.entries,
  λ e. unchanged_of_all_lose a b.entries vb λ k v h. ground (
    arith,
    get-merged_with a b k vb,
    ap (λ (m : LwwMap). Map.get m.entries k) e,
    entry_wins_irrefl v,
  ),
)
