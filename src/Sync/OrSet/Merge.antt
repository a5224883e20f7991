-- ===== src/Sync/OrSet/Merge.antt =====
-- `ORSet::merge`: the union of the adds and of the removes, tag by tag.
use numax.Prelude.{
  ◌≡◌, refl, sym, ap, ap₂, subst, ◌∙◌, Bool, false, ◌||◌, Option, none, some, [], Bytes, bytes_ord,
  same, arith, if◌then◌else◌,
}
use numax.Map.{get, for_entries, upsert}
use numax.Map.Laws.{IsSorted, IsSorted-insert}
use numax.Map.Join.{
  IsJoin, IsMap, join, get-for_entries, IsMap-for_entries, for_entries_comm, for_entries_idem,
  for_entries_assoc, for_entries_part,
}
use numax.Map.Upsert.{get-upsert}
use numax.Set
use numax.Set.{BTreeSet, keys, extend, member}
use numax.Set.Laws.{IsSorted-extend, contains-extend, set_ext, member-keys}
use numax.Sync.OrSet.{OrSet, Tags, tags_of, merge_tags, merged_with}

-- Every element's tags are a set.
abbrev pub IsTagSet : Bytes → BTreeSet Bytes → Type 0
IsTagSet element tags = IsSorted tags

pub record IsValid (s : OrSet) : Type 0 where
  pub adds : IsMap IsTagSet s.adds
  pub removes : IsMap IsTagSet s.removes

-- The tags of an element after those of the other replica came in.
abbrev pub union : Option (BTreeSet Bytes) → BTreeSet Bytes → BTreeSet Bytes
union local tags = extend (tags_of local) (keys tags)

pub contains-union :
    (x : Option (BTreeSet Bytes)) (y : BTreeSet Bytes) (t : Bytes)
    → Set.contains (union x y) t ≡ (Set.contains (tags_of x) t || Set.contains y t)
contains-union x y t =
    contains-extend (tags_of x) (keys y) t
    ∙ ap (◌||◌ (Set.contains (tags_of x) t)) (member-keys y t)

contains-union-none :
    (x : BTreeSet Bytes) (t : Bytes) → Set.contains (union none x) t ≡ Set.contains x t
unfolding get
contains-union-none x t = contains-union none x t

union-IsJoin : IsJoin IsTagSet union
union-IsJoin = record {
  fresh = λ k x p.
      set_ext (union none x) x (IsSorted-extend [] (keys x) tt) p λ t. contains-union-none x t;
  idem = λ k x p.
      set_ext (union (some x) x) x (IsSorted-extend x (keys x) p) p
        λ t. ground (arith, contains-union (some x) x t);
  comm = λ k x y p q.
      set_ext (union (some x) y) (union (some y) x) (IsSorted-extend x (keys y) p)
        (IsSorted-extend y (keys x) q)
        λ t. ground (arith, contains-union (some x) y t, contains-union (some y) x t);
  assoc = λ k x y z p q r.
      set_ext (union (some (union (some x) y)) z) (union (some x) (union (some y) z))
        (IsSorted-extend (union (some x) y) (keys z) (IsSorted-extend x (keys y) p))
        (IsSorted-extend x (keys (union (some y) z)) p)
        λ t. ground (
          arith,
          contains-union (some (union (some x) y)) z t,
          contains-union (some x) y t,
          contains-union (some x) (union (some y) z) t,
          contains-union (some y) z t,
        );
  closed = λ k x y p q. IsSorted-extend x (keys y) p;
}

abbrev write : Tags → Bytes → BTreeSet Bytes → Tags
write m element tags = upsert m element (λ local. union local tags)

get-write :
    (m : Tags) (k : Bytes) (v : BTreeSet Bytes) (i : Bytes)
    → get (write m k v) i ≡ (if same i k then some (union (get m i) v) else get m i)
get-write m k v i = get-upsert m k (λ local. union local v) i

IsSorted-write : (m : Tags) (k : Bytes) (v : BTreeSet Bytes) → IsSorted m → IsSorted (write m k v)
IsSorted-write m k v s = IsSorted-insert m k _ s

-- One table of `merge`, whatever `changed` was.
abbrev merge_table : Tags → Tags → Tags
merge_table a b = for_entries write a b

table_part :
    (a b : Tags) (changed : Bool) → (for_entries merge_tags (a, changed) b).0 ≡ merge_table a b
unfolding merge_tags
table_part a b changed =
    for_entries_part (λ (s : Tags × Bool). s.0) merge_tags write (λ s k v. refl) (a, changed) b

abbrev pair : Tags → Tags → OrSet
pair a r = record { adds = a; removes = r }

pub merged_with-tables :
    (a b : OrSet)
    → merged_with a b ≡ pair (merge_table a.adds b.adds) (merge_table a.removes b.removes)
unfolding merged_with
merged_with-tables a b =
    ap₂ pair (table_part a.adds b.adds false) (table_part a.removes b.removes _)

module _ (a b : OrSet) (va : IsValid a) (vb : IsValid b) where
  pub merged_with-IsValid : IsValid (merged_with a b)
  merged_with-IsValid = subst IsValid (sym (merged_with-tables a b)) (record {
    adds =
        IsMap-for_entries write union get-write IsSorted-write IsTagSet union-IsJoin a.adds b.adds
          va.adds vb.adds;
    removes =
        IsMap-for_entries write union get-write IsSorted-write IsTagSet union-IsJoin a.removes
          b.removes va.removes vb.removes;
  })

  -- Two replicas that merge each other end in one state.
  pub merged_with_comm : merged_with a b ≡ merged_with b a
  merged_with_comm =
      merged_with-tables a b
      ∙ ap₂ pair
          (for_entries_comm write union get-write IsSorted-write IsTagSet union-IsJoin a.adds b.adds
            va.adds vb.adds)
          (for_entries_comm write union get-write IsSorted-write IsTagSet union-IsJoin a.removes
            b.removes va.removes vb.removes)
      ∙ sym (merged_with-tables b a)

-- A state that is merged again changes nothing.
pub merged_with_idem : (a : OrSet) → IsValid a → merged_with a a ≡ a
merged_with_idem a va =
    merged_with-tables a a
    ∙ ap₂ pair
        (for_entries_idem write union get-write IsSorted-write IsTagSet union-IsJoin a.adds va.adds)
        (for_entries_idem write union get-write IsSorted-write IsTagSet union-IsJoin a.removes
          va.removes)

-- The order in which three states are merged does not matter.
pub merged_with_assoc :
    (a b c : OrSet)
    → IsValid a
    → IsValid b
    → IsValid c
    → merged_with (merged_with a b) c ≡ merged_with a (merged_with b c)
merged_with_assoc a b c va vb vc =
    ap (λ s. merged_with s c) (merged_with-tables a b)
    ∙ merged_with-tables _ c
    ∙ ap₂ pair
        (for_entries_assoc write union get-write IsSorted-write IsTagSet union-IsJoin a.adds b.adds
          c.adds va.adds vb.adds vc.adds)
        (for_entries_assoc write union get-write IsSorted-write IsTagSet union-IsJoin a.removes
          b.removes c.removes va.removes vb.removes vc.removes)
    ∙ sym (merged_with-tables a _)
    ∙ ap (merged_with a) (sym (merged_with-tables b c))

-- Whether a tag is recorded for an element, in one of the two tables.
abbrev pub has_tag : Tags → Bytes → Bytes → Bool
has_tag table element tag = Set.contains (tags_of (get table element)) tag

contains-join :
    (x y : Option (BTreeSet Bytes)) (t : Bytes)
    → Set.contains (tags_of (join union x y)) t
      ≡ (Set.contains (tags_of x) t || Set.contains (tags_of y) t)
unfolding get
contains-join x none t = ground arith
contains-join x (some y) t = contains-union x y t

has_tag-table :
    (a b : Tags) (e t : Bytes)
    → IsSorted b
    → has_tag (merge_table a b) e t ≡ (has_tag a e t || has_tag b e t)
has_tag-table a b e t s =
    ap (λ (x : Option (BTreeSet Bytes)). Set.contains (tags_of x) t)
      (get-for_entries write union get-write IsSorted-write a b e s)
    ∙ contains-join (get a e) (get b e) t

-- After a merge a tag is recorded, as added or as removed, if one of the replicas had it so.
pub has_tag-merged_with :
    (a b : OrSet) (e t : Bytes)
    → IsValid b
    → (has_tag (merged_with a b).adds e t ≡ (has_tag a.adds e t || has_tag b.adds e t))
      × (has_tag (merged_with a b).removes e t ≡ (has_tag a.removes e t || has_tag b.removes e t))
has_tag-merged_with a b e t vb = rw merged_with-tables (
  has_tag-table a.adds b.adds e t vb.adds.sorted,
  has_tag-table a.removes b.removes e t vb.removes.sorted,
)
