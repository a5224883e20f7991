-- ===== src/Sync/Rga/Merge.antt =====
-- `Rga::merge`: the union of the elements and of the tombstones. Element identifiers are globally
-- unique, which is the assumption here: all replicas take the element of an identifier from one
-- assignment.
use numax.Prelude.{
  ◌≡◌, refl, sym, ap, ap₂, subst, ◌∙◌, Bool, false, not, ◌&&◌, ◌||◌, Option, none, some, Bytes,
  bytes_ord, same, arith, if◌then◌else◌,
}
use numax.Map.{BTreeMap, get, insert, for_entries, contains_key}
use numax.Map.Laws.{IsSorted, IsSorted-insert, get-insert}
use numax.Map.Join.{
  IsJoin, IsMap, get-for_entries, IsMap-for_entries, for_entries_comm, for_entries_idem,
  for_entries_assoc, for_entries_part,
}
use numax.Set
use numax.Set.{BTreeSet, keys, extend, member}
use numax.Set.Laws.{IsSorted-extend, contains-extend, set_ext, member-keys}
use numax.Sync.Rga.{Rga, RgaElement, RgaElementId, contains, merge_element, merged_with}

abbrev Elements : Type 0
Elements = BTreeMap RgaElementId RgaElement

-- The element that stays when another of its identifier comes in.
abbrev older : Option RgaElement → RgaElement → RgaElement
older none element = element
older (some there) element = there

abbrev write : Elements → RgaElementId → RgaElement → Elements
write elements id element =
    if contains_key elements id then elements else insert elements id element

get-write :
    (m : Elements) (k : RgaElementId) (v : RgaElement) (i : RgaElementId)
    → get (write m k v) i ≡ (if same i k then some (older (get m i) v) else get m i)
get-write m k v i = ground (arith, get-insert m k v i, bytes_ord.eq_of_cmp i k)

IsSorted-write :
    (m : Elements) (k : RgaElementId) (v : RgaElement) → IsSorted m → IsSorted (write m k v)
IsSorted-write m k v s = ground (arith, IsSorted-insert m k v s)

elements_part :
    (a b : Elements) → (for_entries merge_element (a, false) b).0 ≡ for_entries write a b
unfolding merge_element
elements_part a b =
    for_entries_part (λ (s : Elements × Bool). s.0) merge_element write (λ s k v. ground arith)
      (a, false) b

tombstones_union :
    (a b : BTreeSet RgaElementId) → IsSorted a → IsSorted b → extend a (keys b) ≡ extend b (keys a)
tombstones_union a b sa sb =
    set_ext (extend a (keys b)) (extend b (keys a)) (IsSorted-extend a (keys b) sa)
      (IsSorted-extend b (keys a) sb)
      λ t. ground (
        arith,
        contains-extend a (keys b) t,
        contains-extend b (keys a) t,
        member-keys a t,
        member-keys b t,
      )

extend_assoc :
    (a b c : BTreeSet RgaElementId)
    → IsSorted a
    → IsSorted b
    → extend (extend a (keys b)) (keys c) ≡ extend a (keys (extend b (keys c)))
extend_assoc a b c sa sb =
    set_ext (extend (extend a (keys b)) (keys c)) (extend a (keys (extend b (keys c))))
      (IsSorted-extend (extend a (keys b)) (keys c) (IsSorted-extend a (keys b) sa))
      (IsSorted-extend a (keys (extend b (keys c))) sa)
      λ t. ground (
        arith,
        contains-extend (extend a (keys b)) (keys c) t,
        contains-extend a (keys b) t,
        contains-extend a (keys (extend b (keys c))) t,
        contains-extend b (keys c) t,
        member-keys (extend b (keys c)) t,
        member-keys b t,
      )

extend_idem : (a : BTreeSet RgaElementId) → IsSorted a → extend a (keys a) ≡ a
extend_idem a sa =
    set_ext (extend a (keys a)) a (IsSorted-extend a (keys a) sa) sa
      λ t. ground (arith, contains-extend a (keys a) t, member-keys a t)

abbrev pair : Elements → BTreeSet RgaElementId → Rga
pair elements tombstones = record { elements = elements; tombstones = tombstones }

merged_with-parts :
    (a b : Rga)
    → merged_with a b
      ≡ pair (for_entries write a.elements b.elements) (extend a.tombstones (keys b.tombstones))
unfolding merged_with
merged_with-parts a b =
    ap (λ e. pair e (extend a.tombstones (keys b.tombstones))) (elements_part a.elements b.elements)

-- `element_of` is the element that an identifier stands for in every replica.
module _ (element_of : RgaElementId → RgaElement) where
  abbrev pub IsFrom : RgaElementId → RgaElement → Type 0
  IsFrom id element = element ≡ element_of id

  pub record IsValid (r : Rga) : Type 0 where
    pub elements : IsMap IsFrom r.elements
    pub tombstones : IsSorted r.tombstones

  older-IsJoin : IsJoin IsFrom older
  older-IsJoin = record {
    fresh = λ k x p. refl;
    idem = λ k x p. refl;
    comm = λ k x y p q. p ∙ sym q;
    assoc = λ k x y z p q r. refl;
    closed = λ k x y p q. p;
  }

  pub merged_with-IsValid : (a b : Rga) → IsValid a → IsValid b → IsValid (merged_with a b)
  merged_with-IsValid a b va vb = subst IsValid (sym (merged_with-parts a b)) (record {
    elements =
        IsMap-for_entries write older get-write IsSorted-write IsFrom older-IsJoin a.elements
          b.elements va.elements vb.elements;
    tombstones = IsSorted-extend a.tombstones (keys b.tombstones) va.tombstones;
  })

  -- Two replicas that merge each other end in one state.
  pub merged_with_comm : (a b : Rga) → IsValid a → IsValid b → merged_with a b ≡ merged_with b a
  merged_with_comm a b va vb =
      merged_with-parts a b
      ∙ ap₂ pair
          (for_entries_comm write older get-write IsSorted-write IsFrom older-IsJoin a.elements
            b.elements va.elements vb.elements)
          (tombstones_union a.tombstones b.tombstones va.tombstones vb.tombstones)
      ∙ sym (merged_with-parts b a)

  -- The order in which three states are merged does not matter.
  pub merged_with_assoc :
      (a b c : Rga)
      → IsValid a
      → IsValid b
      → IsValid c
      → merged_with (merged_with a b) c ≡ merged_with a (merged_with b c)
  merged_with_assoc a b c va vb vc =
      ap (λ s. merged_with s c) (merged_with-parts a b)
      ∙ merged_with-parts _ c
      ∙ ap₂ pair
          (for_entries_assoc write older get-write IsSorted-write IsFrom older-IsJoin a.elements
            b.elements c.elements va.elements vb.elements vc.elements)
          (extend_assoc a.tombstones b.tombstones c.tombstones va.tombstones vb.tombstones)
      ∙ sym (merged_with-parts a _)
      ∙ ap (merged_with a) (sym (merged_with-parts b c))

  -- A state that is merged again changes nothing.
  pub merged_with_idem : (a : Rga) → IsValid a → merged_with a a ≡ a
  merged_with_idem a va =
      merged_with-parts a a
      ∙ ap₂ pair
          (for_entries_idem write older get-write IsSorted-write IsFrom older-IsJoin a.elements
            va.elements)
          (extend_idem a.tombstones va.tombstones)

-- After a merge with a sequence whose elements are in order, an element is there exactly if one of
-- the two had it and neither had deleted it.
pub contains-merged_with :
    (a b : Rga) (id : Bytes)
    → IsSorted b.elements
    → contains (merged_with a b) id ≡ (
        (contains_key a.elements id || contains_key b.elements id)
        && not (Set.contains a.tombstones id || Set.contains b.tombstones id))
unfolding contains
contains-merged_with a b id sb = rw merged_with-parts (
    ground (
      arith,
      get-for_entries write older get-write IsSorted-write a.elements b.elements id sb,
      contains-extend a.tombstones (keys b.tombstones) id,
      member-keys b.tombstones id,
    ))
