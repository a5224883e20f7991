-- ===== src/Sync/GCounter/Merge.antt =====
-- `GCounter::merge`, slot by slot.
use numax.Prelude.{
  ℕ, ◌≤◌, max, Option, some, ◌≡◌, ap, Bytes, bytes_ord, same, u64_max, arith, if◌then◌else◌,
}
use numax.Map.{BTreeMap, get, get_or}
use numax.Map.Laws.{IsSorted, IsSorted-insert}
use numax.Map.Join.{
  IsJoin, IsMap, get-for_entries, IsMap-for_entries, for_entries_comm, for_entries_idem,
  for_entries_assoc,
}
use numax.Map.Upsert.{get-upsert}
use numax.Sync.Op.{NodeId}
use numax.Sync.GCounter.{GCounter, merge_slot, merge, value_for}

-- A slot holds a `u64`.
abbrev pub IsSlot : Bytes → ℕ → Type 0
IsSlot node v = v ≤ u64_max

-- The slots are in order, one to a node, and each holds a `u64`.
pub record IsValid (c : GCounter) : Type 0 where
  pub slots : IsMap IsSlot c.counts

abbrev larger : Option ℕ → ℕ → ℕ
larger entry v = max (get_or entry 0) v

larger-IsJoin : IsJoin IsSlot larger
larger-IsJoin = record {
  fresh = λ k x p. omega arith;
  idem = λ k x p. omega arith;
  comm = λ k x y p q. omega arith;
  assoc = λ k x y z p q r. omega arith;
  closed = λ k x y p q. omega arith;
}

get-merge_slot :
    (m : BTreeMap Bytes ℕ) (k : Bytes) (v : ℕ) (i : Bytes)
    → get (merge_slot m k v) i ≡ (if same i k then some (larger (get m i) v) else get m i)
unfolding merge_slot
get-merge_slot m k v i = get-upsert m k (λ e. larger e v) i

IsSorted-merge_slot :
    (m : BTreeMap Bytes ℕ) (k : Bytes) (v : ℕ) → IsSorted m → IsSorted (merge_slot m k v)
unfolding merge_slot
IsSorted-merge_slot m k v s = IsSorted-insert m k _ s

-- Merging valid counters gives a valid counter.
pub merge-IsValid : (a b : GCounter) → IsValid a → IsValid b → IsValid (merge a b)
unfolding merge
merge-IsValid a b va vb = record {
  slots =
      IsMap-for_entries merge_slot larger get-merge_slot IsSorted-merge_slot IsSlot larger-IsJoin
        a.counts b.counts va.slots vb.slots;
}

-- After a merge of two valid counters the slot of a node is the larger of its two.
pub value_for-merge :
    (a b : GCounter) (n : NodeId)
    → IsValid a
    → IsValid b
    → value_for (merge a b) n ≡ max (value_for a n) (value_for b n)
unfolding merge value_for
value_for-merge a b n va vb = ground (
  arith,
  get-for_entries merge_slot larger get-merge_slot IsSorted-merge_slot a.counts b.counts n
      vb.slots.sorted,
)

-- Two replicas that merge each other end in one state.
pub merge_comm : (a b : GCounter) → IsValid a → IsValid b → merge a b ≡ merge b a
unfolding merge
merge_comm a b va vb =
    ap (λ (m : BTreeMap Bytes ℕ). record { counts = m })
      (for_entries_comm merge_slot larger get-merge_slot IsSorted-merge_slot IsSlot larger-IsJoin
        a.counts b.counts va.slots vb.slots)

-- The order in which three states are merged does not matter.
pub merge_assoc :
    (a b c : GCounter)
    → IsValid a
    → IsValid b
    → IsValid c
    → merge (merge a b) c ≡ merge a (merge b c)
unfolding merge
merge_assoc a b c va vb vc =
    ap (λ (m : BTreeMap Bytes ℕ). record { counts = m })
      (for_entries_assoc merge_slot larger get-merge_slot IsSorted-merge_slot IsSlot larger-IsJoin
        a.counts b.counts c.counts va.slots vb.slots vc.slots)

-- A state that is merged again changes nothing.
pub merge_idem : (a : GCounter) → IsValid a → merge a a ≡ a
unfolding merge
merge_idem a va =
    ap (λ (m : BTreeMap Bytes ℕ). record { counts = m })
      (for_entries_idem merge_slot larger get-merge_slot IsSorted-merge_slot IsSlot larger-IsJoin
        a.counts va.slots)
