-- ===== src/Sync/OrSet/Valid.antt =====
-- The operations of `ORSet` on valid sets.
use numax.Prelude.{
  ◌≡◌, refl, true, false, Option, none, some, List, Bytes, bytes_ord, same, arith, ◌⊎◌, inl, inr,
  Bool-cases, subst,
}
use numax.Map.{get, upsert}
use numax.Map.Laws.{IsSorted, IsSorted-insert, get-insert}
use numax.Map.Join.{IsMap}
use numax.Set
use numax.Set.{BTreeSet, keys, extend, member}
use numax.Set.Laws.{IsSorted-extend}
use numax.Sync.OrSet.{OrSet, Tags, tags_of, add, apply_remove}
use numax.Sync.OrSet.Merge.{IsTagSet, IsValid}

pub tags-IsSorted : (m : Tags) (e : Bytes) → IsMap IsTagSet m → IsSorted (tags_of (get m e))
tags-IsSorted m e v = sorted_at (get m e) (v.values e)
  where
    sorted_at :
        (x : Option (BTreeSet Bytes))
        → ((u : BTreeSet Bytes) → x ≡ some u → IsSorted u)
        → IsSorted (tags_of x)
    sorted_at none h = tt
    sorted_at (some u) h = h u refl

-- A table stays valid when an element's tags are replaced by a set.
IsMap-upsert :
    (m : Tags) (e : Bytes) (f : Option (BTreeSet Bytes) → BTreeSet Bytes)
    → IsMap IsTagSet m
    → IsSorted (f (get m e))
    → IsMap IsTagSet (upsert m e f)
IsMap-upsert m e f v h = record {
  sorted = IsSorted-insert m e _ v.sorted;
  values = λ k u p. value_at k u (Bool-cases (same k e)) p;
}
  where
    value_at :
        (k : Bytes) (u : BTreeSet Bytes)
        → (same k e ≡ true) ⊎ (same k e ≡ false)
        → get (upsert m e f) k ≡ some u
        → IsSorted u
    value_at k u (inl q) p = subst IsSorted (ground (arith, get-insert m e (f (get m e)) k)) h
    value_at k u (inr q) p = v.values k u (ground (arith, get-insert m e (f (get m e)) k))

pub add-IsValid : (s : OrSet) (e t : Bytes) → IsValid s → IsValid (add s e t).0
unfolding add
add-IsValid s e t v = record {
  adds =
      IsMap-upsert s.adds e (λ tags. Set.add (tags_of tags) t) v.adds
        (IsSorted-insert (tags_of (get s.adds e)) t tt (tags-IsSorted s.adds e v.adds));
  removes = v.removes;
}

pub apply_remove-IsValid :
    (s : OrSet) (e : Bytes) (ts : List Bytes) → IsValid s → IsValid (apply_remove s e ts).0
unfolding apply_remove
apply_remove-IsValid s e ts v = record {
  adds = v.adds;
  removes =
      IsMap-upsert s.removes e (λ tags. extend (tags_of tags) ts) v.removes
        (IsSorted-extend (tags_of (get s.removes e)) ts (tags-IsSorted s.removes e v.removes));
}
