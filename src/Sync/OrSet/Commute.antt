-- ===== src/Sync/OrSet/Commute.antt =====
-- The operations of `ORSet` in either order.
use numax.Prelude.{◌≡◌, refl, ap, List, Bytes, bytes_ord, arith}
use numax.Map.{get}
use numax.Map.Laws.{IsSorted-insert}
use numax.Map.Upsert.{upsert_comm}
use numax.Set
use numax.Set.{BTreeSet, keys, extend, member}
use numax.Set.Laws.{contains-add, contains-extend, set_ext, IsSorted-extend}
use numax.Sync.OrSet.{OrSet, Tags, tags_of, add, apply_remove}
use numax.Sync.OrSet.Valid.{tags-IsSorted}
use numax.Sync.OrSet.Merge.{IsValid}

-- Two adds may be applied to a valid set in either order, whatever elements and tags they carry.
pub add_comm :
    (s : OrSet) (e t i u : Bytes)
    → IsValid s
    → (add (add s e t).0 i u).0 ≡ (add (add s i u).0 e t).0
unfolding add
add_comm s e t i u v =
    ap (λ (m : Tags). record { adds = m; removes = s.removes })
      (upsert_comm s.adds e i (λ tags. Set.add (tags_of tags) t) (λ tags. Set.add (tags_of tags) u)
        v.adds.sorted
        λ _.
          set_ext (Set.add (Set.add (tags_of (get s.adds e)) t) u)
            (Set.add (Set.add (tags_of (get s.adds e)) u) t)
            (IsSorted-insert _ u tt (IsSorted-insert _ t tt (tags-IsSorted s.adds e v.adds)))
            (IsSorted-insert _ t tt (IsSorted-insert _ u tt (tags-IsSorted s.adds e v.adds)))
            λ k. ground (
              arith,
              contains-add (Set.add (tags_of (get s.adds e)) t) u k,
              contains-add (tags_of (get s.adds e)) t k,
              contains-add (Set.add (tags_of (get s.adds e)) u) t k,
              contains-add (tags_of (get s.adds e)) u k,
            ))

-- Two removes may be applied to a valid set in either order, whatever elements and tags they carry.
pub apply_remove_comm :
    (s : OrSet) (e i : Bytes) (ts us : List Bytes)
    → IsValid s
    → (apply_remove (apply_remove s e ts).0 i us).0 ≡ (apply_remove (apply_remove s i us).0 e ts).0
unfolding apply_remove
apply_remove_comm s e i ts us v =
    ap (λ (m : Tags). record { adds = s.adds; removes = m })
      (upsert_comm s.removes e i (λ tags. extend (tags_of tags) ts)
        (λ tags. extend (tags_of tags) us) v.removes.sorted
        λ _.
          let x = tags_of (get s.removes e) in
          let h = tags-IsSorted s.removes e v.removes in
          set_ext (extend (extend x ts) us) (extend (extend x us) ts)
            (IsSorted-extend (extend x ts) us (IsSorted-extend x ts h))
            (IsSorted-extend (extend x us) ts (IsSorted-extend x us h))
            λ k. ground (
              arith,
              contains-extend (extend x ts) us k,
              contains-extend x ts k,
              contains-extend (extend x us) ts k,
              contains-extend x us k,
            ))

-- An add and a remove may be applied in either order, whatever elements and tags they carry.
pub add-apply_remove_comm :
    (s : OrSet) (e t i : Bytes) (us : List Bytes)
    → (apply_remove (add s e t).0 i us).0 ≡ (add (apply_remove s i us).0 e t).0
unfolding add apply_remove
add-apply_remove_comm s e t i us = refl
