-- ===== src/SyncManager/SeenOps/Batch.antt =====
-- `plan_seen_evictions` and `apply_seen_insertions` of replication.rs, beside one `insert` after another.
use numax.Prelude.{
  ℕ, zero, suc, ◌+◌, ◌-◌, ◌≤◌, ◌≡◌, refl, sym, ap, ◌∙◌, subst, false, List, [], ◌∷◌, ◌++◌, Bytes,
  bytes_ord, same, length, take, drop, length-append, length-drop, ltb, ◌==◌, arith, if◌then◌else◌,
  u64_max, saturating_add,
}
use mathlib.Core.List.{append_assoc, append-nil}
use numax.Map.Laws.{IsSorted, IsSorted-insert}
use numax.Set
use numax.Set.{BTreeSet, member}
use numax.Set.Laws.{contains-add, contains-remove, IsSorted-remove, set_ext}
use numax.SyncManager.SeenOps.{
  SeenOps, insert, plan_seen_evictions, push_ids, drop_ids, apply_seen_insertions, pop_front,
}
use numax.SyncManager.SeenOps.Slices.{
  drop_at, take-all, take-front, take-short, drop-front, drop-drop, member-drop,
}
use numax.SyncManager.SeenOps.Window.{
  Distinct, IsWindow, member-append, member-cons, member-singleton, Distinct-append_one,
  order-insert, insert-IsWindow,
}

-- One `insert` after another.
unfoldable pub insert_all : SeenOps → List Bytes → SeenOps
insert_all s [] = s
insert_all s (x ∷ xs) = insert_all (insert s x).0 xs

-- None of the identifiers is known.
abbrev pub AreFresh : SeenOps → List Bytes → Type 0
AreFresh s [] = Unit
AreFresh s (x ∷ xs) = (Set.contains s.ids x ≡ false) × AreFresh s xs

-- The branches of the plan, for any count.
plan_branches :
    (n : ℕ) (order ids : List Bytes)
    → (if n == 0
        then []
        else (if ltb (length order) n
            then take n order ++ take (n - length order) ids
            else take n order))
      ≡ take n (order ++ ids)
plan_branches n order ids =
    ground (arith, take-all n order ids, take-front n order ids, take-short n order)

-- The plan names the front of the window with the batch behind it.
pub plan_seen_evictions_lem :
    (s : SeenOps) (ids : List Bytes)
    → length s.order + length ids ≤ u64_max
    → plan_seen_evictions s ids ≡ take (length s.order + length ids - s.limit) (s.order ++ ids)
unfolding plan_seen_evictions saturating_add
plan_seen_evictions_lem s ids fits =
    let exact : saturating_add (length s.order) (length ids) ≡ length s.order + length ids =
      omega arith in
    rw exact (plan_branches (length s.order + length ids - s.limit) s.order ids)

-- What is not known and not inserted is not known afterwards.
insert_keeps_unknown :
    (s : SeenOps) (x y : Bytes)
    → IsWindow s
    → Set.contains s.ids x ≡ false
    → Set.contains s.ids y ≡ false
    → same y x ≡ false
    → Set.contains (insert s x).0.ids y ≡ false
insert_keeps_unknown s x y w fx fy ne =
    (insert-IsWindow s w x).known y
    ∙ ap (λ l. member l y) (order-insert s w x fx)
    ∙ member-drop (length s.order + 1 - s.limit) (s.order ++ x ∷ []) y
        (ground (arith, member-append s.order (x ∷ []) y, member-singleton x y, w.known y))

AreFresh-insert :
    (s : SeenOps) (x : Bytes) (xs : List Bytes)
    → IsWindow s
    → Set.contains s.ids x ≡ false
    → member xs x ≡ false
    → AreFresh s xs
    → AreFresh (insert s x).0 xs
AreFresh-insert s x [] w fx d f = tt
AreFresh-insert s x (y ∷ xs) w fx d f = (
  insert_keeps_unknown s x y w fx f.0
      (ground (arith, member-cons y xs x, bytes_ord.eq_of_cmp y x, bytes_ord.cmp_refl x)),
  AreFresh-insert s x xs w fx (ground (arith, member-cons y xs x)) f.1,
)

limit-insert : (s : SeenOps) (x : Bytes) → (insert s x).0.limit ≡ s.limit
unfolding insert
limit-insert s x = ground arith

-- The order and the bounds after one by one insertions.
pub order-insert_all :
    (s : SeenOps) (xs : List Bytes)
    → IsWindow s
    → Distinct xs
    → AreFresh s xs
    → ((insert_all s xs).order ≡ drop (length s.order + length xs - s.limit) (s.order ++ xs))
      × IsWindow (insert_all s xs)
      × ((insert_all s xs).limit ≡ s.limit)
unfolding insert_all
order-insert_all s [] w d f = (
  sym (append-nil s.order)
      ∙ drop_at 0 (length s.order + 0 - s.limit) (s.order ++ []) (omega (arith, w.bounded)),
  w,
  refl,
)
order-insert_all s (x ∷ xs) w d f =
    let n = length s.order + 1 - s.limit in
    let s1 = (insert s x).0 in
    let o1 = order-insert s w x f.0 in
    let rest =
      order-insert_all s1 xs (insert-IsWindow s w x) d.1 (AreFresh-insert s x xs w f.0 d.0 f.1) in
    let joined : s1.order ++ xs ≡ drop n (s.order ++ x ∷ xs) =
      ap (λ l. l ++ xs) o1
      ∙ sym (drop-front n (s.order ++ x ∷ []) xs (omega (arith, length-append s.order (x ∷ []))))
      ∙ ap (drop n) (append_assoc s.order (x ∷ []) xs) in
    let count : n + (length s1.order + length xs - s1.limit)
        ≡ length s.order + suc (length xs) - s.limit =
      omega (
        arith,
        w.bounded,
        limit-insert s x,
        ap (λ (l : List Bytes). length l) o1,
        length-append s.order (x ∷ []),
        length-drop n (s.order ++ x ∷ []),
      ) in
    (
      rest.0
          ∙ ap (drop (length s1.order + length xs - s1.limit)) joined
          ∙ drop-drop (length s1.order + length xs - s1.limit) n (s.order ++ x ∷ xs)
          ∙ ap (λ k. drop k (s.order ++ x ∷ xs)) count,
      rest.1,
      rest.2 ∙ limit-insert s x,
    )

-- What is known is what stands in the order, each identifier once.
record IsKnown (s : SeenOps) : Type 0 where
  sorted : IsSorted s.ids
  known : (k : Bytes) → Set.contains s.ids k ≡ member s.order k
  distinct : Distinct s.order

AreFresh-add :
    (s : SeenOps) (x : Bytes) (xs : List Bytes)
    → member xs x ≡ false
    → AreFresh s xs
    → AreFresh (record s { ids = Set.add s.ids x; order = s.order ++ x ∷ [] }) xs
AreFresh-add s x [] d f = tt
AreFresh-add s x (y ∷ xs) d f = (
  ground (
    arith,
    contains-add s.ids x y,
    member-cons y xs x,
    bytes_ord.eq_of_cmp y x,
    bytes_ord.cmp_refl x,
  ),
  AreFresh-add s x xs (ground (arith, member-cons y xs x)) f.1,
)

push_ids_parts :
    (s : SeenOps) (xs : List Bytes)
    → IsKnown s
    → Distinct xs
    → AreFresh s xs
    → IsKnown (push_ids s xs)
      × ((push_ids s xs).order ≡ s.order ++ xs)
      × ((push_ids s xs).limit ≡ s.limit)
unfolding push_ids
push_ids_parts s [] w d f = (w, sym (append-nil s.order), refl)
push_ids_parts s (x ∷ xs) w d f =
    let (k, order, limit) =
      push_ids_parts (record s { ids = Set.add s.ids x; order = s.order ++ x ∷ [] }) xs
        (record {
          sorted = IsSorted-insert s.ids x tt w.sorted;
          known = λ k. ground (
            arith,
            contains-add s.ids x k,
            w.known k,
            member-append s.order (x ∷ []) k,
            member-singleton x k,
          );
          distinct = Distinct-append_one s.order x w.distinct (sym (w.known x) ∙ f.0);
        })
        d.1 (AreFresh-add s x xs d.0 f.1) in
    (k, order ∙ append_assoc s.order (x ∷ []) xs, limit)

drop_ids_parts :
    (s : SeenOps) (n : ℕ) (l : List Bytes)
    → IsKnown s
    → s.order ≡ l
    → IsKnown (drop_ids s (take n l))
      × ((drop_ids s (take n l)).order ≡ drop n l)
      × ((drop_ids s (take n l)).limit ≡ s.limit)
unfolding drop_ids
drop_ids_parts s zero l w e = (w, e, refl)
drop_ids_parts s (suc n) [] w e = (w, e, refl)
drop_ids_parts s (suc n) (x ∷ l) w e =
    drop_ids_parts (record s { ids = Set.remove s.ids x; order = pop_front s.order }) n l
      (record {
        sorted = IsSorted-remove s.ids x w.sorted;
        known = λ k. rw e (
            ground (
              arith,
              contains-remove s.ids x k w.sorted,
              w.known k,
              ap (λ t. member t k) e,
              member-cons x l k,
              (subst Distinct e w.distinct).0,
              bytes_ord.eq_of_cmp k x,
            ));
        distinct = rw e (subst Distinct e w.distinct).1;
      })
      (ap pop_front e)

seen_ext : (s t : SeenOps) → IsKnown s → IsKnown t → s.order ≡ t.order → s.limit ≡ t.limit → s ≡ t
seen_ext s t ks kt order limit =
    let ids : s.ids ≡ t.ids =
      set_ext s.ids t.ids ks.sorted kt.sorted
        (λ k. ks.known k ∙ ap (λ l. member l k) order ∙ sym (kt.known k)) in
    λ i. record { ids = ids i; order = order i; limit = limit i }

-- For distinct identifiers that the window does not know, and that count within `u64` together with
-- it, the eviction that is planned for all of them and then applied leaves the window that
-- inserting them one by one leaves.
pub apply_seen_insertions-eq-insert_all :
    (s : SeenOps) (ids : List Bytes)
    → IsWindow s
    → Distinct ids
    → AreFresh s ids
    → length s.order + length ids ≤ u64_max
    → apply_seen_insertions s ids (plan_seen_evictions s ids) ≡ insert_all s ids
unfolding apply_seen_insertions
apply_seen_insertions-eq-insert_all s ids w d f fits =
    let n = length s.order + length ids - s.limit in
    let plan = plan_seen_evictions_lem s ids fits in
    let known : IsKnown s = record { sorted = w.sorted; known = w.known; distinct = w.distinct } in
    let (pushed, pushed_order, pushed_limit) = push_ids_parts s ids known d f in
    let (kept, kept_order, kept_limit) =
      drop_ids_parts (push_ids s ids) n (s.order ++ ids) pushed pushed_order in
    let (one_order, one, one_limit) = order-insert_all s ids w d f in
    seen_ext (drop_ids (push_ids s ids) (plan_seen_evictions s ids)) (insert_all s ids)
      (subst (λ l. IsKnown (drop_ids (push_ids s ids) l)) (sym plan) kept)
      (record { sorted = one.sorted; known = one.known; distinct = one.distinct })
      (ap (λ l. (drop_ids (push_ids s ids) l).order) plan ∙ kept_order ∙ sym one_order)
      (ap (λ l. (drop_ids (push_ids s ids) l).limit) plan
        ∙ kept_limit
        ∙ pushed_limit
        ∙ sym one_limit)
