-- ===== src/SyncManager/SeenOps/Window.antt =====
-- `SeenOps::insert` of types.rs: what a well-formed window is, and what the eviction loop leaves of it.
use numax.Prelude.{
  ℕ, zero, suc, ◌+◌, ◌-◌, ◌≤◌, ◌≡◌, refl, sym, ap, ◌∙◌, subst, false, ◌||◌, List, [], ◌∷◌, ◌++◌,
  Bytes, bytes_ord, same, length, take, drop, length-append, length-drop, ltb, arith, Bool-cases,
  inl, inr,
}
use numax.Map.Laws.{IsSorted, IsSorted-insert}
use numax.Set
use numax.Set.{BTreeSet, member}
pub use numax.Set.Counting.{Distinct}
use numax.Set.Laws.{contains-add, contains-remove, IsSorted-remove}
use numax.SyncManager.SeenOps.{SeenOps, evict, insert}

pub record IsWindow (s : SeenOps) : Type 0 where
  pub sorted : IsSorted s.ids
  pub known : (k : Bytes) → Set.contains s.ids k ≡ member s.order k
  pub distinct : Distinct s.order
  pub bounded : length s.order ≤ s.limit

pub member-append :
    (xs ys : List Bytes) (k : Bytes) → member (xs ++ ys) k ≡ (member xs k || member ys k)
unfolding member
member-append [] ys k = refl
member-append (x ∷ xs) ys k = ground (arith, member-append xs ys k)

pub member-singleton : (x k : Bytes) → member (x ∷ []) k ≡ same k x
unfolding member
member-singleton x k = ground arith

pub Distinct-append_one :
    (xs : List Bytes) (x : Bytes) → Distinct xs → member xs x ≡ false → Distinct (xs ++ x ∷ [])
unfolding member
Distinct-append_one [] x d h = (refl, tt)
Distinct-append_one (y ∷ xs) x d h = (
  ground (
    arith,
    member-append xs (x ∷ []) y,
    member-singleton x y,
    bytes_ord.eq_of_cmp y x,
    bytes_ord.cmp_refl x,
    d.0,
  ),
  Distinct-append_one xs x d.1 (ground arith),
)

pub Distinct-drop : (n : ℕ) (xs : List Bytes) → Distinct xs → Distinct (drop n xs)
Distinct-drop zero xs d = d
Distinct-drop (suc n) [] d = tt
Distinct-drop (suc n) (x ∷ xs) d = Distinct-drop n xs d.1

pub drop-nil : (n : ℕ) → drop {A = Bytes} n [] ≡ []
drop-nil zero = refl
drop-nil (suc n) = refl

take-nil : (n : ℕ) → take {A = Bytes} n [] ≡ []
take-nil zero = refl
take-nil (suc n) = refl

pub member-cons :
    (x : Bytes) (xs : List Bytes) (k : Bytes) → member (x ∷ xs) k ≡ (same k x || member xs k)
unfolding member
member-cons x xs k = refl

module _ (limit : ℕ) where
  -- What the loop leaves is the end of the window, and what it evicts is its front.
  pub evict_parts :
      (ids : BTreeSet Bytes) (order : List Bytes)
      → ((evict limit ids order).1 ≡ drop (length order - limit) order)
        × ((evict limit ids order).2 ≡ take (length order - limit) order)
  unfolding evict
  evict_parts ids [] = (sym (drop-nil (0 - limit)), sym (take-nil (0 - limit)))
  evict_parts ids (x ∷ order) = elim (Bool-cases (ltb limit (suc (length order)))) [
    | inl e ↦
        let step : suc (length order) - limit ≡ suc (length order - limit) = ground arith in
        let rest = evict_parts (Set.remove ids x) order in rw (e, step) (rest.0, ap (◌∷◌ x) rest.1)
    | inr e ↦
        let none_left : suc (length order) - limit ≡ 0 = ground arith in
        rw (e, none_left) (refl, refl)
  ]

  pub evict_known :
      (ids : BTreeSet Bytes) (order : List Bytes)
      → IsSorted ids
      → Distinct order
      → ((k : Bytes) → Set.contains ids k ≡ member order k)
      → IsSorted (evict limit ids order).0
        × ((k : Bytes)
            → Set.contains (evict limit ids order).0 k ≡ member (evict limit ids order).1 k)
  unfolding evict
  evict_known ids [] s d h = (s, h)
  evict_known ids (x ∷ order) s d h = elim (Bool-cases (ltb limit (suc (length order)))) [
    | inl e ↦ rw e (
        evict_known (Set.remove ids x) order (IsSorted-remove ids x s) d.1 λ k. ground (
          arith,
          contains-remove ids x k s,
          h k,
          member-cons x order k,
          d.0,
          bytes_ord.eq_of_cmp k x,
        ))
    | inr e ↦ rw e (s, h)
  ]

module _ (s : SeenOps) (w : IsWindow s) (op_id : Bytes) where
  known_after :
      (k : Bytes) → Set.contains (Set.add s.ids op_id) k ≡ member (s.order ++ op_id ∷ []) k
  known_after k = ground (
    arith,
    contains-add s.ids op_id k,
    w.known k,
    member-append s.order (op_id ∷ []) k,
    member-singleton op_id k,
  )

  pub order-insert :
      Set.contains s.ids op_id ≡ false
      → (insert s op_id).0.order ≡ drop (length s.order + 1 - s.limit) (s.order ++ op_id ∷ [])
  unfolding insert
  order-insert fresh = rw fresh (
      (evict_parts s.limit (Set.add s.ids op_id) (s.order ++ op_id ∷ [])).0
      ∙ ap (λ n. drop (n - s.limit) (s.order ++ op_id ∷ [])) (length-append s.order (op_id ∷ [])))

  -- Inserting an identifier keeps a window one: its set is in order and holds exactly the
  -- identifiers of its queue, each of which stands there once, and the queue is within the limit.
  pub insert-IsWindow : IsWindow (insert s op_id).0
  unfolding insert
  insert-IsWindow = elim (Bool-cases (Set.contains s.ids op_id)) [
    | inl old ↦ rw old w
    | inr fresh ↦
        let d = Distinct-append_one s.order op_id w.distinct (sym (w.known op_id) ∙ fresh) in
        let parts = evict_parts s.limit (Set.add s.ids op_id) (s.order ++ op_id ∷ []) in
        let kept =
          evict_known s.limit (Set.add s.ids op_id) (s.order ++ op_id ∷ [])
            (IsSorted-insert s.ids op_id tt w.sorted) d known_after in
        rw fresh (record {
          sorted = kept.0;
          known = kept.1;
          distinct = subst Distinct (sym parts.0) (Distinct-drop _ _ d);
          bounded = omega (
            arith,
            ap (λ (l : List Bytes). length l) parts.0,
            length-drop (length (s.order ++ op_id ∷ []) - s.limit) (s.order ++ op_id ∷ []),
          );
        })
  ]
