-- ===== src/Set/Laws.antt =====
-- What a set holds after each operation, and when its length shows that it grew.
use numax.Prelude.{
  suc, ◌≤◌, ◌≡◌, refl, false, List, [], ◌∷◌, ◌||◌, Ord, same, arith, length, if◌then◌else◌,
}
use numax.Map.{BTreeMap, get, insert, contains_key}
use numax.Map.Laws.{
  IsAbove, IsSorted, IsSorted-insert, IsAbove-trans, get-eq-none_of_IsAbove, get-insert, insert-get,
  map_ext,
}
use numax.Set.Defs.{BTreeSet, contains, add, remove, extend, keys, member}

-- The keys that a map lists are the keys that it contains.
pub member-keys {ℓ κ} :
    {K : Type ℓ} {V : Type κ} ⦃o : Ord K⦄ (m : BTreeMap K V) (k : K)
    → member (keys m) k ≡ contains_key m k
unfolding member get
member-keys [] k = refl
member-keys ((j, v) ∷ m) k = ground (arith, member-keys m k)

module _ {ℓ} {K : Type ℓ} ⦃o : Ord K⦄ where
  pub contains-add : (s : BTreeSet K) (k i : K) → contains (add s k) i ≡ (same i k || contains s i)
  contains-add s k i = ground (arith, get-insert s k tt i)

  pub IsSorted-extend : (s : BTreeSet K) (ks : List K) → IsSorted s → IsSorted (extend s ks)
  unfolding extend
  IsSorted-extend s [] h = h
  IsSorted-extend s (k ∷ ks) h = IsSorted-extend (add s k) ks (IsSorted-insert s k tt h)

  pub contains-extend :
      (s : BTreeSet K) (ks : List K) (i : K)
      → contains (extend s ks) i ≡ (contains s i || member ks i)
  unfolding extend member
  contains-extend s [] i = ground arith
  contains-extend s (k ∷ ks) i = ground (arith, contains-extend (add s k) ks i, contains-add s k i)

  -- A set is determined by what it contains.
  pub set_ext :
      (s t : BTreeSet K) → IsSorted s → IsSorted t → ((k : K) → contains s k ≡ contains t k) → s ≡ t
  set_ext s t hs ht h = map_ext s t hs ht λ k. ground (arith, h k)

  pub length-add :
      (s : BTreeSet K) (k : K)
      → IsSorted s
      → length (add s k) ≡ (if contains s k then length s else suc (length s))
  unfolding insert get
  length-add [] k h = refl
  length-add ((j, v) ∷ s) k h =
      ground (arith, length-add s k h.1, get-eq-none_of_IsAbove k s, IsAbove-trans k j s)

  pub length-le-extend :
      (s : BTreeSet K) (ks : List K) → IsSorted s → length s ≤ length (extend s ks)
  unfolding extend
  length-le-extend s [] h = omega arith
  length-le-extend s (k ∷ ks) h =
      ground (arith, length-add s k h, length-le-extend (add s k) ks (IsSorted-insert s k tt h))

  -- A set whose length stays the same under `extend` is the same set.
  pub extend-eq_of_length :
      (s : BTreeSet K) (ks : List K)
      → IsSorted s
      → length (extend s ks) ≡ length s
      → extend s ks ≡ s
  unfolding extend
  extend-eq_of_length s [] h e = refl
  extend-eq_of_length s (k ∷ ks) h e = ground (
    arith,
    length-add s k h,
    length-le-extend (add s k) ks (IsSorted-insert s k tt h),
    extend-eq_of_length (add s k) ks (IsSorted-insert s k tt h),
    insert-get s k tt h,
  )

  IsAbove-remove : (i : K) (s : BTreeSet K) (k : K) → IsAbove i s → IsAbove i (remove s k)
  unfolding remove
  IsAbove-remove i [] k a = tt
  IsAbove-remove i ((j, v) ∷ s) k a = ground (arith, IsAbove-remove i s k a.1)

  pub IsSorted-remove : (s : BTreeSet K) (k : K) → IsSorted s → IsSorted (remove s k)
  unfolding remove
  IsSorted-remove [] k h = tt
  IsSorted-remove ((j, v) ∷ s) k h =
      ground (arith, IsSorted-remove s k h.1, IsAbove-remove j s k h.0)

  pub contains-remove :
      (s : BTreeSet K) (k i : K)
      → IsSorted s
      → contains (remove s k) i ≡ (if same i k then false else contains s i)
  unfolding remove get
  contains-remove [] k i h = ground arith
  contains-remove ((j, v) ∷ s) k i h = ground (
    arith,
    contains-remove s k i h.1,
    get-eq-none_of_IsAbove j s h.0,
    o.eq_of_cmp k j,
    o.eq_of_cmp i j,
    o.eq_of_cmp i k,
  )
