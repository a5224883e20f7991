-- ===== src/Map/Laws.antt =====
-- What a map shows: the law of its writes, its order, and that its entries are determined by what
-- `get` returns.
use numax.Prelude.{◌≡◌, refl, ap₂, none, some, [], ◌∷◌, Ordering, Ord, same, arith, if◌then◌else◌}
use numax.Map.Defs.{BTreeMap, get, insert}

module _ {ℓ κ} {K : Type ℓ} {V : Type κ} ⦃o : Ord K⦄ where
  pub get-insert :
      (m : BTreeMap K V) (k : K) (v : V) (i : K)
      → get (insert m k v) i ≡ (if same i k then some v else get m i)
  unfolding get insert
  get-insert [] k v i = refl
  get-insert ((j, w) ∷ m) k v i =
      ground (arith, get-insert m k v i, o.eq_of_cmp k j, o.eq_of_cmp i j, o.lt_of_gt k j)

  -- Every key of the map is above `k`.
  abbrev pub IsAbove : K → BTreeMap K V → Type 0
  IsAbove k [] = Unit
  IsAbove k ((j, _) ∷ m) = (o.cmp k j ≡ Ordering.lt) × IsAbove k m

  abbrev pub IsSorted : BTreeMap K V → Type 0
  IsSorted [] = Unit
  IsSorted ((k, _) ∷ m) = IsAbove k m × IsSorted m

  IsAbove-insert :
      (i : K) (m : BTreeMap K V) (k : K) (v : V)
      → o.cmp i k ≡ Ordering.lt
      → IsAbove i m
      → IsAbove i (insert m k v)
  unfolding insert
  IsAbove-insert i [] k v h a = (h, tt)
  IsAbove-insert i ((j, w) ∷ m) k v h a = ground (arith, IsAbove-insert i m k v h a.1)

  pub IsAbove-trans :
      (i k : K) (m : BTreeMap K V) → o.cmp i k ≡ Ordering.lt → IsAbove k m → IsAbove i m
  IsAbove-trans i k [] h a = tt
  IsAbove-trans i k ((j, w) ∷ m) h a = (o.lt_trans i k j h a.0, IsAbove-trans i k m h a.1)

  pub IsSorted-insert : (m : BTreeMap K V) (k : K) (v : V) → IsSorted m → IsSorted (insert m k v)
  unfolding insert
  IsSorted-insert [] k v s = (tt, tt)
  IsSorted-insert ((j, w) ∷ m) k v s = ground (
    arith,
    IsSorted-insert m k v s.1,
    IsAbove-insert j m k v,
    IsAbove-trans k j m,
    o.eq_of_cmp k j,
    o.lt_of_gt k j,
  )

  pub get-eq-none_of_IsAbove : (k : K) (m : BTreeMap K V) → IsAbove k m → get m k ≡ none
  unfolding get
  get-eq-none_of_IsAbove k [] a = refl
  get-eq-none_of_IsAbove k ((j, w) ∷ m) a = ground (arith, get-eq-none_of_IsAbove k m a.1)

  get-head : (k : K) (v : V) (m : BTreeMap K V) → get ((k, v) ∷ m) k ≡ some v
  unfolding get
  get-head k v m = rw (o.cmp_refl k)

  -- Of two sorted maps that read alike, the first entries are one, and the rests read alike.
  module _ (k j : K) (v w : V) (m n : BTreeMap K V) (s : IsSorted ((k, v) ∷ m))
      (t : IsSorted ((j, w) ∷ n)) (h : (i : K) → get ((k, v) ∷ m) i ≡ get ((j, w) ∷ n) i) where
    heads_agree : (k ≡ j) × (v ≡ w)
    unfolding get
    heads_agree = ground (
      arith,
      h k,
      h j,
      o.cmp_refl k,
      o.cmp_refl j,
      o.eq_of_cmp k j,
      o.lt_of_gt k j,
      get-eq-none_of_IsAbove k n,
      get-eq-none_of_IsAbove j m,
      get-eq-none_of_IsAbove k m s.0,
      get-eq-none_of_IsAbove j n t.0,
      IsAbove-trans k j n,
      IsAbove-trans j k m,
      o.gt_of_lt k j,
    )

    rests_agree : (i : K) → get m i ≡ get n i
    unfolding get
    rests_agree i = ground (
      arith,
      h i,
      heads_agree,
      o.eq_of_cmp i k,
      get-eq-none_of_IsAbove k m s.0,
      get-eq-none_of_IsAbove j n t.0,
    )

  -- A sorted map is determined by what `get` returns.
  pub map_ext :
      (m n : BTreeMap K V) → IsSorted m → IsSorted n → ((k : K) → get m k ≡ get n k) → m ≡ n
  map_ext [] [] s t h = refl
  map_ext [] ((j, w) ∷ n) s t h = unfold get in ground (arith, h j, get-head j w n)
  map_ext ((k, v) ∷ m) [] s t h = unfold get in ground (arith, h k, get-head k v m)
  map_ext ((k, v) ∷ m) ((j, w) ∷ n) s t h =
      let e = heads_agree k j v w m n s t h in
      ap₂ ◌∷◌ (λ i. (e.0 i, e.1 i)) (map_ext m n s.1 t.1 (rests_agree k j v w m n s t h))

  -- Writing what is there changes nothing.
  pub insert-get :
      (m : BTreeMap K V) (k : K) (v : V) → IsSorted m → get m k ≡ some v → insert m k v ≡ m
  insert-get m k v s e =
      map_ext (insert m k v) m (IsSorted-insert m k v s) s
        λ i. rw get-insert (ground (arith, o.eq_of_cmp i k))
