-- ===== src/Map/Upsert.antt =====
-- Writes through `entry`, and when two of them can change places.
use numax.Prelude.{◌≡◌, Option, some, Ord, same, arith, if◌then◌else◌}
use numax.Map.Defs.{BTreeMap, get, upsert}
use numax.Map.Laws.{IsSorted, IsSorted-insert, get-insert, map_ext}

module _ {ℓ κ} {K : Type ℓ} {V : Type κ} ⦃o : Ord K⦄ where
  pub get-upsert :
      (m : BTreeMap K V) (k : K) (g : Option V → V) (i : K)
      → get (upsert m k g) i ≡ (if same i k then some (g (get m i)) else get m i)
  get-upsert m k g i = ground (arith, get-insert m k (g (get m k)) i, o.eq_of_cmp i k)

  pub get-upsert_self :
      (m : BTreeMap K V) (k : K) (g : Option V → V) → get (upsert m k g) k ≡ some (g (get m k))
  get-upsert_self m k g = ground (arith, get-upsert m k g k, o.cmp_refl k)

  -- Two writes commute at different keys, and at one key if what they write commutes.
  pub upsert_comm :
      (m : BTreeMap K V) (k j : K) (f g : Option V → V)
      → IsSorted m
      → (k ≡ j → g (some (f (get m k))) ≡ f (some (g (get m k))))
      → upsert (upsert m k f) j g ≡ upsert (upsert m j g) k f
  upsert_comm m k j f g s h =
      map_ext (upsert (upsert m k f) j g) (upsert (upsert m j g) k f)
        (IsSorted-insert _ j _ (IsSorted-insert m k _ s))
        (IsSorted-insert _ k _ (IsSorted-insert m j _ s))
        λ i. ground (
          arith,
          get-upsert (upsert m k f) j g i,
          get-upsert (upsert m j g) k f i,
          get-upsert m k f i,
          get-upsert m j g i,
          o.eq_of_cmp i k,
          o.eq_of_cmp i j,
          h,
        )
