-- ===== src/Map/Defs.antt =====
-- The operations of a map.
use numax.Prelude.{
  Bool, true, false, Option, none, some, List, [], ◌∷◌, Ordering, Ord, same, if◌then◌else◌,
}

-- The entries, in increasing key order.
abbrev pub BTreeMap {ℓ κ} : Type ℓ → Type κ → Type (ℓ ⊔ κ)
BTreeMap K V = List (K × V)

abbrev pub HashMap {ℓ κ} : Type ℓ → Type κ → Type (ℓ ⊔ κ)
HashMap = BTreeMap

abbrev pub is_some {ℓ} : {V : Type ℓ} → Option V → Bool
is_some none = false
is_some (some _) = true

module _ {ℓ κ} {K : Type ℓ} {V : Type κ} ⦃o : Ord K⦄ where
  unfoldable pub get : BTreeMap K V → K → Option V
  get [] k = none
  get ((j, v) ∷ m) k = if same k j then some v else get m k

  unfoldable pub insert : BTreeMap K V → K → V → BTreeMap K V
  insert [] k v = (k, v) ∷ []
  insert ((j, w) ∷ m) k v = elim (o.cmp k j) [
    | Ordering.lt ↦ (k, v) ∷ (j, w) ∷ m
    | Ordering.eq ↦ (k, v) ∷ m
    | Ordering.gt ↦ (j, w) ∷ insert m k v
  ]

  abbrev pub contains_key : BTreeMap K V → K → Bool
  contains_key m k = is_some (get m k)

-- `for (k, v) in &entries { step }`, with what the step mutates as the state.
unfoldable pub for_entries {ℓ κ μ} :
    {K : Type ℓ} {V : Type κ} {S : Type μ} → (S → K → V → S) → S → BTreeMap K V → S
for_entries step m [] = m
for_entries step m ((k, v) ∷ b) = for_entries step (step m k v) b

abbrev pub get_or {ℓ} : {V : Type ℓ} → Option V → V → V
get_or none d = d
get_or (some v) d = v

module _ {ℓ κ} {K : Type ℓ} {V : Type κ} ⦃o : Ord K⦄ where
  -- A write through `entry(k)`: the new value is made from the one that is there, or from none.
  abbrev pub upsert : BTreeMap K V → K → (Option V → V) → BTreeMap K V
  upsert m k g = insert m k (g (get m k))
