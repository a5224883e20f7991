-- ===== src/Set/Defs.antt =====
-- The operations of a set.
use numax.Prelude.{Bool, false, List, [], ◌∷◌, ◌||◌, map, Ord, same, if◌then◌else◌}
use numax.Map.{BTreeMap, insert, contains_key}

abbrev pub BTreeSet {ℓ} : Type ℓ → Type ℓ
BTreeSet K = BTreeMap K (Unit {0})

-- The elements in increasing order, as `iter` gives them.
abbrev pub keys {ℓ κ} : {K : Type ℓ} {V : Type κ} → BTreeMap K V → List K
keys = map (λ e. e.0)

module _ {ℓ} {K : Type ℓ} ⦃o : Ord K⦄ where
  abbrev pub contains : BTreeSet K → K → Bool
  contains s k = contains_key s k

  -- The set after `insert(k)`.
  abbrev pub add : BTreeSet K → K → BTreeSet K
  add s k = insert s k tt

  unfoldable pub remove : BTreeSet K → K → BTreeSet K
  remove [] k = []
  remove ((j, v) ∷ s) k = let rest = remove s k in if same k j then s else (j, v) ∷ rest

  unfoldable pub extend : BTreeSet K → List K → BTreeSet K
  extend s [] = s
  extend s (k ∷ ks) = extend (add s k) ks

  -- Whether a list has an element.
  unfoldable pub member : List K → K → Bool
  member [] k = false
  member (j ∷ js) k = same k j || member js k
