-- ===== src/Map/Join.antt =====
-- Merging one map into another, entry by entry, where the step of the loop joins the values of one
-- key.
use numax.Prelude.{
  ◌≡◌, refl, sym, ap, ◌∙◌, subst, Option, none, some, [], ◌∷◌, Ord, same, same→eq, arith,
  if◌then◌else◌, Bool-cases, inl, inr,
}
use numax.Map.Defs.{BTreeMap, get, for_entries}
use numax.Map.Laws.{IsSorted, map_ext, get-eq-none_of_IsAbove}

-- The value at a key after an entry with the value `v`, or none, came in over `x`.
abbrev pub join {κ} : {V : Type κ} → (Option V → V → V) → Option V → Option V → Option V
join g x none = x
join g x (some v) = some (g x v)

-- The values under one key join like a semilattice, and `P` holds of them.
pub record IsJoin {ℓ κ} {K : Type ℓ} {V : Type κ} (P : K → V → Type 0) (g : Option V → V → V)
    : Type (ℓ ⊔ κ) where
  pub fresh : (k : K) (x : V) → P k x → g none x ≡ x
  pub idem : (k : K) (x : V) → P k x → g (some x) x ≡ x
  pub comm : (k : K) (x y : V) → P k x → P k y → g (some x) y ≡ g (some y) x
  pub assoc :
      (k : K) (x y z : V)
      → P k x
      → P k y
      → P k z
      → g (some (g (some x) y)) z ≡ g (some x) (g (some y) z)
  pub closed : (k : K) (x y : V) → P k x → P k y → P k (g (some x) y)

-- The join of two optional values is closed, commutative, associative and idempotent.
module _ {ℓ κ} {K : Type ℓ} {V : Type κ} (P : K → V → Type 0) (g : Option V → V → V)
    (j : IsJoin P g) (k : K) where
  abbrev Holds : Option V → Type κ
  Holds x = (u : V) → x ≡ some u → P k u

  join_closed : (x y : Option V) → Holds x → Holds y → Holds (join g x y)
  join_closed x none px py u e = px u e
  join_closed none (some y) px py u e = ground (arith, py y refl, j.fresh k y (py y refl), py u)
  join_closed (some x) (some y) px py u e =
      subst (P k) (ground arith) (j.closed k x y (px x refl) (py y refl))

  join_comm : (x y : Option V) → Holds x → Holds y → join g x y ≡ join g y x
  join_comm none none px py = refl
  join_comm (some x) none px py = ap some (sym (j.fresh k x (px x refl)))
  join_comm none (some y) px py = ap some (j.fresh k y (py y refl))
  join_comm (some x) (some y) px py = ap some (j.comm k x y (px x refl) (py y refl))

  join_idem : (x : Option V) → Holds x → join g x x ≡ x
  join_idem none px = refl
  join_idem (some x) px = ap some (j.idem k x (px x refl))

  join_assoc :
      (x y z : Option V)
      → Holds x
      → Holds y
      → Holds z
      → join g (join g x y) z ≡ join g x (join g y z)
  join_assoc x y none px py pz = refl
  join_assoc x none (some z) px py pz = ap (λ t. some (g x t)) (sym (j.fresh k z (pz z refl)))
  join_assoc none (some y) (some z) px py pz =
      ground (arith, j.fresh k y (py y refl), j.fresh k _ (j.closed k y z (py y refl) (pz z refl)))
  join_assoc (some x) (some y) (some z) px py pz =
      ap some (j.assoc k x y z (px x refl) (py y refl) (pz z refl))

module _ {ℓ κ} {K : Type ℓ} {V : Type κ} ⦃o : Ord K⦄ where
  -- A sorted map whose values satisfy `P` at their keys.
  pub record IsMap (P : K → V → Type 0) (m : BTreeMap K V) : Type (ℓ ⊔ κ) where
    pub sorted : IsSorted m
    pub values : (k : K) (v : V) → get m k ≡ some v → P k v

  module _ (step : BTreeMap K V → K → V → BTreeMap K V) (g : Option V → V → V)
      (law : (m : BTreeMap K V) (k : K) (v : V) (i : K)
        → get (step m k v) i ≡ (if same i k then some (g (get m i) v) else get m i))
      (keep : (m : BTreeMap K V) (k : K) (v : V) → IsSorted m → IsSorted (step m k v)) where
    pub get-for_entries :
        (a b : BTreeMap K V) (i : K)
        → IsSorted b
        → get (for_entries step a b) i ≡ join g (get a i) (get b i)
    unfolding get for_entries
    get-for_entries a [] i s = refl
    get-for_entries a ((k, v) ∷ b) i s = ground (
      arith,
      get-for_entries (step a k v) b i s.1,
      law a k v i,
      get-eq-none_of_IsAbove k b s.0,
      o.eq_of_cmp i k,
    )

    pub IsSorted-for_entries : (a b : BTreeMap K V) → IsSorted a → IsSorted (for_entries step a b)
    unfolding for_entries
    IsSorted-for_entries a [] s = s
    IsSorted-for_entries a ((k, v) ∷ b) s = IsSorted-for_entries (step a k v) b (keep a k v s)

    module _ (P : K → V → Type 0) (j : IsJoin P g) where
      pub IsMap-for_entries :
          (a b : BTreeMap K V) → IsMap P a → IsMap P b → IsMap P (for_entries step a b)
      IsMap-for_entries a b va vb = record {
        sorted = IsSorted-for_entries a b va.sorted;
        values = λ k v e.
            join_closed P g j k (get a k) (get b k) (va.values k) (vb.values k) v
              (sym (get-for_entries a b k vb.sorted) ∙ e);
      }

      -- Merging either way round gives one map.
      pub for_entries_comm :
          (a b : BTreeMap K V) → IsMap P a → IsMap P b → for_entries step a b ≡ for_entries step b a
      for_entries_comm a b va vb =
          map_ext (for_entries step a b) (for_entries step b a) (IsSorted-for_entries a b va.sorted)
            (IsSorted-for_entries b a vb.sorted)
            λ i.
              get-for_entries a b i vb.sorted
              ∙ join_comm P g j i (get a i) (get b i) (va.values i) (vb.values i)
              ∙ sym (get-for_entries b a i va.sorted)

      -- Merging a map into itself changes nothing.
      pub for_entries_idem : (a : BTreeMap K V) → IsMap P a → for_entries step a a ≡ a
      for_entries_idem a va =
          map_ext (for_entries step a a) a (IsSorted-for_entries a a va.sorted) va.sorted
            λ i. get-for_entries a a i va.sorted ∙ join_idem P g j i (get a i) (va.values i)

      pub for_entries_assoc :
          (a b c : BTreeMap K V)
          → IsMap P a
          → IsMap P b
          → IsMap P c
          → for_entries step (for_entries step a b) c ≡ for_entries step a (for_entries step b c)
      for_entries_assoc a b c va vb vc =
          let vab = IsMap-for_entries a b va vb in
          let vbc = IsMap-for_entries b c vb vc in
          map_ext (for_entries step (for_entries step a b) c)
            (for_entries step a (for_entries step b c))
            (IsSorted-for_entries (for_entries step a b) c vab.sorted)
            (IsSorted-for_entries a (for_entries step b c) va.sorted)
            λ i.
              get-for_entries (for_entries step a b) c i vc.sorted
              ∙ ap (λ t. join g t (get c i)) (get-for_entries a b i vb.sorted)
              ∙ join_assoc P g j i (get a i) (get b i) (get c i) (va.values i) (vb.values i)
                  (vc.values i)
              ∙ sym (ap (join g (get a i)) (get-for_entries b c i vc.sorted))
              ∙ sym (get-for_entries a (for_entries step b c) i vbc.sorted)

-- What a loop does to a part of its state, if every round does so.
pub for_entries_part {ℓ κ μ ν} :
    {K : Type ℓ} {V : Type κ} {S : Type μ} {T : Type ν} (part : S → T) (step : S → K → V → S)
    (step' : T → K → V → T)
    → ((s : S) (k : K) (v : V) → part (step s k v) ≡ step' (part s) k v)
    → (s : S) (b : BTreeMap K V) → part (for_entries step s b) ≡ for_entries step' (part s) b
unfolding for_entries
for_entries_part part step step' h s [] = refl
for_entries_part part step step' h s ((k, v) ∷ b) =
    for_entries_part part step step' h (step s k v) b ∙ ap (λ t. for_entries step' t b) (h s k v)

module _ {ℓ κ} {K : Type ℓ} {V : Type κ} ⦃o : Ord K⦄ (P : K → V → Type 0) where
  -- Every entry satisfies the predicate.
  abbrev pub Entries : BTreeMap K V → Type 0
  Entries [] = Unit
  Entries ((k, v) ∷ m) = P k v × Entries m

  value_of_entries : (m : BTreeMap K V) (k : K) (v : V) → Entries m → get m k ≡ some v → P k v
  unfolding get
  value_of_entries [] k v e h = absurd (cc h)
  value_of_entries ((j, w) ∷ m) k v e h = elim (Bool-cases (same k j)) [
    | inl s ↦ subst (P k) (ground (arith, s, h)) (subst (λ i. P i w) (sym (same→eq k j s)) e.0)
    | inr s ↦ value_of_entries m k v e.1 (ground (arith, s, h))
  ]

  pub IsMap_of_entries : (m : BTreeMap K V) → IsSorted m → Entries m → IsMap P m
  IsMap_of_entries m s e = record { sorted = s; values = λ k v h. value_of_entries m k v e h }
