-- ===== src/Set/Counting.antt =====
-- How many elements a list without repetitions can have.
use numax.Prelude.{◌+◌, ◌≤◌, ◌≡◌, refl, ap, true, false, List, [], ◌∷◌, Ord, same→eq, length, arith}
use numax.Map.Laws.{IsSorted, IsSorted-insert}
use numax.Set.Defs.{BTreeSet, contains, add, extend, member}
use numax.Set.Laws.{
  contains-add, contains-extend, IsSorted-extend, length-add, length-le-extend, set_ext,
}

module _ {ℓ} {K : Type ℓ} ⦃o : Ord K⦄ where
  -- No element occurs twice.
  abbrev pub Distinct : List K → Type 0
  Distinct [] = Unit
  Distinct (x ∷ xs) = (member xs x ≡ false) × Distinct xs

  length-extend :
      (s : BTreeSet K) (ks : List K) → IsSorted s → length (extend s ks) ≤ length s + length ks
  unfolding extend
  length-extend s [] h = omega arith
  length-extend s (k ∷ ks) h =
      ground (arith, length-add s k h, length-extend (add s k) ks (IsSorted-insert s k tt h))

  -- None of the elements is in the set.
  abbrev Avoids : BTreeSet K → List K → Type 0
  Avoids s [] = Unit
  Avoids s (x ∷ xs) = (contains s x ≡ false) × Avoids s xs

  Avoids-add :
      (s : BTreeSet K) (x : K) (xs : List K)
      → member xs x ≡ false
      → Avoids s xs
      → Avoids (add s x) xs
  unfolding member
  Avoids-add s x [] d a = tt
  Avoids-add s x (y ∷ xs) d a = (
    ground (arith, contains-add s x y, same→eq y x, o.cmp_refl x),
    Avoids-add s x xs (ground arith) a.1,
  )

  length-extend_of_Distinct :
      (s : BTreeSet K) (xs : List K)
      → IsSorted s
      → Distinct xs
      → Avoids s xs
      → length (extend s xs) ≡ length s + length xs
  unfolding extend
  length-extend_of_Distinct s [] h d a = omega arith
  length-extend_of_Distinct s (x ∷ xs) h d a = ground (
    arith,
    length-add s x h,
    length-extend_of_Distinct (add s x) xs (IsSorted-insert s x tt h) d.1
        (Avoids-add s x xs d.0 a.1),
  )

  Avoids-empty : (xs : List K) → Avoids [] xs
  unfolding numax.Map.get
  Avoids-empty [] = tt
  Avoids-empty (x ∷ xs) = (refl, Avoids-empty xs)

  -- A list without repetitions is no longer than a list that has all its elements.
  pub length-le_of_Distinct :
      (xs ks : List K)
      → Distinct xs
      → ((k : K) → member xs k ≡ true → member ks k ≡ true)
      → length xs ≤ length ks
  length-le_of_Distinct xs ks d sub =
      let both : extend (extend [] xs) ks ≡ extend [] ks =
        set_ext (extend (extend [] xs) ks) (extend [] ks)
          (IsSorted-extend (extend [] xs) ks (IsSorted-extend [] xs tt)) (IsSorted-extend [] ks tt)
          λ k. ground (
            arith,
            contains-extend (extend [] xs) ks k,
            contains-extend [] xs k,
            contains-extend [] ks k,
            sub k,
          ) in
      omega (
        arith,
        length-extend_of_Distinct [] xs tt d (Avoids-empty xs),
        length-le-extend (extend [] xs) ks (IsSorted-extend [] xs tt),
        ap (λ (s : BTreeSet K). length s) both,
        length-extend [] ks tt,
      )
