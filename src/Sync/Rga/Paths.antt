-- ===== src/Sync/Rga/Paths.antt =====
-- The ways from the head of an `Rga` down to its elements, along their parents.
use numax.Prelude.{
  suc, ◌≤◌, ◌≡◌, refl, sym, ap, ◌∙◌, subst, inl, inr, true, Option, none, some, List, [], ◌∷◌,
  bytes_ord, option_ord, same, same→eq, length, arith, Bool-cases,
}
use numax.Map.{BTreeMap, get, is_some}
use numax.Set.{keys, member}
use numax.Set.Laws.{member-keys}
use numax.Set.Counting.{Distinct, length-le_of_Distinct}
use numax.Sync.Rga.{RgaElement, RgaElementId, filed_under}

abbrev pub Elements : Type 0
Elements = BTreeMap RgaElementId RgaElement

module _ (elements : Elements) where
  -- The element of an identifier, filed under a parent.
  abbrev pub IsChild : Option RgaElementId → RgaElementId → Type 0
  IsChild parent id =
      (element : RgaElement) × (get elements id ≡ some element)
      × (filed_under elements element ≡ parent)

  -- The way from the head down to an identifier: those on it, the deepest first.
  pub data PathTo : Option RgaElementId → List RgaElementId → Type 0 where
    root : PathTo none []
    down :
        {parent : Option RgaElementId} {path : List RgaElementId} (id : RgaElementId)
        → IsChild parent id
        → PathTo parent path
        → PathTo (some id) (id ∷ path)

  -- A way is as long as any other to the same identifier.
  one_length :
      (p q : Option RgaElementId) (xs ys : List RgaElementId)
      → p ≡ q
      → PathTo p xs
      → PathTo q ys
      → length xs ≡ length ys
  one_length p q xs ys e root root = refl
  one_length p q xs ys e root (down id c w) = absurd (cc e)
  one_length p q xs ys e (down id c w) root = absurd (cc e)
  one_length p q xs ys e (down {parent = a} {path = up} id c v)
        (down {parent = b} {path = up2} id' c' w) =
      ap suc (one_length a b up up2 (ground (arith, e, c.1, c.2, c'.1, c'.2)) v w)

  -- The way to a parent passes through each identifier on it.
  through :
      (p : Option RgaElementId) (path : List RgaElementId) (k : RgaElementId)
      → PathTo p path
      → member path k ≡ true
      → (sub : List RgaElementId) × PathTo (some k) sub × (length sub ≤ length path)
  unfolding member
  through p path k root h = absurd (cc h)
  through p path k (down {parent = a} {path = up} id c w) h = elim (Bool-cases (same k id)) [
    | inl e ↦ (
      id ∷ up,
      subst (λ i. PathTo (some i) (id ∷ up)) (sym (same→eq k id e)) (down id c w),
      omega arith,
    )
    | inr e ↦
        let (sub, v, le) = through a up k w (ground (arith, e, h)) in (sub, v, omega (arith, le))
  ]

  path-Distinct :
      (p : Option RgaElementId) (path : List RgaElementId) → PathTo p path → Distinct path
  path-Distinct p path root = tt
  path-Distinct p path (down {parent = a} {path = up} id c w) = (
    elim (Bool-cases (member up id)) [
      | inr e ↦ e
      | inl e ↦
          let (sub, v, le) = through a up id w e in
          absurd
            (omega (arith, le, one_length (some id) (some id) sub (id ∷ up) refl v (down id c w)))
    ],
    path-Distinct a up w,
  )

  path_within :
      (p : Option RgaElementId) (path : List RgaElementId)
      → PathTo p path
      → (k : RgaElementId) → member path k ≡ true
      → member (keys elements) k ≡ true
  unfolding member
  path_within p path root k h = absurd (cc h)
  path_within p path (down {parent = a} {path = up} id c w) k h = elim (Bool-cases (same k id)) [
    | inl e ↦
        subst (λ i. member (keys elements) i ≡ true) (sym (same→eq k id e))
          (member-keys elements id ∙ ap is_some c.1)
    | inr e ↦ path_within a up w k (ground (arith, e, h))
  ]

  length-keys : (m : Elements) → length (keys m) ≡ length m
  length-keys [] = refl
  length-keys (x ∷ m) = omega (arith, length-keys m)

  pub path_bounded :
      (p : Option RgaElementId) (path : List RgaElementId)
      → PathTo p path
      → length path ≤ length elements
  path_bounded p path w = omega (
    arith,
    length-le_of_Distinct path (keys elements) (path-Distinct p path w) (path_within p path w),
    length-keys elements,
  )
