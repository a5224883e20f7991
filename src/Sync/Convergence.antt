-- ===== src/Sync/Convergence.antt =====
-- Replicas that exchange states, for any merge that is the join of a semilattice.
pub mod Types
use numax.Prelude.{◌≡◌, refl, sym, ap, ◌∙◌, List, [], ◌∷◌, foldl}
use mathlib.Core.List.{Memᴰ}
use mathlib.Core.List.Memᴰ

-- On valid states the merge is the join of a semilattice.
pub record IsSemilattice {A : Type 0} (P : A → Type 0) (merge : A → A → A) : Type 0 where
  pub closed : (a b : A) → P a → P b → P (merge a b)
  pub comm : (a b : A) → P a → P b → merge a b ≡ merge b a
  pub assoc : (a b c : A) → P a → P b → P c → merge (merge a b) c ≡ merge a (merge b c)
  pub idem : (a : A) → P a → merge a a ≡ a

-- Every state of a list is valid.
abbrev pub All : {A : Type 0} → (A → Type 0) → List A → Type 0
All P [] = Unit
All P (x ∷ xs) = P x × All P xs

-- Every state of the second list is one of the first.
abbrev pub Includes : {A : Type 0} → List A → List A → Type 0
Includes xs [] = Unit
Includes xs (y ∷ ys) = Memᴰ y xs × Includes xs ys

-- A replica that receives states, from the first to the last.
abbrev pub receive : {A : Type 0} → (A → A → A) → A → List A → A
receive merge = foldl merge

module _ {A : Type 0} {P : A → Type 0} {merge : A → A → A} (laws : IsSemilattice P merge) where
  receive-P : (s : A) (xs : List A) → P s → All P xs → P (receive merge s xs)
  receive-P s [] ps pxs = ps
  receive-P s (x ∷ xs) ps pxs = receive-P (merge s x) xs (laws.closed s x ps pxs.0) pxs.1

  -- A state can be merged before or after the others.
  push :
      (s y : A) (xs : List A)
      → P s
      → P y
      → All P xs
      → merge (receive merge s xs) y ≡ receive merge (merge s y) xs
  push s y [] ps py pxs = refl
  push s y (x ∷ xs) ps py pxs =
      push (merge s x) y xs (laws.closed s x ps pxs.0) py pxs.1
      ∙ ap (λ t. receive merge t xs)
          (laws.assoc s x y ps pxs.0 py
            ∙ ap (merge s) (laws.comm x y pxs.0 py)
            ∙ sym (laws.assoc s y x ps py pxs.0))

  -- A state that was received changes nothing when it comes again.
  absorb :
      (s y : A) (xs : List A)
      → P s
      → All P xs
      → Memᴰ y xs
      → merge (receive merge s xs) y ≡ receive merge s xs
  absorb s y [] ps pxs m = elim m [ ]
  absorb s y (x ∷ xs) ps pxs (Memᴰ.head e) =
      ap (merge (receive merge (merge s x) xs)) e
      ∙ push (merge s x) x xs (laws.closed s x ps pxs.0) pxs.0 pxs.1
      ∙ ap (λ t. receive merge t xs)
          (laws.assoc s x x ps pxs.0 pxs.0 ∙ ap (merge s) (laws.idem x pxs.0))
  absorb s y (x ∷ xs) ps pxs (Memᴰ.tail m) =
      absorb (merge s x) y xs (laws.closed s x ps pxs.0) pxs.1 m

  receive_again :
      (s : A) (xs ys : List A)
      → P s
      → All P xs
      → Includes xs ys
      → receive merge (receive merge s xs) ys ≡ receive merge s xs
  receive_again s xs [] ps pxs i = refl
  receive_again s xs (y ∷ ys) ps pxs i =
      ap (λ t. receive merge t ys) (absorb s y xs ps pxs i.0) ∙ receive_again s xs ys ps pxs i.1

  swap :
      (s : A) (xs ys : List A)
      → P s
      → All P xs
      → All P ys
      → receive merge (receive merge s xs) ys ≡ receive merge (receive merge s ys) xs
  swap s xs [] ps pxs pys = refl
  swap s xs (y ∷ ys) ps pxs pys =
      ap (λ t. receive merge t ys) (push s y xs ps pys.0 pxs)
      ∙ swap (merge s y) xs ys (laws.closed s y ps pys.0) pxs pys.1

  -- Two replicas that start in one state and receive the same states, in whatever order and however
  -- often, end in one state.
  pub converges :
      (s : A) (xs ys : List A)
      → P s
      → All P xs
      → All P ys
      → Includes xs ys
      → Includes ys xs
      → receive merge s xs ≡ receive merge s ys
  converges s xs ys ps pxs pys ixy iyx =
      sym (receive_again s xs ys ps pxs ixy)
      ∙ swap s xs ys ps pxs pys
      ∙ receive_again s ys xs ps pys iyx
