-- ===== src/SyncManager/SeenOps/Slices.antt =====
-- Fronts and ends of lists, and of joined lists.
use numax.Prelude.{
  ℕ, zero, suc, ◌+◌, ◌-◌, ◌≤◌, ◌≡◌, refl, sym, ap, ◌∙◌, false, List, [], ◌∷◌, ◌++◌, Bytes,
  bytes_ord, length, take, drop, arith,
}
use numax.Set.{member}
use numax.SyncManager.SeenOps.Window.{drop-nil, member-cons}

pub take_at : (m n : ℕ) (xs : List Bytes) → m ≡ n → take m xs ≡ take n xs
take_at m n xs e = ap (λ k. take k xs) e

pub drop_at : (m n : ℕ) (xs : List Bytes) → m ≡ n → drop m xs ≡ drop n xs
drop_at m n xs e = ap (λ k. drop k xs) e

pub take-all :
    (n : ℕ) (xs ys : List Bytes) → length xs ≤ n → take n (xs ++ ys) ≡ xs ++ take (n - length xs) ys
take-all n [] ys h = take_at n (n - 0) ys (omega arith)
take-all zero (x ∷ xs) ys h = absurd (omega arith)
take-all (suc n) (x ∷ xs) ys h = ap (◌∷◌ x) (
    take-all n xs ys (omega arith)
    ∙ ap (λ t. xs ++ t) (take_at (n - length xs) (suc n - suc (length xs)) ys (omega arith)))

pub take-front : (n : ℕ) (xs ys : List Bytes) → n ≤ length xs → take n (xs ++ ys) ≡ take n xs
take-front zero xs ys h = refl
take-front (suc n) [] ys h = absurd (omega arith)
take-front (suc n) (x ∷ xs) ys h = ap (◌∷◌ x) (take-front n xs ys (omega arith))

pub drop-front : (n : ℕ) (xs ys : List Bytes) → n ≤ length xs → drop n (xs ++ ys) ≡ drop n xs ++ ys
drop-front zero xs ys h = refl
drop-front (suc n) [] ys h = absurd (omega arith)
drop-front (suc n) (x ∷ xs) ys h = drop-front n xs ys (omega arith)

pub drop-drop : (m n : ℕ) (xs : List Bytes) → drop m (drop n xs) ≡ drop (n + m) xs
drop-drop m zero xs = drop_at m (0 + m) xs (omega arith)
drop-drop m (suc n) [] = drop-nil m ∙ sym (drop-nil (suc n + m))
drop-drop m (suc n) (x ∷ xs) =
    drop-drop m n xs ∙ drop_at (suc (n + m)) (suc n + m) (x ∷ xs) (omega arith)

pub take-short : (n : ℕ) (xs : List Bytes) → length xs ≤ n → take n xs ≡ xs
take-short zero [] h = refl
take-short zero (x ∷ xs) h = absurd (omega arith)
take-short (suc n) [] h = refl
take-short (suc n) (x ∷ xs) h = ap (◌∷◌ x) (take-short n xs (omega arith))

pub member-drop :
    (n : ℕ) (xs : List Bytes) (k : Bytes) → member xs k ≡ false → member (drop n xs) k ≡ false
member-drop zero xs k h = h
member-drop (suc n) [] k h = h
member-drop (suc n) (x ∷ xs) k h = member-drop n xs k (ground (arith, member-cons x xs k))
