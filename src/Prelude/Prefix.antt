-- ===== src/Prelude/Prefix.antt =====
-- `starts_with` on byte strings, and filters by a test.
use Prim.Native.Nat.{Ordering}
use mathlib.Core.Path.{◌≡◌, refl}
use mathlib.Core.Bool.{Bool, true, false, ◌&&◌}
use mathlib.Core.List.{List, [], ◌∷◌}
use native.Mathlib.Omega.{arith}
use numax.Prelude.Tests.{◌==◌, if◌then◌else◌}
use numax.Prelude.Order.{Bytes, cmp_bytes}

abbrev pub filter {ℓ} : {A : Type ℓ} → (A → Bool) → List A → List A
filter test [] = []
filter test (x ∷ xs) = let rest = filter test xs in if test x then x ∷ rest else rest

-- `text.starts_with(prefix)`
unfoldable pub starts_with : Bytes → Bytes → Bool
starts_with text [] = true
starts_with [] (p ∷ prefix) = false
starts_with (b ∷ text) (p ∷ prefix) = b == p && starts_with text prefix

-- What lies between two strings with a prefix has it.
pub starts_with_between :
    (prefix a b c : Bytes)
    → starts_with a prefix ≡ true
    → starts_with c prefix ≡ true
    → cmp_bytes a b ≡ Ordering.lt
    → cmp_bytes b c ≡ Ordering.lt
    → starts_with b prefix ≡ true
unfolding starts_with
starts_with_between [] a b c f g h k = refl
starts_with_between (p ∷ ps) [] b c f g h k = cc
starts_with_between (p ∷ ps) (x ∷ xs) [] c f g h k = cc
starts_with_between (p ∷ ps) (x ∷ xs) (y ∷ ys) [] f g h k = cc
starts_with_between (p ∷ ps) (x ∷ xs) (y ∷ ys) (z ∷ zs) f g h k =
    ground (arith, starts_with_between ps xs ys zs)
