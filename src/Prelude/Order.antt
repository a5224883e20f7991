-- ===== src/Prelude/Order.antt =====
-- Rust's `Ord`, with the laws that the trait asks of `cmp`, and its instances: byte strings in
-- lexicographic order (a `String` is its UTF-8 bytes, which is how `str` compares) and `Option`.
use Prim.Native.Nat.{ℕ, compare, Ordering}
use Prim.Native.Nat.Ordering.{lt, eq, gt}
use mathlib.Core.Path.{◌≡◌, refl, ap}
use mathlib.Core.Bool.{Bool, true, false}
use mathlib.Core.List.{List, [], ◌∷◌}
use mathlib.Core.Option.{Option, none, some}
use native.Mathlib.Omega.{arith}

pub record Ord {ℓ} (K : Type ℓ) : Type ℓ where
  pub cmp : K → K → Ordering
  pub cmp_refl : (a : K) → cmp a a ≡ eq
  pub eq_of_cmp : (a b : K) → cmp a b ≡ eq → a ≡ b
  pub gt_of_lt : (a b : K) → cmp a b ≡ lt → cmp b a ≡ gt
  pub lt_of_gt : (a b : K) → cmp a b ≡ gt → cmp b a ≡ lt
  pub lt_trans : (a b c : K) → cmp a b ≡ lt → cmp b c ≡ lt → cmp a c ≡ lt

abbrev pub is_eq : Ordering → Bool
is_eq eq = true
is_eq _ = false

abbrev pub is_gt : Ordering → Bool
is_gt gt = true
is_gt _ = false

-- `a == b` and `a > b`
module _ {ℓ} {K : Type ℓ} ⦃o : Ord K⦄ where
  abbrev pub same : K → K → Bool
  same a b = is_eq (o.cmp a b)

  abbrev pub above : K → K → Bool
  above a b = is_gt (o.cmp a b)

-- A `Vec<u8>`, and a `String` as its UTF-8 bytes.
abbrev pub Bytes : Type 0
Bytes = List ℕ

abbrev first_of_two : Ordering → Ordering → Ordering
first_of_two eq later = later
first_of_two first _ = first

abbrev pub cmp_bytes : Bytes → Bytes → Ordering
cmp_bytes [] [] = eq
cmp_bytes [] (y ∷ ys) = lt
cmp_bytes (x ∷ xs) [] = gt
cmp_bytes (x ∷ xs) (y ∷ ys) = first_of_two (compare x y) (cmp_bytes xs ys)

pub cmp_bytes_refl : (a : Bytes) → cmp_bytes a a ≡ eq
cmp_bytes_refl [] = refl
cmp_bytes_refl (x ∷ xs) = ground (arith, cmp_bytes_refl xs)

pub eq_of_cmp_bytes : (a b : Bytes) → cmp_bytes a b ≡ eq → a ≡ b
eq_of_cmp_bytes [] [] h = refl
eq_of_cmp_bytes [] (y ∷ ys) h = cc
eq_of_cmp_bytes (x ∷ xs) [] h = cc
eq_of_cmp_bytes (x ∷ xs) (y ∷ ys) h = ground (arith, eq_of_cmp_bytes xs ys)

pub gt_of_lt_bytes : (a b : Bytes) → cmp_bytes a b ≡ lt → cmp_bytes b a ≡ gt
gt_of_lt_bytes [] [] h = cc
gt_of_lt_bytes [] (y ∷ ys) h = refl
gt_of_lt_bytes (x ∷ xs) [] h = cc
gt_of_lt_bytes (x ∷ xs) (y ∷ ys) h = ground (arith, gt_of_lt_bytes xs ys)

pub lt_of_gt_bytes : (a b : Bytes) → cmp_bytes a b ≡ gt → cmp_bytes b a ≡ lt
lt_of_gt_bytes [] [] h = cc
lt_of_gt_bytes [] (y ∷ ys) h = cc
lt_of_gt_bytes (x ∷ xs) [] h = refl
lt_of_gt_bytes (x ∷ xs) (y ∷ ys) h = ground (arith, lt_of_gt_bytes xs ys)

pub lt_trans_bytes : (a b c : Bytes) → cmp_bytes a b ≡ lt → cmp_bytes b c ≡ lt → cmp_bytes a c ≡ lt
lt_trans_bytes [] [] c h k = cc
lt_trans_bytes [] (y ∷ ys) [] h k = cc
lt_trans_bytes [] (y ∷ ys) (z ∷ zs) h k = refl
lt_trans_bytes (x ∷ xs) [] c h k = cc
lt_trans_bytes (x ∷ xs) (y ∷ ys) [] h k = cc
lt_trans_bytes (x ∷ xs) (y ∷ ys) (z ∷ zs) h k = ground (arith, lt_trans_bytes xs ys zs)

instance abbrev pub bytes_ord : Ord Bytes
bytes_ord = record {
  cmp = cmp_bytes;
  cmp_refl = cmp_bytes_refl;
  eq_of_cmp = eq_of_cmp_bytes;
  gt_of_lt = gt_of_lt_bytes;
  lt_of_gt = lt_of_gt_bytes;
  lt_trans = lt_trans_bytes;
}

-- `>` is a strict total order.
module _ {ℓ} {K : Type ℓ} ⦃o : Ord K⦄ where
  pub above_irrefl : (a : K) → above a a ≡ false
  above_irrefl a = ground (arith, o.cmp_refl a)

  pub above_asym : (a b : K) → above a b ≡ true → above b a ≡ false
  above_asym a b h = ground (arith, o.lt_of_gt a b)

  pub above_trans : (a b c : K) → above a b ≡ true → above b c ≡ true → above a c ≡ true
  above_trans a b c h k =
      ground (arith, o.lt_of_gt a b, o.lt_of_gt b c, o.lt_trans c b a, o.gt_of_lt c a)

  pub above_total : (a b : K) → above a b ≡ false → above b a ≡ false → a ≡ b
  above_total a b h k = ground (arith, o.eq_of_cmp a b, o.gt_of_lt a b)

  pub same→eq : (a b : K) → same a b ≡ true → a ≡ b
  same→eq a b h = ground (arith, o.eq_of_cmp a b)

  pub same_refl : (a : K) → same a a ≡ true
  same_refl a = ground (arith, o.cmp_refl a)

-- `Option` in the order of Rust: `None` first.
module _ {ℓ} {K : Type ℓ} ⦃o : Ord K⦄ where
  abbrev pub cmp_option : Option K → Option K → Ordering
  cmp_option none none = eq
  cmp_option none (some b) = lt
  cmp_option (some a) none = gt
  cmp_option (some a) (some b) = o.cmp a b

  pub cmp_option_refl : (a : Option K) → cmp_option a a ≡ eq
  cmp_option_refl none = refl
  cmp_option_refl (some a) = o.cmp_refl a

  pub eq_of_cmp_option : (a b : Option K) → cmp_option a b ≡ eq → a ≡ b
  eq_of_cmp_option none none h = refl
  eq_of_cmp_option none (some b) h = cc
  eq_of_cmp_option (some a) none h = cc
  eq_of_cmp_option (some a) (some b) h = ap some (o.eq_of_cmp a b h)

  pub gt_of_lt_option : (a b : Option K) → cmp_option a b ≡ lt → cmp_option b a ≡ gt
  gt_of_lt_option none none h = cc
  gt_of_lt_option none (some b) h = refl
  gt_of_lt_option (some a) none h = cc
  gt_of_lt_option (some a) (some b) h = o.gt_of_lt a b h

  pub lt_of_gt_option : (a b : Option K) → cmp_option a b ≡ gt → cmp_option b a ≡ lt
  lt_of_gt_option none none h = cc
  lt_of_gt_option none (some b) h = cc
  lt_of_gt_option (some a) none h = refl
  lt_of_gt_option (some a) (some b) h = o.lt_of_gt a b h

  pub lt_trans_option :
      (a b c : Option K) → cmp_option a b ≡ lt → cmp_option b c ≡ lt → cmp_option a c ≡ lt
  lt_trans_option none none c h k = cc
  lt_trans_option none (some b) none h k = cc
  lt_trans_option none (some b) (some c) h k = refl
  lt_trans_option (some a) none c h k = cc
  lt_trans_option (some a) (some b) none h k = cc
  lt_trans_option (some a) (some b) (some c) h k = o.lt_trans a b c h k

  instance abbrev pub option_ord : Ord (Option K)
  option_ord = record {
    cmp = cmp_option;
    cmp_refl = cmp_option_refl;
    eq_of_cmp = eq_of_cmp_option;
    gt_of_lt = gt_of_lt_option;
    lt_of_gt = lt_of_gt_option;
    lt_trans = lt_trans_option;
  }
