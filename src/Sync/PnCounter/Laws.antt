-- ===== src/Sync/PnCounter/Laws.antt =====
-- Merging, what the signed value shows, and the nodes that contributed.
use numax.Prelude.{
  ℕ, ◌-◌, ◌^◌, ◌∙◌, ◌≡◌, refl, ap₂, ap, List, [], ◌∷◌, ◌++◌, ◌||◌, Bytes, bytes_ord, arith,
}
use numax.Prelude.Int.{ℤ, pos, negsuc, sub_ℕ, ◌≤ℤ◌}
use numax.Map.{contains_key}
use numax.Set.{member, keys}
use numax.Set.Laws.{member-keys}
use numax.Sync.GCounter
use numax.Sync.GCounter.{GCounter}
use numax.Sync.GCounter.Merge as CounterMerge
use numax.Sync.GCounter.Laws as CounterLaws
use numax.Sync.Op.{NodeId}
use numax.Sync.PnCounter.{
  PnCounter, value, increment, decrement, merge, clamp_i128_to_i64, push_new, nodes,
}

-- Both halves are valid counters.
pub record IsValid (c : PnCounter) : Type 0 where
  pub positive : CounterMerge.IsValid c.positive
  pub negative : CounterMerge.IsValid c.negative

abbrev build : GCounter → GCounter → PnCounter
build p n = record { positive = p; negative = n }

-- Two replicas that merge each other end in one state.
pub merge_comm : (a b : PnCounter) → IsValid a → IsValid b → merge a b ≡ merge b a
unfolding merge
merge_comm a b va vb =
    ap₂ build (CounterMerge.merge_comm a.positive b.positive va.positive vb.positive)
      (CounterMerge.merge_comm a.negative b.negative va.negative vb.negative)

pub merge_assoc :
    (a b c : PnCounter)
    → IsValid a
    → IsValid b
    → IsValid c
    → merge (merge a b) c ≡ merge a (merge b c)
unfolding merge
merge_assoc a b c va vb vc =
    ap₂ build
      (CounterMerge.merge_assoc a.positive b.positive c.positive va.positive vb.positive
        vc.positive)
      (CounterMerge.merge_assoc a.negative b.negative c.negative va.negative vb.negative
        vc.negative)

pub merge_idem : (a : PnCounter) → IsValid a → merge a a ≡ a
unfolding merge
merge_idem a va =
    ap₂ build (CounterMerge.merge_idem a.positive va.positive)
      (CounterMerge.merge_idem a.negative va.negative)

-- The value is the difference of the two sums wherever that fits `i64`, and else the nearest `i64`.
clamp_bounds :
    (z : ℤ)
    → (negsuc (2 ^ 63 - 1) ≤ℤ clamp_i128_to_i64 z)
      × (clamp_i128_to_i64 z ≤ℤ pos (2 ^ 63 - 1))
      × (negsuc (2 ^ 63 - 1) ≤ℤ z → z ≤ℤ pos (2 ^ 63 - 1) → clamp_i128_to_i64 z ≡ z)
unfolding clamp_i128_to_i64
clamp_bounds (pos n) = (omega arith, omega arith, λ h k. ap pos (omega arith))
clamp_bounds (negsuc n) = (omega arith, omega arith, λ h k. ap negsuc (omega arith))

-- The value of a counter fits `i64`.
pub value_bounds :
    (c : PnCounter) → (negsuc (2 ^ 63 - 1) ≤ℤ value c) × (value c ≤ℤ pos (2 ^ 63 - 1))
unfolding value
value_bounds c =
    let b = clamp_bounds (sub_ℕ (GCounter.value c.positive) (GCounter.value c.negative)) in
    (b.0, b.1)

-- Two increments, two decrements, or one of each may be applied to a valid counter in either order,
-- by one node or by two.
pub change_comm :
    (c : PnCounter) (n m : NodeId) (d e : ℕ)
    → IsValid c
    → (increment (increment c n d) m e ≡ increment (increment c m e) n d)
      × (decrement (decrement c n d) m e ≡ decrement (decrement c m e) n d)
      × (increment (decrement c n d) m e ≡ decrement (increment c m e) n d)
unfolding increment decrement
change_comm c n m d e v = (
  ap (λ s. build s c.negative) (CounterLaws.increment_comm c.positive n m d e v.positive),
  ap (λ s. build c.positive s) (CounterLaws.increment_comm c.negative n m d e v.negative),
  refl,
)

pub increment-IsValid :
    (c : PnCounter) (n : NodeId) (d : ℕ)
    → IsValid c
    → IsValid (increment c n d) × IsValid (decrement c n d)
unfolding increment decrement
increment-IsValid c n d v = (
  record {
    positive = CounterLaws.increment-IsValid c.positive n d v.positive;
    negative = v.negative;
  },
  record {
    positive = v.positive;
    negative = CounterLaws.increment-IsValid c.negative n d v.negative;
  },
)

member-append :
    (xs ys : List Bytes) (k : Bytes) → member (xs ++ ys) k ≡ (member xs k || member ys k)
unfolding member
member-append [] ys k = refl
member-append (x ∷ xs) ys k = ground (arith, member-append xs ys k)

member-push_new :
    (seen rest : List Bytes) (k : Bytes)
    → member (push_new seen rest) k ≡ (member seen k || member rest k)
unfolding push_new member
member-push_new seen [] k = ground arith
member-push_new seen (x ∷ rest) k = ground (
  arith,
  member-push_new seen rest k,
  member-push_new (seen ++ x ∷ []) rest k,
  member-append seen (x ∷ []) k,
  bytes_ord.eq_of_cmp k x,
)

-- `nodes` lists exactly the nodes with a positive or a negative slot.
pub member-nodes :
    (c : PnCounter) (n : NodeId)
    → member (nodes c) n ≡ (contains_key c.positive.counts n || contains_key c.negative.counts n)
unfolding nodes GCounter.nodes
member-nodes c n =
    member-push_new (keys c.positive.counts) (keys c.negative.counts) n
    ∙ ap₂ (λ s t. s || t) (member-keys c.positive.counts n) (member-keys c.negative.counts n)

pub merge-IsValid : (a b : PnCounter) → IsValid a → IsValid b → IsValid (merge a b)
unfolding merge
merge-IsValid a b va vb = record {
  positive = CounterMerge.merge-IsValid a.positive b.positive va.positive vb.positive;
  negative = CounterMerge.merge-IsValid a.negative b.negative va.negative vb.negative;
}
