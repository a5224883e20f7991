-- ===== src/Examples/Counters.antt =====
-- Counters of two nodes.
use numax.Prelude.{◌+◌, ◌<◌, ◌≡◌, refl, [], ◌∷◌, Bytes, bytes_ord, arith, u64_max}
use mathlib.Core.List.Memᴰ
use numax.Map.Join.{IsMap_of_entries}
use numax.Sync.Convergence.{receive}
use numax.Sync.Convergence.Types.{gcounter_converges, pncounter_converges}
use numax.Sync.GCounter
use numax.Sync.GCounter.{GCounter, sum_values}
use numax.Sync.GCounter.Merge as CounterMerge
use numax.Sync.GCounter.Laws.{value-increment, value-increment_wraps}
use numax.Sync.PnCounter
use numax.Sync.PnCounter.{PnCounter}
use numax.Sync.PnCounter.Laws as PnLaws

abbrev node_a : Bytes
node_a = 97 ∷ []

abbrev node_b : Bytes
node_b = 98 ∷ []

abbrev small : GCounter
small = record { counts = (node_a, 3) ∷ [] }

abbrev large : GCounter
large = record { counts = (node_a, 1) ∷ (node_b, u64_max) ∷ [] }

abbrev other : GCounter
other = record { counts = (node_b, 7) ∷ [] }

abbrev full : GCounter
full = record { counts = (node_b, u64_max) ∷ [] }

full-IsValid : CounterMerge.IsValid full
full-IsValid = record { slots = IsMap_of_entries _ _ (tt, tt) (omega arith, tt) }

small-IsValid : CounterMerge.IsValid small
small-IsValid = record { slots = IsMap_of_entries _ _ (tt, tt) (omega arith, tt) }

large-IsValid : CounterMerge.IsValid large
large-IsValid = record {
  slots = IsMap_of_entries _ _ ((refl, tt), (tt, tt)) (omega arith, (omega arith, tt));
}

other-IsValid : CounterMerge.IsValid other
other-IsValid = record { slots = IsMap_of_entries _ _ (tt, tt) (omega arith, tt) }

gcounter_converges_example :
    receive GCounter.merge small (large ∷ other ∷ large ∷ [])
    ≡ receive GCounter.merge small (other ∷ large ∷ [])
gcounter_converges_example =
    gcounter_converges small (large ∷ other ∷ large ∷ []) (other ∷ large ∷ []) small-IsValid
      (large-IsValid, (other-IsValid, (large-IsValid, tt))) (other-IsValid, (large-IsValid, tt))
      (Memᴰ.tail (Memᴰ.head refl), (Memᴰ.head refl, tt))
      (Memᴰ.tail (Memᴰ.head refl), (Memᴰ.head refl, (Memᴰ.tail (Memᴰ.head refl), tt)))

abbrev balance : PnCounter
balance = record { positive = small; negative = other }

abbrev debt : PnCounter
debt = record { positive = other; negative = small }

balance-IsValid : PnLaws.IsValid balance
balance-IsValid = record { positive = small-IsValid; negative = other-IsValid }

debt-IsValid : PnLaws.IsValid debt
debt-IsValid = record { positive = other-IsValid; negative = small-IsValid }

pncounter_converges_example :
    receive PnCounter.merge balance (debt ∷ balance ∷ [])
    ≡ receive PnCounter.merge balance (balance ∷ debt ∷ debt ∷ [])
pncounter_converges_example =
    pncounter_converges balance (debt ∷ balance ∷ []) (balance ∷ debt ∷ debt ∷ []) balance-IsValid
      (debt-IsValid, (balance-IsValid, tt)) (balance-IsValid, (debt-IsValid, (debt-IsValid, tt)))
      (Memᴰ.tail (Memᴰ.head refl), (Memᴰ.head refl, (Memᴰ.head refl, tt)))
      (Memᴰ.tail (Memᴰ.head refl), (Memᴰ.head refl, tt))

value-increment_example :
    GCounter.value (GCounter.increment small node_b 4) ≡ GCounter.value small + 4
unfolding sum_values GCounter.value_for numax.Map.get
value-increment_example = value-increment small node_b 4 small-IsValid (omega arith) (omega arith)

value-increment_wraps_example :
    GCounter.value (GCounter.increment full node_a 1) < GCounter.value full
unfolding sum_values GCounter.value_for numax.Map.get
value-increment_wraps_example =
    value-increment_wraps full node_a 1 full-IsValid (omega arith) (omega arith) (omega arith)
