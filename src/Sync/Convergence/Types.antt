-- ===== src/Sync/Convergence/Types.antt =====
-- The merges of crates/nx-sync/src/crdt as joins of semilattices.
use numax.Prelude.{◌≡◌, sym, ap, ◌∙◌, inl, inr, List, Bytes, ℕ, arith}
use numax.Sync.Op.{NodeId}
use numax.Sync.Convergence.{All, Includes, receive, converges}
use numax.Sync.GCounter
use numax.Sync.GCounter.{GCounter}
use numax.Sync.GCounter.Merge as CounterMerge
use numax.Sync.PnCounter
use numax.Sync.PnCounter.{PnCounter}
use numax.Sync.PnCounter.Laws as PnLaws
use numax.Sync.LwwRegister.{LwwRegister, merged_with}
use numax.Sync.LwwRegister.Laws as RegisterLaws
use numax.Sync.LwwMap as LwwMaps
use numax.Sync.LwwMap.{LwwMap}
use numax.Sync.LwwMap.Laws as MapLaws
use numax.Sync.OrSet
use numax.Sync.OrSet.{OrSet}
use numax.Sync.OrSet.Merge as SetMerge
use numax.Sync.Rga
use numax.Sync.Rga.{Rga, RgaElement, RgaElementId}
use numax.Sync.Rga.Merge as ListMerge

-- Grow-only counters that start in one valid state and receive the same valid states, in whatever
-- order and however often, end in one state.
pub gcounter_converges :
    (s : GCounter) (xs ys : List GCounter)
    → CounterMerge.IsValid s
    → All CounterMerge.IsValid xs
    → All CounterMerge.IsValid ys
    → Includes xs ys
    → Includes ys xs
    → receive GCounter.merge s xs ≡ receive GCounter.merge s ys
gcounter_converges = converges (record {
  closed = CounterMerge.merge-IsValid;
  comm = CounterMerge.merge_comm;
  assoc = CounterMerge.merge_assoc;
  idem = CounterMerge.merge_idem;
})

-- Counters with decrements that start in one valid state and receive the same valid states, in
-- whatever order and however often, end in one state.
pub pncounter_converges :
    (s : PnCounter) (xs ys : List PnCounter)
    → PnLaws.IsValid s
    → All PnLaws.IsValid xs
    → All PnLaws.IsValid ys
    → Includes xs ys
    → Includes ys xs
    → receive PnCounter.merge s xs ≡ receive PnCounter.merge s ys
pncounter_converges = converges (record {
  closed = PnLaws.merge-IsValid;
  comm = PnLaws.merge_comm;
  assoc = PnLaws.merge_assoc;
  idem = PnLaws.merge_idem;
})

-- What every writer writes at each timestamp.
module _ (value_of : ℕ → NodeId → Bytes) where
  abbrev pub IsFrom : LwwRegister → Type 0
  IsFrom r = r.value ≡ value_of r.timestamp_ms r.writer

  register_ext : (a b : LwwRegister) → IsFrom a → IsFrom b → RegisterLaws.SameStamp a b → a ≡ b
  register_ext a b pa pb same_stamp = λ i. record {
    value =
        (pa
            ∙ ap (λ t. value_of t a.writer) same_stamp.0
            ∙ ap (value_of b.timestamp_ms) same_stamp.1
            ∙ sym pb)
          i;
    timestamp_ms = same_stamp.0 i;
    writer = same_stamp.1 i;
  }

  register_comm : (a b : LwwRegister) → IsFrom a → IsFrom b → merged_with a b ≡ merged_with b a
  register_comm a b pa pb =
      (RegisterLaws.merged_with-comm_iff a b).1 (elim (RegisterLaws.SameStamp-dec a b) [
        | inl h ↦ inl (register_ext a b pa pb h)
        | inr h ↦ inr h
      ])

  merged_with-IsFrom : (a b : LwwRegister) → IsFrom a → IsFrom b → IsFrom (merged_with a b)
  unfolding merged_with
  merged_with-IsFrom a b pa pb = ground arith

  -- Registers that start in one state and receive the same states, in whatever order and however
  -- often, end in one state, if no writer stamps two values with one timestamp.
  pub lww_register_converges :
      (s : LwwRegister) (xs ys : List LwwRegister)
      → IsFrom s
      → All IsFrom xs
      → All IsFrom ys
      → Includes xs ys
      → Includes ys xs
      → receive merged_with s xs ≡ receive merged_with s ys
  lww_register_converges = converges (record {
    closed = merged_with-IsFrom;
    comm = register_comm;
    assoc = λ a b c pa pb pc. RegisterLaws.merged_with_assoc a b c;
    idem = λ a pa. RegisterLaws.merged_with_idem a;
  })

-- Maps of registers that start in one valid state and receive the same valid states, in whatever
-- order and however often, end in one state, ties of timestamp and writer included.
pub lww_map_converges :
    (s : LwwMap) (xs ys : List LwwMap)
    → MapLaws.IsValid s
    → All MapLaws.IsValid xs
    → All MapLaws.IsValid ys
    → Includes xs ys
    → Includes ys xs
    → receive LwwMaps.merged_with s xs ≡ receive LwwMaps.merged_with s ys
lww_map_converges = converges (record {
  closed = λ a b pa pb. MapLaws.merged_with-IsValid a b pa;
  comm = MapLaws.merged_with_comm;
  assoc = MapLaws.merged_with_assoc;
  idem = MapLaws.merged_with_idem;
})

-- Observed-remove sets that start in one valid state and receive the same valid states, in whatever
-- order and however often, end in one state.
pub orset_converges :
    (s : OrSet) (xs ys : List OrSet)
    → SetMerge.IsValid s
    → All SetMerge.IsValid xs
    → All SetMerge.IsValid ys
    → Includes xs ys
    → Includes ys xs
    → receive OrSet.merged_with s xs ≡ receive OrSet.merged_with s ys
orset_converges = converges (record {
  closed = SetMerge.merged_with-IsValid;
  comm = SetMerge.merged_with_comm;
  assoc = SetMerge.merged_with_assoc;
  idem = SetMerge.merged_with_idem;
})

-- Sequences that start in one valid state and receive the same valid states, in whatever order and
-- however often, end in one state, if an identifier stands for one element in all of them.
pub rga_converges :
    (element_of : RgaElementId → RgaElement) (s : Rga) (xs ys : List Rga)
    → ListMerge.IsValid element_of s
    → All (ListMerge.IsValid element_of) xs
    → All (ListMerge.IsValid element_of) ys
    → Includes xs ys
    → Includes ys xs
    → receive Rga.merged_with s xs ≡ receive Rga.merged_with s ys
rga_converges element_of = converges (record {
  closed = ListMerge.merged_with-IsValid element_of;
  comm = ListMerge.merged_with_comm element_of;
  assoc = ListMerge.merged_with_assoc element_of;
  idem = ListMerge.merged_with_idem element_of;
})
