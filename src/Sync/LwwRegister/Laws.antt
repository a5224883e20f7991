-- ===== src/Sync/LwwRegister/Laws.antt =====
-- `LwwRegister::merge` and `assign`, and the ties of their stamps.
use numax.Prelude.{
  ◌≡◌, ◌⊎◌, ◌↔◌, inl, inr, refl, sym, ℕ, true, false, ◌&&◌, ◌==◌, Bool-cases, Bytes, bytes_ord,
  same, same→eq, same_refl, above_irrefl, above_asym, above_trans, above_total, arith,
}
use numax.Sync.Op.{NodeId}
use numax.Sync.LwwRegister.{LwwRegister, new, candidate_wins, assign, merge, merged_with}

-- Two writes that carry the same stamp: one timestamp and one writer.
abbrev pub SameStamp : LwwRegister → LwwRegister → Type 0
SameStamp a b = (a.timestamp_ms ≡ b.timestamp_ms) × (a.writer ≡ b.writer)

wins_asym : (a b : LwwRegister) → candidate_wins a b ≡ true → candidate_wins b a ≡ false
unfolding candidate_wins
wins_asym a b h = ground (arith, above_asym a.writer b.writer)

wins_trans :
    (a b c : LwwRegister)
    → candidate_wins a b ≡ true
    → candidate_wins b c ≡ true
    → candidate_wins a c ≡ true
unfolding candidate_wins
wins_trans a b c h k = ground (arith, above_trans a.writer b.writer c.writer)

-- What does not win against `b` does not win against anything that `b` does not win against.
loses_trans :
    (a b c : LwwRegister)
    → candidate_wins a b ≡ false
    → candidate_wins b c ≡ false
    → candidate_wins a c ≡ false
unfolding candidate_wins
loses_trans a b c h k = ground (
  arith,
  above_total a.writer b.writer,
  above_total b.writer c.writer,
  above_trans b.writer a.writer c.writer,
  above_asym a.writer c.writer,
  above_trans a.writer c.writer b.writer,
  above_trans c.writer b.writer a.writer,
)

wins_irrefl : (a : LwwRegister) → candidate_wins a a ≡ false
unfolding candidate_wins
wins_irrefl a = ground (arith, above_irrefl a.writer)

not-wins_of_SameStamp : (a b : LwwRegister) → SameStamp a b → candidate_wins a b ≡ false
unfolding candidate_wins
not-wins_of_SameStamp a b h = ground (arith, above_irrefl b.writer)

SameStamp-of_not-wins :
    (a b : LwwRegister) → candidate_wins a b ≡ false → candidate_wins b a ≡ false → SameStamp a b
unfolding candidate_wins
SameStamp-of_not-wins a b h k = (ground arith, ground (arith, above_total a.writer b.writer))

pub SameStamp-dec : (a b : LwwRegister) → SameStamp a b ⊎ (¬ SameStamp a b)
SameStamp-dec a b = elim (Bool-cases (a.timestamp_ms == b.timestamp_ms && same a.writer b.writer)) [
  | inl h ↦ inl (ground (arith), ground (arith, same→eq a.writer b.writer))
  | inr h ↦ inr (λ e. ground (arith, e, same_refl a.writer))
]

-- An assignment is a merge with the register that was just written.
pub assign-eq-merge :
    (a : LwwRegister) (value : Bytes) (timestamp_ms : ℕ) (writer : NodeId)
    → assign a value timestamp_ms writer ≡ merge a (new value timestamp_ms writer)
unfolding assign merge
assign-eq-merge a value timestamp_ms writer = refl

-- Merging a register into itself changes nothing.
pub merged_with_idem : (a : LwwRegister) → merged_with a a ≡ a
unfolding merged_with
merged_with_idem a = ground arith

-- The order in which three registers are merged does not matter, whatever their stamps.
pub merged_with_assoc :
    (a b c : LwwRegister) → merged_with (merged_with a b) c ≡ merged_with a (merged_with b c)
unfolding merged_with
merged_with_assoc a b c = ground (arith, wins_trans c b a, loses_trans c b a)

-- Two registers merge to one state either way round exactly if they are equal or their timestamps
-- or writers differ.
pub merged_with-comm_iff :
    (a b : LwwRegister) → (merged_with a b ≡ merged_with b a) ↔ ((a ≡ b) ⊎ (¬ SameStamp a b))
unfolding merged_with
merged_with-comm_iff a b = (
  λ e. elim (SameStamp-dec a b) [
    | inl h ↦
        inl (
          ground (arith, not-wins_of_SameStamp a b h, not-wins_of_SameStamp b a (sym h.0, sym h.1)))
    | inr h ↦ inr h
  ],
  elim [
    | inl e ↦ ground arith
    | inr h ↦ ground (
      arith,
      wins_asym a b,
      wins_asym b a,
      λ (p : candidate_wins a b ≡ false) (q : candidate_wins b a ≡ false).
          h (SameStamp-of_not-wins a b p q),
    )
  ],
)
