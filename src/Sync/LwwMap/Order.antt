-- ===== src/Sync/LwwMap/Order.antt =====
-- `entry_wins` of lww_map.rs as an order on entries.
use numax.Prelude.{
  ◌≡◌, refl, Bool, true, false, ◌&&◌, ◌||◌, same, above, Option, none, some, Bytes, bytes_ord,
  above_irrefl, above_asym, above_trans, above_total, same→eq, same_refl, arith,
}
use numax.Sync.LwwMap.{LwwMapEntry, value_wins, entry_wins}

value_wins_irrefl : (a : Option Bytes) → value_wins a a ≡ false
unfolding value_wins
value_wins_irrefl none = refl
value_wins_irrefl (some x) = above_irrefl x

value_wins_asym : (a b : Option Bytes) → value_wins a b ≡ true → value_wins b a ≡ false
unfolding value_wins
value_wins_asym none none h = refl
value_wins_asym none (some y) h = refl
value_wins_asym (some x) none h = cc
value_wins_asym (some x) (some y) h = above_asym x y h

value_wins_trans :
    (a b c : Option Bytes) → value_wins a b ≡ true → value_wins b c ≡ true → value_wins a c ≡ true
unfolding value_wins
value_wins_trans none none c h k = cc
value_wins_trans none (some y) none h k = cc
value_wins_trans none (some y) (some z) h k = refl
value_wins_trans (some x) none c h k = cc
value_wins_trans (some x) (some y) none h k = cc
value_wins_trans (some x) (some y) (some z) h k = above_trans x y z h k

value_wins_total : (a b : Option Bytes) → value_wins a b ≡ false → value_wins b a ≡ false → a ≡ b
unfolding value_wins
value_wins_total none none h k = refl
value_wins_total none (some y) h k = cc
value_wins_total (some x) none h k = cc
value_wins_total (some x) (some y) h k = ground (arith, above_total x y h k)

-- The writer's part of the order, and the value's.
abbrev writer_wins : LwwMapEntry → LwwMapEntry → Bool
writer_wins a b = above a.writer b.writer || (same a.writer b.writer && value_wins a.value b.value)

writer_wins_asym : (a b : LwwMapEntry) → writer_wins a b ≡ true → writer_wins b a ≡ false
writer_wins_asym a b h = ground (
  arith,
  above_asym a.writer b.writer,
  above_irrefl a.writer,
  same→eq a.writer b.writer,
  same→eq b.writer a.writer,
  value_wins_asym a.value b.value,
)

writer_wins_trans :
    (a b c : LwwMapEntry) → writer_wins a b ≡ true → writer_wins b c ≡ true → writer_wins a c ≡ true
writer_wins_trans a b c h k = ground (
  arith,
  above_trans a.writer b.writer c.writer,
  same→eq a.writer b.writer,
  same→eq b.writer c.writer,
  value_wins_trans a.value b.value c.value,
)

writer_wins_total :
    (a b : LwwMapEntry)
    → writer_wins a b ≡ false
    → writer_wins b a ≡ false
    → (a.writer ≡ b.writer) × (a.value ≡ b.value)
writer_wins_total a b h k =
    let e : a.writer ≡ b.writer = above_total a.writer b.writer (ground arith) (ground arith) in
    (
      e,
      value_wins_total a.value b.value (ground (arith, same_refl a.writer))
          (ground (arith, same_refl a.writer)),
    )

pub entry_wins_irrefl : (a : LwwMapEntry) → entry_wins a a ≡ false
unfolding entry_wins
entry_wins_irrefl a = ground (arith, above_irrefl a.writer, value_wins_irrefl a.value)

pub entry_wins_asym : (a b : LwwMapEntry) → entry_wins a b ≡ true → entry_wins b a ≡ false
unfolding entry_wins
entry_wins_asym a b h = ground (arith, writer_wins_asym a b)

pub entry_wins_trans :
    (a b c : LwwMapEntry) → entry_wins a b ≡ true → entry_wins b c ≡ true → entry_wins a c ≡ true
unfolding entry_wins
entry_wins_trans a b c h k = ground (arith, writer_wins_trans a b c)

-- Two entries of which neither wins over the other are equal.
pub entry_wins_total : (a b : LwwMapEntry) → entry_wins a b ≡ false → entry_wins b a ≡ false → a ≡ b
unfolding entry_wins
entry_wins_total a b h k = ground (arith, writer_wins_total a b)
