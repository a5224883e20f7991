-- ===== src/Examples/Stamped.antt =====
-- Registers and maps of registers that two nodes write.
use numax.Prelude.{ℕ, ◌≡◌, refl, ◌↔◌, ◌⊎◌, [], ◌∷◌, Bytes, bytes_ord, some, none}
use mathlib.Core.List.Memᴰ
use numax.Sync.Op.{NodeId}
use numax.Sync.Convergence.{receive}
use numax.Sync.Convergence.Types.{lww_register_converges, lww_map_converges}
use numax.Sync.LwwRegister.{LwwRegister}
use numax.Sync.LwwRegister as Registers
use numax.Sync.LwwRegister.Laws.{SameStamp, merged_with-comm_iff}
use numax.Sync.LwwMap as Maps
use numax.Sync.LwwMap.{LwwMap, LwwMapEntry, entry_wins}

-- The value that a writer gives to a timestamp.
abbrev written : ℕ → NodeId → Bytes
written timestamp_ms writer = timestamp_ms ∷ writer

abbrev by_a : LwwRegister
by_a = record { value = 5 ∷ 97 ∷ []; timestamp_ms = 5; writer = 97 ∷ [] }

abbrev by_b : LwwRegister
by_b = record { value = 5 ∷ 98 ∷ []; timestamp_ms = 5; writer = 98 ∷ [] }

abbrev again_by_a : LwwRegister
again_by_a = record { value = 0 ∷ []; timestamp_ms = 5; writer = 97 ∷ [] }

lww_register_converges_example :
    receive Registers.merged_with by_a (by_b ∷ by_a ∷ [])
    ≡ receive Registers.merged_with by_a (by_a ∷ by_b ∷ by_b ∷ [])
lww_register_converges_example =
    lww_register_converges written by_a (by_b ∷ by_a ∷ []) (by_a ∷ by_b ∷ by_b ∷ []) refl
      (refl, (refl, tt)) (refl, (refl, (refl, tt)))
      (Memᴰ.tail (Memᴰ.head refl), (Memᴰ.head refl, (Memᴰ.head refl, tt)))
      (Memᴰ.tail (Memᴰ.head refl), (Memᴰ.head refl, tt))

merged_with-comm_iff_example :
    (Registers.merged_with by_a again_by_a ≡ Registers.merged_with again_by_a by_a)
    ↔ ((by_a ≡ again_by_a) ⊎ (¬ SameStamp by_a again_by_a))
merged_with-comm_iff_example = merged_with-comm_iff by_a again_by_a

abbrev present : LwwMapEntry
present = record { value = some (1 ∷ []); timestamp_ms = 5; writer = 97 ∷ [] }

abbrev removed : LwwMapEntry
removed = record { value = none; timestamp_ms = 5; writer = 97 ∷ [] }

abbrev field : Bytes
field = 102 ∷ []

abbrev with_field : LwwMap
with_field = record { entries = (field, present) ∷ [] }

abbrev without_field : LwwMap
without_field = record { entries = (field, removed) ∷ [] }

lww_map_converges_example :
    receive Maps.merged_with with_field (without_field ∷ with_field ∷ [])
    ≡ receive Maps.merged_with with_field (with_field ∷ without_field ∷ without_field ∷ [])
lww_map_converges_example =
    lww_map_converges with_field (without_field ∷ with_field ∷ [])
      (with_field ∷ without_field ∷ without_field ∷ []) (tt, tt) ((tt, tt), ((tt, tt), tt))
      ((tt, tt), ((tt, tt), ((tt, tt), tt)))
      (Memᴰ.tail (Memᴰ.head refl), (Memᴰ.head refl, (Memᴰ.head refl, tt)))
      (Memᴰ.tail (Memᴰ.head refl), (Memᴰ.head refl, tt))
