-- ===== src/Examples/Calls.antt =====
-- Guests that change replicated data of a node.
use numax.Prelude.Int.{pos}
use numax.Sync.OrSet
use numax.HostApi.Guest.{Memory, as_i32}
use numax.Prelude.{◌≡◌, refl, subst, true, some, List, [], ◌∷◌, ℕ, leb, arith}
use numax.SyncManager.Updates.{no_updates}
use numax.HostApi.Crdt.{Handle, RgaInsertArgs, read_utf8_key, read_parent, crdt_rga_insert_impl}
use numax.HostApi.Crdt
use numax.HostApi.Reads
use numax.HostApi.Reads.{set_elements}
use numax.HostApi.Encode.{encode_string_list}
use numax.Abi.Utf8.{is_utf8}
use numax.Abi.Words.{to_le_bytes}
use numax.Prelude.{starts_with, ◌++◌, Bool, false, ◌↔◌, ap, length}
use numax.Map.{get_or}
use numax.SyncManager.Updates.{Registries}
use numax.Prelude.Result.{ok}
use numax.Sdk.Served.{IsAllowed}
use numax.Sdk.OrSet.{elements}
use numax.Sdk.OrSet.Elements.{linked_sets, elements-registered}
use numax.Examples.Database.{laid_out, laid_out-Places}
use numax.HostApi.Reads.OwnWrites.{lww_get-set, orset_contains-add, orset_contains-remove}
use numax.HostApi.Crdt.Unsent.{rga_insert-unsent, IsError}
use numax.HostApi.Crdt.Calls.{
  orset_add_call, orset_remove_call, lww_set, rga_insert_call, Moment, Node, Event, called,
  received, steps, IsFaithful, steps-IsFaithful, some_inj,
}

-- A memory that holds the letter "a" everywhere, and takes writes below an address.
abbrev letters : Memory
letters = record { load = λ ptr len. some (97 ∷ []); holds = λ ptr n. leb ptr 9 }

abbrev handle : Handle
handle = record { node_id = 110 ∷ []; registries = no_updates; queue = []; queue_capacity = 4 }

abbrev moment : Moment
moment = record { guest = some letters; stored = true; op_id = 1 ∷ []; clock = some 5 }

abbrev node : Node
node = record { handle = handle; taken = [] }

abbrev insertion : ℕ → RgaInsertArgs
insertion out_id_ptr = record {
  key_ptr = 0;
  key_len = 1;
  parent_ptr = 0;
  parent_len = 0;
  value_ptr = 0;
  value_len = 1;
  out_id_ptr = out_id_ptr;
  out_id_cap = 64;
}

abbrev events : List Event
events =
    called moment (orset_add_call 0 1 0 1)
    ∷ received
    ∷ called moment (lww_set 0 1 0 1)
    ∷ called moment (rga_insert_call (insertion 4))
    ∷ called moment (orset_remove_call 0 1 0 1)
    ∷ []

letters_writable : (memory : Memory) → some letters ≡ some memory → memory.holds 4 1 ≡ true
letters_writable memory is = subst (λ (m : Memory). m.holds 4 1 ≡ true) (some_inj is) refl

steps-IsFaithful_example : IsFaithful no_updates (steps node events)
steps-IsFaithful_example =
    steps-IsFaithful no_updates node events (record { made = refl; sorted = tt })
      (tt, (tt, (letters_writable, (tt, tt))))

abbrev nowhere : ℕ → ℕ → Bool
nowhere ptr n = false

rga_insert-unsent_example :
    let (code, after) =
      crdt_rga_insert_impl
        (some (record letters { holds = nowhere }))
        (some node.handle)
        true
        (1 ∷ [])
        (insertion 4) in
    let (_, written) =
      crdt_rga_insert_impl (some letters) (some node.handle) true (1 ∷ []) (insertion 4) in
    let lost = get_or after node.handle in
    IsError code
    × (lost.queue ≡ node.handle.queue)
    × (lost.registries ≡ (get_or written node.handle).registries)
    × (IsFaithful no_updates (record node { handle = lost })
        ↔ ((get_or written node.handle).registries ≡ node.handle.registries))
rga_insert-unsent_example =
    rga_insert-unsent no_updates node letters nowhere true (1 ∷ []) (insertion 4)
      (record { made = refl; sorted = tt }) refl

-- That insertion changes the registries, so the node has not sent what makes them.
insertion_lost : ¬ IsFaithful no_updates (record node {
  handle =
      get_or
        (crdt_rga_insert_impl
          (some (record letters { holds = nowhere }))
          (some node.handle)
          true
          (1 ∷ [])
          (insertion 4)).1
        node.handle;
})
unfolding crdt_rga_insert_impl read_utf8_key read_parent numax.Map.get numax.Map.insert
insertion_lost f =
    let (_, _, _, iff) =
      rga_insert-unsent no_updates node letters nowhere true (1 ∷ []) (insertion 4)
        (record { made = refl; sorted = tt }) refl in
    let counts : ◌≡◌ {A = ℕ} 1 0 = ap (λ (r : Registries). length r.rgas) (iff.0 f) in
    omega (arith, counts)

-- The register of the letter after it was set, read at an address that takes writes.
lww_get-set_example :
    Reads.crdt_lww_get_impl
      (some letters)
      (Crdt.crdt_lww_set_impl (some letters) (some handle) true (1 ∷ []) (some 5) 0 1 0 1).1
      0
      1
      4
      64
    ≡ record { code = as_i32 1; written = some (4, 97 ∷ []) }
unfolding read_utf8_key numax.Map.get
lww_get-set_example =
    lww_get-set letters handle (1 ∷ []) 5 (97 ∷ []) (97 ∷ []) 0 1 0 1 4 64 refl refl (omega arith)
      (λ r is. absurd (cc)) (omega arith) (omega arith) refl

orset_contains-add_example :
    Reads.crdt_orset_contains_impl
      (some letters)
      (Crdt.crdt_orset_add_impl (some letters) (some handle) true (1 ∷ []) 0 1 0 1).1
      0
      1
      0
      1
    ≡ pos 1
unfolding read_utf8_key numax.Map.get
orset_contains-add_example =
    orset_contains-add letters handle (1 ∷ []) (97 ∷ []) (97 ∷ []) 0 1 0 1 refl refl (omega arith)
      refl

-- A node with the letter in its set.
abbrev with_letter : Handle
with_letter = record handle {
  registries = record no_updates {
    orsets = (97 ∷ [], (OrSet.add OrSet.new (97 ∷ []) (1 ∷ [])).0) ∷ [];
  };
}

orset_contains-remove_example :
    Reads.crdt_orset_contains_impl
      (some letters)
      (Crdt.crdt_orset_remove_impl (some letters) (some with_letter) true (2 ∷ []) 0 1 0 1).1
      0
      1
      0
      1
    ≡ pos 0
unfolding read_utf8_key numax.Map.get
orset_contains-remove_example =
    orset_contains-remove letters with_letter (2 ∷ []) (97 ∷ []) (97 ∷ []) 0 1 0 1 refl refl
      (omega arith)

letter-IsAllowed : IsAllowed (97 ∷ [])
unfolding starts_with
letter-IsAllowed = record { short = omega arith; unreserved = refl }

elements-registered_example :
    elements (linked_sets true (2 ∷ []) with_letter laid_out) (97 ∷ []) ≡ some (ok ((97 ∷ []) ∷ []))
unfolding set_elements encode_string_list is_utf8 numax.Map.get to_le_bytes OrSet.add
    numax.Map.insert
elements-registered_example =
    elements-registered true (2 ∷ []) with_letter laid_out laid_out-Places (97 ∷ [])
      (to_le_bytes 1 ++ to_le_bytes 1 ++ 97 ∷ []) letter-IsAllowed refl (refl, tt) refl
      (omega arith)
