-- ===== src/HostApi/Crdt/Published.antt =====
-- What a guest's change does to its node, and what the node tells the others.
use numax.Prelude.{
  ◌≡◌, refl, ap, ◌∙◌, sym, Bool, true, false, Option, none, some, Bytes, bytes_ord, ℕ, length, leb,
  ltb, ◌==◌, Bool-cases, ◌⊎◌, inl, inr,
}
use numax.Prelude.Int.{ℤ}
use numax.Prelude.Result.{Result, ok, err, ◌>>=◌, ◌>>◌, require}
use numax.Sync.Op.{
  Op, new_gcounter_increment, new_pncounter_increment, new_pncounter_decrement,
  orset_add_with_op_id_tag, new_orset_remove, rga_insert_with_op_id, new_rga_delete,
  new_lww_register_set, new_lww_map_set, new_lww_map_remove,
}
use numax.SyncManager.Updates.{Registries}
use numax.SyncManager.Updates.Maps.{assigned}
use numax.SyncManager.Updates.Batch.{apply_one}
use numax.HostApi.Guest.{Memory, get_memory, read_bytes, max_out_cap}
use numax.Abi.{err_internal, err_buf_too_small}
use numax.Map.{get, get_or}
use numax.Map.Laws.{IsSorted, insert-get}
use numax.Sync.PnCounter
use numax.Sync.OrSet
use numax.Sync.Rga
use numax.Sync.LwwRegister
use numax.Sync.LwwRegister.{LwwRegister}
use numax.Sync.LwwMap as LwwMaps
use numax.HostApi.Crdt.{
  Handle, publish, read_utf8_key, read_utf8_arg, reserve, settle, finish_insert,
  crdt_gcounter_inc_impl, crdt_pncounter_change_impl, PnCounterChange, increment, decrement,
  crdt_orset_add_impl, crdt_orset_remove_impl, crdt_rga_delete_impl, crdt_rga_insert_impl,
  RgaInsertArgs, read_parent, set_register, max_element_len, crdt_lww_set_impl,
  crdt_lww_map_set_impl, crdt_lww_map_remove_impl, unix_epoch_millis, later_than, stamp_of,
  entry_stamp,
}

-- Either the node is as it was, or it has changed its registries as every other node will that applies
-- the operation, of its own origin, which it has sent.
abbrev pub Published : Option Handle → Option Handle → Type 0
Published before after =
    (after ≡ before)
    ⊎ ((h : Handle) × (op : Op) × (before ≡ some h)
        × (op.origin ≡ h.node_id)
        × (after ≡ some (publish h (apply_one h.registries op) op)))

pub reserve_lem : (handle : Option Handle) (h : Handle) → reserve handle ≡ ok h → handle ≡ some h
unfolding reserve
reserve_lem none h e = cc
reserve_lem (some h0) h e = elim (Bool-cases (ltb (length h0.queue) h0.queue_capacity)) [
  | inl room ↦ let e' = rw room at e in cc
  | inr full ↦ let e' = rw full at e in absurd (cc)
]

memory_lem :
    (guest : Option Memory) (memory : Memory) → get_memory guest ≡ ok memory → guest ≡ some memory
unfolding get_memory
memory_lem none memory e = cc
memory_lem (some m) memory e = cc

-- A call that ends well leaves what is published.
abbrev Ensures : Option Handle → Result ℤ (ℤ × Handle) → Type 0
Ensures handle (ok (_, h)) = Published handle (some h)
Ensures handle (err _) = Unit

settled :
    (handle : Option Handle) (m : Result ℤ (ℤ × Handle))
    → Ensures handle m
    → Published handle (settle handle m).1
unfolding settle
settled handle (ok (code, h)) e = e
settled handle (err code) e = inl refl

after_bind :
    {A : Type 0} (handle : Option Handle) (m : Result ℤ A) (k : A → Result ℤ (ℤ × Handle))
    → ((a : A) → m ≡ ok a → Ensures handle (k a))
    → Ensures handle (m >>= k)
after_bind handle (ok a) k next = next a refl
after_bind handle (err e) k next = tt

ok_inj : {E A : Type 0} {a b : A} → ◌≡◌ {A = Result E A} (ok a) (ok b) → a ≡ b
ok_inj h = cc

stored_ok :
    {A : Type 0} (stored : Bool) (x a : A)
    → ◌≡◌ {A = Result ℤ A} (require stored err_internal >> ok x) (ok a)
    → a ≡ x
stored_ok true x a e = sym (ok_inj e)
stored_ok false x a e = absurd (cc)

assigned_wins :
    (origin value : Bytes) (timestamp_ms : ℕ) (register : LwwRegister)
    → LwwRegister.candidate_wins (LwwRegister.new value timestamp_ms origin) register ≡ true
    → assigned origin value timestamp_ms (some register) ≡ LwwRegister.new value timestamp_ms origin
unfolding LwwRegister.assign
assigned_wins origin value timestamp_ms register h = rw (h, assigned) refl

assigned_loses :
    (origin value : Bytes) (timestamp_ms : ℕ) (register : LwwRegister)
    → LwwRegister.candidate_wins (LwwRegister.new value timestamp_ms origin) register ≡ false
    → assigned origin value timestamp_ms (some register) ≡ register
unfolding LwwRegister.assign
assigned_loses origin value timestamp_ms register h = rw (h, assigned) refl

set_origin :
    (op_id origin key value : Bytes) (timestamp_ms : ℕ)
    → (new_lww_register_set op_id origin key value timestamp_ms).origin ≡ origin
unfolding new_lww_register_set
set_origin op_id origin key value timestamp_ms = refl

-- What a local set of a register leaves is what applying its operation leaves.
set_register_lem :
    (stored : Bool) (r after : Registries) (op_id origin key value : Bytes) (timestamp_ms : ℕ)
    (there : Option LwwRegister)
    → get r.lww_registers key ≡ there
    → IsSorted r.lww_registers
    → set_register stored r key (LwwRegister.new value timestamp_ms origin) there ≡ ok after
    → after ≡ apply_one r (new_lww_register_set op_id origin key value timestamp_ms)
unfolding set_register apply_one new_lww_register_set LwwRegister.merge
set_register_lem true r after op_id origin key value timestamp_ms none is s e =
    rw is (sym (ok_inj e))
set_register_lem false r after op_id origin key value timestamp_ms none is s e = absurd (cc)
set_register_lem stored r after op_id origin key value timestamp_ms (some register) is s e =
    elim (Bool-cases
      (LwwRegister.candidate_wins (LwwRegister.new value timestamp_ms origin) register)) [
        | inl wins ↦
            let e' = rw (wins, LwwRegister.merge) at e in
            rw (is, assigned_wins origin value timestamp_ms register wins)
              (stored_ok stored _ after e')
        | inr loses ↦
            let e' = rw (loses, LwwRegister.merge) at e in
            rw (is, assigned_loses origin value timestamp_ms register loses)
              (sym (ok_inj e')
                ∙ ap (λ m. record r { lww_registers = m })
                    (sym (insert-get r.lww_registers key register s is)))
      ]

module _ (guest : Option Memory) (handle : Option Handle) (stored : Bool) (op_id : Bytes) where
  pub gcounter_inc-Published :
      (key_ptr key_len delta : ℕ)
      → Published handle (crdt_gcounter_inc_impl guest handle stored op_id key_ptr key_len delta).1
  unfolding crdt_gcounter_inc_impl apply_one publish new_gcounter_increment
  gcounter_inc-Published key_ptr key_len delta = settled handle _ (
      after_bind handle (get_memory guest) _ λ memory _.
        after_bind handle (read_utf8_key memory key_ptr key_len) _ λ key _.
          after_bind handle (reserve handle) _ λ h reserved.
            after_bind handle (require stored err_internal) _ λ _ _. inr (
              h,
              new_gcounter_increment op_id h.node_id key delta,
              reserve_lem handle h reserved,
              refl,
              refl,
            ))

  pub pncounter_change-Published :
      (key_ptr key_len delta : ℕ) (change : PnCounterChange)
      → Published handle
          (crdt_pncounter_change_impl guest handle stored op_id key_ptr key_len delta change).1
  unfolding crdt_pncounter_change_impl apply_one publish new_pncounter_increment
      new_pncounter_decrement PnCounter.apply_op
  pncounter_change-Published key_ptr key_len delta increment = settled handle _ (
      after_bind handle (get_memory guest) _ λ memory _.
        after_bind handle (read_utf8_key memory key_ptr key_len) _ λ key _.
          after_bind handle (reserve handle) _ λ h reserved.
            after_bind handle (require stored err_internal) _ λ _ _. inr (
              h,
              new_pncounter_increment op_id h.node_id key delta,
              reserve_lem handle h reserved,
              refl,
              refl,
            ))
  pncounter_change-Published key_ptr key_len delta decrement = settled handle _ (
      after_bind handle (get_memory guest) _ λ memory _.
        after_bind handle (read_utf8_key memory key_ptr key_len) _ λ key _.
          after_bind handle (reserve handle) _ λ h reserved.
            after_bind handle (require stored err_internal) _ λ _ _. inr (
              h,
              new_pncounter_decrement op_id h.node_id key delta,
              reserve_lem handle h reserved,
              refl,
              refl,
            ))

  pub orset_add-Published :
      (key_ptr key_len element_ptr element_len : ℕ)
      → Published handle
          (crdt_orset_add_impl guest handle stored op_id key_ptr key_len element_ptr element_len).1
  unfolding crdt_orset_add_impl apply_one publish orset_add_with_op_id_tag OrSet.apply_add
  orset_add-Published key_ptr key_len element_ptr element_len = settled handle _ (
      after_bind handle (get_memory guest) _ λ memory _.
        after_bind handle (read_utf8_key memory key_ptr key_len) _ λ key _.
          after_bind handle (read_utf8_arg memory element_ptr element_len max_element_len) _
            λ element _. after_bind handle (reserve handle) _ λ h reserved.
              after_bind handle (require stored err_internal) _ λ _ _. inr (
                h,
                orset_add_with_op_id_tag op_id h.node_id key element,
                reserve_lem handle h reserved,
                refl,
                refl,
              ))

  pub rga_delete-Published :
      (key_ptr key_len id_ptr id_len : ℕ)
      → Published handle
          (crdt_rga_delete_impl guest handle stored op_id key_ptr key_len id_ptr id_len).1
  unfolding crdt_rga_delete_impl apply_one publish new_rga_delete Rga.apply_delete
  rga_delete-Published key_ptr key_len id_ptr id_len = settled handle _ (
      after_bind handle (get_memory guest) _ λ memory _.
        after_bind handle (read_utf8_key memory key_ptr key_len) _ λ key _.
          after_bind handle (read_utf8_arg memory id_ptr id_len max_element_len) _ λ id _.
            after_bind handle (reserve handle) _ λ h reserved.
              after_bind handle (require stored err_internal) _ λ _ _. inr (
                h,
                new_rga_delete op_id h.node_id key id,
                reserve_lem handle h reserved,
                refl,
                refl,
              ))

  pub orset_remove-Published :
      (key_ptr key_len element_ptr element_len : ℕ)
      → Published handle
          (crdt_orset_remove_impl guest handle stored op_id key_ptr key_len element_ptr
            element_len).1
  unfolding crdt_orset_remove_impl apply_one publish new_orset_remove OrSet.remove
      OrSet.apply_remove
  orset_remove-Published key_ptr key_len element_ptr element_len = settled handle _ (
      after_bind handle (get_memory guest) _ λ memory _.
        after_bind handle (read_utf8_key memory key_ptr key_len) _ λ key _.
          after_bind handle (read_utf8_arg memory element_ptr element_len max_element_len) _
            λ element _. after_bind handle (reserve handle) _ λ h reserved.
              elim (Bool-cases (
                length
                  (OrSet.observed_tags (get_or (get h.registries.orsets key) OrSet.new) element)
                == 0)) [
                  | inl nothing ↦ rw nothing (inl (sym (reserve_lem handle h reserved)))
                  | inr some_tags ↦ rw some_tags (
                      after_bind handle (require stored err_internal) _ λ _ _. inr (
                        h,
                        new_orset_remove op_id h.node_id key element (
                            OrSet.observed_tags (get_or (get h.registries.orsets key) OrSet.new)
                              element),
                        reserve_lem handle h reserved,
                        refl,
                        refl,
                      ))
                ])

  -- An insertion whose identifier reaches the guest.
  pub rga_insert-Published :
      (args : RgaInsertArgs)
      → ((memory : Memory)
          → guest ≡ some memory
          → memory.holds args.out_id_ptr (length op_id) ≡ true)
      → Published handle (crdt_rga_insert_impl guest handle stored op_id args).1
  unfolding crdt_rga_insert_impl apply_one publish rga_insert_with_op_id Rga.apply_insert
      finish_insert
  rga_insert-Published args writable = settled handle _ (
      after_bind handle (get_memory guest) _ λ memory has.
        after_bind handle (require (leb args.out_id_cap max_out_cap) err_internal) _ λ _ _.
          after_bind handle (read_utf8_key memory args.key_ptr args.key_len) _ λ key _.
            after_bind handle (read_parent memory args.parent_ptr args.parent_len) _ λ parent _.
              after_bind handle (read_bytes memory args.value_ptr args.value_len) _ λ value _.
                after_bind handle (reserve handle) _ λ h reserved.
                  after_bind handle (require (leb (length op_id) args.out_id_cap) err_buf_too_small)
                    _
                    λ _ _. after_bind handle (require stored err_internal) _ λ _ _.
                      rw (writable memory (memory_lem guest memory has)) (
                        inr (
                          h,
                          rga_insert_with_op_id op_id h.node_id key parent value,
                          reserve_lem handle h reserved,
                          refl,
                          refl,
                        )))

module _ (guest : Option Memory) (handle : Option Handle) (stored : Bool) (op_id : Bytes)
    (clock : Option ℕ) where
  pub lww_set-Published :
      (key_ptr key_len value_ptr value_len : ℕ)
      → ((h : Handle) → handle ≡ some h → IsSorted h.registries.lww_registers)
      → Published handle
          (crdt_lww_set_impl guest handle stored op_id clock key_ptr key_len value_ptr value_len).1
  unfolding crdt_lww_set_impl
  lww_set-Published key_ptr key_len value_ptr value_len sorted = settled handle _ (
      after_bind handle (get_memory guest) _ λ memory _.
        after_bind handle (read_utf8_key memory key_ptr key_len) _ λ key _.
          after_bind handle (read_bytes memory value_ptr value_len) _ λ value _.
            after_bind handle (unix_epoch_millis clock) _ λ now _.
              after_bind handle (reserve handle) _ λ h reserved.
                let there = get h.registries.lww_registers key in
                let stamp = later_than now (stamp_of there) in
                after_bind handle
                  (set_register stored h.registries key (LwwRegister.new value stamp h.node_id)
                    there)
                  _
                  λ after is.
                    let op = new_lww_register_set op_id h.node_id key value stamp in
                    let before = reserve_lem handle h reserved in
                    inr (
                      h,
                      op,
                      before,
                      set_origin op_id h.node_id key value stamp,
                      ap (λ r. some (publish h r op))
                          (set_register_lem stored h.registries after op_id h.node_id key value
                            stamp there refl (sorted h before) is),
                    ))

  pub lww_map_set-Published :
      (key_ptr key_len field_ptr field_len value_ptr value_len : ℕ)
      → Published handle
          (crdt_lww_map_set_impl guest handle stored op_id clock key_ptr key_len field_ptr field_len
            value_ptr value_len).1
  unfolding crdt_lww_map_set_impl apply_one publish new_lww_map_set
  lww_map_set-Published key_ptr key_len field_ptr field_len value_ptr value_len = settled handle _ (
      after_bind handle (get_memory guest) _ λ memory _.
        after_bind handle (read_utf8_key memory key_ptr key_len) _ λ key _.
          after_bind handle (read_utf8_arg memory field_ptr field_len max_element_len) _ λ field _.
            after_bind handle (read_bytes memory value_ptr value_len) _ λ value _.
              after_bind handle (unix_epoch_millis clock) _ λ now _.
                after_bind handle (reserve handle) _ λ h reserved.
                  after_bind handle (require stored err_internal) _ λ _ _.
                    let stamp = later_than now (
                      entry_stamp
                        (get (get_or (get h.registries.lww_maps key) LwwMaps.new).entries field)) in
                    inr (
                      h,
                      new_lww_map_set op_id h.node_id key field value stamp,
                      reserve_lem handle h reserved,
                      refl,
                      refl,
                    ))

  pub lww_map_remove-Published :
      (key_ptr key_len field_ptr field_len : ℕ)
      → Published handle
          (crdt_lww_map_remove_impl guest handle stored op_id clock key_ptr key_len field_ptr
            field_len).1
  unfolding crdt_lww_map_remove_impl apply_one publish new_lww_map_remove
  lww_map_remove-Published key_ptr key_len field_ptr field_len = settled handle _ (
      after_bind handle (get_memory guest) _ λ memory _.
        after_bind handle (read_utf8_key memory key_ptr key_len) _ λ key _.
          after_bind handle (read_utf8_arg memory field_ptr field_len max_element_len) _ λ field _.
            after_bind handle (unix_epoch_millis clock) _ λ now _.
              after_bind handle (reserve handle) _ λ h reserved.
                after_bind handle (require stored err_internal) _ λ _ _.
                  let stamp = later_than now (
                    entry_stamp
                      (get (get_or (get h.registries.lww_maps key) LwwMaps.new).entries field)) in
                  inr (
                    h,
                    new_lww_map_remove op_id h.node_id key field stamp,
                    reserve_lem handle h reserved,
                    refl,
                    refl,
                  ))
