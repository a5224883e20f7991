-- ===== src/HostApi/Crdt/Unsent.antt =====
-- An insertion into a sequence whose identifier cannot be written to the guest, beside the same
-- insertion by a guest with another memory.
use numax.Prelude.{
  ◌≡◌, refl, ap, ◌∙◌, sym, subst, ◌↔◌, Bool, true, false, Option, none, some, Bytes, bytes_ord, ℕ,
  ◌==◌, length, leb, ltb, foldl, ◌++◌, not, starts_with, Bool-cases, inl, inr,
}
use numax.Prelude.Int.{ℤ, negsuc}
use numax.Prelude.Result.{Result, ok, err, ◌>>=◌, require}
use numax.Abi.{err_internal, err_reserved_key, err_buf_too_small}
use numax.Abi.Utf8.{is_utf8}
use numax.Map.{get_or}
use numax.Map.Laws.{IsSorted}
use numax.Sync.Op.{Op, rga_insert_with_op_id}
use numax.SyncManager.Updates.{Registries}
use numax.SyncManager.Updates.Batch.{apply_one}
use numax.HostApi.Guest.{
  Memory, get_memory, read_bytes, max_out_cap, max_key_len, max_read_len, reserved_prefix,
}
use numax.HostApi.Crdt.{
  Handle, RgaInsertArgs, read_utf8_key, read_utf8_arg, read_parent, reserve, settle, finish_insert,
  publish, max_element_len, crdt_rga_insert_impl,
}
use numax.HostApi.Crdt.Published.{reserve_lem}
use numax.HostApi.Crdt.Calls.{Node, IsFaithful, some_inj}

-- A code below zero.
abbrev pub IsError : ℤ → Type 0
IsError code = (n : ℕ) × (code ≡ negsuc n)

-- A part of a call that fails with error codes alone.
abbrev FailsWell : {A : Type 0} → Result ℤ A → Type 0
FailsWell (ok _) = Unit
FailsWell (err code) = IsError code

require-FailsWell : (b : Bool) (n : ℕ) → FailsWell {A = Unit {0}} (require {E = ℤ} b (negsuc n))
require-FailsWell true n = tt
require-FailsWell false n = (n, refl)

bind-FailsWell :
    {A B : Type 0} (m : Result ℤ A) (k : A → Result ℤ B)
    → FailsWell m
    → ((a : A) → FailsWell (k a))
    → FailsWell (m >>= k)
bind-FailsWell (ok a) k first next = next a
bind-FailsWell (err code) k first next = first

loaded-FailsWell :
    (loaded : Option Bytes)
    → FailsWell {A = Bytes}
        (elim loaded as (λ _. Result ℤ Bytes) [ none ↦ err err_internal | some bytes ↦ ok bytes ])
loaded-FailsWell none = (2, refl)
loaded-FailsWell (some bytes) = tt

read_bytes-FailsWell : (memory : Memory) (ptr len : ℕ) → FailsWell (read_bytes memory ptr len)
unfolding read_bytes
read_bytes-FailsWell memory ptr len = elim (Bool-cases (ltb max_read_len len)) [
  | inl large ↦ rw large (2, refl)
  | inr small ↦ rw small (loaded-FailsWell (memory.load ptr len))
]

read_utf8_arg-FailsWell :
    (memory : Memory) (ptr len max_len : ℕ) → FailsWell (read_utf8_arg memory ptr len max_len)
unfolding read_utf8_arg
read_utf8_arg-FailsWell memory ptr len max_len =
    bind-FailsWell (require (leb len max_len) err_internal) _ (require-FailsWell _ 2) λ _.
      bind-FailsWell (read_bytes memory ptr len) _ (read_bytes-FailsWell memory ptr len) λ bytes.
        bind-FailsWell (require (is_utf8 bytes) err_internal) _ (require-FailsWell _ 2) λ _. tt

read_utf8_key-FailsWell : (memory : Memory) (ptr len : ℕ) → FailsWell (read_utf8_key memory ptr len)
unfolding read_utf8_key
read_utf8_key-FailsWell memory ptr len =
    bind-FailsWell (read_utf8_arg memory ptr len max_key_len) _
      (read_utf8_arg-FailsWell memory ptr len max_key_len)
      λ key.
        bind-FailsWell (require (not (starts_with key reserved_prefix)) err_reserved_key) _
          (require-FailsWell _ 3) λ _. tt

read_parent-FailsWell : (memory : Memory) (ptr len : ℕ) → FailsWell (read_parent memory ptr len)
unfolding read_parent
read_parent-FailsWell memory ptr len = elim (Bool-cases (len == 0)) [
  | inl none_given ↦ rw none_given tt
  | inr given ↦ rw given (
      bind-FailsWell (read_utf8_arg memory ptr len max_element_len) _
        (read_utf8_arg-FailsWell memory ptr len max_element_len) λ _. tt)
]

reserve-FailsWell : (h : Handle) → FailsWell (reserve (some h))
unfolding reserve
reserve-FailsWell h =
    bind-FailsWell (require (ltb (length h.queue) h.queue_capacity) err_internal) _
      (require-FailsWell _ 2) λ _. tt

-- The first call loses what the second one does: it fails, sends nothing, and leaves the registries
-- that the second one leaves.
abbrev Loses : Handle → ℤ × Option Handle → ℤ × Option Handle → Type 0
Loses h (code, lost) (_, written) =
    IsError code
    × ((get_or lost h).registries ≡ (get_or written h).registries)
    × ((get_or lost h).queue ≡ h.queue)

-- The same of the parts of the calls, which fail together before anything has changed.
abbrev PartLoses : Handle → Result ℤ (ℤ × Handle) → Result ℤ (ℤ × Handle) → Type 0
PartLoses h m m' = Loses h (settle (some h) m) (settle (some h) m')

bind-PartLoses :
    {A : Type 0} (h : Handle) (m : Result ℤ A) (k k' : A → Result ℤ (ℤ × Handle))
    → FailsWell m
    → ((a : A) → m ≡ ok a → PartLoses h (k a) (k' a))
    → PartLoses h (m >>= k) (m >>= k')
unfolding settle
bind-PartLoses h (ok a) k k' well next = next a refl
bind-PartLoses h (err code) k k' well next = (well, refl, refl)

-- The end of an insertion, in a memory without the identifier's buffer and in another one.
finish-Loses :
    (memory lost : Memory) (ptr : ℕ) (before h : Handle) (registries : Registries) (op : Op)
    → before ≡ h
    → lost.holds ptr (length op.id) ≡ false
    → Loses before
        (let (code, after) = finish_insert lost ptr h registries op in (code, some after))
        (let (code, after) = finish_insert memory ptr h registries op in (code, some after))
unfolding finish_insert publish
finish-Loses memory lost ptr before h registries op same unwritable =
    let queues : h.queue ≡ before.queue = ap (λ (x : Handle). x.queue) (sym same) in
    elim (Bool-cases (memory.holds ptr (length op.id))) [
      | inl holds ↦ rw (unwritable, holds) ((2, refl), refl, queues)
      | inr not_held ↦ rw (unwritable, not_held) ((2, refl), refl, queues)
    ]

rga_insert-Loses :
    (memory : Memory) (holds : ℕ → ℕ → Bool) (h : Handle) (stored : Bool) (op_id : Bytes)
    (args : RgaInsertArgs)
    → holds args.out_id_ptr (length op_id) ≡ false
    → Loses h
        (crdt_rga_insert_impl (some (record memory { holds = holds })) (some h) stored op_id args)
        (crdt_rga_insert_impl (some memory) (some h) stored op_id args)
unfolding crdt_rga_insert_impl get_memory read_utf8_key read_utf8_arg read_bytes read_parent settle
    rga_insert_with_op_id
rga_insert-Loses memory holds h stored op_id args unwritable =
    bind-PartLoses h (require (leb args.out_id_cap max_out_cap) err_internal) _ _
      (require-FailsWell _ 2)
      λ _ _.
        bind-PartLoses h (read_utf8_key memory args.key_ptr args.key_len) _ _
          (read_utf8_key-FailsWell memory args.key_ptr args.key_len)
          λ key _.
            bind-PartLoses h (read_parent memory args.parent_ptr args.parent_len) _ _
              (read_parent-FailsWell memory args.parent_ptr args.parent_len)
              λ parent _.
                bind-PartLoses h (read_bytes memory args.value_ptr args.value_len) _ _
                  (read_bytes-FailsWell memory args.value_ptr args.value_len)
                  λ value _.
                    bind-PartLoses h (reserve (some h)) _ _ (reserve-FailsWell h) λ h' reserved.
                      bind-PartLoses h
                        (require (leb (length op_id) args.out_id_cap) err_buf_too_small) _ _
                        (require-FailsWell _ 1)
                        λ _ _.
                          bind-PartLoses h (require stored err_internal) _ _ (require-FailsWell _ 2)
                            λ _ _.
                              let same : h ≡ h' = some_inj (reserve_lem (some h) h' reserved) in
                              finish-Loses memory (record memory { holds = holds }) args.out_id_ptr
                                h h' _ (rga_insert_with_op_id op_id h'.node_id key parent value)
                                same unwritable

lost_iff :
    (first : Registries) (node : Node) (lost : Handle)
    → IsFaithful first node
    → lost.queue ≡ node.handle.queue
    → IsFaithful first (record node { handle = lost }) ↔ (lost.registries ≡ node.handle.registries)
lost_iff first node lost f queue = (
  λ (g : IsFaithful first (record node { handle = lost })).
      g.made ∙ ap (λ q. foldl apply_one first (node.taken ++ q)) queue ∙ sym f.made,
  λ same. record {
    made = same ∙ f.made ∙ ap (λ q. foldl apply_one first (node.taken ++ q)) (sym queue);
    sorted = subst (λ (r : Registries). IsSorted r.lww_registers) (sym same) f.sorted;
  },
)

-- Let a node have sent what makes its registries, and its registers be in key order, and let a
-- guest insert into a sequence with a buffer for the identifier that lies outside its memory.
-- Whatever the store answers and the other arguments of the guest are, the call fails with a code
-- below zero, sends nothing, and leaves the registries that the same call leaves for a guest that
-- is alike but for where it can be written; and the node has still sent what makes its registries
-- exactly if that call changes none.
pub rga_insert-unsent :
    (first : Registries) (node : Node) (memory : Memory) (holds : ℕ → ℕ → Bool) (stored : Bool)
    (op_id : Bytes) (args : RgaInsertArgs)
    → IsFaithful first node
    → holds args.out_id_ptr (length op_id) ≡ false
    → let unwritable = record memory { holds = holds } in
      let (code, after) =
        crdt_rga_insert_impl (some unwritable) (some node.handle) stored op_id args in
      let (_, written) = crdt_rga_insert_impl (some memory) (some node.handle) stored op_id args in
      let lost = get_or after node.handle in
      IsError code
      × (lost.queue ≡ node.handle.queue)
      × (lost.registries ≡ (get_or written node.handle).registries)
      × (IsFaithful first (record node { handle = lost })
          ↔ ((get_or written node.handle).registries ≡ node.handle.registries))
rga_insert-unsent first node memory holds stored op_id args f unwritable =
    let (failed, registries, queue) =
      rga_insert-Loses memory holds node.handle stored op_id args unwritable in
    let iff = lost_iff first node _ f queue in
    (failed, queue, registries, (λ g. sym registries ∙ iff.0 g, λ same. iff.1 (registries ∙ same)))
