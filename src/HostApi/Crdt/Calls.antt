-- ===== src/HostApi/Crdt/Calls.antt =====
-- The calls that crdt.rs registers for guests (`add_to_linker`), one after another, with the loop that
-- broadcasts what they send.
use numax.Prelude.{
  ◌≡◌, refl, sym, ap, ◌∙◌, subst, Bool, true, Option, some, List, [], ◌∷◌, ◌++◌, foldl, Bytes,
  bytes_ord, ℕ, length, inl, inr,
}
use mathlib.Core.List.{append_assoc}
use numax.Prelude.Int.{ℤ}
use numax.Map.{get_or}
use numax.Map.Laws.{IsSorted, IsSorted-insert}
use numax.Sync.Op.{
  Op, OpKind, gcounter_increment, pncounter_increment, pncounter_decrement, lww_register_set,
  lww_map_set, lww_map_remove, orset_add, orset_remove, rga_insert, rga_delete,
}
use numax.SyncManager.Updates.{Registries}
use numax.SyncManager.Updates.Batch.{apply_one, apply_one_kind}
use numax.HostApi.Guest.{Memory}
use numax.HostApi.Crdt.{
  Handle, publish, RgaInsertArgs, crdt_gcounter_inc_impl, crdt_pncounter_inc_impl,
  crdt_pncounter_dec_impl, crdt_pncounter_change_impl, crdt_orset_add_impl, crdt_orset_remove_impl,
  crdt_rga_delete_impl, crdt_rga_insert_impl, crdt_lww_set_impl, crdt_lww_map_set_impl,
  crdt_lww_map_remove_impl,
}
use numax.HostApi.Crdt
use numax.HostApi.Crdt.Published.{
  Published, gcounter_inc-Published, pncounter_change-Published, orset_add-Published,
  orset_remove-Published, rga_delete-Published, rga_insert-Published, lww_set-Published,
  lww_map_set-Published, lww_map_remove-Published,
}

pub data GuestCall : Type 0 where
  gcounter_inc pncounter_inc pncounter_dec : ℕ → ℕ → ℕ → GuestCall
  lww_set orset_add_call orset_remove_call rga_delete_call lww_map_remove_call :
      ℕ → ℕ → ℕ → ℕ → GuestCall
  lww_map_set_call : ℕ → ℕ → ℕ → ℕ → ℕ → ℕ → GuestCall
  rga_insert_call : RgaInsertArgs → GuestCall

-- What a call finds: the guest's memory, whether the store takes its state, the identifier that is
-- generated for its operation, and the clock.
pub record Moment : Type 0 where
  pub guest : Option Memory
  pub stored : Bool
  pub op_id : Bytes
  pub clock : Option ℕ

module _ (m : Moment) (handle : Option Handle) where
  unfoldable pub perform : GuestCall → ℤ × Option Handle
  unfolding crdt_gcounter_inc_impl crdt_pncounter_inc_impl crdt_pncounter_dec_impl
      crdt_orset_add_impl crdt_orset_remove_impl crdt_rga_delete_impl crdt_rga_insert_impl
      crdt_lww_set_impl crdt_lww_map_set_impl crdt_lww_map_remove_impl
  perform (gcounter_inc key_ptr key_len delta) =
      crdt_gcounter_inc_impl m.guest handle m.stored m.op_id key_ptr key_len delta
  perform (pncounter_inc key_ptr key_len delta) =
      crdt_pncounter_inc_impl m.guest handle m.stored m.op_id key_ptr key_len delta
  perform (pncounter_dec key_ptr key_len delta) =
      crdt_pncounter_dec_impl m.guest handle m.stored m.op_id key_ptr key_len delta
  perform (lww_set key_ptr key_len value_ptr value_len) =
      crdt_lww_set_impl m.guest handle m.stored m.op_id m.clock key_ptr key_len value_ptr value_len
  perform (orset_add_call key_ptr key_len element_ptr element_len) =
      crdt_orset_add_impl m.guest handle m.stored m.op_id key_ptr key_len element_ptr element_len
  perform (orset_remove_call key_ptr key_len element_ptr element_len) =
      crdt_orset_remove_impl m.guest handle m.stored m.op_id key_ptr key_len element_ptr element_len
  perform (rga_delete_call key_ptr key_len id_ptr id_len) =
      crdt_rga_delete_impl m.guest handle m.stored m.op_id key_ptr key_len id_ptr id_len
  perform (lww_map_remove_call key_ptr key_len field_ptr field_len) =
      crdt_lww_map_remove_impl m.guest handle m.stored m.op_id m.clock key_ptr key_len field_ptr
        field_len
  perform (lww_map_set_call key_ptr key_len field_ptr field_len value_ptr value_len) =
      crdt_lww_map_set_impl m.guest handle m.stored m.op_id m.clock key_ptr key_len field_ptr
        field_len value_ptr value_len
  perform (rga_insert_call args) = crdt_rga_insert_impl m.guest handle m.stored m.op_id args

-- An insertion can write its identifier to the guest.
abbrev pub IsWritable : Moment → GuestCall → Type 0
IsWritable m (rga_insert_call args) =
    (memory : Memory) → m.guest ≡ some memory → memory.holds args.out_id_ptr (length m.op_id) ≡ true
IsWritable m _ = Unit

perform-Published :
    (m : Moment) (handle : Option Handle) (call : GuestCall)
    → ((h : Handle) → handle ≡ some h → IsSorted h.registries.lww_registers)
    → IsWritable m call
    → Published handle (perform m handle call).1
unfolding perform
perform-Published m handle (gcounter_inc a b c) s w =
    gcounter_inc-Published m.guest handle m.stored m.op_id a b c
perform-Published m handle (pncounter_inc a b c) s w =
    pncounter_change-Published m.guest handle m.stored m.op_id a b c Crdt.increment
perform-Published m handle (pncounter_dec a b c) s w =
    pncounter_change-Published m.guest handle m.stored m.op_id a b c Crdt.decrement
perform-Published m handle (lww_set a b c d) s w =
    lww_set-Published m.guest handle m.stored m.op_id m.clock a b c d s
perform-Published m handle (orset_add_call a b c d) s w =
    orset_add-Published m.guest handle m.stored m.op_id a b c d
perform-Published m handle (orset_remove_call a b c d) s w =
    orset_remove-Published m.guest handle m.stored m.op_id a b c d
perform-Published m handle (rga_delete_call a b c d) s w =
    rga_delete-Published m.guest handle m.stored m.op_id a b c d
perform-Published m handle (lww_map_remove_call a b c d) s w =
    lww_map_remove-Published m.guest handle m.stored m.op_id m.clock a b c d
perform-Published m handle (lww_map_set_call a b c d e f) s w =
    lww_map_set-Published m.guest handle m.stored m.op_id m.clock a b c d e f
perform-Published m handle (rga_insert_call args) s w =
    rga_insert-Published m.guest handle m.stored m.op_id args w

-- A node with its guests, and the operations that the broadcast loop has taken from the queue.
pub record Node : Type 0 where
  pub handle : Handle
  pub taken : List Op

pub data Event : Type 0 where
  called : Moment → GuestCall → Event
  received : Event

unfoldable pub take_op : Node → List Op → Node
take_op node [] = node
take_op node (op ∷ queue) = record {
  handle = record node.handle { queue = queue };
  taken = node.taken ++ op ∷ [];
}

unfoldable pub step : Node → Event → Node
unfolding perform take_op
step node (called m call) = record node {
  handle = get_or (perform m (some node.handle) call).1 node.handle;
}
step node received = take_op node node.handle.queue

unfoldable pub steps : Node → List Event → Node
unfolding step
steps node [] = node
steps node (e ∷ events) = steps (step node e) events

-- The registries are those that the operations sent so far make of the first ones.
pub record IsFaithful (first : Registries) (node : Node) : Type 0 where
  pub made : node.handle.registries ≡ foldl apply_one first (node.taken ++ node.handle.queue)
  pub sorted : IsSorted node.handle.registries.lww_registers

abbrev pub AllWritable : List Event → Type 0
AllWritable [] = Unit
AllWritable (called m call ∷ events) = IsWritable m call × AllWritable events
AllWritable (received ∷ events) = AllWritable events

apply_one-IsSorted :
    (r : Registries) (op : Op) (kind : OpKind)
    → IsSorted r.lww_registers
    → IsSorted (apply_one_kind op kind r).lww_registers
unfolding apply_one_kind
apply_one-IsSorted r op (lww_register_set key value timestamp_ms) s =
    IsSorted-insert r.lww_registers key _ s
apply_one-IsSorted r op (gcounter_increment _ _) s = s
apply_one-IsSorted r op (pncounter_increment _ _) s = s
apply_one-IsSorted r op (pncounter_decrement _ _) s = s
apply_one-IsSorted r op (lww_map_set _ _ _ _) s = s
apply_one-IsSorted r op (lww_map_remove _ _ _) s = s
apply_one-IsSorted r op (orset_add _ _ _) s = s
apply_one-IsSorted r op (orset_remove _ _ _) s = s
apply_one-IsSorted r op (rga_insert _ _ _ _) s = s
apply_one-IsSorted r op (rga_delete _ _) s = s

foldl-snoc :
    (r : Registries) (ops : List Op) (op : Op)
    → foldl apply_one r (ops ++ op ∷ []) ≡ apply_one (foldl apply_one r ops) op
foldl-snoc r [] op = refl
foldl-snoc r (o ∷ ops) op = foldl-snoc (apply_one r o) ops op

take_op-IsFaithful :
    (first : Registries) (node : Node) (queue : List Op)
    → node.handle.queue ≡ queue
    → IsFaithful first node
    → IsFaithful first (take_op node queue)
unfolding take_op
take_op-IsFaithful first node [] is f = f
take_op-IsFaithful first node (op ∷ queue) is f = record {
  made =
      f.made
      ∙ ap (λ q. foldl apply_one first (node.taken ++ q)) is
      ∙ ap (foldl apply_one first) (sym (append_assoc node.taken (op ∷ []) queue));
  sorted = f.sorted;
}

pub some_inj : {A : Type 0} {a b : A} → ◌≡◌ {A = Option A} (some a) (some b) → a ≡ b
some_inj h = cc

sent-IsFaithful :
    (first : Registries) (node : Node) (op : Op)
    → IsFaithful first node
    → IsFaithful first
        (record node { handle = publish node.handle (apply_one node.handle.registries op) op })
unfolding publish apply_one
sent-IsFaithful first node op f = record {
  made =
      ap (λ r. apply_one r op) f.made
      ∙ sym (foldl-snoc first (node.taken ++ node.handle.queue) op)
      ∙ ap (foldl apply_one first) (append_assoc node.taken node.handle.queue (op ∷ []));
  sorted = apply_one-IsSorted node.handle.registries op op.kind f.sorted;
}

called-IsFaithful :
    (first : Registries) (node : Node) (after : Option Handle)
    → IsFaithful first node
    → Published (some node.handle) after
    → IsFaithful first (record node { handle = get_or after node.handle })
called-IsFaithful first node after f (inl same) = rw same f
called-IsFaithful first node after f (inr (h, op, before, origin, is)) = rw is (
    subst
      (λ (h : Handle).
        IsFaithful first (record node { handle = publish h (apply_one h.registries op) op }))
      (some_inj before) (sent-IsFaithful first node op f))

-- If the registries of a node are what the operations it has sent make of some first registries,
-- applied one after another, and the registers are in key order, both hold after any sequence of
-- calls by which guests change replicated data, refused or failing ones included, and of operations
-- taken from the queue, as long as every insertion into a sequence can write its identifier to its
-- guest.
pub steps-IsFaithful :
    (first : Registries) (node : Node) (events : List Event)
    → IsFaithful first node
    → AllWritable events
    → IsFaithful first (steps node events)
unfolding steps
steps-IsFaithful first node [] f w = f
steps-IsFaithful first node (called m call ∷ events) f w =
    steps-IsFaithful first (step node (called m call)) events
      (called-IsFaithful first node (perform m (some node.handle) call).1 f (
        perform-Published m (some node.handle) call
          (λ h is.
            subst (λ (h : Handle). IsSorted h.registries.lww_registers) (some_inj is) f.sorted)
          w.0))
      w.1
steps-IsFaithful first node (received ∷ events) f w =
    steps-IsFaithful first (step node received) events
      (take_op-IsFaithful first node node.handle.queue refl f) w
