-- ===== src/Sdk/OrSet/Elements.antt =====
-- The elements that a guest sees of a set of its node.
use numax.Prelude.{
  ℕ, ◌≤◌, ◌≡◌, refl, ◌∙◌, Bool, true, some, [], Bytes, bytes_ord, length, leb, arith,
}
use numax.Prelude.Result.{ok, err}
use numax.Abi.Utf8.{is_utf8}
use numax.Map.{get}
use numax.HostApi.Guest.{Memory, Answer, answers, get_memory, write_out, max_out_cap, max_key_len}
use numax.HostApi.Encode.{encode_string_list}
use numax.HostApi.Crdt.{Handle, read_utf8_key, read_utf8_arg}
use numax.HostApi.Crdt.{crdt_orset_add_impl, crdt_orset_remove_impl}
use numax.HostApi.Reads.{
  crdt_orset_contains_impl, sync_handle, set_elements, crdt_orset_elements_impl,
}
use numax.Sdk.{internal}
use numax.Sdk.Parse.{parse_elements}
use numax.Sdk.Ffi.{max_scan_buffer}
use numax.Sdk.Db.{attempts}
use numax.Sdk.Grow.{Serves, grow_lem}
use numax.Sdk.RoundTrip.{All, parse_elements-encode_string_list}
use numax.Sdk.Link.{Placement, Places, buffer_after}
use numax.Sdk.Served.{IsAllowed, read_bytes_lem, write_out-Serves}
use numax.Sdk.OrSet.{OrSetFfi, elements, elements_outcome}

module _ (stored : Bool) (op_id : Bytes) (h : Handle) (place : Placement) where
  -- `crdt_orset_elements` of the host, at a layout of the key and the output buffer.
  abbrev pub linked_elements : Bytes → ℕ → Answer
  linked_elements key room =
      let l = place key [] room in
      crdt_orset_elements_impl (some l.memory) (some h) l.first_ptr (length key) l.out_ptr room

  -- The functions of the host on a node, as the SDK sees them.
  abbrev pub linked_sets : OrSetFfi
  linked_sets = record {
    crdt_orset_add = λ key element.
        let l = place key element 0 in
        (crdt_orset_add_impl (some l.memory) (some h) stored op_id l.first_ptr (length key)
          l.second_ptr (length element)).0;
    crdt_orset_remove = λ key element.
        let l = place key element 0 in
        (crdt_orset_remove_impl (some l.memory) (some h) stored op_id l.first_ptr (length key)
          l.second_ptr (length element)).0;
    crdt_orset_contains = λ key element.
        let l = place key element 0 in
        crdt_orset_contains_impl (some l.memory) (some h) l.first_ptr (length key) l.second_ptr
          (length element);
    crdt_orset_elements = λ key room. buffer_after room (linked_elements key room);
  }

read_utf8_key_lem :
    (memory : Memory) (ptr : ℕ) (key : Bytes)
    → IsAllowed key
    → is_utf8 key ≡ true
    → memory.load ptr (length key) ≡ some key
    → read_utf8_key memory ptr (length key) ≡ ok key
unfolding read_utf8_key read_utf8_arg
read_utf8_key_lem memory ptr key allowed utf8 there =
    let test : leb (length key) max_key_len ≡ true = ground (arith, allowed.short) in
    rw
      (
        test,
        read_bytes_lem memory ptr key (omega (arith, allowed.short)) there,
        utf8,
        allowed.unreserved,
      )
      refl

module _ (stored : Bool) (op_id : Bytes) (h : Handle) (place : Placement)
    (places : (first second : Bytes) (room : ℕ)
      → Places (place first second room) first second room)
    (key : Bytes) where
  elements_answered :
      (bytes : Bytes)
      → IsAllowed key
      → is_utf8 key ≡ true
      → encode_string_list (set_elements (get h.registries.orsets key)) ≡ ok bytes
      → (room : ℕ) → room ≤ max_scan_buffer
      → (let l = place key [] room in
          linked_elements stored op_id h place key room
          ≡ answers (write_out l.memory l.out_ptr room bytes))
  unfolding crdt_orset_elements_impl get_memory sync_handle
  elements_answered bytes allowed utf8 e room small =
      let l = place key [] room in
      let test : leb room max_out_cap ≡ true = ground arith in
      rw
        (
          test,
          read_utf8_key_lem l.memory l.first_ptr key allowed utf8 (places key [] room).first_there,
          e,
        )
        refl

  -- `elements` of the guest, over the host functions on a node, returns the elements of the set
  -- that the node has registered under the key, or none if it has no set, if the key is a string
  -- that the host takes, the elements are UTF-8 and their encoding fits 1 MiB.
  pub elements-registered :
      (bytes : Bytes)
      → IsAllowed key
      → is_utf8 key ≡ true
      → All (λ element. is_utf8 element ≡ true) (set_elements (get h.registries.orsets key))
      → encode_string_list (set_elements (get h.registries.orsets key)) ≡ ok bytes
      → length bytes ≤ max_scan_buffer
      → elements (linked_sets stored op_id h place) key
        ≡ some (ok (set_elements (get h.registries.orsets key)))
  unfolding elements elements_outcome
  elements-registered bytes allowed utf8 all e fits =
      let serves : Serves
          (λ room. buffer_after room (linked_elements stored op_id h place key room)) bytes =
        write_out-Serves (linked_elements stored op_id h place key) (place key []) key [] bytes
          (places key []) (elements_answered bytes allowed utf8 e) in
      let test : leb (length bytes) max_scan_buffer ≡ true = ground arith in
      grow_lem elements_outcome (err internal) parse_elements _ bytes attempts 12 256 (λ n. refl)
        refl serves refl (omega arith)
      ∙ rw
          (
            test,
            parse_elements-encode_string_list bytes (omega arith)
                (set_elements (get h.registries.orsets key)) all e,
          )
          refl
