-- ===== src/Sdk/PageCalls.antt =====
-- One page of the guest's `scan` or `keys`, over the host functions over a store.
use numax.Prelude.{
  ℕ, ◌≤◌, ◌<◌, ◌≡◌, refl, sym, ap, ◌∙◌, true, Option, none, some, List, [], map, Bytes, bytes_ord,
  length, drop, take, leb, starts_with, arith,
}
use numax.Prelude.Int.{ℤ}
use numax.Prelude.Result.{Result, ok, err}
use numax.Map.{get_or}
use numax.Store.Sled.{Sled, Entry, Entries, Shows}
use numax.Store.Writes.{Store}
use numax.Store.Visible.{visible, behind}
use numax.Store.Pages.{IsCursor, scan_prefix_page_after_lem, keys_prefix_page_after_lem}
use numax.HostApi.Guest.{answers, write_out, read_scan_cursor, reserved_prefix}
use numax.HostApi.Db.{db_scan_after_impl, db_keys_after_impl, from_store}
use numax.HostApi.Encode.{encode_scan_rows, encode_keys}
use numax.Sdk.{internal}
use numax.Sdk.Parse.{parse_scan_rows, parse_keys}
use numax.HostApi.Guest.{get_memory}
use numax.Sdk.Ffi.{page_outcome, max_scan_buffer}
use numax.Sdk.Db.{scan_page_after, keys_page_after, default_scan_limit, attempts}
use numax.Sdk.Grow.{Serves, grow_lem}
use numax.Sdk.RoundTrip.{parse_scan_rows-encode_scan_rows, parse_keys-encode_keys}
use numax.Sdk.Pages.{key_of}
use numax.Sdk.Link.{Placement, Places, linked, linked_scan_after, linked_keys_after, buffer_after}
use numax.Sdk.Served.{
  IsAllowed, read_validated_key_lem, read_scan_cursor-none, read_scan_cursor-some,
  validate_page_request_lem, write_out-Serves,
}

-- A cursor that the host takes: none, or a key of the prefix.
abbrev pub IsResumable : Bytes → Option Bytes → Type 0
IsResumable prefix none = Unit
IsResumable prefix (some k) = IsAllowed k × (0 < length k) × (starts_with k prefix ≡ true)

resumable-IsCursor :
    (prefix : Bytes) (start : Option Bytes) → IsResumable prefix start → IsCursor prefix start
resumable-IsCursor prefix none r = tt
resumable-IsCursor prefix (some k) r = r.2

-- What a guest can see under a prefix.
abbrev pub guest_rows : Bytes → Entries → List Entry
guest_rows prefix entries = visible prefix (some reserved_prefix) entries

-- Every page of rows fits the largest buffer of the SDK, once encoded.
abbrev pub PagesFit : {A : Type 0} → (List A → Result ℤ Bytes) → (Entry → A) → List Entry → Type 0
PagesFit encode row rows =
    (n : ℕ)
    → (bytes : Bytes) × (encode (map row (take default_scan_limit (drop n rows))) ≡ ok bytes)
      × (length bytes ≤ max_scan_buffer)

module _ (s : Sled) (store : Store s) (entries : Entries) (shows : Shows s store.db entries)
    (place : Placement)
    (places : (first second : Bytes) (room : ℕ)
      → Places (place first second room) first second room)
    (prefix : Bytes) (allowed : IsAllowed prefix) where
  abbrev reserved : Option Bytes
  reserved = some reserved_prefix

  cursor_read :
      (start : Option Bytes) (room : ℕ)
      → IsResumable prefix start
      → (let l = place prefix (get_or start []) room in
          read_scan_cursor l.memory l.second_ptr (length (get_or start [])) prefix)
        ≡ ok start
  cursor_read none room r = read_scan_cursor-none _ _ prefix
  cursor_read (some k) room r =
      read_scan_cursor-some _ _ prefix k r.0 r.1 r.2 (places prefix k room).second_there

  scan_after_answered :
      (start : Option Bytes) (bytes : Bytes)
      → IsResumable prefix start
      → encode_scan_rows (take default_scan_limit (behind start (guest_rows prefix entries)))
        ≡ ok bytes
      → (room : ℕ) → room ≤ max_scan_buffer
      → (let l = place prefix (get_or start []) room in
          linked_scan_after s store place prefix (get_or start []) default_scan_limit room
          ≡ answers (write_out l.memory l.out_ptr room bytes))
  unfolding db_scan_after_impl get_memory from_store
  scan_after_answered start bytes r e room small =
      let l = place prefix (get_or start []) room in
      let there = places prefix (get_or start []) room in
      rw
        (
          validate_page_request_lem default_scan_limit room (omega arith) (omega arith) small,
          read_validated_key_lem l.memory l.first_ptr prefix allowed there.first_there,
          cursor_read start room r,
          scan_prefix_page_after_lem s store.db entries shows prefix start default_scan_limit
              reserved (resumable-IsCursor prefix start r),
          e,
        )
        refl

  keys_after_answered :
      (start : Option Bytes) (bytes : Bytes)
      → IsResumable prefix start
      → encode_keys
          (map key_of (take default_scan_limit (behind start (guest_rows prefix entries))))
        ≡ ok bytes
      → (room : ℕ) → room ≤ max_scan_buffer
      → (let l = place prefix (get_or start []) room in
          linked_keys_after s store place prefix (get_or start []) default_scan_limit room
          ≡ answers (write_out l.memory l.out_ptr room bytes))
  unfolding db_keys_after_impl get_memory from_store
  keys_after_answered start bytes r e room small =
      let l = place prefix (get_or start []) room in
      let there = places prefix (get_or start []) room in
      rw
        (
          validate_page_request_lem default_scan_limit room (omega arith) (omega arith) small,
          read_validated_key_lem l.memory l.first_ptr prefix allowed there.first_there,
          cursor_read start room r,
          keys_prefix_page_after_lem s store.db entries shows prefix start default_scan_limit
              reserved (resumable-IsCursor prefix start r),
          e,
        )
        refl

  -- One page of the SDK, through as many buffers as it takes.
  pub scan_page_lem :
      (start : Option Bytes) (bytes : Bytes) (page : List Entry)
      → IsResumable prefix start
      → page ≡ take default_scan_limit (behind start (guest_rows prefix entries))
      → encode_scan_rows page ≡ ok bytes
      → length bytes ≤ max_scan_buffer
      → scan_page_after (linked s store place) prefix start default_scan_limit ≡ some (ok page)
  unfolding scan_page_after
  scan_page_lem start bytes page r is e fits =
      let serves : Serves
          (λ room.
            buffer_after room
              (linked_scan_after s store place prefix (get_or start []) default_scan_limit room))
          bytes =
        write_out-Serves
          (linked_scan_after s store place prefix (get_or start []) default_scan_limit)
          (place prefix (get_or start [])) prefix (get_or start []) bytes
          (places prefix (get_or start []))
          (scan_after_answered start bytes r (ap encode_scan_rows (sym is) ∙ e)) in
      let test : leb (length bytes) max_scan_buffer ≡ true = ground arith in
      grow_lem page_outcome (err internal) parse_scan_rows _ bytes attempts 12 256 (λ n. refl) refl
        serves refl (omega arith)
      ∙ rw (test, parse_scan_rows-encode_scan_rows bytes (omega arith) page e) refl

  pub keys_page_lem :
      (start : Option Bytes) (bytes : Bytes) (page : List Bytes)
      → IsResumable prefix start
      → page ≡ map key_of (take default_scan_limit (behind start (guest_rows prefix entries)))
      → encode_keys page ≡ ok bytes
      → length bytes ≤ max_scan_buffer
      → keys_page_after (linked s store place) prefix start default_scan_limit ≡ some (ok page)
  unfolding keys_page_after
  keys_page_lem start bytes page r is e fits =
      let serves : Serves
          (λ room.
            buffer_after room
              (linked_keys_after s store place prefix (get_or start []) default_scan_limit room))
          bytes =
        write_out-Serves
          (linked_keys_after s store place prefix (get_or start []) default_scan_limit)
          (place prefix (get_or start [])) prefix (get_or start []) bytes
          (places prefix (get_or start []))
          (keys_after_answered start bytes r (ap encode_keys (sym is) ∙ e)) in
      let test : leb (length bytes) max_scan_buffer ≡ true = ground arith in
      grow_lem page_outcome (err internal) parse_keys _ bytes attempts 12 256 (λ n. refl) refl
        serves refl (omega arith)
      ∙ rw (test, parse_keys-encode_keys bytes (omega arith) page e) refl
