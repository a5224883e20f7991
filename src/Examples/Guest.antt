-- ===== src/Examples/Guest.antt =====
-- A guest on the store of a node.
use numax.Prelude.{
  zero, suc, ◌≡◌, refl, false, none, some, List, [], ◌∷◌, ◌++◌, Bytes, bytes_ord, starts_with,
  arith,
}
use numax.Prelude.Result.{ok, err}
use numax.Abi.Words.{to_le_bytes}
use numax.Store.Sled.{Entry, Entries, Shows}
use numax.Store.Writes.{Store}
use numax.Store.Scan.{scan_prefix_page, keys_prefix_page}
use numax.Store.Pages.{prefix_pages_lem}
use numax.HostApi.Guest.{reserved_prefix}
use numax.HostApi.Encode.{encode_scan_rows, encode_keys, encode_lww_map_entries}
use numax.HostApi.Guest.{get_memory, read_validated_key, read_bytes}
use numax.HostApi.Db.{db_set_impl, db_delete_impl, write_or, finish_write}
use numax.Store.Visible.{visible}
use numax.Store.Writes
use numax.Abi.Utf8.{is_utf8}
use numax.Sdk.{reserved_key}
use numax.Sdk.Parse.{parse_entries}
use numax.Sdk.Ffi.{Ffi}
use numax.Sdk.Db.{
  scan, keys, get, set, delete, exists, scan_page, keys_page, scan_page_after, keys_page_after,
}
use numax.Sdk.Link.{zeros, linked, linked_set, linked_delete}
use numax.Sdk.Served.{IsAllowed}
use numax.Sdk.RoundTrip.{parse_entries-encode_lww_map_entries}
use numax.Sdk.PageCalls.{PagesFit}
use numax.Sdk.Scan.{scan_lem, keys_lem}
use numax.Sdk.Writes.{get-set, get-delete, reserved_refused}
use numax.Sdk.Calls.{calls_end, Ends}
use numax.Examples.Database.{
  in_memory, in_memory-Shows, in_memory-IsLawful, laid_out, laid_out-Places,
}

abbrev a1 : Bytes
a1 = 97 ∷ 49 ∷ []

abbrev a2 : Bytes
a2 = 97 ∷ 50 ∷ []

abbrev hidden : Bytes
hidden = reserved_prefix ++ 97 ∷ []

abbrev prefix : Bytes
prefix = 97 ∷ []

abbrev entries : Entries
entries = (hidden, []) ∷ (a1, 1 ∷ []) ∷ (a2, 2 ∷ 3 ∷ []) ∷ (98 ∷ [], []) ∷ []

abbrev store : Store in_memory
store = record { db = entries; poisoned = false }

abbrev guest_ffi : Ffi
guest_ffi = linked in_memory store laid_out

abbrev rows : List Entry
rows = (a1, 1 ∷ []) ∷ (a2, 2 ∷ 3 ∷ []) ∷ []

entries-Shows : Shows in_memory entries entries
entries-Shows =
    in_memory-Shows entries
      ((refl, (refl, (refl, tt))), ((refl, (refl, tt)), ((refl, tt), (tt, tt))))

prefix-IsAllowed : IsAllowed prefix
unfolding starts_with
prefix-IsAllowed = record { short = omega arith; unreserved = refl }

a1-IsAllowed : IsAllowed a1
unfolding starts_with
a1-IsAllowed = record { short = omega arith; unreserved = refl }

rows_fit : PagesFit encode_scan_rows (λ e. e) rows
unfolding encode_scan_rows to_le_bytes
rows_fit zero = (_, refl, omega arith)
rows_fit (suc zero) = (_, refl, omega arith)
rows_fit (suc (suc zero)) = (_, refl, omega arith)
rows_fit (suc (suc (suc n))) = (_, refl, omega arith)

keys_fit : PagesFit encode_keys (λ e. e.0) rows
unfolding encode_keys to_le_bytes
keys_fit zero = (_, refl, omega arith)
keys_fit (suc zero) = (_, refl, omega arith)
keys_fit (suc (suc zero)) = (_, refl, omega arith)
keys_fit (suc (suc (suc n))) = (_, refl, omega arith)

scan_lem_example : scan guest_ffi 1 prefix ≡ some (ok rows)
unfolding visible
scan_lem_example =
    scan_lem in_memory store entries entries-Shows laid_out laid_out-Places prefix prefix-IsAllowed
      1 (omega arith, (omega arith, tt)) rows_fit (omega arith)

keys_lem_example : keys guest_ffi 1 prefix ≡ some (ok (a1 ∷ a2 ∷ []))
unfolding visible
keys_lem_example =
    keys_lem in_memory store entries entries-Shows laid_out laid_out-Places prefix prefix-IsAllowed
      1 (omega arith, (omega arith, tt)) keys_fit (omega arith)

set_done : set guest_ffi a1 (9 ∷ []) ≡ ok tt
unfolding set db_set_impl get_memory read_validated_key read_bytes write_or finish_write Writes.set
    zeros
set_done = refl

get-set_example :
    get (linked in_memory (linked_set in_memory store laid_out a1 (9 ∷ [])).1 laid_out) a1
    ≡ some (ok (some (9 ∷ [])))
get-set_example =
    get-set in_memory store entries entries-Shows laid_out laid_out-Places a1 (9 ∷ []) a1
      in_memory-IsLawful a1-IsAllowed a1-IsAllowed (omega arith) set_done

delete_done : delete guest_ffi a1 ≡ ok tt
unfolding delete db_delete_impl get_memory read_validated_key read_bytes write_or finish_write
    Writes.delete zeros
delete_done = refl

get-delete_example :
    get (linked in_memory (linked_delete in_memory store laid_out a1).1 laid_out) a1
    ≡ some (ok none)
get-delete_example =
    get-delete in_memory store entries entries-Shows laid_out laid_out-Places a1 a1
      in_memory-IsLawful a1-IsAllowed a1-IsAllowed delete_done

reserved_refused_example :
    (get guest_ffi hidden ≡ some (err reserved_key))
    × (exists guest_ffi hidden ≡ err reserved_key)
    × (set guest_ffi hidden [] ≡ err reserved_key)
    × ((linked_set in_memory store laid_out hidden []).1 ≡ store)
    × (delete guest_ffi hidden ≡ err reserved_key)
    × ((linked_delete in_memory store laid_out hidden).1 ≡ store)
unfolding starts_with
reserved_refused_example =
    reserved_refused in_memory store laid_out laid_out-Places hidden [] (omega arith) refl
      (omega arith)

prefix_pages_lem_example :
    (scan_prefix_page in_memory entries prefix 1 5 (some reserved_prefix)
      ≡ ok ((a2, 2 ∷ 3 ∷ []) ∷ []))
    × (keys_prefix_page in_memory entries prefix 1 5 (some reserved_prefix) ≡ ok (a2 ∷ []))
unfolding visible
prefix_pages_lem_example =
    prefix_pages_lem in_memory entries entries entries-Shows prefix 1 5 (some reserved_prefix)

calls_end_example :
    Ends (get guest_ffi a1)
    × Ends (scan_page guest_ffi a1 0 64)
    × Ends (keys_page guest_ffi a1 0 64)
    × Ends (scan_page_after guest_ffi a1 none 64)
    × Ends (keys_page_after guest_ffi a1 none 64)
calls_end_example = calls_end guest_ffi a1 none 0 64

parse_entries-encode_lww_map_entries_example :
    parse_entries (to_le_bytes 1 ++ to_le_bytes 2 ++ a1 ++ to_le_bytes 1 ++ 255 ∷ [])
    ≡ ok ((a1, 255 ∷ []) ∷ [])
unfolding encode_lww_map_entries to_le_bytes is_utf8
parse_entries-encode_lww_map_entries_example =
    parse_entries-encode_lww_map_entries
      (to_le_bytes 1 ++ to_le_bytes 2 ++ a1 ++ to_le_bytes 1 ++ 255 ∷ []) (omega arith)
      ((a1, 255 ∷ []) ∷ []) (refl, tt) refl
