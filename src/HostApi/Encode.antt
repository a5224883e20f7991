-- ===== src/HostApi/Encode.antt =====
-- The encoders of crdt.rs and db.rs: a count, and then the items, each behind its length or lengths.
-- Their loops differ only in what they write for an item.
use numax.Prelude.{List, [], ◌∷◌, ◌++◌, Bytes, length}
use numax.Prelude.Int.{ℤ}
use numax.Prelude.Result.{Result, ok, ◌>>=◌}
use numax.Abi.{err_internal}
use numax.Abi.Words.{to_le_bytes, try_u32}

unfoldable pub encode_items : {A : Type 0} → (A → Result ℤ Bytes) → Bytes → List A → Result ℤ Bytes
encode_items item encoded [] = ok encoded
encode_items item encoded (value ∷ values) = do
  bytes ← item value
  encode_items item (encoded ++ bytes) values

unfoldable pub encode_list : {A : Type 0} → (A → Result ℤ Bytes) → List A → Result ℤ Bytes
unfolding encode_items try_u32
encode_list item values = do
  count ← try_u32 err_internal (length values)
  encode_items item (to_le_bytes count) values

-- The body of the loop over strings, byte vectors or keys.
unfoldable pub encode_bytes : Bytes → Result ℤ Bytes
unfolding try_u32
encode_bytes value = do len ← try_u32 err_internal (length value); ok (to_le_bytes len ++ value)

unfoldable pub encode_entry : Bytes × Bytes → Result ℤ Bytes
unfolding try_u32
encode_entry (field, value) = do
  field_len ← try_u32 err_internal (length field)
  value_len ← try_u32 err_internal (length value)
  ok (to_le_bytes field_len ++ field ++ to_le_bytes value_len ++ value)

unfoldable pub encode_row : Bytes × Bytes → Result ℤ Bytes
unfolding try_u32
encode_row (key, value) = do
  key_len ← try_u32 err_internal (length key)
  value_len ← try_u32 err_internal (length value)
  ok (to_le_bytes key_len ++ to_le_bytes value_len ++ key ++ value)

unfoldable pub encode_string_list : List Bytes → Result ℤ Bytes
unfolding encode_list encode_bytes
encode_string_list values = encode_list encode_bytes values

unfoldable pub encode_bytes_list : List Bytes → Result ℤ Bytes
unfolding encode_list encode_bytes
encode_bytes_list values = encode_list encode_bytes values

unfoldable pub encode_lww_map_entries : List (Bytes × Bytes) → Result ℤ Bytes
unfolding encode_list encode_entry
encode_lww_map_entries entries = encode_list encode_entry entries

unfoldable pub encode_scan_rows : List (Bytes × Bytes) → Result ℤ Bytes
unfolding encode_list encode_row
encode_scan_rows rows = encode_list encode_row rows

unfoldable pub encode_keys : List Bytes → Result ℤ Bytes
unfolding encode_list encode_bytes
encode_keys keys = encode_list encode_bytes keys
