-- ===== src/Sdk/Parse.antt =====
-- The parsers of db.rs, crdt/orset.rs, crdt/lww_map.rs and crdt/rga.rs. Their loops differ only in
-- what they read for an item. A guest has 32 bits to a `usize`.
use numax.Prelude.{
  ℕ, zero, suc, ◌+◌, ◌-◌, ◌&&◌, min, List, [], ◌∷◌, ◌++◌, Bytes, length, take, drop, leb, ltb, ◌==◌,
  if◌then◌else◌,
}
use numax.Prelude.Result.{Result, ok, err, ◌>>=◌, ◌>>◌, require}
use numax.Abi.Words.{u32_max, from_le_bytes}
use numax.Abi.Utf8.{is_utf8}
use numax.Sdk.{NxError, internal}

-- `offset.saturating_add(n)`
unfoldable pub add_offset : ℕ → ℕ → ℕ
add_offset offset n = min (offset + n) u32_max

-- `buf[start..end]`
abbrev pub slice : Bytes → ℕ → ℕ → Bytes
slice buf start end = take (end - start) (drop start buf)

-- The four bytes at the offset, which are there.
unfoldable pub word_of : ℕ → Bytes → Result NxError (ℕ × ℕ)
word_of end (a ∷ b ∷ c ∷ d ∷ _) = ok (from_le_bytes a b c d, end)
word_of end _ = err internal

-- The number, and the offset behind it.
unfoldable pub read_u32_le : Bytes → ℕ → Result NxError (ℕ × ℕ)
unfolding add_offset word_of
read_u32_le buf offset =
    let end = add_offset offset 4 in
    if ltb (length buf) end then err internal else word_of end (drop offset buf)

-- An item, and the offset behind it.
abbrev pub Reader : Type 0 → Type 0
Reader A = Bytes → ℕ → Result NxError (A × ℕ)

unfoldable pub parse_value : Reader Bytes
unfolding read_u32_le
parse_value buf offset = do
  len ← read_u32_le buf offset
  let end = add_offset len.1 len.0
  require (leb end (length buf)) internal
  ok (slice buf len.1 end, end)

unfoldable pub parse_element : Reader Bytes
unfolding parse_value is_utf8
parse_element buf offset = do
  element ← parse_value buf offset
  require (is_utf8 element.0) internal
  ok element

unfoldable pub parse_entry : Reader (Bytes × Bytes)
unfolding parse_value parse_element
parse_entry buf offset = do
  field ← parse_element buf offset
  value ← parse_value buf field.1
  ok ((field.0, value.0), value.1)

unfoldable pub parse_row : Reader (Bytes × Bytes)
unfolding read_u32_le
parse_row buf offset = do
  key_len ← read_u32_le buf offset
  value_len ← read_u32_le buf key_len.1
  let key_end = add_offset value_len.1 key_len.0
  let value_end = add_offset key_end value_len.0
  require (leb key_end (length buf) && leb value_end (length buf)) internal
  ok ((slice buf value_len.1 key_end, slice buf key_end value_end), value_end)

unfoldable pub parse_items :
    {A : Type 0} → Reader A → Bytes → ℕ → ℕ → List A → Result NxError (List A × ℕ)
parse_items item buf zero offset out = ok (out, offset)
parse_items item buf (suc count) offset out = do
  value ← item buf offset
  parse_items item buf count value.1 (out ++ value.0 ∷ [])

unfoldable pub parse_list : {A : Type 0} → Reader A → Bytes → Result NxError (List A)
unfolding read_u32_le parse_items
parse_list item buf = do
  count ← read_u32_le buf 0
  values ← parse_items item buf count.0 count.1 []
  require (values.1 == length buf) internal
  ok values.0

unfoldable pub parse_elements : Bytes → Result NxError (List Bytes)
parse_elements buf = parse_list parse_element buf

unfoldable pub parse_values : Bytes → Result NxError (List Bytes)
parse_values buf = parse_list parse_value buf

unfoldable pub parse_keys : Bytes → Result NxError (List Bytes)
parse_keys buf = parse_list parse_value buf

unfoldable pub parse_entries : Bytes → Result NxError (List (Bytes × Bytes))
parse_entries buf = parse_list parse_entry buf

unfoldable pub parse_scan_rows : Bytes → Result NxError (List (Bytes × Bytes))
parse_scan_rows buf = parse_list parse_row buf
