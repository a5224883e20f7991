-- ===== src/Sdk/RoundTrip.antt =====
-- The lists that the host writes (host_api/crdt.rs, host_api/db.rs) and the SDK reads (nx-sdk).
use numax.Prelude.{
  ℕ, ◌≤◌, ◌≡◌, refl, sym, ap, ap₂, ◌∙◌, true, List, [], ◌∷◌, ◌++◌, Bytes, length, drop,
  length-append, drop-append, arith, inl, inr, ◌==◌,
}
use mathlib.Core.List.{append_assoc, append-nil}
use numax.Prelude.Int.{ℤ}
use numax.Prelude.Result.{Result, ok, Result-cases}
use numax.Abi.{err_internal}
use numax.Abi.Words.{u32_max, to_le_bytes, try_u32}
use numax.Abi.Utf8.{is_utf8}
use numax.HostApi.Encode.{
  encode_items, encode_list, encode_bytes, encode_entry, encode_row, encode_string_list,
  encode_bytes_list, encode_lww_map_entries, encode_scan_rows, encode_keys,
}
use numax.Sdk.Parse.{
  Reader, parse_value, parse_element, parse_entry, parse_row, parse_items, parse_list,
  parse_elements, parse_values, parse_keys, parse_entries, parse_scan_rows,
}
use numax.Sdk.Buffer.{At, read-At}
use numax.Sdk.Inverts.{
  Inverts, bytes-Inverts, element-Inverts, entry-Inverts, row-Inverts, try_u32_lem,
}

abbrev pub All : {A : Type 0} → (A → Type 0) → List A → Type 0
All P [] = Unit
All P (x ∷ xs) = P x × All P xs

-- Every value satisfies a predicate that does not depend on it.
All-unit : {A : Type 0} (xs : List A) → All (λ _. Unit {0}) xs
All-unit [] = tt
All-unit (x ∷ xs) = (tt, All-unit xs)

ok_inj : {E A : Type 0} {a b : A} → ◌≡◌ {A = Result E A} (ok a) (ok b) → a ≡ b
ok_inj h = cc

encode_items_front :
    {A : Type 0} (encode : A → Result ℤ Bytes) (encoded : Bytes) (values : List A) (buf : Bytes)
    → encode_items encode encoded values ≡ ok buf
    → (tail : Bytes) × (buf ≡ encoded ++ tail)
unfolding encode_items
encode_items_front encode encoded [] buf e = ([], sym (ok_inj e) ∙ sym (append-nil encoded))
encode_items_front encode encoded (v ∷ vs) buf e = elim (Result-cases (encode v)) [
  | inl (bytes, is) ↦
      let e' = rw is at e in
      let (tail, there) = encode_items_front encode (encoded ++ bytes) vs buf e' in
      (bytes ++ tail, there ∙ append_assoc encoded bytes tail)
  | inr (_, is) ↦ let e' = rw is at e in absurd (cc)
]

-- Behind what is written already, the loop of the parser reads what the loop of the encoder wrote.
parse_items-encode_items :
    {A : Type 0} (encode : A → Result ℤ Bytes) (read : Reader A) (P : A → Type 0)
    → Inverts encode read P
    → (values out : List A) (encoded buf : Bytes) → All P values
    → encode_items encode encoded values ≡ ok buf
    → length buf ≤ u32_max
    → parse_items read buf (length values) (length encoded) out ≡ ok (out ++ values, length buf)
unfolding encode_items parse_items
parse_items-encode_items {A} encode read P inverts [] out encoded buf all e fits =
    ap₂ (λ (l : List A) (n : ℕ). ok (l, n)) (sym (append-nil out))
      (ap (λ (l : Bytes). length l) (ok_inj e))
parse_items-encode_items {A} encode read P inverts (v ∷ vs) out encoded buf all e fits =
    elim (Result-cases (encode v)) [
      | inl (bytes, is) ↦
          let e' = rw is at e in
          let (tail, there) = encode_items_front encode (encoded ++ bytes) vs buf e' in
          let at : At buf (length encoded) (bytes ++ tail) = record {
            rest_eq =
                ap (drop (length encoded)) (there ∙ append_assoc encoded bytes tail)
                ∙ drop-append encoded (bytes ++ tail);
            inside = omega (
              arith,
              ap (λ (l : Bytes). length l) there,
              length-append (encoded ++ bytes) tail,
              length-append encoded bytes,
            );
            fits = fits;
          } in
          let rest =
            parse_items-encode_items encode read P inverts vs (out ++ v ∷ []) (encoded ++ bytes) buf
              all.1 e' fits in
          rw
            (
              inverts v bytes tail buf (length encoded) all.0 is at,
              sym (length-append encoded bytes),
              rest,
            )
            (ap (λ (l : List A). ok (l, length buf)) (append_assoc out (v ∷ []) vs))
      | inr (_, is) ↦ let e' = rw is at e in absurd (cc)
    ]

==_self : (n : ℕ) → (n == n) ≡ true
==_self n = ground arith

parse_list-encode_list :
    {A : Type 0} (encode : A → Result ℤ Bytes) (read : Reader A) (P : A → Type 0)
    → Inverts encode read P
    → (values : List A) (buf : Bytes) → All P values
    → encode_list encode values ≡ ok buf
    → length buf ≤ u32_max
    → parse_list read buf ≡ ok values
unfolding encode_list parse_list to_le_bytes
parse_list-encode_list encode read P inverts values buf all e fits =
    elim (Result-cases (try_u32 err_internal (length values))) [
      | inl (count, is) ↦
          let (same, small) = try_u32_lem (length values) count is in
          let e' = rw (is, same) at e in
          let (tail, there) =
            encode_items_front encode (to_le_bytes (length values)) values buf e' in
          let at : At buf 0 (to_le_bytes (length values) ++ tail) = record {
            rest_eq = there;
            inside = omega arith;
            fits = fits;
          } in
          let items : parse_items read buf (length values) 4 [] ≡ ok (values, length buf) =
            parse_items-encode_items encode read P inverts values [] (to_le_bytes (length values))
              buf all e' fits in
          rw (read-At buf 0 (length values) tail at small, items, ==_self (length buf)) refl
      | inr (_, is) ↦ let e' = rw is at e in absurd (cc)
    ]

module _ (buf : Bytes) (fits : length buf ≤ u32_max) where
  -- The SDK reads back the strings that the host encodes into at most 4 GiB, if they are UTF-8.
  pub parse_elements-encode_string_list :
      (values : List Bytes)
      → All (λ value. is_utf8 value ≡ true) values
      → encode_string_list values ≡ ok buf
      → parse_elements buf ≡ ok values
  unfolding encode_string_list parse_elements
  parse_elements-encode_string_list values utf8 e =
      parse_list-encode_list encode_bytes parse_element _ element-Inverts values buf utf8 e fits

  pub parse_values-encode_bytes_list :
      (values : List Bytes) → encode_bytes_list values ≡ ok buf → parse_values buf ≡ ok values
  unfolding encode_bytes_list parse_values
  parse_values-encode_bytes_list values e =
      parse_list-encode_list encode_bytes parse_value _ bytes-Inverts values buf (All-unit values) e
        fits

  pub parse_keys-encode_keys :
      (keys : List Bytes) → encode_keys keys ≡ ok buf → parse_keys buf ≡ ok keys
  unfolding encode_keys parse_keys
  parse_keys-encode_keys keys e =
      parse_list-encode_list encode_bytes parse_value _ bytes-Inverts keys buf (All-unit keys) e
        fits

  -- The SDK reads back the entries of a map that the host encodes into at most 4 GiB, if their
  -- fields are UTF-8.
  pub parse_entries-encode_lww_map_entries :
      (entries : List (Bytes × Bytes))
      → All (λ entry. is_utf8 entry.0 ≡ true) entries
      → encode_lww_map_entries entries ≡ ok buf
      → parse_entries buf ≡ ok entries
  unfolding encode_lww_map_entries parse_entries
  parse_entries-encode_lww_map_entries entries utf8 e =
      parse_list-encode_list encode_entry parse_entry _ entry-Inverts entries buf utf8 e fits

  pub parse_scan_rows-encode_scan_rows :
      (rows : List (Bytes × Bytes)) → encode_scan_rows rows ≡ ok buf → parse_scan_rows buf ≡ ok rows
  unfolding encode_scan_rows parse_scan_rows
  parse_scan_rows-encode_scan_rows rows e =
      parse_list-encode_list encode_row parse_row _ row-Inverts rows buf (All-unit rows) e fits
