-- ===== src/Sdk/Inverts.antt =====
-- What the readers of the SDK make of what the encoders of the host write.
use numax.Prelude.{
  ℕ, ◌+◌, ◌≤◌, ◌≡◌, ap, ap₂, ◌∙◌, subst, true, ◌++◌, Bytes, length, length-append, leb, arith,
  Bool-cases, inl, inr,
}
use mathlib.Core.List.{append_assoc}
use numax.Prelude.Int.{ℤ}
use numax.Prelude.Result.{Result, ok}
use numax.Abi.{err_internal}
use numax.Abi.Words.{u32_max, to_le_bytes, try_u32}
use numax.Abi.Utf8.{is_utf8}
use numax.HostApi.Encode.{encode_bytes, encode_entry, encode_row}
use numax.Sdk.Parse.{Reader, parse_value, parse_element, parse_entry, parse_row}
use numax.Sdk.Buffer.{At, At-behind, slice-At, end-At, read-At, parse_value-At, parse_element-At}

-- What a length that is written can be.
pub try_u32_lem : (n m : ℕ) → try_u32 err_internal n ≡ ok m → (m ≡ n) × (n ≤ u32_max)
unfolding try_u32
try_u32_lem n m h = ground arith

pub encode_bytes_lem :
    (value bytes : Bytes)
    → encode_bytes value ≡ ok bytes
    → (length value ≤ u32_max) × (bytes ≡ to_le_bytes (length value) ++ value)
unfolding encode_bytes try_u32
encode_bytes_lem value bytes h = elim (Bool-cases (leb (length value) u32_max)) [
  | inl small ↦ let h' = rw small at h in (ground arith, ground arith)
  | inr large ↦ let h' = rw large at h in absurd (cc)
]

-- What an item's parser does on what its encoder writes.
abbrev pub Inverts : {A : Type 0} → (A → Result ℤ Bytes) → Reader A → (A → Type 0) → Type 0
Inverts {A} encode read P =
    (value : A) (bytes rest buf : Bytes) (offset : ℕ)
    → P value
    → encode value ≡ ok bytes
    → At buf offset (bytes ++ rest)
    → read buf offset ≡ ok (value, offset + length bytes)

pub bytes-Inverts : Inverts encode_bytes parse_value (λ _. Unit {0})
unfolding to_le_bytes
bytes-Inverts value bytes rest buf offset _ e a =
    let (small, there) = encode_bytes_lem value bytes e in
    parse_value-At buf offset value rest
      (subst (λ b. At buf offset b)
        (ap (λ b. b ++ rest) there ∙ append_assoc (to_le_bytes (length value)) value rest) a)
      small
    ∙ ap (λ n. ok (value, n)) (omega (arith, ap (λ (l : Bytes). length l) there))

pub element-Inverts : Inverts encode_bytes parse_element (λ value. is_utf8 value ≡ true)
unfolding to_le_bytes
element-Inverts value bytes rest buf offset u e a =
    let (small, there) = encode_bytes_lem value bytes e in
    parse_element-At buf offset value rest
      (subst (λ b. At buf offset b)
        (ap (λ b. b ++ rest) there ∙ append_assoc (to_le_bytes (length value)) value rest) a)
      small u
    ∙ ap (λ n. ok (value, n)) (omega (arith, ap (λ (l : Bytes). length l) there))

encode_entry_lem :
    (field value bytes : Bytes)
    → encode_entry (field, value) ≡ ok bytes
    → (length field ≤ u32_max)
      × (length value ≤ u32_max)
      × (bytes ≡ to_le_bytes (length field) ++ field ++ to_le_bytes (length value) ++ value)
unfolding encode_entry try_u32
encode_entry_lem field value bytes h = elim (Bool-cases (leb (length field) u32_max)) [
  | inr large ↦ let h' = rw large at h in absurd (cc)
  | inl small ↦ elim (Bool-cases (leb (length value) u32_max)) [
    | inr large ↦ let h' = rw (small, large) at h in absurd (cc)
    | inl small' ↦ let h' = rw (small, small') at h in (ground arith, ground arith, ground arith)
  ]
]

encode_row_lem :
    (key value bytes : Bytes)
    → encode_row (key, value) ≡ ok bytes
    → (length key ≤ u32_max)
      × (length value ≤ u32_max)
      × (bytes ≡ to_le_bytes (length key) ++ to_le_bytes (length value) ++ key ++ value)
unfolding encode_row try_u32
encode_row_lem key value bytes h = elim (Bool-cases (leb (length key) u32_max)) [
  | inr large ↦ let h' = rw large at h in absurd (cc)
  | inl small ↦ elim (Bool-cases (leb (length value) u32_max)) [
    | inr large ↦ let h' = rw (small, large) at h in absurd (cc)
    | inl small' ↦ let h' = rw (small, small') at h in (ground arith, ground arith, ground arith)
  ]
]

-- Bracketed to the right behind what is written first.
regroup : (a b c d rest : Bytes) → (a ++ b ++ c ++ d) ++ rest ≡ a ++ b ++ (c ++ d ++ rest)
regroup a b c d rest = simp append_assoc

pub entry-Inverts : Inverts encode_entry parse_entry (λ entry. is_utf8 entry.0 ≡ true)
unfolding parse_entry to_le_bytes
entry-Inverts (field, value) bytes rest buf offset u e at =
    let (small, small', there) = encode_entry_lem field value bytes e in
    let behind = to_le_bytes (length value) ++ value ++ rest in
    let a : At buf offset (to_le_bytes (length field) ++ field ++ behind) =
      subst (λ b. At buf offset b)
        (ap (λ b. b ++ rest) there
          ∙ regroup (to_le_bytes (length field)) field (to_le_bytes (length value)) value rest)
        at in
    let b : At buf (offset + 4 + length field) behind =
      At-behind buf (offset + 4) field behind
        (At-behind buf offset (to_le_bytes (length field)) (field ++ behind) a) in
    let first = parse_element-At buf offset field behind a small u in
    let second = parse_value-At buf (offset + 4 + length field) value rest b small' in
    rw (first, second)
      (ap (λ n. ok ((field, value), n))
        (omega (
          arith,
          ap (λ (l : Bytes). length l) there,
          length-append field (to_le_bytes (length value)),
          length-append (field ++ to_le_bytes (length value)) value,
        )))

pub row-Inverts : Inverts encode_row parse_row (λ _. Unit {0})
unfolding parse_row to_le_bytes
row-Inverts (key, value) bytes rest buf offset _ e at =
    let (small, small', there) = encode_row_lem key value bytes e in
    let a : At buf offset
        (to_le_bytes (length key) ++ (to_le_bytes (length value) ++ (key ++ (value ++ rest)))) =
      subst (λ b. At buf offset b) (ap (λ b. b ++ rest) there ∙ (simp append_assoc)) at in
    let b =
      At-behind buf offset (to_le_bytes (length key))
        (to_le_bytes (length value) ++ (key ++ (value ++ rest))) a in
    let c = At-behind buf (offset + 4) (to_le_bytes (length value)) (key ++ (value ++ rest)) b in
    let d = At-behind buf (offset + 4 + 4) key (value ++ rest) c in
    let (sum, le) = end-At buf (offset + 4 + 4) key (value ++ rest) c in
    let (sum', le') = end-At buf (offset + 4 + 4 + length key) value rest d in
    let test : leb (offset + 4 + 4 + length key) (length buf) ≡ true = ground (arith, le) in
    let test' : leb (offset + 4 + 4 + length key + length value) (length buf) ≡ true =
      ground (arith, le') in
    rw
      (
        read-At buf offset (length key) (to_le_bytes (length value) ++ (key ++ (value ++ rest))) a
            small,
        read-At buf (offset + 4) (length value) (key ++ (value ++ rest)) b small',
        sum,
        sum',
        test,
        test',
      )
      (ap₂ (λ (kv : Bytes × Bytes) (n : ℕ). ok (kv, n))
        (λ i. (
          slice-At buf (offset + 4 + 4) key (value ++ rest) c i,
          slice-At buf (offset + 4 + 4 + length key) value rest d i,
        ))
        (omega (arith, ap (λ (l : Bytes). length l) there, length-append key value)))
