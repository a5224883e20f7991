-- ===== src/Sdk/Buffer.antt =====
-- What the readers of the SDK take from a buffer whose rest is known.
use numax.Prelude.{
  ℕ, ◌+◌, ◌≤◌, ◌≡◌, refl, sym, ap, ◌∙◌, true, ◌++◌, Bytes, length, take, drop, length-append,
  length-drop, take-append, drop-append, drop-drop_generic, leb, arith,
}
use numax.Prelude.Result.{ok}
use numax.Abi.Words.{u32_max, to_le_bytes, from-to_le_bytes}
use numax.Abi.Utf8.{is_utf8}
use numax.Sdk.Parse.{add_offset, slice, word_of, read_u32_le, parse_value, parse_element}

-- The rest of a buffer from an offset on.
pub record At (buf : Bytes) (offset : ℕ) (rest : Bytes) : Type 0 where
  pub rest_eq : drop offset buf ≡ rest
  pub inside : offset ≤ length buf
  pub fits : length buf ≤ u32_max

pub At-length :
    (buf : Bytes) (offset : ℕ) (rest : Bytes)
    → At buf offset rest
    → offset + length rest ≡ length buf
At-length buf offset rest a =
    omega (arith, ap (λ (l : Bytes). length l) a.rest_eq, length-drop offset buf, a.inside)

-- What is read moves the offset behind it.
pub At-behind :
    (buf : Bytes) (offset : ℕ) (x rest : Bytes)
    → At buf offset (x ++ rest)
    → At buf (offset + length x) rest
At-behind buf offset x rest a = record {
  rest_eq =
      sym (drop-drop_generic (length x) offset buf)
      ∙ ap (drop (length x)) a.rest_eq
      ∙ drop-append x rest;
  inside = omega (arith, At-length buf offset (x ++ rest) a, length-append x rest);
  fits = a.fits;
}

pub slice-At :
    (buf : Bytes) (offset : ℕ) (x rest : Bytes)
    → At buf offset (x ++ rest)
    → slice buf offset (offset + length x) ≡ x
slice-At buf offset x rest a =
    ap (λ n. take n (drop offset buf)) (omega arith)
    ∙ ap (take (length x)) a.rest_eq
    ∙ take-append x rest

pub end-At :
    (buf : Bytes) (offset : ℕ) (x rest : Bytes)
    → At buf offset (x ++ rest)
    → (add_offset offset (length x) ≡ offset + length x) × (offset + length x ≤ length buf)
unfolding add_offset
end-At buf offset x rest a =
    let n = At-length buf offset (x ++ rest) a in
    let m = length-append x rest in (omega (arith, n, m, a.fits), omega (arith, n, m))

pub read-At :
    (buf : Bytes) (offset n : ℕ) (rest : Bytes)
    → At buf offset (to_le_bytes n ++ rest)
    → n ≤ u32_max
    → read_u32_le buf offset ≡ ok (n, offset + 4)
unfolding read_u32_le word_of to_le_bytes
read-At buf offset n rest a h =
    let (sum, le) = end-At buf offset (to_le_bytes n) rest a in
    let there : read_u32_le buf offset ≡ word_of (offset + 4) (drop offset buf) =
      ground (arith, le, a.fits) in
    there
    ∙ ap (word_of (offset + 4)) a.rest_eq
    ∙ ap (λ v. ok (v, offset + 4)) (from-to_le_bytes n h)

pub parse_value-At :
    (buf : Bytes) (offset : ℕ) (value rest : Bytes)
    → At buf offset (to_le_bytes (length value) ++ value ++ rest)
    → length value ≤ u32_max
    → parse_value buf offset ≡ ok (value, offset + 4 + length value)
unfolding parse_value to_le_bytes
parse_value-At buf offset value rest a h =
    let b = At-behind buf offset (to_le_bytes (length value)) (value ++ rest) a in
    let (sum, le) = end-At buf (offset + 4) value rest b in
    let test : leb (offset + 4 + length value) (length buf) ≡ true = ground (arith, le) in
    rw (read-At buf offset (length value) (value ++ rest) a h, sum, test)
      (ap (λ v. ok (v, offset + 4 + length value)) (slice-At buf (offset + 4) value rest b))

pub parse_element-At :
    (buf : Bytes) (offset : ℕ) (value rest : Bytes)
    → At buf offset (to_le_bytes (length value) ++ value ++ rest)
    → length value ≤ u32_max
    → is_utf8 value ≡ true
    → parse_element buf offset ≡ ok (value, offset + 4 + length value)
unfolding parse_element
parse_element-At buf offset value rest a h u = rw (parse_value-At buf offset value rest a h, u) refl
