-- ===== src/Sdk/Served.antt =====
-- What the host answers to the calls of the SDK.
use numax.Prelude.{
  ℕ, ◌≤◌, ◌<◌, ◌≡◌, refl, ap, ◌∙◌, Bool, true, false, ◌||◌, none, some, Bytes, length, drop, leb,
  ltb, ◌==◌, starts_with, Bool-cases, inl, inr, arith,
}
use numax.Prelude.Int.{pos}
use numax.Prelude.Result.{ok, err, ◌>>◌, require}
use numax.Abi.{err_buf_too_small, err_internal}
use numax.HostApi.Guest.{
  Memory, Answer, returns, answers, as_i32, read_bytes, read_validated_key, read_scan_cursor,
  validate_page_request, write_out, max_key_len, max_read_len, max_out_cap, max_scan_limit,
  reserved_prefix,
}
use numax.Sdk.Ffi.{max_scan_buffer}
use numax.Sdk.Grow.{Serves}
use numax.Sdk.Link.{Layout, Places, buffer_after, zeros}

-- A key that the host takes from a guest.
pub record IsAllowed (key : Bytes) : Type 0 where
  pub short : length key ≤ max_key_len
  pub unreserved : starts_with key reserved_prefix ≡ false

or_true : (b : Bool) → (b || true) ≡ true
or_true true = refl
or_true false = refl

pub read_bytes_lem :
    (memory : Memory) (ptr : ℕ) (bytes : Bytes)
    → length bytes ≤ max_read_len
    → memory.load ptr (length bytes) ≡ some bytes
    → read_bytes memory ptr (length bytes) ≡ ok bytes
unfolding read_bytes
read_bytes_lem memory ptr bytes h there =
    let test : ltb max_read_len (length bytes) ≡ false = ground arith in
    rw (test, there, read_bytes) refl

pub read_validated_key_lem :
    (memory : Memory) (ptr : ℕ) (key : Bytes)
    → IsAllowed key
    → memory.load ptr (length key) ≡ some key
    → read_validated_key memory ptr (length key) ≡ ok key
unfolding read_validated_key
read_validated_key_lem memory ptr key allowed there =
    let test : leb (length key) max_key_len ≡ true = ground (arith, allowed.short) in
    rw
      (test, read_bytes_lem memory ptr key (omega (arith, allowed.short)) there, allowed.unreserved)
      refl

pub read_scan_cursor-none :
    (memory : Memory) (ptr : ℕ) (prefix : Bytes) → read_scan_cursor memory ptr 0 prefix ≡ ok none
unfolding read_scan_cursor
read_scan_cursor-none memory ptr prefix = refl

pub read_scan_cursor-some :
    (memory : Memory) (ptr : ℕ) (prefix cursor : Bytes)
    → IsAllowed cursor
    → 0 < length cursor
    → starts_with cursor prefix ≡ true
    → memory.load ptr (length cursor) ≡ some cursor
    → read_scan_cursor memory ptr (length cursor) prefix ≡ ok (some cursor)
unfolding read_scan_cursor
read_scan_cursor-some memory ptr prefix cursor allowed nonempty inside there =
    let given : (length cursor == 0) ≡ false = ground arith in
    let test : leb (length cursor) max_key_len ≡ true = ground (arith, allowed.short) in
    rw
      (
        given,
        test,
        read_bytes_lem memory ptr cursor (omega (arith, allowed.short)) there,
        allowed.unreserved,
        inside,
      )
      (ap (λ (b : Bool). require b err_internal >> ok (some cursor)) (or_true _))

pub validate_page_request_lem :
    (limit room : ℕ)
    → 0 < limit
    → limit ≤ max_scan_limit
    → room ≤ max_out_cap
    → validate_page_request limit room ≡ ok tt
unfolding validate_page_request
validate_page_request_lem limit room p q r = ground arith

as_i32_lem : (n : ℕ) → n ≤ max_scan_buffer → as_i32 n ≡ pos n
unfolding as_i32
as_i32_lem n h = ground arith

write_out_fits :
    (memory : Memory) (ptr room : ℕ) (bytes : Bytes)
    → leb (length bytes) room ≡ true
    → room ≤ max_scan_buffer
    → memory.holds ptr (length bytes) ≡ true
    → write_out memory ptr room bytes
      ≡ ok (record { code = pos (length bytes); written = some (ptr, bytes) })
unfolding write_out
write_out_fits memory ptr room bytes fits small there =
    rw (fits, there, as_i32_lem (length bytes) (ground arith)) refl

write_out_large :
    (memory : Memory) (ptr room : ℕ) (bytes : Bytes)
    → leb (length bytes) room ≡ false
    → write_out memory ptr room bytes ≡ err err_buf_too_small
unfolding write_out
write_out_large memory ptr room bytes large = rw large refl

-- An answer that ends in writing some bytes serves them.
pub write_out-Serves :
    (answer : ℕ → Answer) (layout : ℕ → Layout) (first second bytes : Bytes)
    → ((room : ℕ) → Places (layout room) first second room)
    → ((room : ℕ)
        → room ≤ max_scan_buffer
        → answer room ≡ answers (write_out (layout room).memory (layout room).out_ptr room bytes))
    → Serves (λ room. buffer_after room (answer room)) bytes
unfolding buffer_after
write_out-Serves answer layout first second bytes places is room small =
    elim (Bool-cases (leb (length bytes) room)) [
      | inl fits ↦
          let l = layout room in
          let answered : answer room
              ≡ record { code = pos (length bytes); written = some (l.out_ptr, bytes) } =
            is room small
            ∙ ap answers (
                write_out_fits l.memory l.out_ptr room bytes fits small
                  ((places room).buffer_there (length bytes) (ground arith))) in
          inl (ground arith, rw answered refl, (drop (length bytes) (zeros room), rw answered refl))
      | inr large ↦
          let l = layout room in
          let answered : answer room ≡ returns err_buf_too_small =
            is room small ∙ ap answers (write_out_large l.memory l.out_ptr room bytes large) in
          inr (ground arith, rw answered refl)
    ]
