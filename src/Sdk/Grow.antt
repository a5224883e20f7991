-- ===== src/Sdk/Grow.antt =====
-- The loop with the growing buffer (Sdk.Ffi): it ends, and with the right bytes.
use numax.Prelude.{
  ℕ, zero, suc, ◌*◌, ◌≤◌, ◌<◌, ◌≡◌, refl, sym, subst, true, false, some, ◌++◌, Bytes, length, take,
  take-append, leb, ltb, Bool-cases, inl, inr, ◌⊎◌, arith, if◌then◌else◌,
}
use numax.Prelude.Int.{ℤ, pos}
use numax.Prelude.Result.{Result, err}
use numax.Abi.{err_buf_too_small}
use numax.Sdk.{NxError, buffer_too_small}
use numax.Sdk.Ffi.{Outcome, absent, too_small, failed, filled, grow, max_scan_buffer, double}

-- A host call that has some bytes for its caller: it fills a buffer that they fit, and asks for a
-- larger one otherwise.
abbrev pub Serves : (ℕ → ℤ × Bytes) → Bytes → Type 0
Serves call bytes =
    (room : ℕ)
    → room ≤ max_scan_buffer
    → ((length bytes ≤ room)
        × ((call room).0 ≡ pos (length bytes))
        × ((rest : Bytes) × ((call room).1 ≡ bytes ++ rest)))
      ⊎ ((room < length bytes) × ((call room).0 ≡ err_buf_too_small))

-- A length after some doublings.
abbrev pub doubled : ℕ → ℕ → ℕ
doubled zero room = room
doubled (suc n) room = doubled n (room * 2)

le-doubled : (n room : ℕ) → room ≤ doubled n room
le-doubled zero room = omega arith
le-doubled (suc n) room = omega (arith, le-doubled n (room * 2))

module _ {A : Type 0} (outcome : ℤ → Outcome) (missing : Result NxError A)
    (parse : Bytes → Result NxError A) (call : ℕ → ℤ × Bytes) where
  -- What the loop returns for some bytes.
  abbrev pub expected : Bytes → Result NxError A
  expected bytes = if leb (length bytes) max_scan_buffer then parse bytes else err buffer_too_small

  fits_case :
      (fuel room : ℕ) (bytes : Bytes)
      → ((n : ℕ) → outcome (pos n) ≡ filled n)
      → length bytes ≤ room
      → room ≤ max_scan_buffer
      → (call room).0 ≡ pos (length bytes)
      → (rest : Bytes) → (call room).1 ≡ bytes ++ rest
      → grow outcome missing parse call (suc fuel) room ≡ some (expected bytes)
  unfolding grow
  fits_case fuel room bytes fills fit small code rest out =
      let test : leb (length bytes) max_scan_buffer ≡ true = ground arith in
      rw (code, fills (length bytes), out, take-append bytes rest, test, grow) refl

  -- As many doublings as take the buffer to its limit, and one more attempt, are enough.
  pub grow_lem :
      (bytes : Bytes) (fuel doublings room : ℕ)
      → ((n : ℕ) → outcome (pos n) ≡ filled n)
      → outcome err_buf_too_small ≡ too_small
      → Serves call bytes
      → doubled doublings room ≡ max_scan_buffer
      → doublings < fuel
      → grow outcome missing parse call fuel room ≡ some (expected bytes)
  unfolding grow
  grow_lem bytes zero doublings room fills small serves size enough = absurd (omega arith)
  grow_lem bytes (suc fuel) zero room fills small serves size enough =
      let here : room ≤ max_scan_buffer = omega arith in
      elim (serves room here) [
        | inl (fit, code, (rest, out)) ↦ fits_case fuel room bytes fills fit here code rest out
        | inr (large, code) ↦
            let test : ltb max_scan_buffer (double room) ≡ true = ground arith in
            let over : leb (length bytes) max_scan_buffer ≡ false = ground arith in
            rw (code, small, test, over, grow) refl
      ]
  grow_lem bytes (suc fuel) (suc doublings) room fills small serves size enough =
      let next : room * 2 ≤ max_scan_buffer = omega (arith, le-doubled doublings (room * 2)) in
      let same : double room ≡ room * 2 = omega arith in
      elim (serves room (omega arith)) [
        | inl (fit, code, (rest, out)) ↦
            fits_case fuel room bytes fills fit (omega arith) code rest out
        | inr (large, code) ↦
            let test : ltb max_scan_buffer (room * 2) ≡ false = ground arith in
            rw (code, small, same, test, grow)
              (rw same
                (grow_lem bytes fuel doublings (room * 2) fills small serves size (omega arith)))
      ]

  -- A first answer that ends the loop.
  pub grow_absent :
      (fuel room : ℕ)
      → outcome (call room).0 ≡ absent
      → grow outcome missing parse call (suc fuel) room ≡ some missing
  unfolding grow
  grow_absent fuel room e = rw (e, grow) refl

  pub grow_failed :
      (fuel room : ℕ) (x : NxError)
      → outcome (call room).0 ≡ failed x
      → grow outcome missing parse call (suc fuel) room ≡ some (err x)
  unfolding grow
  grow_failed fuel room x e = rw (e, grow) refl

  grow_answered :
      (fuel room : ℕ) (o : Outcome)
      → outcome (call room).0 ≡ o
      → (ltb max_scan_buffer (double room) ≡ false
          → (result : Result NxError A) × (grow outcome missing parse call fuel (double room)
              ≡ some result))
      → (result : Result NxError A) × (grow outcome missing parse call (suc fuel) room
          ≡ some result)
  unfolding grow
  grow_answered fuel room absent e next = (missing, rw (e, grow) refl)
  grow_answered fuel room (failed x) e next = (err x, rw (e, grow) refl)
  grow_answered fuel room (filled n) e next = (parse (take n (call room).1), rw (e, grow) refl)
  grow_answered fuel room too_small e next = elim (Bool-cases (ltb max_scan_buffer (double room))) [
    | inl over ↦ (err buffer_too_small, rw (e, over, grow) refl)
    | inr under ↦ let (result, is) = next under in (result, rw (e, under, grow) is)
  ]

  -- Whatever the host answers, the loop ends.
  pub grow_total :
      (fuel room : ℕ)
      → room ≤ max_scan_buffer
      → max_scan_buffer < doubled fuel room
      → (result : Result NxError A) × (grow outcome missing parse call fuel room ≡ some result)
  unfolding grow
  grow_total zero room small h = absurd (omega arith)
  grow_total (suc fuel) room small h =
      grow_answered fuel room (outcome (call room).0) refl (λ under.
        let same : double room ≡ room * 2 = ground arith in
        subst
          (λ (n : ℕ).
            (result : Result NxError A) × (grow outcome missing parse call fuel n ≡ some result))
          (sym same) (grow_total fuel (room * 2) (ground arith) h))
