-- ===== src/SyncManager/Peer/Backoff.antt =====
-- `PeerReconnectState` of peer.rs: how long a node waits before it dials a peer again.
use numax.Prelude.{
  ℕ, zero, suc, ◌+◌, ◌*◌, ◌^◌, ◌≤◌, ◌<◌, List, [], ◌∷◌, max, min, ◌≡◌, refl, ◌∙◌, ◌⊎◌, inl, inr,
  true, none, some, arith, leb, Bool-cases,
}
use native.Mathlib.Numerals.{unary_clauses}
use numax.SyncManager.Peer.{
  duration_max, millisecond, next_reconnect_delay, normalize_reconnect_delay, PeerReconnectState,
  record_failure, record_retry_after, schedule_retry, schedule_at, checked_add, grow_delay, stop,
}

-- The delay after some failures in a row.
unfoldable pub delay_after : ℕ → ℕ → ℕ → ℕ
delay_after max_delay delay zero = delay
delay_after max_delay delay (suc failures) =
    delay_after max_delay (next_reconnect_delay delay max_delay) failures

pub double : (x n : ℕ) → x * 2 ^ suc n ≡ 2 * x * 2 ^ n
double x n = simp unary_clauses (grind arith)

pub grows : (x n : ℕ) → x ≤ x * 2 ^ n
grows x zero = omega arith
grows x (suc n) = omega (arith, grows x n, double x n)

next_cases :
    (max_delay delay : ℕ)
    → delay ≤ duration_max
    → max_delay ≤ duration_max
    → ((max_delay ≤ delay) × (next_reconnect_delay delay max_delay ≡ delay))
      ⊎ ((2 * delay ≤ max_delay) × (next_reconnect_delay delay max_delay ≡ 2 * delay))
      ⊎ ((delay ≤ max_delay)
          × (max_delay ≤ 2 * delay)
          × (next_reconnect_delay delay max_delay ≡ max_delay))
unfolding next_reconnect_delay
next_cases max_delay delay bd bm = ground arith

-- The delay doubles with each failure in a row until the larger of the limit and the first delay, and
-- never overflows.
pub delay_after_lem :
    (max_delay delay failures : ℕ)
    → max_delay ≤ duration_max
    → delay ≤ duration_max
    → delay_after max_delay delay failures ≡ min (delay * 2 ^ failures) (max max_delay delay)
unfolding delay_after
delay_after_lem max_delay delay zero bm bd = omega arith
delay_after_lem max_delay delay (suc failures) bm bd = elim (next_cases max_delay delay bd bm) [
  | inl (above, e) ↦ rw e (
      delay_after_lem max_delay delay failures bm bd
      ∙ omega
          (arith, above, grows delay failures, double delay failures, grows delay (suc failures)))
  | inr (inl (small, e)) ↦ rw e (
      delay_after_lem max_delay (2 * delay) failures bm (omega arith)
      ∙ omega (arith, small, double delay failures))
  | inr (inr (lt, near, e)) ↦ rw e (
      delay_after_lem max_delay max_delay failures bm bm
      ∙ omega (
        arith,
        lt,
        near,
        grows max_delay failures,
        grows (2 * delay) failures,
        double delay failures,
      ))
]

module _ (instant_max : ℕ) where
  -- A failure to dial a peer answers its delay, schedules the next attempt after it and takes the next
  -- delay, if the platform has such an instant, and else stops the peer and changes nothing else.
  pub record_failure_cases :
      (peer : PeerReconnectState) (max_delay now : ℕ)
      → let (next, answer) = record_failure instant_max peer max_delay now in
        ((now + peer.delay ≤ instant_max)
          × (answer ≡ some peer.delay)
          × (next ≡ record peer {
            delay = next_reconnect_delay peer.delay max_delay;
            next_attempt_at = now + peer.delay;
          }))
        ⊎ ((instant_max < now + peer.delay)
            × (answer ≡ none)
            × (next ≡ record peer { stopped = true }))
  unfolding record_failure schedule_retry schedule_at checked_add grow_delay stop
  record_failure_cases peer max_delay now = elim (Bool-cases (leb (now + peer.delay) instant_max)) [
    | inl e ↦ rw e (inl (ground arith, refl, refl))
    | inr e ↦ rw e (inr (ground arith, refl, refl))
  ]

  -- A peer that asks to be left alone is next due after as long as it asked and a millisecond at
  -- least, if the platform has such an instant, and else is stopped; its backoff delay stays.
  pub record_retry_after_lem :
      (peer : PeerReconnectState) (delay now : ℕ)
      → let (next, answer) = record_retry_after instant_max peer delay now in
        (next.delay ≡ peer.delay)
        × (((now + max delay millisecond ≤ instant_max)
              × (answer ≡ some (max delay millisecond))
              × (next.next_attempt_at ≡ now + max delay millisecond)
              × (next.stopped ≡ peer.stopped)
              × (now < next.next_attempt_at))
            ⊎ ((instant_max < now + max delay millisecond)
                × (answer ≡ none)
                × (next.stopped ≡ true)))
  unfolding record_retry_after normalize_reconnect_delay schedule_retry schedule_at checked_add stop
  record_retry_after_lem peer delay now =
      elim (Bool-cases (leb (now + max delay millisecond) instant_max)) [
        | inl e ↦ rw e (refl, inl (ground arith, refl, refl, refl, omega arith))
        | inr e ↦ rw e (refl, inr (ground arith, refl, refl))
      ]

  -- The peer after failures at some instants, one after another.
  unfoldable pub fail_all : ℕ → PeerReconnectState → List ℕ → PeerReconnectState
  unfolding record_failure
  fail_all max_delay peer [] = peer
  fail_all max_delay peer (now ∷ times) =
      fail_all max_delay (record_failure instant_max peer max_delay now).0 times
