-- ===== src/SyncManager/Peer/Schedule.antt =====
-- `PeerReconnectState` of peer.rs, over the answers of a peer since it was reset: when the node dials
-- it next, and when it gives up.
use numax.Prelude.{
  ℕ, suc, ◌+◌, ◌*◌, ◌^◌, ◌≤◌, ◌<◌, List, [], ◌∷◌, max, min, ◌≡◌, refl, ap, ◌∙◌, ◌⊎◌, inl, inr, true,
  false, arith,
}
use numax.SyncManager.Peer.{
  duration_max, millisecond, next_reconnect_delay, PeerReconnectState, reset, record_failure,
  record_retry_after,
}
use numax.SyncManager.Peer.Backoff.{double, grows, record_failure_cases, record_retry_after_lem}

-- What comes of dialling a peer, and when: a failure, or a peer that asks to be left alone for a time.
pub data Answer : Type 0 where
  failed : ℕ → Answer
  retry_after : ℕ → ℕ → Answer

-- The failures among the answers, and some before them.
abbrev pub failures_after : ℕ → List Answer → ℕ
failures_after n [] = n
failures_after n (failed _ ∷ answers) = failures_after (suc n) answers
failures_after n (retry_after _ _ ∷ answers) = failures_after n answers

module _ (instant_max max_delay : ℕ) where
  unfoldable pub record_answer : PeerReconnectState → Answer → PeerReconnectState
  unfolding record_failure record_retry_after
  record_answer peer (failed now) = (record_failure instant_max peer max_delay now).0
  record_answer peer (retry_after delay now) = (record_retry_after instant_max peer delay now).0

  unfoldable pub record_answers : PeerReconnectState → List Answer → PeerReconnectState
  unfolding record_answer
  record_answers peer [] = peer
  record_answers peer (answer ∷ answers) = record_answers (record_answer peer answer) answers

  record_answer-stopped :
      (peer : PeerReconnectState) (answer : Answer)
      → peer.stopped ≡ true
      → (record_answer peer answer).stopped ≡ true
  unfolding record_answer
  record_answer-stopped peer (failed now) h =
      elim (record_failure_cases instant_max peer max_delay now) [
        | inl (_, _, e) ↦ ap (λ (p : PeerReconnectState). p.stopped) e ∙ h
        | inr (_, _, e) ↦ ap (λ (p : PeerReconnectState). p.stopped) e
      ]
  record_answer-stopped peer (retry_after delay now) h =
      elim (record_retry_after_lem instant_max peer delay now).1 [
        | inl (_, _, _, e, _) ↦ e ∙ h
        | inr (_, _, e) ↦ e
      ]

  record_answers-stopped :
      (peer : PeerReconnectState) (answers : List Answer)
      → peer.stopped ≡ true
      → (record_answers peer answers).stopped ≡ true
  unfolding record_answers
  record_answers-stopped peer [] h = h
  record_answers-stopped peer (answer ∷ answers) h =
      record_answers-stopped (record_answer peer answer) answers
        (record_answer-stopped peer answer h)

module _ (instant_max initial_delay max_delay : ℕ) where
  -- The wait behind a failure, by the number of failures before it.
  abbrev pub wait : ℕ → ℕ
  wait n = min (initial_delay * 2 ^ n) (max max_delay initial_delay)

  -- The instant of the next dial, by the number of failures before, and the instant from before.
  abbrev pub due : ℕ → ℕ → List Answer → ℕ
  due n at [] = at
  due n at (failed now ∷ answers) = due (suc n) (now + wait n) answers
  due n at (retry_after delay now ∷ answers) = due n (now + max delay millisecond) answers

  -- The platform represents every one of these instants.
  abbrev pub InTime : ℕ → List Answer → Type 0
  InTime n [] = Unit
  InTime n (failed now ∷ answers) = (now + wait n ≤ instant_max) × InTime (suc n) answers
  InTime n (retry_after delay now ∷ answers) =
      (now + max delay millisecond ≤ instant_max) × InTime n answers

  -- A peer is on schedule, or has been given up for an instant that is none.
  abbrev pub IsScheduled : ℕ → ℕ → List Answer → PeerReconnectState → Type 0
  IsScheduled n at answers after =
      ((after.stopped ≡ false)
        × InTime n answers
        × (after.delay ≡ wait (failures_after n answers))
        × (after.next_attempt_at ≡ due n at answers))
      ⊎ ((after.stopped ≡ true) × ¬ InTime n answers)

  module _ (bm : max_delay ≤ duration_max) (bi : initial_delay ≤ duration_max) where
    next-wait : (n : ℕ) → next_reconnect_delay (wait n) max_delay ≡ wait (suc n)
    unfolding next_reconnect_delay
    next-wait n = omega (arith, bm, bi, grows initial_delay n, double initial_delay n)

    record_answers-IsScheduled :
        (n at : ℕ) (peer : PeerReconnectState) (answers : List Answer)
        → peer.stopped ≡ false
        → peer.delay ≡ wait n
        → peer.next_attempt_at ≡ at
        → IsScheduled n at answers (record_answers instant_max max_delay peer answers)
    unfolding record_answers record_answer
    record_answers-IsScheduled n at peer [] on delay next = inl (on, tt, delay, next)
    record_answers-IsScheduled n at peer (failed now ∷ answers) on delay next =
        let after = (record_failure instant_max peer max_delay now).0 in
        elim (record_failure_cases instant_max peer max_delay now) [
          | inl (fits, _, e) ↦
              let fits' : now + wait n ≤ instant_max = rw delay at fits in
              elim (record_answers-IsScheduled (suc n) (now + wait n) after answers
                (ap (λ (p : PeerReconnectState). p.stopped) e ∙ on)
                (ap (λ (p : PeerReconnectState). p.delay) e
                  ∙ ap (λ d. next_reconnect_delay d max_delay) delay
                  ∙ next-wait n)
                (ap (λ (p : PeerReconnectState). p.next_attempt_at) e ∙ ap (λ d. now + d) delay)) [
                  | inl (a, b, c, d) ↦ inl (a, (fits', b), c, d)
                  | inr (a, b) ↦ inr (a, λ t. b t.1)
                ]
          | inr (late, _, e) ↦
              let late' : instant_max < now + wait n = rw delay at late in
              inr (
                record_answers-stopped instant_max max_delay after answers
                    (ap (λ (p : PeerReconnectState). p.stopped) e),
                λ t. omega (arith, t.0, late'),
              )
        ]
    record_answers-IsScheduled n at peer (retry_after delay_asked now ∷ answers) on delay next =
        let after = (record_retry_after instant_max peer delay_asked now).0 in
        let (kept, cases) = record_retry_after_lem instant_max peer delay_asked now in
        elim cases [
          | inl (fits, _, due_at, same, _) ↦
              elim (record_answers-IsScheduled n (now + max delay_asked millisecond) after answers
                (same ∙ on) (kept ∙ delay) due_at) [
                  | inl (a, b, c, d) ↦ inl (a, (fits, b), c, d)
                  | inr (a, b) ↦ inr (a, λ t. b t.1)
                ]
          | inr (late, _, gone) ↦ inr (
            record_answers-stopped instant_max max_delay after answers gone,
            λ t. omega (arith, t.0, late),
          )
        ]

    -- Since its last reset, and for as long as the platform represents the instant of each next
    -- dial, a peer is not stopped, its delay is the initial one doubled for each failure, up to the
    -- larger of the limit and the initial delay, and its next dial is due as long after its last
    -- answer as the delay was then or as the peer asked, a millisecond at least. If one of these
    -- instants is none, the peer is stopped. The limit and the initial delay are durations.
    pub reset-IsScheduled :
        (peer : PeerReconnectState) (at : ℕ) (answers : List Answer)
        → IsScheduled 0 at answers
            (record_answers instant_max max_delay (reset instant_max peer initial_delay at) answers)
    unfolding reset
    reset-IsScheduled peer at answers =
        record_answers-IsScheduled 0 at (reset instant_max peer initial_delay at) answers refl
          (omega arith) refl
