-- ===== src/Examples/Peers.antt =====
-- A peer that a node dials.
use numax.Prelude.{ℕ, ◌≡◌, refl, List, [], ◌∷◌, some, bytes_ord, true, false, arith}
use numax.Map.{get}
use numax.SyncManager.Peer.{PeerReconnectState, next_reconnect_delay, reset}
use numax.SyncManager.Peer.Schedule.{
  Answer, failed, retry_after, record_answers, IsScheduled, reset-IsScheduled,
}
use numax.SyncManager.Peer.Health.{
  failure, success, record_contacts, health_of, failures_since, record_contacts_lem,
}

abbrev peer : PeerReconnectState
peer = record { addr = 112 ∷ []; delay = 500000000; next_attempt_at = 0; stopped = false }

abbrev times : List ℕ
times = 1 ∷ 600000000 ∷ 2000000000 ∷ []

abbrev answers : List Answer
answers =
    failed 600000000
    ∷ retry_after 3000000000 1200000000
    ∷ failed 4300000000
    ∷ failed 5400000000
    ∷ []

reset-IsScheduled_example :
    IsScheduled 100000000000 500000000 5000000000 0 7 answers
      (record_answers 100000000000 5000000000 (reset 100000000000 peer 500000000 7) answers)
reset-IsScheduled_example =
    reset-IsScheduled 100000000000 500000000 5000000000 (omega arith) (omega arith) peer 7 answers

-- The three failures have doubled the delay three times.
delay_after_answers : (record_answers 100000000000 5000000000 peer answers).delay ≡ 4000000000
unfolding record_answers next_reconnect_delay
delay_after_answers = refl

-- A platform without the instant of the second dial gives the peer up.
stopped_after_answers : (record_answers 3000000000 5000000000 peer answers).stopped ≡ true
unfolding record_answers
stopped_after_answers = refl

record_contacts_lem_example :
    get (record_contacts 2 (112 ∷ []) [] (failure ∷ success ∷ failure ∷ failure ∷ [])) (112 ∷ [])
    ≡ some (health_of 2 (failures_since 0 (failure ∷ success ∷ failure ∷ failure ∷ [])))
unfolding get
record_contacts_lem_example =
    record_contacts_lem 2 (omega arith) (112 ∷ []) [] failure (success ∷ failure ∷ failure ∷ [])
      refl
