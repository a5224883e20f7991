-- ===== src/SyncManager/Peer/Health.antt =====
-- `record_peer_success` and `record_peer_failure` of peer.rs, over sequences of contacts.
use numax.Prelude.{
  ℕ, ◌+◌, ◌≤◌, max, min, ◌≡◌, ap, ◌∙◌, none, some, List, [], ◌∷◌, Bytes, bytes_ord, arith, leb,
  ◌==◌, if◌then◌else◌,
}
use numax.Map.{HashMap, get, get_or}
use numax.Map.Upsert.{get-upsert_self}
use numax.SyncManager.Peer.{
  PeerHealth, default_health, healthy, suspect, dead, u32_max, after_failure, record_peer_success,
  record_peer_failure,
}

pub data Contact : Type 0 where
  success : Contact
  failure : Contact

module _ (dead_after_failures : ℕ) (peer : Bytes) where
  unfoldable pub record_contact : HashMap Bytes PeerHealth → Contact → HashMap Bytes PeerHealth
  record_contact peer_health success = record_peer_success peer_health peer
  record_contact peer_health failure = record_peer_failure peer_health peer dead_after_failures

  -- The healths after contacts with the peer, the first contact first.
  unfoldable pub record_contacts :
      HashMap Bytes PeerHealth → List Contact → HashMap Bytes PeerHealth
  record_contacts peer_health [] = peer_health
  record_contacts peer_health (contact ∷ contacts) =
      record_contacts (record_contact peer_health contact) contacts

-- The failures since the last success, from those before the contacts.
abbrev pub failures_since : ℕ → List Contact → ℕ
failures_since n [] = n
failures_since n (success ∷ contacts) = failures_since 0 contacts
failures_since n (failure ∷ contacts) = failures_since (n + 1) contacts

-- The health that goes with a number of failures in a row.
abbrev pub health_of : ℕ → ℕ → PeerHealth
health_of dead_after_failures n = record {
  state = if n == 0 then healthy else (if leb (max dead_after_failures 1) n then dead else suspect);
  consecutive_failures = min n u32_max;
}

module _ (dead_after_failures : ℕ) (small : dead_after_failures ≤ u32_max) (peer : Bytes) where
  health_of-suc :
      (n : ℕ)
      → after_failure dead_after_failures (health_of dead_after_failures n)
        ≡ health_of dead_after_failures (n + 1)
  unfolding after_failure
  health_of-suc n =
      let counts : min (min n u32_max + 1) u32_max ≡ min (n + 1) u32_max = omega arith in
      let states : (if leb (max dead_after_failures 1) (min (min n u32_max + 1) u32_max)
            then dead
            else suspect)
          ≡ (health_of dead_after_failures (n + 1)).state =
        ground arith in
      λ i. record { state = states i; consecutive_failures = counts i }

  abbrev pub Counts : HashMap Bytes PeerHealth → ℕ → Type 0
  Counts peer_health n = get peer_health peer ≡ some (health_of dead_after_failures n)

  after_success :
      (peer_health : HashMap Bytes PeerHealth) → Counts (record_peer_success peer_health peer) 0
  unfolding record_peer_success
  after_success peer_health =
      get-upsert_self peer_health peer (λ entry. record (get_or entry default_health) {
        state = healthy;
        consecutive_failures = 0;
      })

  after_known :
      (peer_health : HashMap Bytes PeerHealth) (n : ℕ)
      → Counts peer_health n
      → Counts (record_peer_failure peer_health peer dead_after_failures) (n + 1)
  unfolding record_peer_failure
  after_known peer_health n h =
      get-upsert_self peer_health peer
        (λ entry. after_failure dead_after_failures (get_or entry default_health))
      ∙ ap (λ entry. some (after_failure dead_after_failures (get_or entry default_health))) h
      ∙ ap some (health_of-suc n)

  after_none :
      (peer_health : HashMap Bytes PeerHealth)
      → get peer_health peer ≡ none
      → Counts (record_peer_failure peer_health peer dead_after_failures) 1
  unfolding record_peer_failure after_failure
  after_none peer_health h =
      get-upsert_self peer_health peer
        (λ entry. after_failure dead_after_failures (get_or entry default_health))
      ∙ ap (λ entry. some (after_failure dead_after_failures (get_or entry default_health))) h

  record_contacts_known :
      (peer_health : HashMap Bytes PeerHealth) (contacts : List Contact) (n : ℕ)
      → Counts peer_health n
      → Counts
          (record_contacts dead_after_failures peer peer_health contacts)
          (failures_since n contacts)
  unfolding record_contacts record_contact
  record_contacts_known peer_health [] n h = h
  record_contacts_known peer_health (success ∷ contacts) n h =
      record_contacts_known (record_peer_success peer_health peer) contacts 0
        (after_success peer_health)
  record_contacts_known peer_health (failure ∷ contacts) n h =
      record_contacts_known (record_peer_failure peer_health peer dead_after_failures) contacts
        (n + 1) (after_known peer_health n h)

  -- After at least one contact with a peer that was not known, its health has the number of
  -- failures since its last success, up to the largest `u32`, and is healthy if there are none,
  -- dead from the threshold, at least one, on and suspect below it. The threshold is a `u32`.
  pub record_contacts_lem :
      (peer_health : HashMap Bytes PeerHealth) (contact : Contact) (contacts : List Contact)
      → get peer_health peer ≡ none
      → get (record_contacts dead_after_failures peer peer_health (contact ∷ contacts)) peer
        ≡ some (health_of dead_after_failures (failures_since 0 (contact ∷ contacts)))
  unfolding record_contacts record_contact
  record_contacts_lem peer_health success contacts h =
      record_contacts_known (record_peer_success peer_health peer) contacts 0
        (after_success peer_health)
  record_contacts_lem peer_health failure contacts h =
      record_contacts_known (record_peer_failure peer_health peer dead_after_failures) contacts 1
        (after_none peer_health h)
