-- ===== src/SyncManager/Peer.antt =====
-- peer.rs: the health of the peers of a node, and when it dials one again. A `Duration` is its number
-- of nanoseconds and an `Instant` a number of nanoseconds; the last instant that the platform
-- represents is a parameter.
pub mod Backoff
pub mod Health
pub mod Schedule
use numax.Prelude.{
  ℕ, ◌+◌, ◌*◌, ◌^◌, max, min, Bool, true, false, Option, none, some, List, [], ◌∷◌, Bytes,
  bytes_ord, leb, if◌then◌else◌,
}
use numax.Map.{HashMap, contains_key, get_or, upsert}

pub data PeerHealthState : Type 0 where
  healthy : PeerHealthState
  suspect : PeerHealthState
  dead : PeerHealthState

pub record PeerHealth : Type 0 where
  pub state : PeerHealthState
  pub consecutive_failures : ℕ

abbrev pub default_health : PeerHealth
default_health = record { state = suspect; consecutive_failures = 0 }

abbrev pub u32_max : ℕ
u32_max = 4294967295

-- `Duration::MAX`: 2^64 - 1 seconds and 999999999 nanoseconds.
abbrev pub duration_max : ℕ
duration_max = 18446744073709551615999999999

abbrev pub millisecond : ℕ
millisecond = 1000000

unfoldable pub normalize_reconnect_delay : ℕ → ℕ
normalize_reconnect_delay delay = max delay millisecond

-- `Duration::saturating_mul`
abbrev pub saturating_mul : ℕ → ℕ → ℕ
saturating_mul delay factor = min (delay * factor) duration_max

unfoldable pub next_reconnect_delay : ℕ → ℕ → ℕ
next_reconnect_delay current max_delay = min (saturating_mul current 2) (max max_delay current)

unfoldable pub normalize_peer_dead_after_failures : ℕ → ℕ
normalize_peer_dead_after_failures failures = max failures 1

pub record PeerReconnectState : Type 0 where
  pub addr : Bytes
  pub delay : ℕ
  pub next_attempt_at : ℕ
  pub stopped : Bool

module _ (instant_max : ℕ) where
  unfoldable pub new : Bytes → ℕ → ℕ → PeerReconnectState
  new addr initial_delay now = record {
    addr = addr;
    delay = initial_delay;
    next_attempt_at = now;
    stopped = false;
  }

  unfoldable pub reset : PeerReconnectState → ℕ → ℕ → PeerReconnectState
  reset peer initial_delay now = record peer {
    delay = initial_delay;
    next_attempt_at = now;
    stopped = false;
  }

  unfoldable pub stop : PeerReconnectState → PeerReconnectState
  stop peer = record peer { stopped = true }

  -- `Instant::checked_add`
  unfoldable pub checked_add : ℕ → ℕ → Option ℕ
  checked_add now delay = if leb (now + delay) instant_max then some (now + delay) else none

  unfoldable pub schedule_at : PeerReconnectState → ℕ → Option ℕ → PeerReconnectState × Option ℕ
  unfolding stop
  schedule_at peer delay none = (stop peer, none)
  schedule_at peer delay (some deadline) = (record peer { next_attempt_at = deadline }, some delay)

  unfoldable pub schedule_retry : PeerReconnectState → ℕ → ℕ → PeerReconnectState × Option ℕ
  unfolding schedule_at checked_add
  schedule_retry peer delay now = schedule_at peer delay (checked_add now delay)

  unfoldable pub grow_delay : ℕ → ℕ → PeerReconnectState → Option ℕ → PeerReconnectState × Option ℕ
  unfolding next_reconnect_delay
  grow_delay attempt_delay max_delay peer none = (peer, none)
  grow_delay attempt_delay max_delay peer (some _) =
      (record peer { delay = next_reconnect_delay attempt_delay max_delay }, some attempt_delay)

  unfoldable pub record_failure : PeerReconnectState → ℕ → ℕ → PeerReconnectState × Option ℕ
  unfolding schedule_retry grow_delay
  record_failure peer max_delay now =
      let (scheduled, answer) = schedule_retry peer peer.delay now in
      grow_delay peer.delay max_delay scheduled answer

  unfoldable pub record_retry_after : PeerReconnectState → ℕ → ℕ → PeerReconnectState × Option ℕ
  unfolding schedule_retry normalize_reconnect_delay
  record_retry_after peer delay now = schedule_retry peer (normalize_reconnect_delay delay) now

unfoldable pub record_peer_success : HashMap Bytes PeerHealth → Bytes → HashMap Bytes PeerHealth
record_peer_success peer_health peer =
    upsert peer_health peer
      (λ entry. record (get_or entry default_health) { state = healthy; consecutive_failures = 0 })

-- What a failure makes of the health of a peer.
unfoldable pub after_failure : ℕ → PeerHealth → PeerHealth
unfolding normalize_peer_dead_after_failures
after_failure dead_after_failures health =
    let failures = min (health.consecutive_failures + 1) u32_max in
    record {
      state =
          if leb (normalize_peer_dead_after_failures dead_after_failures) failures
          then dead
          else suspect;
      consecutive_failures = failures;
    }

unfoldable pub record_peer_failure : HashMap Bytes PeerHealth → Bytes → ℕ → HashMap Bytes PeerHealth
unfolding after_failure
record_peer_failure peer_health peer dead_after_failures =
    upsert peer_health peer
      (λ entry. after_failure dead_after_failures (get_or entry default_health))

unfoldable pub mark_known_peer_success : HashMap Bytes PeerHealth → Bytes → HashMap Bytes PeerHealth
unfolding record_peer_success
mark_known_peer_success peer_health peer =
    if contains_key peer_health peer then record_peer_success peer_health peer else peer_health

unfoldable pub mark_known_peer_failure :
    HashMap Bytes PeerHealth → Bytes → ℕ → HashMap Bytes PeerHealth
unfolding record_peer_failure
mark_known_peer_failure peer_health peer dead_after_failures =
    if contains_key peer_health peer
    then record_peer_failure peer_health peer dead_after_failures
    else peer_health
