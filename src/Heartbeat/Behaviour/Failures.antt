-- ===== src/Heartbeat/Behaviour/Failures.antt =====
-- When a node takes itself for cut off.
use reveries_network.Common.{
  ℕ, ◌+◌, min, ◌≡◌, refl, Bool, true, false, List, [], ◌∷◌, arith, if◌then◌else◌,
}
use reveries_network.Types.{PeerId, Bytes}
use reveries_network.Heartbeat.Handler.{
  HeartbeatOutEvent, heartbeat_payload, request_local_heartbeat_payload_to_send,
  reset_failure_count, increment_failure_count, refresh_local_tee_attestation,
}
use reveries_network.Heartbeat.Behaviour.{
  HeartbeatAction, HeartbeatBehaviour, u32_max, saturating_add, push_back, set_tee_attestation,
  trigger_heartbeat_failure, on_connection_handler_event, Polled, poll_action, poll,
}

-- An event of a connection, with the attestation that the TEE generates when it is asked.
pub record Event : Type 0 where
  pub quote : Bytes
  pub peer : PeerId
  pub connection : ℕ
  pub event : HeartbeatOutEvent

-- The node handles events and the request to simulate a failure (in production or not), and polls
-- after some of them, where the channel of the shutdown signal has room or not.
pub data Input : Type 0 where
  handled : Event → Input
  triggered polled : Bool → Input

unfoldable pub run : List Input → HeartbeatBehaviour → HeartbeatBehaviour × List Polled
run [] b = (b, [])
run (handled e ∷ is) b = run is (on_connection_handler_event e.quote e.peer e.connection e.event b)
run (triggered production ∷ is) b = run is (trigger_heartbeat_failure production b)
run (polled room ∷ is) b = let (b1, p) = poll room b in let (b2, ps) = run is b1 in (b2, p ∷ ps)

-- The failures since the last heartbeat that was sent, when `since` failures were counted before.
failures : HeartbeatOutEvent → ℕ → ℕ
failures (increment_failure_count n) since = since + n
failures reset_failure_count since = 0
failures _ since = since

-- A simulated failure sets the number to 10,000, but not in production.
simulated : Bool → ℕ → ℕ
simulated production since = if production then since else 10_000

abbrev pub failures_since_reset : List Input → ℕ → ℕ
unfolding failures simulated
failures_since_reset [] since = since
failures_since_reset (handled e ∷ is) since = failures_since_reset is (failures e.event since)
failures_since_reset (triggered production ∷ is) since =
    failures_since_reset is (simulated production since)
failures_since_reset (polled room ∷ is) since = failures_since_reset is since

-- the fail count of a node that has counted `since` failures, capped
Counts : ℕ → HeartbeatBehaviour → Type 0
Counts since b = b.internal_fail_count ≡ min since u32_max

handled-Counts :
    (quote : Bytes) (peer : PeerId) (connection : ℕ) (o : HeartbeatOutEvent) (since : ℕ)
    (b : HeartbeatBehaviour)
    → Counts since b
    → Counts (failures o since) (on_connection_handler_event quote peer connection o b)
unfolding Counts on_connection_handler_event failures push_back set_tee_attestation saturating_add
handled-Counts quote peer c (heartbeat_payload payload) since b h = h
handled-Counts quote peer c reset_failure_count since b h = refl
handled-Counts quote peer c request_local_heartbeat_payload_to_send since b h = h
handled-Counts quote peer c (increment_failure_count n) since b h = rw h (omega arith)
handled-Counts quote peer c refresh_local_tee_attestation since b h = h

poll_action-Counts :
    (room : Bool) (actions : List HeartbeatAction) (since : ℕ) (b : HeartbeatBehaviour)
    → Counts since b
    → Counts since (poll_action room actions b).0
unfolding Counts poll_action
poll_action-Counts room [] since b h = h
poll_action-Counts room (a ∷ rest) since b h = h

trigger_heartbeat_failure-Counts :
    (production : Bool) (since : ℕ) (b : HeartbeatBehaviour)
    → Counts since b
    → Counts (simulated production since) (trigger_heartbeat_failure production b)
unfolding Counts trigger_heartbeat_failure simulated push_back
trigger_heartbeat_failure-Counts true since b h = h
trigger_heartbeat_failure-Counts false since b h = omega arith

-- However its connections' events, its polls and simulated failures interleave, the fail count of a
-- node is the number of failures since the last heartbeat that it sent, capped at the largest u32. A
-- simulated failure counts as 10,000 in place of all failures before it, and in production as none.
pub run-internal_fail_count :
    (is : List Input) (since : ℕ) (b : HeartbeatBehaviour)
    → b.internal_fail_count ≡ min since u32_max
    → (run is b).0.internal_fail_count ≡ min (failures_since_reset is since) u32_max
unfolding run Counts failures_since_reset
run-internal_fail_count [] since b h = h
run-internal_fail_count (handled e ∷ is) since b h =
    run-internal_fail_count is (failures e.event since) _
      (handled-Counts e.quote e.peer e.connection e.event since b h)
run-internal_fail_count (triggered production ∷ is) since b h =
    run-internal_fail_count is (simulated production since) _
      (trigger_heartbeat_failure-Counts production since b h)
run-internal_fail_count (polled room ∷ is) since b h =
    run-internal_fail_count is since _
      (unfold poll in poll_action-Counts room b.pending_events since b h)
