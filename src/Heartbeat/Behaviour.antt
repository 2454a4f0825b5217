-- ===== src/Heartbeat/Behaviour.antt =====
-- mod.rs of heartbeat_behaviour: what a node makes of the events of its connections.
pub mod Failures
use reveries_network.Common.{
  ℕ, ◌+◌, ◌%◌, ◌^◌, min, Bool, ◌&&◌, Option, none, some, List, [], ◌∷◌, ◌++◌, ltb, if◌then◌else◌,
}
use reveries_network.Types.{PeerId, Bytes}
use reveries_network.Heartbeat.Attestation.{TeeAttestation, default_attestation, from_bytes}
use reveries_network.Heartbeat.Config.{HeartbeatConfig}
use reveries_network.Heartbeat.Handler.{
  HeartbeatOutEvent, heartbeat_payload, request_local_heartbeat_payload_to_send,
  reset_failure_count, increment_failure_count, refresh_local_tee_attestation,
}

-- A connection's id is a number.
pub data HeartbeatAction : Type 0 where
  heartbeat_event : PeerId → TeeAttestation → HeartbeatAction
  heartbeat_request : PeerId → ℕ → TeeAttestation → HeartbeatAction
  shutdown_if_max_failures_exceeded : HeartbeatAction

pub record HeartbeatBehaviour : Type 0 where
  pub config : HeartbeatConfig
  pub pending_events : List HeartbeatAction
  pub current_heartbeat_payload : TeeAttestation
  pub internal_fail_count : ℕ  -- u32

unfoldable pub new : HeartbeatConfig → HeartbeatBehaviour
new config = record {
  config = config;
  pending_events = [];
  current_heartbeat_payload = default_attestation;
  internal_fail_count = 0;
}

abbrev pub u32_max : ℕ
u32_max = 4_294_967_295

-- `u32::saturating_add`
unfoldable pub saturating_add : ℕ → ℕ → ℕ
saturating_add a b = min (a + b) u32_max

unfoldable pub set_tee_attestation : Bytes → HeartbeatBehaviour → HeartbeatBehaviour
set_tee_attestation quote b = record b {
  current_heartbeat_payload = record b.current_heartbeat_payload {
    tee_attestation = some (from_bytes quote);
    tee_attestation_bytes = some quote;
  };
}

-- the height is a u32, which wraps in a release build
unfoldable pub increment_block_height : HeartbeatBehaviour → HeartbeatBehaviour
increment_block_height b = record b {
  current_heartbeat_payload = record b.current_heartbeat_payload {
    block_height = (b.current_heartbeat_payload.block_height + 1) % 2 ^ 32;
  };
}

unfoldable pub push_back : HeartbeatAction → HeartbeatBehaviour → HeartbeatBehaviour
push_back a b = record b { pending_events = b.pending_events ++ (a ∷ []) }

-- `production`: whether the environment variable ENV says so
unfoldable pub trigger_heartbeat_failure : Bool → HeartbeatBehaviour → HeartbeatBehaviour
unfolding push_back
trigger_heartbeat_failure production b =
    if production
    then b
    else push_back shutdown_if_max_failures_exceeded (record b { internal_fail_count = 10_000 })

-- `quote` is the attestation that the TEE generates.
unfoldable pub on_connection_handler_event :
    Bytes → PeerId → ℕ → HeartbeatOutEvent → HeartbeatBehaviour → HeartbeatBehaviour
unfolding push_back saturating_add set_tee_attestation
on_connection_handler_event quote peer connection (heartbeat_payload payload) b =
    push_back (heartbeat_event peer payload) b
on_connection_handler_event quote peer connection reset_failure_count b = record b {
  internal_fail_count = 0;
}
on_connection_handler_event quote peer connection request_local_heartbeat_payload_to_send b =
    push_back (heartbeat_request peer connection b.current_heartbeat_payload) b
on_connection_handler_event quote peer connection (increment_failure_count n) b =
    push_back shutdown_if_max_failures_exceeded
      (record b { internal_fail_count = saturating_add b.internal_fail_count n })
on_connection_handler_event quote peer connection refresh_local_tee_attestation b =
    set_tee_attestation quote b

-- What `poll` does: it returns an event to the swarm or to a connection's handler, or it returns
-- nothing, after having surfaced the shutdown signal or not. The signal is sent by a future that is
-- polled once and dropped: where the channel has no room at that moment, the signal is lost.
pub data Polled : Type 0 where
  generate_event : PeerId → TeeAttestation → Polled
  notify_handler : PeerId → ℕ → TeeAttestation → Polled
  surfaced_shutdown_signal : Polled
  pending : Polled

-- `room`: whether the channel of the shutdown signal is open and has room
take_action : Bool → HeartbeatAction → HeartbeatBehaviour → Polled
take_action room (heartbeat_event peer payload) b = generate_event peer payload
take_action room (heartbeat_request peer connection payload) b =
    notify_handler peer connection payload
take_action room shutdown_if_max_failures_exceeded b =
    if ltb b.config.max_failures b.internal_fail_count && room
    then surfaced_shutdown_signal
    else pending

poll_action : Bool → List HeartbeatAction → HeartbeatBehaviour → HeartbeatBehaviour × Polled
unfolding take_action
poll_action room [] b = (b, pending)
poll_action room (a ∷ rest) b = (record b { pending_events = rest }, take_action room a b)

unfoldable pub poll : Bool → HeartbeatBehaviour → HeartbeatBehaviour × Polled
unfolding poll_action
poll room b = poll_action room b.pending_events b
