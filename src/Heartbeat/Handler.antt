-- ===== src/Heartbeat/Handler.antt =====
-- heartbeat_handler.rs: the state machine of the heartbeat on one connection.
pub mod Cycle
use reveries_network.Common.{
  ℕ, Bool, true, false, Option, none, some, List, [], ◌∷◌, Result, ok, err, if◌then◌else◌,
}
use reveries_network.Heartbeat.Attestation.{TeeAttestation}
use reveries_network.Heartbeat.Config.{HeartbeatConfig}

pub data HeartbeatOutEvent : Type 0 where
  heartbeat_payload : TeeAttestation → HeartbeatOutEvent
  request_local_heartbeat_payload_to_send : HeartbeatOutEvent
  reset_failure_count : HeartbeatOutEvent
  increment_failure_count : ℕ → HeartbeatOutEvent
  refresh_local_tee_attestation : HeartbeatOutEvent

-- The stream that a state owns is left out: no code here looks inside it.
pub data OutboundState : Type 0 where
  idle : OutboundState
  negotiating_stream : OutboundState
  requesting_tee_heartbeat : Bool → OutboundState
  sending_tee_attestation : TeeAttestation → OutboundState

-- `inbound` tells whether a payload is awaited, and `timer` how long the timer was last set to.
pub record HeartbeatHandler : Type 0 where
  pub config : HeartbeatConfig
  pub inbound : Bool
  pub outbound : Option OutboundState
  pub dial_failures : Option ℕ
  pub timer : ℕ

unfoldable pub new : HeartbeatConfig → HeartbeatHandler
new config = record {
  config = config;
  inbound = false;
  outbound = none;
  dial_failures = none;
  timer = 0;
}

-- What the futures say when they are polled: `none` is `Poll::Pending`.
pub record Futures : Type 0 where
  pub received : Option (Result {0, 0} Unit TeeAttestation)
  pub sent : Option (Result {0, 0} Unit Unit)
  pub timer_is_ready : Bool

-- What `poll` returns.
pub data Polled : Type 0 where
  notify_behaviour : HeartbeatOutEvent → Polled
  outbound_substream_request : ℕ → Polled
  pending : Polled

poll_sending : Futures → TeeAttestation → HeartbeatHandler → HeartbeatHandler × Polled
poll_sending f payload h = elim f.sent [
  | none ↦
      if f.timer_is_ready
      then (record h { outbound = none }, notify_behaviour (increment_failure_count 1))
      else (h, pending)
  | some (ok _) ↦ (
    record h { timer = h.config.idle_timeout; outbound = some idle },
    notify_behaviour reset_failure_count,
  )
  | some (err _) ↦ (record h { outbound = none }, notify_behaviour (increment_failure_count 1))
]

-- The loop of `poll`, each branch of which leaves it at once.
poll_outbound : Futures → Option OutboundState → HeartbeatHandler → HeartbeatHandler × Polled
unfolding poll_sending
poll_outbound f (some (requesting_tee_heartbeat requested)) h = (
  record h { outbound = some (requesting_tee_heartbeat true) },
  (if requested then pending else notify_behaviour request_local_heartbeat_payload_to_send),
)
poll_outbound f (some (sending_tee_attestation payload)) h = poll_sending f payload h
poll_outbound f (some idle) h =
    if f.timer_is_ready
    then (
      record h { outbound = some (requesting_tee_heartbeat false) },
      notify_behaviour refresh_local_tee_attestation,
    )
    else (h, pending)
poll_outbound f (some negotiating_stream) h = (h, pending)
poll_outbound f none h = (
  record h { outbound = some negotiating_stream },
  outbound_substream_request h.config.send_timeout,
)

poll_rest : Futures → HeartbeatHandler → HeartbeatHandler × Polled
unfolding poll_outbound
poll_rest f h = elim h.dial_failures [
  | some count ↦ (h, notify_behaviour (increment_failure_count count))
  | none ↦ poll_outbound f h.outbound h
]

poll_inbound :
    Futures
    → Option (Result {0, 0} Unit TeeAttestation)
    → HeartbeatHandler
    → HeartbeatHandler × Polled
unfolding poll_rest
poll_inbound f none h = poll_rest f h
poll_inbound f (some (ok payload)) h = (h, notify_behaviour (heartbeat_payload payload))
poll_inbound f (some (err _)) h = poll_rest f (record h { inbound = false })

unfoldable pub poll : Futures → HeartbeatHandler → HeartbeatHandler × Polled
unfolding poll_inbound
poll f h = if h.inbound then poll_inbound f f.received h else poll_rest f h

respond_in : TeeAttestation → Option OutboundState → HeartbeatHandler → HeartbeatHandler
respond_in payload (some (requesting_tee_heartbeat true)) h = record h {
  timer = h.config.send_timeout;
  outbound = some (sending_tee_attestation payload);
}
respond_in payload _ h = h

unfoldable pub on_behaviour_event : TeeAttestation → HeartbeatHandler → HeartbeatHandler
unfolding respond_in
on_behaviour_event payload h = respond_in payload h.outbound h

pub data ConnectionEvent : Type 0 where
  fully_negotiated_inbound fully_negotiated_outbound dial_upgrade_error other : ConnectionEvent

unfoldable pub on_connection_event : ConnectionEvent → HeartbeatHandler → HeartbeatHandler
on_connection_event fully_negotiated_inbound h = record h { inbound = true }
on_connection_event fully_negotiated_outbound h = record h {
  outbound = some (requesting_tee_heartbeat false);
}
on_connection_event dial_upgrade_error h = record h { outbound = none; dial_failures = some 1 }
on_connection_event other h = h

-- What happens to a handler, and what its polls return, in order.
pub data Input : Type 0 where
  polled : Futures → Input
  answered : TeeAttestation → Input
  connection : ConnectionEvent → Input

unfoldable pub run : List Input → HeartbeatHandler → HeartbeatHandler × List Polled
run [] h = (h, [])
run (polled f ∷ is) h = let (h1, p) = poll f h in let (h2, ps) = run is h1 in (h2, p ∷ ps)
run (answered payload ∷ is) h = run is (on_behaviour_event payload h)
run (connection e ∷ is) h = run is (on_connection_event e h)
