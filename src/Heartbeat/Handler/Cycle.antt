-- ===== src/Heartbeat/Handler/Cycle.antt =====
-- What a failed dial does to the heartbeats of a connection.
use reveries_network.Common.{
  ◌≡◌, refl, Bool, true, false, Option, none, some, List, [], ◌∷◌, All, Result, ok, err, ◌⊎◌,
  if◌then◌else◌, inl, inr,
}
use reveries_network.Heartbeat.Attestation.{TeeAttestation}
use reveries_network.Heartbeat.Handler.{
  HeartbeatHandler, Futures, Polled, notify_behaviour, heartbeat_payload, increment_failure_count,
  OutboundState, requesting_tee_heartbeat, poll, poll_inbound, poll_rest, on_behaviour_event,
  respond_in, ConnectionEvent, fully_negotiated_inbound, fully_negotiated_outbound,
  dial_upgrade_error, other, on_connection_event, Input, polled, answered, connection, run,
}

-- What a handler tells the rest of the node once a dial has failed.
abbrev pub StuckPoll : Polled → Type 0
StuckPoll p =
    (p ≡ notify_behaviour (increment_failure_count 1))
    ⊎ ((t : TeeAttestation) × (p ≡ notify_behaviour (heartbeat_payload t)))

poll_rest-dial_failures :
    (f : Futures) (h : HeartbeatHandler)
    → h.dial_failures ≡ some 1
    → ((poll_rest f h).0.dial_failures ≡ some 1) × StuckPoll (poll_rest f h).1
unfolding poll_rest
poll_rest-dial_failures f h d = rw (d, poll_rest) (d, inl refl)

poll_inbound-dial_failures :
    (f : Futures) (r : Option (Result {0, 0} Unit TeeAttestation)) (h : HeartbeatHandler)
    → h.dial_failures ≡ some 1
    → ((poll_inbound f r h).0.dial_failures ≡ some 1) × StuckPoll (poll_inbound f r h).1
unfolding poll_inbound
poll_inbound-dial_failures f none h d = poll_rest-dial_failures f h d
poll_inbound-dial_failures f (some (ok payload)) h d = (d, inr (payload, refl))
poll_inbound-dial_failures f (some (err e)) h d =
    poll_rest-dial_failures f (record h { inbound = false }) d

poll-dial_failures :
    (f : Futures) (h : HeartbeatHandler)
    → h.dial_failures ≡ some 1
    → ((poll f h).0.dial_failures ≡ some 1) × StuckPoll (poll f h).1
unfolding poll
poll-dial_failures f h d = on_inbound h.inbound
  where
    on_inbound :
        (b : Bool)
        → let r = if b then poll_inbound f f.received h else poll_rest f h in
          (r.0.dial_failures ≡ some 1) × StuckPoll r.1
    on_inbound true = poll_inbound-dial_failures f f.received h d
    on_inbound false = poll_rest-dial_failures f h d

respond_in-dial_failures :
    (payload : TeeAttestation) (o : Option OutboundState) (h : HeartbeatHandler)
    → (respond_in payload o h).dial_failures ≡ h.dial_failures
unfolding respond_in
respond_in-dial_failures payload (some (requesting_tee_heartbeat true)) h = refl
respond_in-dial_failures payload _ h = refl

on_connection_event-dial_failures :
    (e : ConnectionEvent) (h : HeartbeatHandler)
    → h.dial_failures ≡ some 1
    → (on_connection_event e h).dial_failures ≡ some 1
unfolding on_connection_event
on_connection_event-dial_failures fully_negotiated_inbound h d = d
on_connection_event-dial_failures fully_negotiated_outbound h d = d
on_connection_event-dial_failures dial_upgrade_error h d = refl
on_connection_event-dial_failures other h d = d

-- After one failed dial, whatever happens to the connection, no poll of the handler returns
-- anything but one more failure or a payload that came in: it never asks for the
-- local payload to send and is never pending.
pub run-dial_failures :
    (is : List Input) (h : HeartbeatHandler) → h.dial_failures ≡ some 1 → All StuckPoll (run is h).1
unfolding run
run-dial_failures [] h d = tt
run-dial_failures (polled f ∷ is) h d =
    let (d1, s) = poll-dial_failures f h d in (s, run-dial_failures is (poll f h).0 d1)
run-dial_failures (answered payload ∷ is) h d =
    run-dial_failures is (on_behaviour_event payload h)
      (unfold on_behaviour_event in rw (respond_in-dial_failures payload h.outbound h) d)
run-dial_failures (connection e ∷ is) h d =
    run-dial_failures is (on_connection_event e h) (on_connection_event-dial_failures e h d)
