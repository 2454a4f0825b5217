-- ===== src/Tests/Streams.antt =====
-- Streams of bytes, of chunks and of heartbeats at concrete inputs.
use reveries_network.Common.{
  ℕ, ◌≡◌, refl, true, false, none, some, Option, List, [], ◌∷◌, ◌++◌, arith, All, ok, min, length,
}
use reveries_network.Proxy.Sse.{
  Bytes, process_chunk, take_event, process_chunk-append, process_chunk-none,
}
use reveries_network.Proxy.Usage.{
  SseChunk, input_tokens_chunk, output_tokens_chunk, stop, text_chunk, Request, start_task,
  log_sse_response_task, log_sse_response_task-spender,
}
use reveries_network.Heartbeat.Attestation.{
  TeeAttestation, from_bytes, default_attestation, to_wire,
}
use reveries_network.Heartbeat.Config.{default_config}
use reveries_network.Heartbeat.Frame.{
  Codec, send_heartbeat_payload, receive_heartbeat_payload,
  receive_heartbeat_payload-send_heartbeat_payload,
}
use reveries_network.Heartbeat.Handler
use reveries_network.Heartbeat.Handler.{
  HeartbeatHandler, Futures, run, polled, answered, connection, dial_upgrade_error,
  notify_behaviour, increment_failure_count, on_connection_event, pending,
  request_local_heartbeat_payload_to_send, reset_failure_count, refresh_local_tee_attestation,
}
use reveries_network.Heartbeat.Handler.Cycle.{StuckPoll, run-dial_failures}
use reveries_network.Heartbeat.Behaviour
use reveries_network.Heartbeat.Behaviour.{
  HeartbeatBehaviour, HeartbeatAction, shutdown_if_max_failures_exceeded, surfaced_shutdown_signal,
  u32_max,
}
use reveries_network.Heartbeat.Behaviour.Failures
use reveries_network.Heartbeat.Behaviour.Failures.{failures_since_reset, run-internal_fail_count}

-- one update for each event: its length
abbrev lengths : Bytes → List ℕ
lengths e = length e ∷ []

process_chunk-lengths : process_chunk lengths (100 ∷ 10 ∷ 10 ∷ 101 ∷ []) [] ≡ (3 ∷ [], 101 ∷ [])
unfolding process_chunk take_event
process_chunk-lengths = refl

-- The two newlines lie in different chunks.
process_chunk-append_example : process_chunk lengths ((100 ∷ 10 ∷ []) ++ (10 ∷ 101 ∷ [])) [] ≡ (
    let first = process_chunk lengths (100 ∷ 10 ∷ []) [] in
    let second = process_chunk lengths (10 ∷ 101 ∷ []) first.1 in (first.0 ++ second.0, second.1))
process_chunk-append_example = process_chunk-append lengths [] (100 ∷ 10 ∷ []) (10 ∷ 101 ∷ [])

process_chunk-none_example :
    take_event (process_chunk lengths (100 ∷ 10 ∷ 10 ∷ 101 ∷ []) []).1 ≡ none
process_chunk-none_example = process_chunk-none lengths [] (100 ∷ 10 ∷ 10 ∷ 101 ∷ [])

abbrev request : Request
request = record {
  linked_tool_use_id = none;
  reverie_id = some "reverie_1";
  request_id = "r1";
  spender = some "alice.near";
  spender_type = some "near";
}

abbrev start_chunks : List (ℕ × SseChunk)
start_chunks = (1, input_tokens_chunk 12) ∷ (2, text_chunk "hi") ∷ (3, output_tokens_chunk 7) ∷ []

log_sse_response_task-spender_example :
    All
      (λ p. (p.usage.spender ≡ none) × (p.usage.spender_type ≡ none))
      (log_sse_response_task request
        (start_chunks ++ ((4, stop) ∷ []))
        (start_task request)).submitted
log_sse_response_task-spender_example =
    log_sse_response_task-spender request (start_chunks ++ ((4, stop) ∷ []))

abbrev codec : Codec
codec = record {
  to_vec = λ w. written w.block_height w.tee_attestation_bytes;
  from_slice = λ s. elim s [
    | [] ↦ none
    | h ∷ t ↦ some (record { tee_attestation_bytes = read t; block_height = h })
  ];
}
  where
    written : ℕ → Option Bytes → Bytes
    written h none = h ∷ []
    written h (some b) = h ∷ 1 ∷ b

    read : Bytes → Option Bytes
    read [] = none
    read (_ ∷ b) = some b

abbrev attested : TeeAttestation
attested = record {
  tee_attestation = some (from_bytes (7 ∷ 8 ∷ []));
  tee_attestation_bytes = some (7 ∷ 8 ∷ []);
  block_height = 3;
}

receive_heartbeat_payload-send_heartbeat_payload_example :
    (frame : Bytes) × (send_heartbeat_payload codec attested ≡ ok frame)
    × (receive_heartbeat_payload codec (frame ++ (5 ∷ [])) ≡ ok (attested, 5 ∷ []))
unfolding to_wire
receive_heartbeat_payload-send_heartbeat_payload_example =
    receive_heartbeat_payload-send_heartbeat_payload codec attested (5 ∷ []) refl refl (omega arith)

abbrev nothing_received : Futures
nothing_received = record { received = none; sent = none; timer_is_ready = true }

abbrev undialled : HeartbeatHandler
undialled = on_connection_event dial_upgrade_error (Handler.new default_config)

undialled_fails : undialled.dial_failures ≡ some 1
unfolding on_connection_event
undialled_fails = refl

run-dial_failures_example :
    All StuckPoll (run (polled nothing_received ∷ answered default_attestation ∷ []) undialled).1
run-dial_failures_example =
    run-dial_failures (polled nothing_received ∷ answered default_attestation ∷ []) undialled
      undialled_fails

abbrev failing : List Failures.Input
failing =
    Failures.handled
      (record { quote = []; peer = "b"; connection = 1; event = increment_failure_count 6 })
    ∷ Failures.polled true
    ∷ Failures.triggered false
    ∷ []

run-internal_fail_count_example :
    (Failures.run failing (Behaviour.new default_config)).0.internal_fail_count
    ≡ min (failures_since_reset failing 0) u32_max
run-internal_fail_count_example =
    run-internal_fail_count failing 0 (Behaviour.new default_config)
      (unfold Behaviour.new in omega arith)
