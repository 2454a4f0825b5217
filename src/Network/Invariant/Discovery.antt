-- ===== src/Network/Invariant/Discovery.antt =====
-- Every response, failure and swarm event leaves the node well-formed.
use reveries_network.Common.{ℕ, String, Option-cases, Bool-cases, inl, inr, ◌==◌, string_eq, nat_eq}
use reveries_network.Common.Map
use reveries_network.Types.{FragmentResponse, get_fragment_response}
use reveries_network.Types.Kademlia.{
  KademliaKey, peer_id_to_node_status_key, reverie_id_to_name_key, reverie_id_to_reverie, unknown,
}
use reveries_network.PeerManager.HeartbeatData.{Now}
use reveries_network.PeerManager.Invariant.{
  insert_peer_info-WellKept, update_peer_heartbeat-WellKept,
}
use reveries_network.Network.{NetworkEvents, emit, Channel}
use reveries_network.Network.World.{World}
use reveries_network.Network.Reincarnation.Ticks.{WellFormed}
use reveries_network.Network.Fragments.{answer_fragment, handle_response, handle_outbound_failure}
use reveries_network.Network.Discovery.{
  Record, SwarmEvent, routing_updated, found_record, bootstrap_ok, heartbeat,
  connection_established, connection_closed, should_dial_peer, send_status, status_found,
  name_found, reverie_found, key_of, dispatch, publish_status, handle_swarm_event,
}
use reveries_network.Network.Invariant.{put-WellFormed}

-- A response to a request leaves the node well-formed.
pub handle_response-WellFormed :
    (request : ℕ) (r : FragmentResponse) (n : NetworkEvents)
    → WellFormed n
    → WellFormed (handle_response request r n).0
unfolding handle_response
handle_response-WellFormed request (get_fragment_response a) n h =
    elim (Option-cases (Map.get request n.request_fragments)) [
      | inl e ↦ rw (e, handle_response) h
      | inr (c, e) ↦
          rw (e, handle_response) (unfold answer_fragment emit in record { kept = h.kept })
    ]
handle_response-WellFormed request _ n h = h

-- The failure of a request leaves the node well-formed.
pub handle_outbound_failure-WellFormed :
    (request : ℕ) (e : String) (n : NetworkEvents)
    → WellFormed n
    → WellFormed (handle_outbound_failure request e n)
unfolding handle_outbound_failure
handle_outbound_failure-WellFormed request error n h =
    elim (Option-cases (Map.get request n.request_fragments)) [
      | inl e ↦ rw (e, handle_outbound_failure) h
      | inr (c, e) ↦
          rw (e, handle_outbound_failure) (unfold answer_fragment emit in record { kept = h.kept })
    ]

send_status-WellFormed :
    (w : World) (c : Channel) (r : Record) (n : NetworkEvents)
    → WellFormed n
    → WellFormed (send_status w c r n).0
unfolding send_status emit
send_status-WellFormed w c r n h = elim (Option-cases r.as_status) [
  | inl e ↦ rw e h
  | inr (status, e) ↦ elim (Option-cases r.publisher) [
    | inl f ↦ rw (e, f) h
    | inr (p, f) ↦ elim (Bool-cases (r.verified p)) [
      | inl good ↦ elim (Bool-cases w.channel_open) [
        | inl waits ↦ rw (e, f, good, waits) (record { kept = h.kept })
        | inr gone ↦ rw (e, f, good, gone) h
      ]
      | inr bad ↦ rw (e, f, bad) h
    ]
  ]
]

dispatch-WellFormed :
    (w : World) (k : KademliaKey) (r : Record) (n : NetworkEvents)
    → WellFormed n
    → WellFormed (dispatch w k r n).0
unfolding dispatch status_found name_found reverie_found emit
dispatch-WellFormed w (peer_id_to_node_status_key p) r n h =
    elim (Option-cases (Map.get p n.get_node_vessels)) [
      | inl e ↦ rw (e, dispatch, status_found) h
      | inr (c, e) ↦
          rw (e, dispatch, status_found) (send_status-WellFormed w c r _ (record { kept = h.kept }))
    ]
dispatch-WellFormed w (reverie_id_to_name_key name) r n h =
    elim (Option-cases (Map.get name n.get_reverie_agent_name)) [
      | inl e ↦ rw (e, dispatch, name_found) h
      | inr (c, e) ↦ rw (e, dispatch, name_found) (record { kept = h.kept })
    ]
dispatch-WellFormed w (reverie_id_to_reverie id) r n h =
    elim (Option-cases (Map.get id n.get_reverie_from_network)) [
      | inl e ↦ rw (e, dispatch, reverie_found) h
      | inr (c, e) ↦ rw (e, dispatch, reverie_found) (record { kept = h.kept })
    ]
dispatch-WellFormed w (unknown s) r n h = h

-- Whatever the swarm reports, the node stays well-formed.
pub handle_swarm_event-WellFormed :
    (w : World) (now : Now) (e : SwarmEvent) (n : NetworkEvents)
    → WellFormed n
    → WellFormed (handle_swarm_event w now e n).0
unfolding handle_swarm_event
handle_swarm_event-WellFormed w now (routing_updated p connected) n h =
    elim (Bool-cases (should_dial_peer p connected n)) [
      | inl new ↦ rw new (unfold emit in record { kept = insert_peer_info-WellKept h.kept p now })
      | inr old ↦ rw old h
    ]
handle_swarm_event-WellFormed w now (found_record r) n h =
    dispatch-WellFormed w (key_of r.key) r n h
handle_swarm_event-WellFormed w now (bootstrap_ok p) n h =
    elim (Bool-cases (p == n.node_id.peer_id)) [
      | inl me ↦ unfold publish_status in rw me (put-WellFormed w _ h _)
      | inr other ↦ unfold publish_status in rw other h
    ]
handle_swarm_event-WellFormed w now (heartbeat p t) n h = record {
  kept = update_peer_heartbeat-WellKept h.kept p t now;
}
handle_swarm_event-WellFormed w now (connection_established p) n h = record {
  kept = insert_peer_info-WellKept h.kept p now;
}
handle_swarm_event-WellFormed w now (connection_closed p) n h = h
