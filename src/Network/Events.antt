-- ===== src/Network/Events.antt =====
-- The event loop of network_events/mod.rs as a step relation, and what holds of every state it can
-- reach.
use reveries_network.Common.{
  ℕ, String, ◌≡◌, Bool, true, false, List, [], ◌∷◌, ok, subst, sym, ap, ◌∙◌,
}
use reveries_network.Types.{PeerId, AgentVesselInfo, FragmentRequest, FragmentResponse}
use reveries_network.PeerManager.HeartbeatData.{Now}
use reveries_network.PeerManager
use reveries_network.PeerManager.Invariant.{new-WellKept}
use reveries_network.Network.{NetworkEvents, NodeIdentity}
use reveries_network.Network.World.{World}
use reveries_network.Network.Fragments.{handle_request, handle_response, handle_outbound_failure}
use reveries_network.Network.Commands.{NodeCommand, handle_command}
use reveries_network.Network.Discovery.{SwarmEvent, handle_swarm_event}
use reveries_network.Network.Reincarnation.{handle_peer_heartbeat_failure}
use reveries_network.Network.Reincarnation.Ticks.{due, WellFormed}
use reveries_network.Network.Reincarnation.Closed.{heard}
use reveries_network.Network.Reincarnation.Takeover.{
  handle_peer_heartbeat_failure_lem, handle_peer_heartbeat_failure-listening,
}
use reveries_network.Network.Invariant.{handle_request-WellFormed}
use reveries_network.Network.Failure.{handle_internal_heartbeat_failure}
use reveries_network.Network.Invariant.Commands.{
  handle_command-WellFormed, handle_internal_heartbeat_failure-WellFormed,
}
use reveries_network.Network.Invariant.Discovery.{
  handle_response-WellFormed, handle_outbound_failure-WellFormed, handle_swarm_event-WellFormed,
}

-- `NetworkEvents::new`, with nothing sent yet.
unfoldable pub new : NodeIdentity → NetworkEvents
new id = record {
  node_id = id;
  peer_manager = PeerManager.new id.node_name id.peer_id;
  get_node_vessels = [];
  get_reverie_agent_name = [];
  get_reverie_from_network = [];
  request_fragments = [];
  respawns = [];
  outbox = [];
}

-- One turn of the loop: a tick of the checker, an event of the swarm, a failure of the node's own
-- heartbeats or a command. A handler that
-- fails leaves the state that it had reached; that the loop then ends is left out, so that more
-- states are reachable here than in the program.
pub data Turn : NetworkEvents → NetworkEvents → Type 0 where
  tick :
      (listening : Bool) (allowed now : ℕ) (n n' : NetworkEvents)
      → handle_peer_heartbeat_failure listening allowed now n ≡ ok n'
      → Turn n n'
  inbound_request :
      (w : World) (now : Now) (r : FragmentRequest) (n : NetworkEvents)
      → Turn n (handle_request w now r n).0
  inbound_response :
      (request : ℕ) (r : FragmentResponse) (n : NetworkEvents)
      → Turn n (handle_response request r n).0
  outbound_failure :
      (request : ℕ) (error : String) (n : NetworkEvents)
      → Turn n (handle_outbound_failure request error n)
  swarm_event :
      (w : World) (now : Now) (e : SwarmEvent) (n : NetworkEvents)
      → Turn n (handle_swarm_event w now e n).0
  command :
      (w : World) (connected : List PeerId) (request : ℕ) (c : NodeCommand) (n : NetworkEvents)
      → Turn n (handle_command w connected request c n).0
  internal_failure :
      (connected : List PeerId) (seconds : ℕ) (n : NetworkEvents)
      → Turn n (handle_internal_heartbeat_failure connected seconds n)

pub data Reachable : NetworkEvents → Type 0 where
  start : (id : NodeIdentity) → Reachable (new id)
  turn : (n n' : NetworkEvents) → Reachable n → Turn n n' → Reachable n'

-- A tick on a well-formed node: it sends what is due, or fails where nobody hears it.
tick_heard :
    (listening : Bool) (allowed now : ℕ) (n : NetworkEvents)
    → WellFormed n
    → (n' : NetworkEvents) × (handle_peer_heartbeat_failure listening allowed now n
        ≡ heard listening (due n.node_id.peer_id allowed now n.peer_manager.peer_info) (ok n'))
      × WellFormed n'
      × (handle_peer_heartbeat_failure true allowed now n ≡ ok n')
tick_heard listening allowed now n h =
    let (m, runs, hm, _, _, _) = handle_peer_heartbeat_failure_lem allowed now n h in
    (
      m,
      handle_peer_heartbeat_failure-listening listening allowed now n h
          ∙ ap (heard listening (due n.node_id.peer_id allowed now n.peer_manager.peer_info)) runs,
      hm,
      runs,
    )

heard-ok :
    (listening : Bool) (vs : List AgentVesselInfo) (n' m : NetworkEvents)
    → heard listening vs (ok m) ≡ ok n'
    → n' ≡ m
heard-ok true vs n' m e = cc
heard-ok false [] n' m e = cc
heard-ok false (v ∷ vs) n' m e = cc

keeps_WellFormed : (n n' : NetworkEvents) → Turn n n' → WellFormed n → WellFormed n'
keeps_WellFormed _ _ (tick listening allowed now n n' run) h =
    let (m, runs, hm, _) = tick_heard listening allowed now n h in
    let same : n' ≡ m = heard-ok listening _ n' m (sym runs ∙ run) in subst WellFormed (sym same) hm
keeps_WellFormed _ _ (inbound_request w now r n) h = handle_request-WellFormed w now r n h
keeps_WellFormed _ _ (inbound_response k r n) h = handle_response-WellFormed k r n h
keeps_WellFormed _ _ (outbound_failure k e n) h = handle_outbound_failure-WellFormed k e n h
keeps_WellFormed _ _ (swarm_event w now e n) h = handle_swarm_event-WellFormed w now e n h
keeps_WellFormed _ _ (command w ps k c n) h = handle_command-WellFormed w ps k c n h
keeps_WellFormed _ _ (internal_failure ps seconds n) h =
    handle_internal_heartbeat_failure-WellFormed ps seconds n h

-- Every state that the event loop can reach is well-formed: one entry for each peer, beliefs only
-- about agents and only at the peer that they name, and two indices of key fragments that agree on
-- who provides what.
pub Reachable-WellFormed : (n : NetworkEvents) → Reachable n → WellFormed n
Reachable-WellFormed _ (start id) =
    unfold new in record { kept = new-WellKept id.node_name id.peer_id }
Reachable-WellFormed _ (turn n n' r t) = keeps_WellFormed n n' t (Reachable-WellFormed n r)

-- The tick of the checker in a reachable state, whatever the clock and the allowed time: while the node
-- client listens on its channel, it succeeds, and the event loop goes on in a reachable state. Where
-- the client has gone away, it still does so if no agent is due, and else fails with the error of the
-- channel. So the `expect` on the tick in the event loop panics exactly where a respawn request is due
-- and nobody listens, and never because a reverie that is no agent stands in the peer table.
pub Reachable-handle_peer_heartbeat_failure :
    (n : NetworkEvents)
    → Reachable n
    → (listening : Bool) (allowed now : ℕ)
    → (n' : NetworkEvents) × Reachable n'
      × (handle_peer_heartbeat_failure listening allowed now n
          ≡ heard listening (due n.node_id.peer_id allowed now n.peer_manager.peer_info) (ok n'))
Reachable-handle_peer_heartbeat_failure n r listening allowed now =
    let (m, runs, _, hears) = tick_heard listening allowed now n (Reachable-WellFormed n r) in
    (m, turn n m r (tick true allowed now n m hears), runs)
