-- ===== src/Network/Reincarnation.antt =====
-- network_events/reincarnation.rs: what a node does when peers stop sending heartbeats.
pub mod Ticks
pub mod Closed
pub mod Takeover
use reveries_network.Common.{
  ℕ, Bool, true, false, Option, none, some, List, [], ◌∷◌, map, ◌==◌, string_eq, Result, ok, err,
  ◌>>=◌, if◌then◌else◌,
}
use reveries_network.Common.HashSet
use reveries_network.Types.{
  PeerId, ReverieNameWithNonce, RespawnId, respawn_eq, AgentVesselInfo, respawn_request,
}
use reveries_network.PeerManager.{
  PeerManager, PeerInfo, agent_name, is_peer_offline, remove_peer_info,
}
use reveries_network.Network.{
  NetworkEvents, Output, emit, remove_peer, send_event, disconnect, trigger_restart,
}

-- `anyhow!("Invalid ReverieType")`, and the error of a channel that nobody listens on any more
pub data Fault : Type 0 where
  invalid_reverie_type channel_closed : Fault

unfoldable pub mark_pending_respawn_complete :
    PeerId → ReverieNameWithNonce → NetworkEvents → NetworkEvents
mark_pending_respawn_complete prev_peer prev_agent n =
    let id : RespawnId = record { prev_agent = prev_agent; next_vessel_peer_id = prev_peer } in
    let n' = remove_peer prev_peer (record n { respawns = HashSet.remove id n.respawns }) in
    record n' { peer_manager = remove_peer_info prev_peer n'.peer_manager }

pub pending_respawn : AgentVesselInfo → ReverieNameWithNonce → NetworkEvents → NetworkEvents
pending_respawn v prev_agent n =
    let id : RespawnId = record {
      prev_agent = prev_agent;
      next_vessel_peer_id = v.current_vessel_peer_id;
    } in
    record n { respawns = HashSet.insert id n.respawns }

-- An offline peer with an agent, whose name is given if its reverie is an agent. `listening`: whether
-- the node client listens on the channel of the network's events.
respawn_agent :
    Bool
    → PeerId
    → AgentVesselInfo
    → Option ReverieNameWithNonce
    → NetworkEvents
    → Result Fault NetworkEvents
unfolding pending_respawn
respawn_agent listening peer v none n = err invalid_reverie_type
respawn_agent listening peer v (some prev_agent) n =
    let n' = pending_respawn v prev_agent n in
    if n.node_id.peer_id == v.next_vessel_peer_id
    then if listening
      then ok (remove_peer peer (emit (send_event (respawn_request v)) n'))
      else err channel_closed
    else ok n'

handle_offline : Bool → PeerId → Option AgentVesselInfo → NetworkEvents → Result Fault NetworkEvents
unfolding respawn_agent
handle_offline listening peer none n = ok (remove_peer peer n)
handle_offline listening peer (some v) n =
    respawn_agent listening peer v (agent_name v.reverie_type) n

-- The body of the loop: `info` is the entry of `peer` in the copy made before the loop.
pub check_peer : Bool → ℕ → ℕ → PeerId × PeerInfo → NetworkEvents → Result Fault NetworkEvents
unfolding handle_offline
check_peer listening allowed now (peer, info) n =
    if is_peer_offline peer allowed now n.peer_manager
    then handle_offline listening peer info.agent_vessel n
    else ok n

pub check_peers :
    Bool → ℕ → ℕ → List (PeerId × PeerInfo) → NetworkEvents → Result Fault NetworkEvents
check_peers listening allowed now [] n = ok n
check_peers listening allowed now (entry ∷ rest) n = do
  n' ← check_peer listening allowed now entry n
  check_peers listening allowed now rest n'

-- One tick of the checker. `allowed` is `max_time_before_rotation` of the heartbeat config, and
-- `now` the clock, read once.
unfoldable pub handle_peer_heartbeat_failure :
    Bool → ℕ → ℕ → NetworkEvents → Result Fault NetworkEvents
unfolding check_peers check_peer
handle_peer_heartbeat_failure listening allowed now n =
    check_peers listening allowed now n.peer_manager.peer_info n
