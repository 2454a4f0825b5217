-- ===== src/Network/Discovery.antt =====
-- network_events/kademlia_handlers.rs and swarm_handlers.rs: peers found, DHT records that arrive,
-- heartbeats and connections.
use reveries_network.Common.{
  String, Bool, not, ◌||◌, ◌==◌, string_eq, Option, none, some, ok, err, if◌then◌else◌,
}
use reveries_network.Common.Map
use reveries_network.Types.{PeerId, ReverieId, ReverieMessage, NodeKeysWithVesselStatus}
use reveries_network.Types.Kademlia.{
  KademliaKey, peer_id_to_node_status_key, reverie_id_to_name_key, reverie_id_to_reverie, unknown,
}
use reveries_network.Types.Kademlia
use reveries_network.Heartbeat.Attestation.{TeeAttestation}
use reveries_network.PeerManager.HeartbeatData.{Now}
use reveries_network.PeerManager.{insert_peer_info, update_peer_heartbeat}
use reveries_network.Network.{
  NetworkEvents, Channel, emit, dial, put_vessel_status, reply_vessel_status, reply_reverie_id,
  reply_reverie,
}
use reveries_network.Network.World.{World, verify_error, send_error, put_error, Outcome, put}

-- A record from the DHT: its key where it is UTF-8, its value as each of the three types of value
-- that serde_json may read in it, and whether the signature of a status is its publisher's.
pub record Record : Type 0 where
  pub key : Option String
  pub as_status : Option NodeKeysWithVesselStatus
  pub as_reverie_id : Option ReverieId
  pub as_reverie : Option ReverieMessage
  pub publisher : Option PeerId
  pub verified : PeerId → Bool

pub data SwarmEvent : Type 0 where
  routing_updated : PeerId → Bool → SwarmEvent
  found_record : Record → SwarmEvent
  bootstrap_ok : PeerId → SwarmEvent
  heartbeat : PeerId → TeeAttestation → SwarmEvent
  connection_established connection_closed : PeerId → SwarmEvent

unfoldable pub should_dial_peer : PeerId → Bool → NetworkEvents → Bool
should_dial_peer peer connected n = not (peer == n.node_id.peer_id || connected)

-- A status is handed on where its signature is that of the record's publisher; an error where the
-- caller waits no more.
unfoldable pub send_status : World → Channel → Record → NetworkEvents → Outcome
send_status w sender r n = elim r.as_status [
  | none ↦ (n, ok tt)
  | some status ↦ elim r.publisher [
    | none ↦ (n, ok tt)
    | some publisher ↦
        if r.verified publisher
        then if w.channel_open
          then (emit (reply_vessel_status sender status) n, ok tt)
          else (n, err send_error)
        else (n, err verify_error)
  ]
]

unfoldable pub status_found : World → PeerId → Record → NetworkEvents → Outcome
unfolding send_status
status_found w peer r n = elim (Map.get peer n.get_node_vessels) [
  | none ↦ (n, ok tt)
  | some sender ↦
      send_status w sender r (record n { get_node_vessels = Map.remove peer n.get_node_vessels })
]

unfoldable pub name_found : String → Record → NetworkEvents → NetworkEvents
name_found name r n = elim (Map.get name n.get_reverie_agent_name) [
  | none ↦ n
  | some sender ↦
      emit (reply_reverie_id sender r.as_reverie_id)
        (record n { get_reverie_agent_name = Map.remove name n.get_reverie_agent_name })
]

unfoldable pub reverie_found : ReverieId → Record → NetworkEvents → NetworkEvents
reverie_found id r n = elim (Map.get id n.get_reverie_from_network) [
  | none ↦ n
  | some sender ↦
      emit (reply_reverie sender r.as_reverie)
        (record n { get_reverie_from_network = Map.remove id n.get_reverie_from_network })
]

-- the key of a record: one that is no text is unknown
unfoldable pub key_of : Option String → KademliaKey
key_of none = unknown ""
key_of (some s) = Kademlia.from s

unfoldable pub dispatch : World → KademliaKey → Record → NetworkEvents → Outcome
unfolding status_found name_found reverie_found
dispatch w (peer_id_to_node_status_key peer) r n = status_found w peer r n
dispatch w (reverie_id_to_name_key name) r n = (name_found name r n, ok tt)
dispatch w (reverie_id_to_reverie id) r n = (reverie_found id r n, ok tt)
dispatch w (unknown s) r n = (n, ok tt)

-- The node publishes its own status once it has found itself in the DHT.
unfoldable pub publish_status : World → PeerId → NetworkEvents → Outcome
unfolding put
publish_status w peer n =
    let status : NodeKeysWithVesselStatus = record {
      peer_id = peer;
      umbral_public_key = n.node_id.umbral_public_key;
      umbral_verifying_public_key = n.node_id.umbral_verifying_public_key;
      vessel_status = n.peer_manager.vessel_status;
    } in
    if peer == n.node_id.peer_id then put w put_error (put_vessel_status status) n else (n, ok tt)

-- `routing_updated peer connected`: whether the swarm is connected to the peer.
unfoldable pub handle_swarm_event : World → Now → SwarmEvent → NetworkEvents → Outcome
unfolding should_dial_peer dispatch key_of publish_status
handle_swarm_event w now (routing_updated peer connected) n = (
  (if should_dial_peer peer connected n
      then emit (dial peer) (record n { peer_manager = insert_peer_info peer now n.peer_manager })
      else n),
  ok tt,
)
handle_swarm_event w now (found_record r) n = dispatch w (key_of r.key) r n
handle_swarm_event w now (bootstrap_ok peer) n = publish_status w peer n
handle_swarm_event w now (heartbeat peer payload) n =
    (record n { peer_manager = update_peer_heartbeat peer payload now n.peer_manager }, ok tt)
handle_swarm_event w now (connection_established peer) n =
    (record n { peer_manager = insert_peer_info peer now n.peer_manager }, ok tt)
handle_swarm_event w now (connection_closed peer) n = (n, ok tt)
