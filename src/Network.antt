-- ===== src/Network.antt =====
-- network_events: the state of a node's event loop, and what its handlers ask of the outside.
pub mod Reincarnation
pub mod Failure
pub mod World
pub mod Fragments
pub mod Commands
pub mod Discovery
pub mod Invariant
pub mod Events
use reveries_network.Common.{ℕ, String, Option, List, [], ◌∷◌, ◌++◌, Result}
use reveries_network.Common.Map.{HashMap}
use reveries_network.Common.HashSet.{HashSet}
use reveries_network.Types.{
  PeerId, ReverieId, PublicKey, Bytes, RespawnId, NetworkEvent, FragmentRequest, FragmentResponse,
  NodeKeysWithVesselStatus, ReverieNameWithNonce, ReverieMessage,
}
use reveries_network.PeerManager.{PeerManager, remove_kfrag_provider, remove_peer_info}

-- The parts of `NodeIdentity` and of its umbral key that the handlers read.
pub record NodeIdentity : Type 0 where
  pub node_name : String
  pub peer_id : PeerId
  pub umbral_public_key : PublicKey
  pub umbral_verifying_public_key : PublicKey

-- The receiving end of a channel on which a caller waits.
abbrev pub Channel : Type 0
Channel = ℕ

-- node_client/container_manager.rs
pub data RestartReason : Type 0 where
  scheduled_heartbeat_failure network_heartbeat_failure : RestartReason
  error : String → RestartReason

-- What a handler asks of the swarm, of the DHT and of the node client, and what it sends to waiting
-- callers. A response goes back on the channel of the request at hand.
pub data Output : Type 0 where
  send_event : NetworkEvent → Output
  send_request : PeerId → FragmentRequest → Output
  send_response : FragmentResponse → Output
  put_vessel_status : NodeKeysWithVesselStatus → Output
  put_reverie_holder : ReverieId → PeerId → Output
  put_name : ReverieNameWithNonce → ReverieId → Output
  put_reverie : ReverieMessage → Output
  get_record : String → Output
  dial : PeerId → Output
  reply_fragment : Channel → Result String Bytes → Output
  reply_reverie : Channel → Option ReverieMessage → Output
  reply_reverie_id : Channel → Option ReverieId → Output
  reply_vessel_status : Channel → NodeKeysWithVesselStatus → Output
  remove_vessel_status : PeerId → Output
  disconnect : PeerId → Output
  reply_listening : Channel → Result String String → Output
  reply_peers : Channel → List PeerId → Output
  reply_failure : Channel → RestartReason → Output
  reply_node_state : Channel → Output
  reply_usage : Channel → String → Output
  trigger_heartbeat_failure : Output
  sleep_second : Output
  trigger_restart : RestartReason → Output

pub record NetworkEvents : Type 0 where
  pub node_id : NodeIdentity
  pub peer_manager : PeerManager
  pub get_node_vessels : HashMap PeerId Channel
  pub get_reverie_agent_name : HashMap String Channel
  pub get_reverie_from_network : HashMap ReverieId Channel
  pub request_fragments : HashMap ℕ Channel
  pub respawns : HashSet RespawnId
  pub outbox : List Output

unfoldable pub emit : Output → NetworkEvents → NetworkEvents
emit o n = record n { outbox = n.outbox ++ (o ∷ []) }

unfoldable pub remove_peer : PeerId → NetworkEvents → NetworkEvents
unfolding emit
remove_peer peer n =
    emit (remove_vessel_status peer) (record n {
      peer_manager = remove_peer_info peer (remove_kfrag_provider peer n.peer_manager);
    })
