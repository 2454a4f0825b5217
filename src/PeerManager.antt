-- ===== src/PeerManager.antt =====
-- network_events/peer_manager: what a node knows of its peers.
pub mod HeartbeatData
pub mod Kfrags
pub mod Vessels
pub mod Liveness
pub mod Invariant
use reveries_network.Common.{
  ℕ, ◌<◌, String, ◌≡◌, ◌↔◌, Bool, true, false, ◌&&◌, Option, none, some, List, [], ◌∷◌, arith, Eq,
  ◌==◌, ==_iff, string_eq, nat_eq, nat_beq, ltb, if◌then◌else◌, is_some,
}
use reveries_network.Common.Map
use reveries_network.Common.Map.{HashMap}
use reveries_network.Common.HashSet
use reveries_network.Common.HashSet.{HashSet}
use reveries_network.Types.{
  PeerId, ReverieId, ReverieNameWithNonce, ReverieType, sovereign_agent, agent, VesselStatus,
  empty_vessel, AgentVesselInfo, ReverieCapsulefrag, ReverieMessage,
}
use reveries_network.Heartbeat.Attestation.{TeeAttestation}
use HeartbeatData.{HeartBeatData, Now, update, duration_since_last_heartbeat}

-- peer_info.rs; nothing in the source reads or sets the client's version but `new`
pub record PeerInfo : Type 0 where
  pub peer_id : PeerId
  pub heartbeat_data : HeartBeatData
  pub agent_vessel : Option AgentVesselInfo
  pub client_version : Option String

unfoldable pub new_peer_info : PeerId → ℕ → Now → PeerInfo
new_peer_info peer_id window now = record {
  peer_id = peer_id;
  heartbeat_data = HeartbeatData.new window now;
  agent_vessel = none;
  client_version = none;
}

pub record TrackReverieFragment : Type 0 where
  pub reverie_id : ReverieId
  pub frag_num : ℕ

abbrev pub track_beq : TrackReverieFragment → TrackReverieFragment → Bool
track_beq a b = (a.reverie_id == b.reverie_id) && nat_beq a.frag_num b.frag_num

pub track_beq_iff : (a b : TrackReverieFragment) → (track_beq a b ≡ true) ↔ (a ≡ b)
track_beq_iff a b = ground (arith, ==_iff a.reverie_id b.reverie_id, ==_iff a.frag_num b.frag_num)

instance abbrev pub track_eq : Eq TrackReverieFragment
track_eq = record { beq = track_beq; beq_iff = track_beq_iff }

-- The JSON object of the agent that this node hosts, less the display names of the two nodes,
-- which are computed from their ids.
pub record VesselAgent : Type 0 where
  pub agent_name_nonce : ReverieNameWithNonce
  pub threshold : ℕ
  pub total_frags : ℕ
  pub current_vessel_peer_id : PeerId
  pub next_vessel_peer_id : PeerId

pub record PeerManager : Type 0 where
  pub node_name : String
  pub peer_id : PeerId
  pub vessel_status : VesselStatus
  pub vessel_agent : Option VesselAgent
  pub peer_info : HashMap PeerId PeerInfo
  pub kfrag_providers : HashMap ReverieId (HashSet PeerId)
  pub cfrags : HashMap ReverieId ReverieCapsulefrag
  pub reverie_metadata : HashMap ReverieId AgentVesselInfo
  pub reverie : HashMap ReverieId ReverieMessage
  pub peers_to_reverie_frags : HashMap PeerId (HashSet TrackReverieFragment)
  pub avg_window : ℕ  -- u32

unfoldable pub new : String → PeerId → PeerManager
new node_name peer_id = record {
  node_name = node_name;
  peer_id = peer_id;
  vessel_status = empty_vessel;
  vessel_agent = none;
  peer_info = [];
  kfrag_providers = [];
  cfrags = [];
  reverie_metadata = [];
  reverie = [];
  peers_to_reverie_frags = [];
  avg_window = 10;
}

-- A new entry for the peer, also where one is there: its heartbeats and its agent are forgotten.
unfoldable pub insert_peer_info : PeerId → Now → PeerManager → PeerManager
insert_peer_info peer now m = record m {
  peer_info = Map.insert peer (new_peer_info peer m.avg_window now) m.peer_info;
}

unfoldable pub remove_peer_info : PeerId → PeerManager → PeerManager
remove_peer_info peer m = record m { peer_info = Map.remove peer m.peer_info }

unfoldable pub peer_info_has_agent : PeerId → PeerManager → Bool
peer_info_has_agent peer m = elim (Map.get peer m.peer_info) [
  | none ↦ false
  | some info ↦ is_some info.agent_vessel
]

-- the name of an agent, for the two types that are agents
unfoldable pub agent_name : ReverieType → Option ReverieNameWithNonce
agent_name (agent name) = some name
agent_name (sovereign_agent name) = some name
agent_name _ = none

set_vessel_of : PeerId → AgentVesselInfo → HashMap PeerId PeerInfo → HashMap PeerId PeerInfo
set_vessel_of peer info m = elim (Map.get peer m) [
  | none ↦ m
  | some p ↦ Map.insert peer (record p { agent_vessel = some info }) m
]

set_agent_vessel : AgentVesselInfo → PeerManager → Option ReverieNameWithNonce → PeerManager
unfolding set_vessel_of
set_agent_vessel info m none = m
set_agent_vessel info m (some name) =
    let hosted : VesselAgent = record {
      agent_name_nonce = name;
      threshold = info.threshold;
      total_frags = info.total_frags;
      current_vessel_peer_id = info.current_vessel_peer_id;
      next_vessel_peer_id = info.next_vessel_peer_id;
    } in
    record m {
      peer_info = set_vessel_of info.current_vessel_peer_id info m.peer_info;
      vessel_agent =
          if info.current_vessel_peer_id == m.peer_id then some hosted else m.vessel_agent;
    }

unfoldable pub set_peer_info_agent_vessel : AgentVesselInfo → PeerManager → PeerManager
unfolding set_agent_vessel agent_name
set_peer_info_agent_vessel info m = set_agent_vessel info m (agent_name info.reverie_type)

-- the entry of the peer, or a new one
entry_or_new : PeerId → ℕ → Now → Option PeerInfo → PeerInfo
entry_or_new peer window now (some p) = p
entry_or_new peer window now none = new_peer_info peer window now

unfoldable pub update_peer_heartbeat : PeerId → TeeAttestation → Now → PeerManager → PeerManager
unfolding entry_or_new
update_peer_heartbeat peer payload now m =
    let p = entry_or_new peer m.avg_window now (Map.get peer m.peer_info) in
    record m {
      peer_info =
          Map.insert peer (record p { heartbeat_data = update p.heartbeat_data payload now })
            m.peer_info;
    }

unfoldable pub is_peer_offline : PeerId → ℕ → ℕ → PeerManager → Bool
is_peer_offline peer max_time_before_respawn now m = elim (Map.get peer m.peer_info) [
  | none ↦ true
  | some p ↦ ltb max_time_before_respawn (duration_since_last_heartbeat p.heartbeat_data now)
]

-- `entry(..).and_modify(..).or_insert_with(..)` of a map into sets
add_to_entry :
    {A : Type 0} ⦃e : Eq A⦄ → String → A → HashMap String (HashSet A) → HashMap String (HashSet A)
add_to_entry k a m = elim (Map.get k m) [
  | some set ↦ Map.insert k (HashSet.insert a set) m
  | none ↦ Map.insert k (HashSet.insert a []) m
]

track_reverie_fragment : PeerId → TrackReverieFragment → PeerManager → PeerManager
unfolding add_to_entry
track_reverie_fragment peer frag m = record m {
  peers_to_reverie_frags = add_to_entry peer frag m.peers_to_reverie_frags;
}

unfoldable pub insert_kfrag_provider : PeerId → ReverieId → ℕ → PeerManager → PeerManager
unfolding track_reverie_fragment add_to_entry
insert_kfrag_provider peer reverie_id frag_num m =
    track_reverie_fragment peer (record { reverie_id = reverie_id; frag_num = frag_num })
      (record m { kfrag_providers = add_to_entry reverie_id peer m.kfrag_providers })

remove_provider :
    PeerId → ReverieId → HashMap ReverieId (HashSet PeerId) → HashMap ReverieId (HashSet PeerId)
remove_provider peer reverie_id m = elim (Map.get reverie_id m) [
  | none ↦ m
  | some set ↦ Map.insert reverie_id (HashSet.remove peer set) m
]

-- the loop over the fragments of a peer that goes away
remove_provider_from :
    PeerId
    → List TrackReverieFragment
    → HashMap ReverieId (HashSet PeerId)
    → HashMap ReverieId (HashSet PeerId)
unfolding remove_provider
remove_provider_from peer [] m = m
remove_provider_from peer (f ∷ frags) m =
    remove_provider_from peer frags (remove_provider peer f.reverie_id m)

unfoldable pub remove_kfrag_provider : PeerId → PeerManager → PeerManager
unfolding remove_provider_from
remove_kfrag_provider peer m = elim (Map.get peer m.peers_to_reverie_frags) [
  | none ↦ m
  | some frags ↦ record m {
    kfrag_providers = remove_provider_from peer frags m.kfrag_providers;
    peers_to_reverie_frags = Map.remove peer m.peers_to_reverie_frags;
  }
]

unfoldable pub get_kfrag_providers : ReverieId → PeerManager → Option (HashSet PeerId)
get_kfrag_providers reverie_id m = Map.get reverie_id m.kfrag_providers

unfoldable pub get_cfrags : ReverieId → PeerManager → Option ReverieCapsulefrag
get_cfrags reverie_id m = Map.get reverie_id m.cfrags

unfoldable pub get_reverie : ReverieId → PeerManager → Option ReverieMessage
get_reverie reverie_id m = Map.get reverie_id m.reverie

unfoldable pub insert_cfrags : ReverieId → ReverieCapsulefrag → PeerManager → PeerManager
insert_cfrags reverie_id cfrag m = record m { cfrags = Map.insert reverie_id cfrag m.cfrags }

unfoldable pub insert_reverie_metadata : ReverieId → AgentVesselInfo → PeerManager → PeerManager
insert_reverie_metadata reverie_id info m = record m {
  reverie_metadata = Map.insert reverie_id info m.reverie_metadata;
}

unfoldable pub insert_reverie : ReverieId → ReverieMessage → PeerManager → PeerManager
insert_reverie reverie_id message m = record m { reverie = Map.insert reverie_id message m.reverie }
