-- ===== src/Tests/Nodes.antt =====
-- A node and its event loop at concrete inputs.
use reveries_network.Common.{
  List, ◌≡◌, refl, ap, true, false, none, some, [], ◌∷◌, ◌++◌, ok, All, if◌then◌else◌, ◌==◌,
  string_eq,
}
use reveries_network.Common.Map
use reveries_network.Common.Map.{HashMap}
use reveries_network.Common.HashSet
use reveries_network.Types.{
  PeerId, AgentVesselInfo, ReverieNameWithNonce, agent, RespawnId, respawn_eq,
}
use reveries_network.PeerManager.HeartbeatData
use reveries_network.PeerManager.HeartbeatData.{Now}
use reveries_network.PeerManager
use reveries_network.PeerManager.{PeerManager, PeerInfo, new_peer_info}
use reveries_network.Network.{NodeIdentity, NetworkEvents}
use reveries_network.Network.World.{World}
use reveries_network.Network.Discovery.{connection_established, handle_swarm_event}
use reveries_network.Network.Events.{
  Reachable, start, turn, swarm_event, new, Reachable-WellFormed,
  Reachable-handle_peer_heartbeat_failure,
}
use reveries_network.Network.Reincarnation.{
  handle_peer_heartbeat_failure, mark_pending_respawn_complete, pending_respawn,
}
use reveries_network.Network.Reincarnation.Closed.{heard}
use reveries_network.Network.Reincarnation.Ticks.{requests, due, lost, WellFormed}
use reveries_network.Network.Reincarnation.Takeover.{
  handle_peer_heartbeat_failure_lem, handle_peer_heartbeat_failure-twice,
  handle_peer_heartbeat_failure-apart, mark_pending_respawn_complete-pending_respawn,
}

abbrev pub me : NodeIdentity
me = record {
  node_name = "alice";
  peer_id = "a";
  umbral_public_key = "pk";
  umbral_verifying_public_key = "vk";
}

abbrev pub early : Now
early = record { instant = 0; system = 0 }

abbrev pub world : World
world = record {
  primitives = record {
    keccak256 = λ id. 7 ∷ [];
    umbral_signature_from_slice = λ s. some s;
    umbral_signature_verify = λ s key hash. true;
    ecdsa_signature_try_from = λ s. none;
    recover_address_from_prehash = λ s hash. none;
  };
  keyfrag_from_slice = λ s. some s;
  keyfrag_verify = λ s a b c. some s;
  capsule_from_slice = λ s. some s;
  reencrypt = λ capsule kfrag. capsule ++ kfrag;
  cfrag_to_vec = λ s. s;
  encode_cfrag = λ f. ok f.umbral_capsule_frag;
  can_spend = λ contract id spender amount. some true;
  channel_open = true;
  put_record = λ o. true;
  listen_on = λ addr. none;
}

abbrev met : NetworkEvents
met = (handle_swarm_event world early (connection_established "b") (new me)).0

abbrev met-Reachable : Reachable met
met-Reachable =
    turn (new me) met (start me) (swarm_event world early (connection_established "b") (new me))

Reachable-WellFormed_example : WellFormed met
Reachable-WellFormed_example = Reachable-WellFormed met met-Reachable

Reachable-handle_peer_heartbeat_failure_example :
    (n' : NetworkEvents) × Reachable n'
    × (handle_peer_heartbeat_failure false 5 9 met
        ≡ heard false (due met.node_id.peer_id 5 9 met.peer_manager.peer_info) (ok n'))
Reachable-handle_peer_heartbeat_failure_example =
    Reachable-handle_peer_heartbeat_failure met met-Reachable false 5 9

abbrev pub hosted : AgentVesselInfo
hosted = record {
  reverie_id = "reverie_1";
  reverie_type = agent (record { name = "ava"; nonce = 1 });
  threshold = 2;
  total_frags = 3;
  current_vessel_peer_id = "b";
  next_vessel_peer_id = "a";
}

abbrev silent : PeerInfo
silent = record (new_peer_info "b" 10 early) { agent_vessel = some hosted }

abbrev table : HashMap PeerId PeerInfo
table = ("b", silent) ∷ []

-- A node that knows of one peer, which hosts an agent and names this node as the next vessel.
abbrev watching : NetworkEvents
watching = record (new me) {
  peer_manager = record (PeerManager.new "alice" "a") { peer_info = table };
}

watching-WellFormed : WellFormed watching
unfolding PeerManager.new new_peer_info Map.get new HashSet.contains PeerManager.agent_name
watching-WellFormed = record {
  kept = record {
    is_sound = record { sound = ((refl, refl), tt) };
    is_distinct = (refl, tt);
    is_consistent = record { agree = λ p r. refl };
  };
}

handle_peer_heartbeat_failure_lem_example :
    (n' : NetworkEvents) × (handle_peer_heartbeat_failure true 5 9 watching ≡ ok n')
    × WellFormed n'
    × (n'.node_id ≡ watching.node_id)
    × (requests n'.outbox
        ≡ requests watching.outbox
          ++ due watching.node_id.peer_id 5 9 watching.peer_manager.peer_info)
    × ((q : PeerId)
        → Map.get q n'.peer_manager.peer_info ≡ (
            if lost watching.node_id.peer_id 5 9 (Map.get q watching.peer_manager.peer_info)
            then none
            else Map.get q watching.peer_manager.peer_info))
handle_peer_heartbeat_failure_lem_example =
    handle_peer_heartbeat_failure_lem 5 9 watching watching-WellFormed

handle_peer_heartbeat_failure-twice_example :
    (n1 n2 : NetworkEvents) × (handle_peer_heartbeat_failure true 5 9 watching ≡ ok n1)
    × (handle_peer_heartbeat_failure true 5 9 n1 ≡ ok n2)
    × (requests n2.outbox ≡ requests n1.outbox)
handle_peer_heartbeat_failure-twice_example =
    handle_peer_heartbeat_failure-twice 5 9 watching watching-WellFormed

due_watching : due "a" 5 9 table ≡ hosted ∷ []
unfolding new_peer_info HeartbeatData.new HeartbeatData.duration_since_last_heartbeat
due_watching = refl

a-ne-c : ¬ (◌≡◌ {A = PeerId} "a" "c")
a-ne-c e = let bad : true ≡ false = ap (λ (s : PeerId). s == "a") e in cc

abbrev other : NodeIdentity
other = record me { peer_id = "c" }

abbrev watching_too : NetworkEvents
watching_too = record watching { node_id = other }

handle_peer_heartbeat_failure-apart_example :
    (n' m' : NetworkEvents) × (vs ws : List AgentVesselInfo) × (handle_peer_heartbeat_failure true 5
        9 watching
      ≡ ok n')
    × (handle_peer_heartbeat_failure true 5 12 watching_too ≡ ok m')
    × (requests n'.outbox ≡ requests watching.outbox ++ vs)
    × (requests m'.outbox ≡ requests watching_too.outbox ++ ws)
    × All (λ v. All (λ w. ¬ (v.reverie_id ≡ w.reverie_id)) ws) vs
unfolding new
handle_peer_heartbeat_failure-apart_example =
    handle_peer_heartbeat_failure-apart watching watching_too 5 9 12 watching-WellFormed
      (record { kept = watching-WellFormed.kept }) a-ne-c (((λ same. refl), tt), tt)

mark_pending_respawn_complete-pending_respawn_example :
    let name : ReverieNameWithNonce = record { name = "ava"; nonce = 1 } in
    let id : RespawnId = record { prev_agent = name; next_vessel_peer_id = "b" } in
    let n' = mark_pending_respawn_complete "b" name (pending_respawn hosted name watching) in
    (HashSet.contains id n'.respawns ≡ false) × (Map.get "b" n'.peer_manager.peer_info ≡ none)
mark_pending_respawn_complete-pending_respawn_example =
    mark_pending_respawn_complete-pending_respawn hosted (record { name = "ava"; nonce = 1 })
      watching
      (record { prev_agent = record { name = "ava"; nonce = 1 }; next_vessel_peer_id = "b" }) "b"
