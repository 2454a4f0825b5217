-- ===== src/Network/Commands.antt =====
-- network_events/command_handlers.rs: the commands of the node client.
use reveries_network.Common.{
  ℕ, String, Option, Result, err, none, some, List, [], ◌∷◌, ok, string_eq, nat_eq,
}
use reveries_network.Common.Map
use reveries_network.Types.{
  PeerId, ReverieId, ReverieType, sovereign_agent, ReverieNameWithNonce, name_to_string, AccessKey,
  ReverieMessage, ReverieKeyfragMessage, get_fragment_request, save_fragment_request,
  save_ciphertext_request, mark_respawn_complete_request,
}
use reveries_network.Types.Kademlia.{node_status_to_string, name_key_to_string}
use reveries_network.PeerManager
use reveries_network.PeerManager.{agent_name, set_peer_info_agent_vessel, get_kfrag_providers}
use reveries_network.Network.{
  NetworkEvents, Channel, RestartReason, emit, reply_listening, reply_peers, reply_failure,
  reply_node_state, reply_usage, send_request, put_name, put_reverie, get_record, reply_reverie,
}
use reveries_network.Network.World.{World, panicked, Outcome, put, and_then}
use reveries_network.Network.Fragments.{reverie_metadata_of}
use reveries_network.Network.Reincarnation.{mark_pending_respawn_complete}
use reveries_network.Network.Failure.{simulate_heartbeat_failure}

pub data NodeCommand : Type 0 where
  send_reverie_keyfrag : PeerId → ReverieKeyfragMessage → NodeCommand
  save_reverie_on_network : ReverieMessage → NodeCommand
  send_reverie_to_specific_peer : PeerId → ReverieMessage → NodeCommand
  get_reverie : ReverieId → ReverieType → Channel → NodeCommand
  get_node_vessel_statuses : Channel → NodeCommand
  get_reverie_id_by_name : ReverieNameWithNonce → Channel → NodeCommand
  request_capsule_fragment : ReverieId → PeerId → AccessKey → Channel → NodeCommand
  mark_respawn_complete : ReverieId → PeerId → ReverieNameWithNonce → NodeCommand
  start_listening : String → Channel → NodeCommand
  get_connected_peers : Channel → NodeCommand
  simulate_node_failure : Channel → RestartReason → NodeCommand
  get_node_state : Channel → NodeCommand
  report_usage : Channel → NodeCommand

-- the agent's vessel is kept, and its name is put on the DHT
unfoldable pub announce_agent : World → ReverieMessage → NetworkEvents → Outcome
announce_agent w m n = elim (agent_name m.reverie.reverie_type) [
  | none ↦ (n, ok tt)
  | some name ↦ put w panicked (put_name name m.reverie.id) (record n {
    peer_manager = set_peer_info_agent_vessel (reverie_metadata_of m) n.peer_manager;
  })
]

unfoldable pub save_reverie : World → ReverieMessage → NetworkEvents → Outcome
unfolding announce_agent put and_then
save_reverie w m n = and_then (announce_agent w m n) (put w panicked (put_reverie m))

unfoldable pub send_reverie : World → PeerId → ReverieMessage → NetworkEvents → Outcome
unfolding announce_agent and_then
send_reverie w holder m n =
    and_then (announce_agent w m n)
      (λ a. (emit (send_request holder (save_ciphertext_request m)) a, ok tt))

-- A sovereign agent is looked up on this node, all else on the network.
unfoldable pub find_reverie : ReverieId → ReverieType → Channel → NetworkEvents → NetworkEvents
find_reverie id (sovereign_agent name) sender n =
    emit (reply_reverie sender (PeerManager.get_reverie id n.peer_manager)) n
find_reverie id _ sender n =
    emit (get_record id)
      (record n { get_reverie_from_network = Map.insert id sender n.get_reverie_from_network })

unfoldable pub ask_statuses : List PeerId → Channel → NetworkEvents → NetworkEvents
ask_statuses [] sender n = n
ask_statuses (p ∷ ps) sender n = ask_statuses ps sender (
    emit (get_record (node_status_to_string p))
      (record n { get_node_vessels = Map.insert p sender n.get_node_vessels }))

unfoldable pub ask_name : String → Channel → NetworkEvents → NetworkEvents
ask_name name sender n =
    emit (get_record (name_key_to_string name))
      (record n { get_reverie_agent_name = Map.insert name sender n.get_reverie_agent_name })

unfoldable pub ask_fragment :
    ℕ → ReverieId → PeerId → AccessKey → Channel → NetworkEvents → NetworkEvents
ask_fragment request id provider key sender n =
    let sent = emit (send_request provider (get_fragment_request id key)) n in
    record sent { request_fragments = Map.insert request sender sent.request_fragments }

unfoldable pub tell_complete :
    List PeerId → ReverieId → PeerId → ReverieNameWithNonce → NetworkEvents → NetworkEvents
tell_complete [] id peer name n = n
tell_complete (p ∷ ps) id peer name n =
    tell_complete ps id peer name
      (emit (send_request p (mark_respawn_complete_request id peer name)) n)

unfoldable pub complete_respawn :
    ReverieId → PeerId → ReverieNameWithNonce → NetworkEvents → NetworkEvents
unfolding tell_complete
complete_respawn id peer name n =
    let marked = mark_pending_respawn_complete peer name n in
    elim (get_kfrag_providers id marked.peer_manager) [
      | none ↦ marked
      | some providers ↦ tell_complete providers id peer name marked
    ]

unfoldable pub listening : String → Option String → Result String String
listening addr none = ok addr
listening addr (some e) = err e

-- `connected` are the peers that the swarm is connected to, and `request` the id that it gives to
-- the request that the command makes.
unfoldable pub handle_command : World → List PeerId → ℕ → NodeCommand → NetworkEvents → Outcome
unfolding save_reverie send_reverie find_reverie ask_statuses ask_name ask_fragment complete_respawn
    listening simulate_heartbeat_failure
handle_command w connected request (send_reverie_keyfrag provider m) n =
    (emit (send_request provider (save_fragment_request m)) n, ok tt)
handle_command w connected request (save_reverie_on_network m) n = save_reverie w m n
handle_command w connected request (send_reverie_to_specific_peer holder m) n =
    send_reverie w holder m n
handle_command w connected request (get_reverie id type sender) n =
    (find_reverie id type sender n, ok tt)
handle_command w connected request (get_node_vessel_statuses sender) n =
    (ask_statuses connected sender n, ok tt)
handle_command w connected request (get_reverie_id_by_name name sender) n =
    (ask_name (name_to_string name) sender n, ok tt)
handle_command w connected request (request_capsule_fragment id provider key sender) n =
    (ask_fragment request id provider key sender n, ok tt)
handle_command w connected request (mark_respawn_complete id peer name) n =
    (complete_respawn id peer name n, ok tt)
handle_command w connected request (start_listening addr sender) n =
    (emit (reply_listening sender (listening addr (w.listen_on addr))) n, ok tt)
handle_command w connected request (get_connected_peers sender) n =
    (emit (reply_peers sender connected) n, ok tt)
handle_command w connected request (simulate_node_failure sender reason) n =
    (simulate_heartbeat_failure (emit (reply_failure sender reason) n), ok tt)
handle_command w connected request (get_node_state sender) n =
    (emit (reply_node_state sender) n, ok tt)
handle_command w connected request (report_usage sender) n =
    (emit (reply_usage sender "tx_id") n, ok tt)
