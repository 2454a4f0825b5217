-- ===== src/Network/Invariant/Commands.antt =====
-- Every command of the node client leaves the node well-formed.
use reveries_network.Common.{suc, zero, ℕ, List, [], ◌∷◌, Option-cases, inl, inr, ok, string_eq}
use reveries_network.Types.{
  PeerId, ReverieId, ReverieType, sovereign_agent, ReverieNameWithNonce, ReverieMessage,
  save_ciphertext_request,
}
use reveries_network.PeerManager.{agent_name, get_kfrag_providers}
use reveries_network.PeerManager.Invariant.{set_peer_info_agent_vessel-WellKept}
use reveries_network.Network.{NetworkEvents, emit, Channel, put_reverie, send_request}
use reveries_network.Network.World.{World, put, panicked}
use reveries_network.Network.Reincarnation.{mark_pending_respawn_complete}
use reveries_network.Network.Reincarnation.Ticks.{WellFormed}
use reveries_network.Network.Failure.{
  simulate_heartbeat_failure, disconnect_all, count_down, handle_internal_heartbeat_failure,
}
use reveries_network.Network.Commands.{
  start_listening, get_connected_peers, simulate_node_failure, get_node_state, report_usage,
  NodeCommand, handle_command, announce_agent, save_reverie, send_reverie, find_reverie,
  ask_statuses, ask_name, ask_fragment, tell_complete, complete_respawn, send_reverie_keyfrag,
  save_reverie_on_network, send_reverie_to_specific_peer, get_reverie, get_node_vessel_statuses,
  get_reverie_id_by_name, request_capsule_fragment, mark_respawn_complete,
}
use reveries_network.Network.Invariant.{
  put-WellFormed, and_then-WellFormed, mark_pending_respawn_complete-WellFormed,
}

announce_agent-WellFormed :
    (w : World) (m : ReverieMessage) (n : NetworkEvents)
    → WellFormed n
    → WellFormed (announce_agent w m n).0
unfolding announce_agent
announce_agent-WellFormed w m n h = elim (Option-cases (agent_name m.reverie.reverie_type)) [
  | inl other ↦ rw (other, announce_agent) h
  | inr (name, e) ↦
      rw (e, announce_agent)
        (put-WellFormed w _ (record { kept = set_peer_info_agent_vessel-WellKept h.kept _ }) _)
]

find_reverie-WellFormed :
    (id : ReverieId) (type : ReverieType) (c : Channel) (n : NetworkEvents)
    → WellFormed n
    → WellFormed (find_reverie id type c n)
unfolding find_reverie emit
find_reverie-WellFormed id (sovereign_agent name) c n h = record { kept = h.kept }
find_reverie-WellFormed id _ c n h = record { kept = h.kept }

ask_statuses-WellFormed :
    (ps : List PeerId) (c : Channel) (n : NetworkEvents)
    → WellFormed n
    → WellFormed (ask_statuses ps c n)
unfolding ask_statuses emit
ask_statuses-WellFormed [] c n h = h
ask_statuses-WellFormed (p ∷ ps) c n h = ask_statuses-WellFormed ps c _ (record { kept = h.kept })

tell_complete-WellFormed :
    (ps : List PeerId) (id : ReverieId) (p : PeerId) (name : ReverieNameWithNonce)
    (n : NetworkEvents)
    → WellFormed n
    → WellFormed (tell_complete ps id p name n)
unfolding tell_complete emit
tell_complete-WellFormed [] id p name n h = h
tell_complete-WellFormed (q ∷ ps) id p name n h =
    tell_complete-WellFormed ps id p name _ (record { kept = h.kept })

complete_respawn-WellFormed :
    (id : ReverieId) (p : PeerId) (name : ReverieNameWithNonce) (n : NetworkEvents)
    → WellFormed n
    → WellFormed (complete_respawn id p name n)
unfolding complete_respawn
complete_respawn-WellFormed id p name n h =
    let marked = mark_pending_respawn_complete p name n in
    let hm = mark_pending_respawn_complete-WellFormed p name n h in
    elim (Option-cases (get_kfrag_providers id marked.peer_manager)) [
      | inl e ↦ rw (e, complete_respawn) hm
      | inr (ps, e) ↦ rw (e, complete_respawn) (tell_complete-WellFormed ps id p name marked hm)
    ]

-- Whatever the node client commands, the node stays well-formed.
pub handle_command-WellFormed :
    (w : World) (connected : List PeerId) (request : ℕ) (c : NodeCommand) (n : NetworkEvents)
    → WellFormed n
    → WellFormed (handle_command w connected request c n).0
unfolding handle_command
handle_command-WellFormed w ps k (send_reverie_keyfrag provider m) n h =
    unfold emit in record { kept = h.kept }
handle_command-WellFormed w ps k (save_reverie_on_network m) n h =
    unfold save_reverie in
    and_then-WellFormed (announce_agent w m n) (put w panicked (put_reverie m))
      (announce_agent-WellFormed w m n h) (λ a ha. put-WellFormed w panicked ha (put_reverie m))
handle_command-WellFormed w ps k (send_reverie_to_specific_peer holder m) n h =
    unfold send_reverie in
    and_then-WellFormed (announce_agent w m n)
      (λ a. (emit (send_request holder (save_ciphertext_request m)) a, ok tt))
      (announce_agent-WellFormed w m n h) (λ a ha. unfold emit in record { kept = ha.kept })
handle_command-WellFormed w ps k (get_reverie id type c) n h = find_reverie-WellFormed id type c n h
handle_command-WellFormed w ps k (get_node_vessel_statuses c) n h = ask_statuses-WellFormed ps c n h
handle_command-WellFormed w ps k (get_reverie_id_by_name name c) n h =
    unfold ask_name emit in record { kept = h.kept }
handle_command-WellFormed w ps k (request_capsule_fragment id provider key c) n h =
    unfold ask_fragment emit in record { kept = h.kept }
handle_command-WellFormed w ps k (mark_respawn_complete id p name) n h =
    complete_respawn-WellFormed id p name n h
handle_command-WellFormed w ps k (start_listening addr c) n h =
    unfold emit in record { kept = h.kept }
handle_command-WellFormed w ps k (get_connected_peers c) n h =
    unfold emit in record { kept = h.kept }
handle_command-WellFormed w ps k (simulate_node_failure c reason) n h =
    unfold simulate_heartbeat_failure emit in record { kept = h.kept }
handle_command-WellFormed w ps k (get_node_state c) n h = unfold emit in record { kept = h.kept }
handle_command-WellFormed w ps k (report_usage c) n h = unfold emit in record { kept = h.kept }

disconnect_all-WellFormed :
    (ps : List PeerId) (n : NetworkEvents) → WellFormed n → WellFormed (disconnect_all ps n)
unfolding disconnect_all
disconnect_all-WellFormed [] n h = h
disconnect_all-WellFormed (p ∷ ps) n h =
    disconnect_all-WellFormed ps _ (unfold emit in record { kept = h.kept })

count_down-WellFormed :
    (seconds : ℕ) (n : NetworkEvents) → WellFormed n → WellFormed (count_down seconds n)
unfolding count_down
count_down-WellFormed zero n h = h
count_down-WellFormed (suc seconds) n h =
    count_down-WellFormed seconds _ (unfold emit in record { kept = h.kept })

pub handle_internal_heartbeat_failure-WellFormed :
    (connected : List PeerId) (seconds : ℕ) (n : NetworkEvents)
    → WellFormed n
    → WellFormed (handle_internal_heartbeat_failure connected seconds n)
unfolding handle_internal_heartbeat_failure
handle_internal_heartbeat_failure-WellFormed ps seconds n h =
    let left =
      count_down-WellFormed seconds (disconnect_all ps n) (disconnect_all-WellFormed ps n h) in
    unfold emit in record { kept = left.kept }
