-- ===== src/Network/Invariant.antt =====
-- Every handler of network_events leaves the node well-formed, also where it fails.
pub mod Commands
pub mod Discovery
use reveries_network.Common.{
  ℕ, String, ◌≡◌, refl, subst, sym, Bool, true, false, Option, none, some, List, [], ◌∷◌, arith,
  Option-cases, Bool-cases, inl, inr, Result, ok, err, Result-cases, if◌then◌else◌, ◌==◌, string_eq,
  nat_eq,
}
use reveries_network.Common.Map
use reveries_network.Types.{
  PeerId, ReverieId, ReverieNameWithNonce, Bytes, AccessKey, AgentVesselInfo, ReverieType,
  ReverieKeyfragMessage, ReverieMessage, sovereign_agent, FragmentRequest, get_fragment_request,
  save_fragment_request, providing_fragment_request, save_ciphertext_request,
  mark_respawn_complete_request, FragmentResponse, get_fragment_response, save_ciphertext_response,
}
use reveries_network.PeerManager.HeartbeatData.{Now}
use reveries_network.PeerManager.{
  PeerManager, insert_reverie, agent_name, get_cfrags, get_kfrag_providers,
}
use reveries_network.PeerManager.Invariant.{
  WellKept, insert_peer_info-WellKept, update_peer_heartbeat-WellKept, remove_peer_info-WellKept,
  set_peer_info_agent_vessel-WellKept, insert_kfrag_provider-WellKept, insert_cfrags-WellKept,
  insert_reverie_metadata-WellKept, insert_reverie-WellKept,
}
use reveries_network.Network.{NetworkEvents, Output, emit, put_reverie_holder}
use reveries_network.Network.World.{
  World, Stop, Outcome, send_error, put_error, respond, put, and_then,
}
use reveries_network.Network.Reincarnation.{mark_pending_respawn_complete}
use reveries_network.Network.Reincarnation.Ticks.{WellFormed, remove_peer-WellFormed}
use reveries_network.Network.Fragments.{
  reverie_metadata_of, check_access, reencrypt_frag, get_fragment, save_metadata, save_fragment,
  providing_fragment, publish_active, save_ciphertext, handle_request, handle_response,
  handle_outbound_failure,
}

module _ (w : World) (stop : Stop) {n : NetworkEvents} (h : WellFormed n) where
  pub respond-WellFormed : (r : FragmentResponse) → WellFormed (respond w stop r n).0
  unfolding respond emit
  respond-WellFormed r = elim (Bool-cases w.channel_open) [
    | inl waits ↦ rw waits (record { kept = h.kept })
    | inr shut ↦ rw shut (record { kept = h.kept })
  ]

  pub put-WellFormed : (o : Output) → WellFormed (put w stop o n).0
  unfolding put emit
  put-WellFormed o = elim (Bool-cases (w.put_record o)) [
    | inl taken ↦ rw taken (record { kept = h.kept })
    | inr full ↦ rw full (record { kept = h.kept })
  ]

pub and_then-WellFormed :
    (a : Outcome) (k : NetworkEvents → Outcome)
    → WellFormed a.0
    → ((n : NetworkEvents) → WellFormed n → WellFormed (k n).0)
    → WellFormed (and_then a k).0
unfolding and_then
and_then-WellFormed (n, ok _) k h f = f n h
and_then-WellFormed (n, err stop) k h f = h

pub mark_pending_respawn_complete-WellFormed :
    (p : PeerId) (name : ReverieNameWithNonce) (n : NetworkEvents)
    → WellFormed n
    → WellFormed (mark_pending_respawn_complete p name n)
unfolding mark_pending_respawn_complete
mark_pending_respawn_complete-WellFormed p name n h = record {
  kept = remove_peer_info-WellKept (remove_peer-WellFormed p _ (record { kept = h.kept })).kept p;
}

get_fragment-WellFormed :
    (w : World) (id : ReverieId) (key : AccessKey) (n : NetworkEvents)
    → WellFormed n
    → WellFormed (get_fragment w id key n).0
unfolding get_fragment
get_fragment-WellFormed w id key n h = elim (Option-cases (get_cfrags id n.peer_manager)) [
  | inl missing ↦ rw (missing, get_fragment) h
  | inr (f, found) ↦ elim (Result-cases (check_access w id key f)) [
    | inr (u, granted) ↦ rw (found, get_fragment, granted) (respond-WellFormed w _ h _)
    | inl (stop, refused) ↦ rw (found, get_fragment, refused) h
  ]
]

save_metadata-WellKept :
    (info : AgentVesselInfo) (m : PeerManager) → WellKept m → WellKept (save_metadata info m)
unfolding save_metadata
save_metadata-WellKept info m h = elim (Option-cases (agent_name info.reverie_type)) [
  | inl other ↦ rw (other, save_metadata) h
  | inr (name, e) ↦
      rw (e, save_metadata)
        (insert_reverie_metadata-WellKept (set_peer_info_agent_vessel-WellKept h info) _ info)
]

save_fragment-WellFormed :
    (w : World) (m : ReverieKeyfragMessage) (n : NetworkEvents)
    → WellFormed n
    → WellFormed (save_fragment w m n).0
unfolding save_fragment
save_fragment-WellFormed w m n h = elim (Result-cases (reencrypt_frag w m.reverie_keyfrag)) [
  | inl (stop, e) ↦ rw (e, save_fragment) h
  | inr (frag, e) ↦
      rw (e, save_fragment)
        (respond-WellFormed w _
          (unfold emit in
            record { kept = insert_cfrags-WellKept (save_metadata-WellKept _ _ h.kept) _ _ })
          _)
]

publish_active-WellFormed :
    (w : World) (type : ReverieType) (n : NetworkEvents)
    → WellFormed n
    → WellFormed (publish_active w type n).0
unfolding publish_active
publish_active-WellFormed w type n h = elim (Option-cases (agent_name type)) [
  | inl other ↦ rw (other, publish_active) h
  | inr (name, e) ↦ rw (e, publish_active) (put-WellFormed w _ h _)
]

save_ciphertext-WellFormed :
    (w : World) (m : ReverieMessage) (n : NetworkEvents)
    → WellFormed n
    → WellFormed (save_ciphertext w m n).0
unfolding save_ciphertext
save_ciphertext-WellFormed w m n h =
    let info = reverie_metadata_of m in
    let kept = record n { peer_manager = save_metadata info n.peer_manager } in
    let hk : WellFormed kept = record {
      kept = save_metadata-WellKept info n.peer_manager h.kept;
    } in
    let answered = respond w send_error save_ciphertext_response in
    let stored = λ (a : NetworkEvents). record a {
      peer_manager = insert_reverie m.reverie.id m a.peer_manager;
    } in
    let held = put w put_error (put_reverie_holder m.reverie.id m.target_peer_id) in
    and_then-WellFormed (publish_active w m.reverie.reverie_type kept)
      (λ a. and_then (held (stored a)) answered)
      (publish_active-WellFormed w m.reverie.reverie_type kept hk)
      (λ a ha.
        and_then-WellFormed (held (stored a)) answered
          (put-WellFormed w put_error {n = stored a}
            (record { kept = insert_reverie-WellKept ha.kept m.reverie.id m })
            (put_reverie_holder m.reverie.id m.target_peer_id))
          (λ b hb. respond-WellFormed w send_error hb save_ciphertext_response))

-- Whatever another node asks, the node stays well-formed.
pub handle_request-WellFormed :
    (w : World) (now : Now) (r : FragmentRequest) (n : NetworkEvents)
    → WellFormed n
    → WellFormed (handle_request w now r n).0
unfolding handle_request
handle_request-WellFormed w now (get_fragment_request id key) n h =
    get_fragment-WellFormed w id key n h
handle_request-WellFormed w now (save_fragment_request m) n h = save_fragment-WellFormed w m n h
handle_request-WellFormed w now (providing_fragment_request id k p) n h =
    unfold providing_fragment in
    respond-WellFormed w _
      (record {
        kept = insert_peer_info-WellKept (insert_kfrag_provider-WellKept h.kept p id k) p now;
      })
      _
handle_request-WellFormed w now (save_ciphertext_request m) n h = save_ciphertext-WellFormed w m n h
handle_request-WellFormed w now (mark_respawn_complete_request id p name) n h =
    respond-WellFormed w _ (mark_pending_respawn_complete-WellFormed p name n h) _
