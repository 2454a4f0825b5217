-- ===== src/Network/Fragments.antt =====
-- network_events/request_response_handlers.rs: requests and responses between nodes.
pub mod Release
pub mod Secrecy
use reveries_network.Common.{
  ℕ, String, Bool, true, false, Option, none, some, List, [], ◌∷◌, Result, ok, err, ◌>>=◌, ok_or,
  if◌then◌else◌, ◌==◌, nat_eq, string_eq,
}
use reveries_network.Common.Map
use reveries_network.Types.{
  PeerId, ReverieId, Bytes, ReverieType, AccessKey, ecdsa_signature, umbral_signature,
  ed25519_signature, near_contract_key, eth_contract_key, AgentVesselInfo, ReverieKeyfrag,
  ReverieKeyfragMessage, ReverieMessage, ReverieCapsulefrag, NodeKeysWithVesselStatus,
  active_vessel, FragmentRequest, get_fragment_request, save_fragment_request,
  providing_fragment_request, save_ciphertext_request, mark_respawn_complete_request,
  FragmentResponse, get_fragment_response, save_fragment_response, providing_fragment_response,
  save_ciphertext_response, mark_respawn_complete_response,
}
use reveries_network.Types.Signatures.{verify_access}
use reveries_network.PeerManager.HeartbeatData.{Now}
use reveries_network.PeerManager.{
  agent_name, get_cfrags, set_peer_info_agent_vessel, insert_reverie_metadata, insert_cfrags,
  insert_kfrag_provider, insert_peer_info, insert_reverie, PeerManager,
}
use reveries_network.Network.{
  NetworkEvents, Output, emit, send_request, send_response, put_vessel_status, put_reverie_holder,
  Channel, reply_fragment,
}
use reveries_network.Network.World.{
  World, Stop, no_cfrag, access_denied, invalid_signature, not_implemented, chain_error, put_error,
  send_error, panicked, Verdict, Outcome, respond, put, and_then,
}
use reveries_network.Network.Reincarnation.{mark_pending_respawn_complete}

unfoldable pub spend_verdict : Option Bool → Verdict
spend_verdict none = err chain_error
spend_verdict (some true) = ok tt
spend_verdict (some false) = err access_denied

unfoldable pub signature_verdict : Option Bool → Verdict
signature_verdict none = err panicked
signature_verdict (some true) = ok tt
signature_verdict (some false) = err invalid_signature

-- The match on the access key of a request for the fragment `cfrag` of `id`.
unfoldable pub check_access : World → ReverieId → AccessKey → ReverieCapsulefrag → Verdict
unfolding spend_verdict signature_verdict
check_access w id (near_contract_key contract spender amount) cfrag =
    spend_verdict (w.can_spend contract id spender amount)
check_access w id (ecdsa_signature s) cfrag =
    signature_verdict (verify_access w.primitives (ecdsa_signature s) cfrag.access_condition id)
check_access w id (umbral_signature s) cfrag =
    signature_verdict (verify_access w.primitives (umbral_signature s) cfrag.access_condition id)
check_access w id (ed25519_signature s) cfrag = err not_implemented
check_access w id (eth_contract_key c m a) cfrag = err not_implemented

unfoldable pub get_fragment : World → ReverieId → AccessKey → NetworkEvents → Outcome
unfolding check_access respond
get_fragment w id key n = elim (get_cfrags id n.peer_manager) [
  | none ↦ (n, err no_cfrag)
  | some cfrag ↦
      let answer = respond w panicked (get_fragment_response (w.encode_cfrag cfrag)) n in
      elim (check_access w id key cfrag) [ err stop ↦ (n, err stop) | ok _ ↦ answer ]
]

-- the metadata that a handler keeps where the reverie is an agent
unfoldable pub save_metadata : AgentVesselInfo → PeerManager → PeerManager
save_metadata info m = elim (agent_name info.reverie_type) [
  | none ↦ m
  | some name ↦ insert_reverie_metadata info.reverie_id info (set_peer_info_agent_vessel info m)
]

-- the fragment of the capsule, re-encrypted under a kfrag that its keys verify
unfoldable pub reencrypt_frag : World → ReverieKeyfrag → Result Stop Bytes
reencrypt_frag w f = do
  kfrag ← ok_or (w.keyfrag_from_slice f.umbral_keyfrag) panicked
  verified ←
      ok_or (w.keyfrag_verify kfrag f.source_verifying_pubkey f.source_pubkey f.target_pubkey)
        panicked
  capsule ← ok_or (w.capsule_from_slice f.umbral_capsule) panicked
  ok (w.reencrypt capsule verified)

abbrev pub keyfrag_metadata : ReverieKeyfragMessage → AgentVesselInfo
keyfrag_metadata m = record {
  reverie_id = m.reverie_keyfrag.id;
  reverie_type = m.reverie_keyfrag.reverie_type;
  threshold = m.reverie_keyfrag.threshold;
  total_frags = m.reverie_keyfrag.total_frags;
  current_vessel_peer_id = m.source_peer_id;
  next_vessel_peer_id = m.target_peer_id;
}

abbrev pub capsulefrag : PeerId → ReverieKeyfrag → Bytes → ReverieCapsulefrag
capsulefrag me f cfrag = record {
  id = f.id;
  reverie_type = f.reverie_type;
  frag_num = f.frag_num;
  threshold = f.threshold;
  umbral_capsule_frag = cfrag;
  source_pubkey = f.source_pubkey;
  source_verifying_pubkey = f.source_verifying_pubkey;
  target_pubkey = f.target_pubkey;
  target_verifying_pubkey = f.target_verifying_pubkey;
  access_condition = f.access_condition;
  kfrag_provider_peer_id = me;
}

unfoldable pub save_fragment : World → ReverieKeyfragMessage → NetworkEvents → Outcome
unfolding save_metadata respond emit
save_fragment w m n =
    let f = m.reverie_keyfrag in
    let me = n.node_id.peer_id in
    elim (reencrypt_frag w f) [
      | err stop ↦ (n, err stop)
      | ok cfrag ↦
          let saved = record n {
            peer_manager =
                insert_cfrags f.id (capsulefrag me f (w.cfrag_to_vec cfrag))
                  (save_metadata (keyfrag_metadata m) n.peer_manager);
          } in
          let told =
            emit (send_request m.target_peer_id (providing_fragment_request f.id f.frag_num me))
              saved in
          respond w panicked save_fragment_response told
    ]

unfoldable pub providing_fragment : World → Now → ReverieId → ℕ → PeerId → NetworkEvents → Outcome
unfolding respond
providing_fragment w now id frag_num provider n =
    respond w panicked providing_fragment_response (record n {
      peer_manager =
          insert_peer_info provider now (insert_kfrag_provider provider id frag_num n.peer_manager);
    })

abbrev pub reverie_metadata_of : ReverieMessage → AgentVesselInfo
reverie_metadata_of m = record {
  reverie_id = m.reverie.id;
  reverie_type = m.reverie.reverie_type;
  threshold = m.reverie.threshold;
  total_frags = m.reverie.total_frags;
  current_vessel_peer_id = m.source_peer_id;
  next_vessel_peer_id = m.target_peer_id;
}

-- the vessel status that the node publishes where the reverie is an agent
unfoldable pub publish_active : World → ReverieType → NetworkEvents → Outcome
unfolding put
publish_active w type n = elim (agent_name type) [
  | none ↦ (n, ok tt)
  | some name ↦
      let status : NodeKeysWithVesselStatus = record {
        peer_id = n.node_id.peer_id;
        umbral_public_key = n.node_id.umbral_public_key;
        umbral_verifying_public_key = n.node_id.umbral_verifying_public_key;
        vessel_status = active_vessel;
      } in
      put w panicked (put_vessel_status status) n
]

unfoldable pub save_ciphertext : World → ReverieMessage → NetworkEvents → Outcome
unfolding save_metadata publish_active put respond and_then
save_ciphertext w m n =
    let kept = record n { peer_manager = save_metadata (reverie_metadata_of m) n.peer_manager } in
    and_then (publish_active w m.reverie.reverie_type kept) (λ a.
      let stored = record a { peer_manager = insert_reverie m.reverie.id m a.peer_manager } in
      and_then (put w put_error (put_reverie_holder m.reverie.id m.target_peer_id) stored)
        (λ b. respond w send_error save_ciphertext_response b))

-- A request from another node.
unfoldable pub handle_request : World → Now → FragmentRequest → NetworkEvents → Outcome
unfolding get_fragment save_fragment providing_fragment save_ciphertext
handle_request w now (get_fragment_request id key) n = get_fragment w id key n
handle_request w now (save_fragment_request m) n = save_fragment w m n
handle_request w now (providing_fragment_request id frag_num provider) n =
    providing_fragment w now id frag_num provider n
handle_request w now (save_ciphertext_request m) n = save_ciphertext w m n
handle_request w now (mark_respawn_complete_request id peer name) n =
    respond w send_error mark_respawn_complete_response (mark_pending_respawn_complete peer name n)

-- the answer for the caller that waits on this request, which waits no more
unfoldable pub answer_fragment : ℕ → Result String Bytes → Channel → NetworkEvents → NetworkEvents
answer_fragment request answer channel n =
    emit (reply_fragment channel answer)
      (record n { request_fragments = Map.remove request n.request_fragments })

-- A response to this node's request.
unfoldable pub handle_response : ℕ → FragmentResponse → NetworkEvents → Outcome
unfolding answer_fragment
handle_response request (get_fragment_response answer) n =
    elim (Map.get request n.request_fragments) [
      | none ↦ (n, err panicked)
      | some channel ↦ (answer_fragment request answer channel n, ok tt)
    ]
handle_response request _ n = (n, ok tt)

unfoldable pub handle_outbound_failure : ℕ → String → NetworkEvents → NetworkEvents
unfolding answer_fragment
handle_outbound_failure request error n = elim (Map.get request n.request_fragments) [
  | none ↦ n
  | some channel ↦ answer_fragment request (err error) channel n
]
