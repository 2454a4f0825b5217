-- ===== src/Tests/Releases.antt =====
-- Fragments taken in and given out, at concrete inputs.
use reveries_network.Common.{◌⊎◌, ◌≡◌, refl, some, [], ◌∷◌, ok, ◌↔◌, string_eq}
use reveries_network.Common.Map
use reveries_network.Types.{
  ReverieId, get_fragment_request, AccessKey, umbral_signature, umbral, agent, ReverieKeyfrag,
  ReverieKeyfragMessage, ReverieCapsulefrag, get_fragment_response,
}
use reveries_network.PeerManager
use reveries_network.PeerManager.{get_cfrags, insert_cfrags}
use reveries_network.Network.{NetworkEvents, emit, send_response}
use reveries_network.Network.Events.{new}
use reveries_network.Network.Fragments.{
  check_access, handle_request, get_fragment, save_fragment, reencrypt_frag, capsulefrag,
}
use reveries_network.Network.Fragments.Release.{
  Opens, signed, check_access-Opens, get_fragment-save_fragment,
}
use reveries_network.Network.Fragments.Secrecy.{released, handle_request-released}
use reveries_network.Tests.Nodes.{early, me, world}

abbrev keyfrag : ReverieKeyfrag
keyfrag = record {
  id = "reverie_1";
  reverie_type = agent (record { name = "ava"; nonce = 1 });
  frag_num = 0;
  threshold = 2;
  total_frags = 3;
  umbral_keyfrag = 1 ∷ [];
  umbral_capsule = 2 ∷ [];
  source_pubkey = "s";
  source_verifying_pubkey = "sv";
  target_pubkey = "t";
  target_verifying_pubkey = "tv";
  access_condition = umbral "t";
}

abbrev message : ReverieKeyfragMessage
message = record { reverie_keyfrag = keyfrag; source_peer_id = "b"; target_peer_id = "c" }

abbrev stored : ReverieCapsulefrag
stored = capsulefrag "a" keyfrag (2 ∷ 1 ∷ [])

abbrev key : AccessKey
key = umbral_signature (9 ∷ [])

abbrev key-Opens : Opens world "reverie_1" key (umbral "t")
key-Opens = signed (9 ∷ []) (9 ∷ []) "t" refl refl

keyfrag_reencrypts : reencrypt_frag world keyfrag ≡ ok (2 ∷ 1 ∷ [])
unfolding reencrypt_frag
keyfrag_reencrypts = refl

check_access-Opens_example :
    (check_access world "reverie_1" key stored ≡ ok tt) ↔ Opens world "reverie_1" key (umbral "t")
check_access-Opens_example = check_access-Opens world "reverie_1" key stored

abbrev holding : NetworkEvents
holding = record (new me) { peer_manager = insert_cfrags "reverie_1" stored (new me).peer_manager }

holding_stores : get_cfrags "reverie_1" holding.peer_manager ≡ some stored
unfolding get_cfrags insert_cfrags new Map.get Map.insert PeerManager.new
holding_stores = refl

get_fragment-save_fragment_example :
    let n' = (save_fragment world message (new me)).0 in
    get_fragment world "reverie_1" key n' ≡ (
      emit
          (send_response (
            get_fragment_response
              (ok (capsulefrag (new me).node_id.peer_id keyfrag (2 ∷ 1 ∷ [])).umbral_capsule_frag)))
          n',
      ok tt,
    )
get_fragment-save_fragment_example =
    get_fragment-save_fragment world message (new me) (2 ∷ 1 ∷ []) key keyfrag_reencrypts key-Opens
      refl

handle_request-released_example :
    (released (handle_request world early (get_fragment_request "reverie_1" key) holding).0.outbox
      ≡ released holding.outbox)
    ⊎ ((id : ReverieId) × (k : AccessKey) × (f : ReverieCapsulefrag) × (get_fragment_request
            "reverie_1" key
          ≡ get_fragment_request id k)
        × (get_cfrags id holding.peer_manager ≡ some f)
        × Opens world id k f.access_condition)
handle_request-released_example =
    handle_request-released world early (get_fragment_request "reverie_1" key) holding
