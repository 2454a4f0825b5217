-- ===== src/Client/Broadcast.antt =====
-- How a reverie is split into key fragments and handed out: `create_reverie_keyfrags` and
-- `broadcast_reverie_keyfrags` of mod.rs.
use reveries_network.Common.{
  ℕ, suc, ◌+◌, List, [], ◌∷◌, ◌++◌, map, length, take, get_elem?, err, if◌then◌else◌, ltb, Option,
  none, some, ok_or,
}
use reveries_network.Types.{
  PeerId, Bytes, Reverie, ReverieType, sovereign_agent, ReverieKeyfrag, ReverieMessage,
  NodeKeysWithVesselStatus,
}
use reveries_network.Network.Commands.{
  NodeCommand, send_reverie_keyfrag, send_reverie_to_specific_peer, save_reverie_on_network,
}
use reveries_network.Client.{NodeClient, send_failed, panicked, not_enough_peers}
use reveries_network.Client.Run.{Run, ◌>>=◌, lift, send_or}

unfoldable pub keyfrag_of : NodeClient → Reverie → ℕ → Bytes → ReverieKeyfrag
keyfrag_of c reverie i kfrag = record {
  id = reverie.id;
  reverie_type = reverie.reverie_type;
  frag_num = i;
  threshold = reverie.threshold;
  total_frags = reverie.total_frags;
  umbral_keyfrag = c.codec.kfrag_to_vec kfrag;
  umbral_capsule = reverie.umbral_capsule;
  source_pubkey = c.umbral_key.public_key;
  target_pubkey = reverie.target_public_key;
  source_verifying_pubkey = c.umbral_key.verifying_public_key;
  target_verifying_pubkey = reverie.verifying_public_key;
  access_condition = reverie.access_condition;
}

-- the fragments from number `i` on
unfoldable pub enumerate_keyfrags : NodeClient → Reverie → ℕ → List Bytes → List ReverieKeyfrag
unfolding keyfrag_of
enumerate_keyfrags c reverie i [] = []
enumerate_keyfrags c reverie i (kfrag ∷ kfrags) =
    keyfrag_of c reverie i kfrag ∷ enumerate_keyfrags c reverie (suc i) kfrags

unfoldable pub create_reverie_keyfrags : NodeClient → Reverie → List ReverieKeyfrag
unfolding enumerate_keyfrags
create_reverie_keyfrags c reverie = enumerate_keyfrags c reverie 0 (
    c.umbral_key.generate_pre_keyfrags reverie.target_public_key reverie.threshold
      reverie.total_frags)

unfoldable pub keyfrag_command : PeerId → PeerId → PeerId → ReverieKeyfrag → NodeCommand
keyfrag_command me target provider f =
    send_reverie_keyfrag provider
      (record { reverie_keyfrag = f; source_peer_id = me; target_peer_id = target })

-- Fragment `i` goes to provider `i`; an index past the end is a panic.
unfoldable pub keyfrag_commands :
    PeerId
    → PeerId
    → List NodeKeysWithVesselStatus
    → ℕ
    → List ReverieKeyfrag
    → Option (List NodeCommand)
unfolding keyfrag_command
keyfrag_commands me target providers i [] = some []
keyfrag_commands me target providers i (f ∷ fs) =
    let rest = keyfrag_commands me target providers (suc i) fs in
    elim (get_elem? providers i) [
      | none ↦ none
      | some p ↦ elim rest [
        | none ↦ none
        | some cs ↦ some (keyfrag_command me target p.peer_id f ∷ cs)
      ]
    ]

-- What is sent besides the fragments: a sovereign agent only to its vessel, all else to the DHT too.
unfoldable pub reverie_commands : ReverieType → PeerId → ReverieMessage → List NodeCommand
reverie_commands (sovereign_agent name) holder m = send_reverie_to_specific_peer holder m ∷ []
reverie_commands _ holder m =
    save_reverie_on_network m ∷ (send_reverie_to_specific_peer holder m ∷ [])

unfoldable pub message_for :
    NodeClient → Reverie → PeerId → List NodeKeysWithVesselStatus → ReverieMessage
message_for c reverie target providers = record {
  reverie = reverie;
  source_peer_id = c.node_id.peer_id;
  target_peer_id = target;
  keyfrag_providers = map (λ v. v.peer_id) providers;
}

-- The futures of one join are polled in their order.
unfoldable pub send_fragments :
    NodeClient → Reverie → PeerId → List NodeKeysWithVesselStatus → Run Unit
unfolding create_reverie_keyfrags keyfrag_commands reverie_commands message_for
send_fragments c reverie target providers = do
  fragments ← lift (
      ok_or
        (keyfrag_commands c.node_id.peer_id target providers 0 (create_reverie_keyfrags c reverie))
        panicked)
  send_or send_failed c.receiver_open (
      fragments
      ++ reverie_commands reverie.reverie_type target (message_for c reverie target providers))

unfoldable pub broadcast_reverie_keyfrags :
    NodeClient → Reverie → PeerId → List NodeKeysWithVesselStatus → Run Unit
unfolding send_fragments
broadcast_reverie_keyfrags c reverie target providers =
    if ltb (length providers) reverie.total_frags
    then lift (err (not_enough_peers (reverie.total_frags + 1) (length providers + 1)))
    else if ltb reverie.total_frags (length providers)
    then send_fragments c reverie target (take reverie.total_frags providers)
    else send_fragments c reverie target providers
