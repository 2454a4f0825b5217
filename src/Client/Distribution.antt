-- ===== src/Client/Distribution.antt =====
-- What becomes of a broadcast: the commands of the client, as the event loop carries them out.
pub mod Running
pub mod Delivered
use reveries_network.Common.{
  ℕ, suc, zero, ◌+◌, ◌≤◌, ◌<◌, ◌≡◌, refl, List, [], ◌∷◌, ◌++◌, length, take, take-all, length-take,
  get_elem?, get_elem?-take, get_elem?-lt, subst, All, some, ok, err, true, false, arith,
  append_assoc, append-nil, ltb, Result-cases, Option-cases, inl, inr, Bool-cases, sym, ap, ◌∙◌,
}
use reveries_network.Types.{
  PeerId, Bytes, Reverie, ReverieType, sovereign_agent, ReverieKeyfragMessage, ReverieMessage,
  NodeKeysWithVesselStatus, save_fragment_request,
}
use reveries_network.PeerManager.{agent_name}
use reveries_network.Network.{NetworkEvents, Output, put_name, put_reverie, emit, send_request}
use reveries_network.Network.World.{World, put, panicked, and_then, Outcome}
use reveries_network.Network.Commands.{
  NodeCommand, send_reverie_keyfrag, save_reverie_on_network, send_reverie_to_specific_peer,
  handle_command, save_reverie, send_reverie, announce_agent,
}
use reveries_network.Client.{NodeClient}
use reveries_network.Client.Broadcast.{
  keyfrag_of, enumerate_keyfrags, create_reverie_keyfrags, keyfrag_commands, keyfrag_command,
  reverie_commands, message_for, send_fragments, broadcast_reverie_keyfrags,
}

-- the key fragments that are generated for the reverie
abbrev pub kfrags : NodeClient → Reverie → List Bytes
kfrags c reverie =
    c.umbral_key.generate_pre_keyfrags reverie.target_public_key reverie.threshold
      reverie.total_frags

-- The event loop takes the commands in their order, and ends at one that fails.
unfoldable pub run_commands :
    World → List PeerId → ℕ → List NodeCommand → NetworkEvents → NetworkEvents
run_commands w connected request [] n = n
run_commands w connected request (c ∷ cs) n =
    let (m, verdict) = handle_command w connected request c n in
    let rest = run_commands w connected (suc request) cs m in
    elim verdict [ ok _ ↦ rest | err _ ↦ m ]

-- the key fragments among what a node has sent, with their receivers
abbrev pub deliveries : List Output → List (PeerId × ReverieKeyfragMessage)
deliveries [] = []
deliveries (send_request p (save_fragment_request m) ∷ os) = (p, m) ∷ deliveries os
deliveries (_ ∷ os) = deliveries os

pub deliveries-append :
    (xs ys : List Output) → deliveries (xs ++ ys) ≡ deliveries xs ++ deliveries ys
deliveries-append [] ys = refl
deliveries-append (send_request p (save_fragment_request m) ∷ os) ys = rw (deliveries-append os ys)
deliveries-append (_ ∷ os) ys = deliveries-append os ys

abbrev pub keyfrag_sends : List (PeerId × ReverieKeyfragMessage) → List NodeCommand
keyfrag_sends [] = []
keyfrag_sends ((p, m) ∷ ds) = send_reverie_keyfrag p m ∷ keyfrag_sends ds

module _ (me target : PeerId) (c : NodeClient) (reverie : Reverie) where
  -- what provider `p` is to get: fragment number `i` of the reverie, under the key `b`
  abbrev pub delivery : ℕ → Bytes → NodeKeysWithVesselStatus → PeerId × ReverieKeyfragMessage
  delivery i b p = (
    p.peer_id,
    record {
      reverie_keyfrag = record {
        id = reverie.id;
        reverie_type = reverie.reverie_type;
        frag_num = i;
        threshold = reverie.threshold;
        total_frags = reverie.total_frags;
        umbral_keyfrag = c.codec.kfrag_to_vec b;
        umbral_capsule = reverie.umbral_capsule;
        source_pubkey = c.umbral_key.public_key;
        source_verifying_pubkey = c.umbral_key.verifying_public_key;
        target_pubkey = reverie.target_public_key;
        target_verifying_pubkey = reverie.verifying_public_key;
        access_condition = reverie.access_condition;
      };
      source_peer_id = me;
      target_peer_id = target;
    },
  )

  -- the fragments from number `i` on, paired off with the providers
  abbrev pub handed :
      ℕ → List Bytes → List NodeKeysWithVesselStatus → List (PeerId × ReverieKeyfragMessage)
  handed i [] ps = []
  handed i (b ∷ bs) [] = []
  handed i (b ∷ bs) (p ∷ ps) = delivery i b p ∷ handed (suc i) bs ps

  pub keyfrag_commands-handed :
      (all : List NodeKeysWithVesselStatus) (i : ℕ) (bs : List Bytes)
      (ps : List NodeKeysWithVesselStatus)
      → ((j : ℕ) → get_elem? all (i + j) ≡ get_elem? ps j)
      → length bs ≤ length ps
      → keyfrag_commands me target all i (enumerate_keyfrags c reverie i bs)
        ≡ some (keyfrag_sends (handed i bs ps))
  unfolding keyfrag_commands enumerate_keyfrags keyfrag_command keyfrag_of
  keyfrag_commands-handed all i [] ps at enough = refl
  keyfrag_commands-handed all i (b ∷ bs) [] at enough = absurd (omega arith)
  keyfrag_commands-handed all i (b ∷ bs) (p ∷ ps) at enough =
      let here : get_elem? all i ≡ some p =
        subst (λ k. get_elem? all k ≡ some p) (omega arith) (at 0) in
      let later : (j : ℕ) → get_elem? all (suc i + j) ≡ get_elem? ps j =
        λ j. subst (λ k. get_elem? all k ≡ get_elem? ps j) (omega arith) (at (suc j)) in
      rw (here, keyfrag_commands, keyfrag_commands-handed all (suc i) bs ps later (omega arith))
        refl

  -- Delivery `j` is fragment `i + j` for provider `j`.
  pub handed-get :
      (i j : ℕ) (bs : List Bytes) (ps : List NodeKeysWithVesselStatus) (b : Bytes)
      (p : NodeKeysWithVesselStatus)
      → get_elem? bs j ≡ some b
      → get_elem? ps j ≡ some p
      → get_elem? (handed i bs ps) j ≡ some (delivery (i + j) b p)
  handed-get i j [] ps b p hb hp = cc
  handed-get i j (d ∷ bs) [] b p hb hp = cc
  handed-get i zero (d ∷ bs) (q ∷ ps) b p hb hp =
      let numbered : i ≡ i + 0 = omega arith in
      let same : d ≡ b = cc in
      let same_peer : q ≡ p = cc in λ t. some (delivery (numbered t) (same t) (same_peer t))
  handed-get i (suc j) (d ∷ bs) (q ∷ ps) b p hb hp =
      let numbered : suc i + j ≡ i + suc j = omega arith in
      handed-get (suc i) j bs ps b p hb hp ∙ ap (λ k. some (delivery k b p)) numbered

  pub handed-length :
      (i : ℕ) (bs : List Bytes) (ps : List NodeKeysWithVesselStatus)
      → length bs ≤ length ps
      → length (handed i bs ps) ≡ length bs
  handed-length i [] ps h = refl
  handed-length i (b ∷ bs) [] h = absurd (omega arith)
  handed-length i (b ∷ bs) (p ∷ ps) h = omega (arith, handed-length (suc i) bs ps)
