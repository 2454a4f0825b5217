-- ===== src/Client/Recovery/Answering.antt =====
-- What the providers of a spawned reverie answer, and how its target reads the answers.
use reveries_network.Common.{
  suc, ◌≤◌, ◌≡◌, refl, String, List, [], ◌∷◌, map, length, All, some, Result, ok, err, true, false,
  ap, ◌∙◌, ltb, arith,
}
use reveries_network.Types.{
  Bytes, umbral, Reverie, ReverieKeyfragMessage, ReverieCapsulefrag, get_fragment_request,
  save_fragment_request,
}
use reveries_network.PeerManager.HeartbeatData.{Now}
use reveries_network.Network.{emit}
use reveries_network.Network.World.{World, Outcome}
use reveries_network.Network.Fragments.{handle_request, reencrypt_frag, capsulefrag}
use reveries_network.Network.Fragments.Release.{Opens, signed, get_fragment-save_fragment}
use reveries_network.Client.{NodeClient}
use reveries_network.Client.Broadcast.{keyfrag_of}
use reveries_network.Client.Cfrags.{
  parse_cfrag, parse_all, answered, parse_cfrags, required_threshold, first_keys, ParsedCfrags,
}
use reveries_network.Client.Spawn.{signed_key}
use reveries_network.Client.Recovery.{
  answer_from, answer_from-response, Verifies, Reverifies, UmbralLaws, Provider,
}

module _ (alice bob : NodeClient) (w : World) (now : Now) (reverie : Reverie)
    (capsule : Bytes) where
  abbrev pub handed_to : Provider → ReverieKeyfragMessage
  handed_to p = record {
    reverie_keyfrag = keyfrag_of alice reverie p.number p.kfrag;
    source_peer_id = alice.node_id.peer_id;
    target_peer_id = bob.node_id.peer_id;
  }

  -- the fragment that the node makes of it
  abbrev pub made_by : Provider → ReverieCapsulefrag
  made_by p =
      capsulefrag p.node.node_id.peer_id (keyfrag_of alice reverie p.number p.kfrag)
        (w.cfrag_to_vec (w.reencrypt capsule p.kfrag))

  -- what the node answers to the target, after it has taken the fragment in
  abbrev pub answer_of : Provider → Result String Bytes
  answer_of p =
      let holding = (handle_request w now (save_fragment_request (handed_to p)) p.node).0 in
      answer_from (err "no answer")
        (handle_request w now (get_fragment_request reverie.id (signed_key bob reverie.id))
          holding).0.outbox

  -- The target reads the node's fragment as the node wrote it.
  abbrev pub IsReadable : Provider → Type 0
  IsReadable p =
      (bytes : Bytes) × (w.encode_cfrag (made_by p) ≡ ok bytes)
      × (bob.codec.capsulefrag_from_slice bytes ≡ some (made_by p))

  abbrev contents : List Provider → List (Bytes × ReverieCapsulefrag)
  contents [] = []
  contents (p ∷ ps) = (w.reencrypt capsule p.kfrag, made_by p) ∷ contents ps

  module _ (laws : UmbralLaws alice bob w)
      (capsule_is : reverie.umbral_capsule ≡ alice.codec.capsule_to_vec capsule)
      (to_bob : reverie.target_public_key ≡ bob.umbral_key.public_key)
      (for_bob : reverie.access_condition ≡ umbral bob.umbral_key.verifying_public_key)
      (waits : w.channel_open ≡ true) where
    reencrypt_frag-handed_to :
        (p : Provider)
        → Verifies alice bob w p.kfrag
        → reencrypt_frag w (keyfrag_of alice reverie p.number p.kfrag)
          ≡ ok (w.reencrypt capsule p.kfrag)
    unfolding reencrypt_frag keyfrag_of
    reencrypt_frag-handed_to p v =
        rw
          (
            laws.kfrag_read p.kfrag,
            reencrypt_frag,
            to_bob,
            v,
            capsule_is,
            laws.capsule_read capsule,
          )
          refl

    signed_key-Opens :
        Opens w reverie.id (signed_key bob reverie.id) (umbral bob.umbral_key.verifying_public_key)
    unfolding signed_key
    signed_key-Opens =
        signed _ (bob.umbral_key.sign (bob.codec.keccak256 reverie.id)) _ (laws.signature_read _)
          (rw (laws.same_hash reverie.id) (laws.signature_verifies _))

    answer_of_lem :
        (p : Provider) → Verifies alice bob w p.kfrag → answer_of p ≡ w.encode_cfrag (made_by p)
    unfolding handle_request emit keyfrag_of
    answer_of_lem p v =
        let made = w.reencrypt capsule p.kfrag in
        let opens : Opens w reverie.id (signed_key bob reverie.id) reverie.access_condition =
          rw for_bob signed_key-Opens in
        let given =
          get_fragment-save_fragment w (handed_to p) p.node made (signed_key bob reverie.id)
            (reencrypt_frag-handed_to p v) opens waits in
        ap (λ (o : Outcome). answer_from (err "no answer") o.0.outbox) given
        ∙ answer_from-response (err "no answer") (w.encode_cfrag (made_by p))
            (handle_request w now (save_fragment_request (handed_to p)) p.node).0.outbox

    parse_cfrag-answer_of :
        (p : Provider)
        → IsReadable p
        → Verifies alice bob w p.kfrag
        → Reverifies alice bob w capsule p.kfrag
        → parse_cfrag bob.codec capsule (answer_of p) ≡ ok (w.reencrypt capsule p.kfrag, made_by p)
    unfolding parse_cfrag answered keyfrag_of
    parse_cfrag-answer_of p (bytes, written, read) v cv =
        rw
          (
            answer_of_lem p v,
            written,
            parse_cfrag,
            read,
            laws.cfrag_read (w.reencrypt capsule p.kfrag),
            to_bob,
            cv,
          )
          refl

    parse_all-answer_of :
        (ps : List Provider)
        → All IsReadable ps
        → All (Verifies alice bob w) (map (λ p. p.kfrag) ps)
        → All (Reverifies alice bob w capsule) (map (λ p. p.kfrag) ps)
        → parse_all bob.codec capsule (map answer_of ps) ≡ ok (contents ps)
    unfolding parse_all
    parse_all-answer_of [] r v cv = refl
    parse_all-answer_of (p ∷ ps) r v cv =
        rw (parse_cfrag-answer_of p r.0 v.0 cv.0, parse_all, parse_all-answer_of ps r.1 v.1 cv.1)
          refl

    required_threshold-contents :
        (ps : List Provider)
        → required_threshold reverie.threshold (contents ps) ≡ reverie.threshold
    unfolding required_threshold keyfrag_of
    required_threshold-contents [] = refl
    required_threshold-contents (p ∷ ps) = required_threshold-contents ps

    contents-kfrags :
        (ps : List Provider)
        → map (λ (x : Bytes × ReverieCapsulefrag). x.0) (contents ps)
          ≡ map (w.reencrypt capsule) (map (λ (p : Provider). p.kfrag) ps)
    contents-kfrags [] = refl
    contents-kfrags (p ∷ ps) = rw (contents-kfrags ps) refl

    contents-length : (ps : List Provider) → length (contents ps) ≡ length ps
    contents-length [] = refl
    contents-length (p ∷ ps) = ap suc (contents-length ps)

    -- the keys and the fragments that the target finds in the answers
    abbrev found_in : Provider → List Provider → ParsedCfrags
    found_in p ps = record {
      verified_cfrags = map (w.reencrypt capsule) (map (λ (q : Provider). q.kfrag) (p ∷ ps));
      source_pubkey = alice.umbral_key.public_key;
      target_verifying_pubkey = reverie.verifying_public_key;
      access_condition = reverie.access_condition;
      total_frags_received = suc (length ps);
    }

    pub parse_cfrags-answer_of :
        (p : Provider) (ps : List Provider)
        → All IsReadable (p ∷ ps)
        → All (Verifies alice bob w) (map (λ q. q.kfrag) (p ∷ ps))
        → All (Reverifies alice bob w capsule) (map (λ q. q.kfrag) (p ∷ ps))
        → reverie.threshold ≤ length (p ∷ ps)
        → parse_cfrags bob.codec capsule (map answer_of (p ∷ ps)) ≡ ok (found_in p ps)
    unfolding parse_cfrags first_keys required_threshold keyfrag_of
    parse_cfrags-answer_of p ps r v cv enough =
        let len = contents-length ps in
        let not_fewer : ltb (suc (length (contents ps))) reverie.threshold ≡ false = ground arith in
        rw
          (
            parse_all-answer_of (p ∷ ps) r v cv,
            parse_cfrags,
            required_threshold-contents ps,
            not_fewer,
            contents-kfrags ps,
            len,
          )
          refl
