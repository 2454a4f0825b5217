-- ===== src/Client/Recovery/Secrets.antt =====
-- From the answers of the providers to the secrets.
use reveries_network.Common.{
  ℕ, ◌≤◌, ◌≡◌, refl, List, ◌∷◌, map, length, length-map, All, some, ok, true, arith, ap, append-nil,
  suc,
}
use reveries_network.Types.{
  ReverieId, Bytes, umbral, Reverie, sovereign_agent, ReverieNameWithNonce, ReverieMessage,
}
use reveries_network.PeerManager.HeartbeatData.{Now}
use reveries_network.Network.{Channel}
use reveries_network.Network.Commands.{get_reverie as get_reverie_command}
use reveries_network.Network.World.{World}
use reveries_network.Client.{NodeClient, AgentSecretsJson}
use reveries_network.Client.Cfrags.{decrypt_cfrags, request_cfrags, fragment_requests}
use reveries_network.Client.Spawn.{
  Answers, new_reverie, signed_key, get_reverie, reconstruct_agent_secrets_cfrags,
}
use reveries_network.Client.Recovery.{Sub, Sub-All, UmbralLaws, Provider}
use reveries_network.Client.Recovery.Answering.{answer_of, IsReadable, parse_cfrags-answer_of}

abbrev pub spawned :
    NodeClient → NodeClient → ReverieId → ReverieNameWithNonce → ℕ → ℕ → Bytes × Bytes → Reverie
spawned alice bob id name t n encrypted =
    new_reverie alice id "secrets description" (sovereign_agent name) t n bob.umbral_key.public_key
      bob.umbral_key.verifying_public_key (umbral bob.umbral_key.verifying_public_key) encrypted

-- The secrets of an agent can be recovered by the vessel that it was made for. The source encrypts
-- them and hands generated fragments to nodes; each node takes its fragment in. The target asks for
-- the reverie, and then every node that its message names as a provider for the fragment, with the
-- target's signed key. If each of these holds another of the generated fragments and answers, and they
-- are at least threshold many, for a threshold of at least one, then the answers are accepted and the
-- target reads the secrets as they were.
pub reconstruct_agent_secrets_cfrags-spawned :
    (alice bob : NodeClient) (w : World) (now : Now) (laws : UmbralLaws alice bob w)
    (id : ReverieId) (name : ReverieNameWithNonce) (t n : ℕ) (plaintext capsule ciphertext : Bytes)
    (secrets : AgentSecretsJson) (p : Provider) (ps : List Provider) (reply : Channel)
    (m : ReverieMessage) (a : Answers)
    → alice.umbral_key.encrypt_bytes plaintext ≡ some (capsule, ciphertext)
    → bob.codec.secrets_from_slice plaintext ≡ some secrets
    → w.channel_open ≡ true
    → bob.receiver_open ≡ true
    → let reverie = spawned alice bob id name t n (capsule, ciphertext) in
      All (IsReadable alice bob w now reverie capsule) (p ∷ ps)
      → Sub
          (map (λ q. q.kfrag) (p ∷ ps))
          (alice.umbral_key.generate_pre_keyfrags bob.umbral_key.public_key t n)
      → 1 ≤ t
      → t ≤ length (p ∷ ps)
      → m.reverie ≡ reverie
      → m.keyfrag_providers ≡ map (λ q. q.node.node_id.peer_id) (p ∷ ps)
      → a.reverie ≡ ok m
      → a.cfrags ≡ map (answer_of alice bob w now reverie capsule) (p ∷ ps)
      → let run = reconstruct_agent_secrets_cfrags bob reply a id (sovereign_agent name) in
        (run.1 ≡ ok secrets)
        × (run.0
            ≡ get_reverie_command id (sovereign_agent name) reply
              ∷ fragment_requests id
                  (signed_key bob id)
                  (suc reply)
                  (map (λ q. q.node.node_id.peer_id) (p ∷ ps)))
unfolding reconstruct_agent_secrets_cfrags get_reverie request_cfrags decrypt_cfrags new_reverie
reconstruct_agent_secrets_cfrags-spawned alice bob w now laws id name t n plaintext capsule
      ciphertext secrets p ps reply m a encrypted read waits opened readable sub some_needed enough
      same named told answered_by =
    let reverie = spawned alice bob id name t n (capsule, ciphertext) in
    let kfrags = map (λ (q : Provider). q.kfrag) (p ∷ ps) in
    let drawn = alice.umbral_key.generate_pre_keyfrags bob.umbral_key.public_key t n in
    let parsed =
      parse_cfrags-answer_of alice bob w now reverie capsule laws refl refl refl waits p ps readable
        (Sub-All _ kfrags drawn sub (laws.kfrags_verify t n))
        (Sub-All _ kfrags drawn sub (laws.cfrags_verify capsule t n)) enough in
    rw
      (
        opened,
        told,
        same,
        named,
        laws.capsule_read_back capsule,
        answered_by,
        parsed,
        laws.decrypts plaintext capsule ciphertext t n kfrags encrypted sub some_needed
            (omega (arith, length-map (λ (q : Provider). q.kfrag) ps)),
        read,
      )
      (refl, ap (λ cs. get_reverie_command id (sovereign_agent name) reply ∷ cs) (append-nil _))
