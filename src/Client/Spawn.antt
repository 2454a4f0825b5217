-- ===== src/Client/Spawn.antt =====
-- How agents and memories come into the network, and how an agent is started anew:
-- `create_reverie` of mod.rs, reincarnation.rs and `spawn_memory_reverie` of memories.rs.
use reveries_network.Common.{
  ℕ, suc, ◌+◌, String, Option, none, some, List, [], ◌∷◌, length, Result, ok, err, ok_or,
  if◌then◌else◌, ltb,
}
use reveries_network.Types.{
  PeerId, ReverieId, PublicKey, Bytes, Reverie, ReverieType, sovereign_agent, memory,
  AccessCondition, umbral, near_contract, AccessKey, umbral_signature, ReverieMessage,
  NodeKeysWithVesselStatus, ReverieNameWithNonce, increment_nonce,
}
use reveries_network.Network.{Channel}
use reveries_network.Network.Commands
use reveries_network.Network.Commands.{NodeCommand, mark_respawn_complete}
use reveries_network.Client.{
  NodeClient, AgentSecretsJson, ClientError, threshold_above_total, encrypt_failed, send_failed,
  not_sovereign, bad_capsule, bad_json,
}
use reveries_network.Client.Run.{Run, ◌>>=◌, lift, send_or}
use reveries_network.Client.Vessels.{get_prospect_vessels}
use reveries_network.Client.Broadcast.{broadcast_reverie_keyfrags}
use reveries_network.Client.Cfrags.{request_cfrags, parse_cfrags, decrypt_cfrags}

-- `Reverie::new` of types/reverie.rs; the random id is an argument.
unfoldable pub new_reverie :
    NodeClient
    → ReverieId
    → String
    → ReverieType
    → ℕ
    → ℕ
    → PublicKey
    → PublicKey
    → AccessCondition
    → Bytes × Bytes
    → Reverie
new_reverie c id description type threshold total_frags target verifying condition encrypted =
    record {
      id = id;
      reverie_type = type;
      description = description;
      threshold = threshold;
      total_frags = total_frags;
      target_public_key = target;
      verifying_public_key = verifying;
      access_condition = condition;
      umbral_capsule = c.codec.capsule_to_vec encrypted.0;
      umbral_ciphertext = encrypted.1;
    }

-- the bytes of the secrets, encrypted under the node's own key
unfoldable pub encrypt : NodeClient → Option Bytes → Result ClientError (Bytes × Bytes)
encrypt c none = err bad_json
encrypt c (some bytes) = ok_or (c.umbral_key.encrypt_bytes bytes) encrypt_failed

-- `create_reverie`; the secrets come as serde_json writes them.
unfoldable pub create_reverie :
    NodeClient
    → ReverieId
    → Option Bytes
    → ReverieType
    → ℕ
    → ℕ
    → PublicKey
    → PublicKey
    → AccessCondition
    → Run Reverie
unfolding encrypt new_reverie
create_reverie c id secrets type threshold total_frags target verifying condition = do
  encrypted ← lift (encrypt c secrets)
  lift (
      ok (
        new_reverie c id "some secret description" type threshold total_frags target verifying
          condition encrypted))

-- `spawn_agent`: the statuses of the peers arrive on channel `reply`.
unfoldable pub spawn_agent :
    NodeClient
    → Channel
    → List NodeKeysWithVesselStatus
    → ReverieId
    → AgentSecretsJson
    → ℕ
    → ℕ
    → Run NodeKeysWithVesselStatus
unfolding get_prospect_vessels encrypt new_reverie broadcast_reverie_keyfrags
spawn_agent c reply statuses id secrets threshold total_frags =
    if ltb total_frags threshold then lift (err threshold_above_total) else do
      chosen ← get_prospect_vessels c reply statuses
      let target = chosen.0
      encrypted ← lift (encrypt c (c.codec.secrets_to_vec secrets))
      let name : ReverieNameWithNonce = record {
        name = secrets.agent_name;
        nonce = secrets.agent_nonce;
      }
      let reverie =
          new_reverie c id "secrets description" (sovereign_agent name) threshold total_frags
            target.umbral_public_key target.umbral_verifying_public_key
            (umbral target.umbral_verifying_public_key) encrypted
      _ ← broadcast_reverie_keyfrags c reverie target.peer_id chosen.1
      lift (ok target)

abbrev pub Registered : Type 0
Registered = Result {0, 0} ClientError Unit

-- the reverie on the chain, where its condition names a contract; `register` is the NEAR client
unfoldable pub register_reverie : (Reverie → Registered) → Reverie → AccessCondition → Registered
register_reverie register reverie (near_contract contract args price) = register reverie
register_reverie register reverie _ = ok tt

unfoldable pub spawn_memory_reverie :
    NodeClient
    → (Reverie → Registered)
    → Channel
    → List NodeKeysWithVesselStatus
    → ReverieId
    → String
    → ℕ
    → ℕ
    → AccessCondition
    → Run Reverie
unfolding get_prospect_vessels create_reverie register_reverie broadcast_reverie_keyfrags
spawn_memory_reverie c register reply statuses id secrets threshold total_frags condition =
    if ltb total_frags threshold then lift (err threshold_above_total) else do
      chosen ← get_prospect_vessels c reply statuses
      let target = chosen.0
      reverie ←
          create_reverie c id (c.codec.json_to_vec secrets) memory threshold total_frags
            target.umbral_public_key target.umbral_verifying_public_key condition
      _ ← lift (register_reverie register reverie reverie.access_condition)
      _ ← broadcast_reverie_keyfrags c reverie target.peer_id chosen.1
      lift (ok reverie)

-- What comes back to a client that starts an agent anew: the reverie that it asks for, the fragments
-- and the statuses of the peers.
pub record Answers : Type 0 where
  pub reverie : Result ClientError ReverieMessage
  pub cfrags : List (Result String Bytes)
  pub statuses : List NodeKeysWithVesselStatus

-- `get_reverie` of mod.rs
unfoldable pub get_reverie :
    NodeClient
    → Channel
    → ReverieId
    → ReverieType
    → Result ClientError ReverieMessage
    → Run ReverieMessage
get_reverie c reply id type answer = do
  _ ← send_or send_failed c.receiver_open (Commands.get_reverie id type reply ∷ [])
  lift answer

-- the key by which this node opens a fragment meant for it
unfoldable pub signed_key : NodeClient → ReverieId → AccessKey
signed_key c id =
    umbral_signature (c.codec.signature_to_vec (c.umbral_key.sign (c.codec.keccak256 id)))

unfoldable pub reconstruct_agent_secrets_cfrags :
    NodeClient → Channel → Answers → ReverieId → ReverieType → Run AgentSecretsJson
unfolding get_reverie signed_key request_cfrags parse_cfrags decrypt_cfrags
reconstruct_agent_secrets_cfrags c reply answers id type = do
  m ← get_reverie c reply id type answers.reverie
  capsule ← lift (ok_or (c.codec.capsule_from_slice m.reverie.umbral_capsule) bad_capsule)
  raw ←
      request_cfrags c (suc reply) id m.keyfrag_providers (signed_key c m.reverie.id) answers.cfrags
  parsed ← lift (parse_cfrags c.codec capsule raw)
  lift (
      decrypt_cfrags c c.codec.secrets_from_slice capsule m.reverie.umbral_ciphertext
        parsed.source_pubkey parsed.verified_cfrags)

-- the steps of `handle_respawn_request` after the match on the type
unfoldable pub respawn :
    NodeClient
    → Channel
    → Answers
    → ReverieId
    → ReverieId
    → ReverieNameWithNonce
    → ℕ
    → ℕ
    → PeerId
    → Run Unit
unfolding reconstruct_agent_secrets_cfrags get_prospect_vessels create_reverie
    broadcast_reverie_keyfrags
respawn c reply answers next_id prev_id prev_agent threshold total_frags prev_vessel = do
  let next_agent = increment_nonce prev_agent
  found ← reconstruct_agent_secrets_cfrags c reply answers prev_id (sovereign_agent prev_agent)
  let secrets = record found { agent_nonce = next_agent.nonce }
  chosen ← get_prospect_vessels c (suc reply + length answers.cfrags) answers.statuses
  let target = chosen.0
  reverie ←
      create_reverie c next_id (c.codec.secrets_to_vec secrets) (sovereign_agent next_agent)
        threshold total_frags target.umbral_public_key target.umbral_verifying_public_key
        (umbral target.umbral_verifying_public_key)
  _ ← broadcast_reverie_keyfrags c reverie target.peer_id chosen.1
  _ ←
      (if c.receiver_open
        then (mark_respawn_complete prev_id prev_vessel prev_agent ∷ [], ok tt)
        else ([], ok tt))
  lift (ok tt)

-- `handle_respawn_request`, with `next_id` as the id of the new reverie.
unfoldable pub handle_respawn_request :
    NodeClient → Channel → Answers → ReverieId → ReverieId → ReverieType → ℕ → ℕ → PeerId → Run Unit
unfolding respawn
handle_respawn_request c reply answers next_id prev_id (sovereign_agent prev_agent) threshold
      total_frags prev_vessel =
    respawn c reply answers next_id prev_id prev_agent threshold total_frags prev_vessel
handle_respawn_request c reply answers next_id prev_id _ threshold total_frags prev_vessel =
    lift (err not_sovereign)
