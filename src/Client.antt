-- ===== src/Client.antt =====
-- node_client: what callers of a node ask of it, and how it turns secrets into fragments and back.
pub mod Run
pub mod Vessels
pub mod Broadcast
pub mod Cfrags
pub mod Spawn
pub mod Distribution
pub mod Respawn
pub mod Recovery
pub mod LlmProxy
pub mod Memories
pub mod Docker
pub mod Listener
use reveries_network.Common.{ℕ, String, Bool, Option, List}
use reveries_network.Types.{PublicKey, Bytes, ReverieCapsulefrag}
use reveries_network.Network.{NodeIdentity}

-- runtime/src/llm/agent_secrets_json.rs. Key pairs, and accounts as JSON, are opaque here.
pub record AgentSecretsJson : Type 0 where
  pub agent_name : String
  pub agent_nonce : ℕ
  pub corekey_secp256k1 : Bytes
  pub corekey_ed25519 : Bytes
  pub anthropic_api_key : Option String
  pub openai_api_key : Option String
  pub deepseek_api_key : Option String
  pub social_accounts : String
  pub context : String

-- `UmbralKey` of runtime/src/reencrypt.rs: its public parts, and what umbral_pre and serde_json make
-- of its private ones. Capsules, fragments and signatures are bytes, also before they are written
-- out by serde_json.
pub record UmbralKey : Type 0 where
  pub public_key : PublicKey
  pub verifying_public_key : PublicKey
  -- `generate_kfrags` for a target, a threshold and a number of shares
  pub generate_pre_keyfrags : PublicKey → ℕ → ℕ → List Bytes
  pub encrypt_bytes : Bytes → Option (Bytes × Bytes)
  pub decrypt_reencrypted : PublicKey → Bytes → List Bytes → Bytes → Option Bytes
  pub sign : Bytes → Bytes

-- What the client takes of serde_json, umbral_pre and sha3 without a key.
pub record Codec : Type 0 where
  pub kfrag_to_vec : Bytes → Bytes
  pub capsule_to_vec : Bytes → Bytes
  pub capsule_from_slice : Bytes → Option Bytes
  pub signature_to_vec : Bytes → Bytes
  pub capsulefrag_from_slice : Bytes → Option ReverieCapsulefrag
  pub cfrag_from_slice : Bytes → Option Bytes
  -- `CapsuleFrag::verify` against a capsule, the keys of the source and that of the target
  pub cfrag_verify : Bytes → Bytes → PublicKey → PublicKey → PublicKey → Option Bytes
  pub keccak256 : String → Bytes
  pub secrets_to_vec : AgentSecretsJson → Option Bytes
  pub secrets_from_slice : Bytes → Option AgentSecretsJson
  pub json_to_vec : String → Option Bytes

-- The parts of `NodeClient` that its methods read here, and whether the event loop still takes
-- commands.
pub record NodeClient : Type 0 where
  pub node_id : NodeIdentity
  pub umbral_key : UmbralKey
  pub codec : Codec
  pub receiver_open : Bool

pub data ClientError : Type 0 where
  no_peers target_is_provider send_failed no_response panicked threshold_above_total encrypt_failed
        not_sovereign insufficient_cfrags no_cfrags bad_json bad_cfrag bad_capsule not_decryptable
        near_error :
      ClientError
  not_enough_peers : ℕ → ℕ → ClientError
  remote : String → ClientError
