-- ===== src/Types/Reveries.antt =====
-- types/reverie.rs, and `AgentVesselInfo` of network_events/peer_manager/peer_info.rs.
use reveries_network.Common.{ℕ, String, List}
use reveries_network.Types.Names.{PeerId, ReverieId, PublicKey, Bytes, ReverieNameWithNonce}
use reveries_network.Types.Access.{AccessCondition}

pub data ReverieType : Type 0 where
  sovereign_agent : ReverieNameWithNonce → ReverieType
  agent : ReverieNameWithNonce → ReverieType
  api_key : String → ReverieType
  memory tools github_repo : ReverieType

pub record Reverie : Type 0 where
  pub id : ReverieId
  pub reverie_type : ReverieType
  pub description : String
  pub threshold : ℕ
  pub total_frags : ℕ
  pub target_public_key : PublicKey
  pub verifying_public_key : PublicKey
  pub access_condition : AccessCondition
  pub umbral_capsule : Bytes
  pub umbral_ciphertext : Bytes

pub record ReverieKeyfrag : Type 0 where
  pub id : ReverieId
  pub reverie_type : ReverieType
  pub frag_num : ℕ
  pub threshold : ℕ
  pub total_frags : ℕ
  pub umbral_keyfrag : Bytes
  pub umbral_capsule : Bytes
  pub source_pubkey : PublicKey
  pub source_verifying_pubkey : PublicKey
  pub target_pubkey : PublicKey
  pub target_verifying_pubkey : PublicKey
  pub access_condition : AccessCondition

pub record ReverieMessage : Type 0 where
  pub reverie : Reverie
  pub source_peer_id : PeerId
  pub target_peer_id : PeerId
  pub keyfrag_providers : List PeerId

pub record ReverieKeyfragMessage : Type 0 where
  pub reverie_keyfrag : ReverieKeyfrag
  pub source_peer_id : PeerId
  pub target_peer_id : PeerId

pub record ReverieCapsulefrag : Type 0 where
  pub id : ReverieId
  pub reverie_type : ReverieType
  pub frag_num : ℕ
  pub threshold : ℕ
  pub umbral_capsule_frag : Bytes
  pub source_pubkey : PublicKey
  pub source_verifying_pubkey : PublicKey
  pub target_pubkey : PublicKey
  pub target_verifying_pubkey : PublicKey
  pub access_condition : AccessCondition
  pub kfrag_provider_peer_id : PeerId

pub record AgentVesselInfo : Type 0 where
  pub reverie_id : ReverieId
  pub reverie_type : ReverieType
  pub threshold : ℕ
  pub total_frags : ℕ
  pub current_vessel_peer_id : PeerId
  pub next_vessel_peer_id : PeerId
