-- ===== src/Types/Status.antt =====
-- types/node_status.rs: what a node says of itself, and the name of a pending respawn.
use reveries_network.Common.{◌≡◌, ◌↔◌, Bool, true, false, ◌&&◌, arith, Eq, ◌==◌, ==_iff, string_eq}
use reveries_network.Types.Names.{PeerId, PublicKey, ReverieNameWithNonce, name_eq}

pub data VesselStatus : Type 0 where
  never_vessel empty_vessel active_vessel : VesselStatus

abbrev pub is_empty_vessel : VesselStatus → Bool
is_empty_vessel empty_vessel = true
is_empty_vessel _ = false

pub record NodeKeysWithVesselStatus : Type 0 where
  pub peer_id : PeerId
  pub umbral_public_key : PublicKey
  pub umbral_verifying_public_key : PublicKey
  pub vessel_status : VesselStatus

pub record RespawnId : Type 0 where
  pub prev_agent : ReverieNameWithNonce
  pub next_vessel_peer_id : PeerId

abbrev pub respawn_beq : RespawnId → RespawnId → Bool
respawn_beq a b = (a.prev_agent == b.prev_agent) && (a.next_vessel_peer_id == b.next_vessel_peer_id)

pub respawn_beq_iff : (a b : RespawnId) → (respawn_beq a b ≡ true) ↔ (a ≡ b)
respawn_beq_iff a b =
    ground
      (arith, ==_iff a.prev_agent b.prev_agent, ==_iff a.next_vessel_peer_id b.next_vessel_peer_id)

instance abbrev pub respawn_eq : Eq RespawnId
respawn_eq = record { beq = respawn_beq; beq_iff = respawn_beq_iff }
