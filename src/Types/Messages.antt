-- ===== src/Types/Messages.antt =====
-- types/network_event.rs: the request-response protocol between nodes.
use reveries_network.Common.{ℕ, String, Result}
use reveries_network.Types.Names.{PeerId, ReverieId, Bytes, ReverieNameWithNonce}
use reveries_network.Types.Access.{AccessKey}
use reveries_network.Types.Reveries.{ReverieMessage, ReverieKeyfragMessage, AgentVesselInfo}

pub data NetworkEvent : Type 0 where
  respawn_request : AgentVesselInfo → NetworkEvent

pub data FragmentRequest : Type 0 where
  get_fragment_request : ReverieId → AccessKey → FragmentRequest
  save_fragment_request : ReverieKeyfragMessage → FragmentRequest
  providing_fragment_request : ReverieId → ℕ → PeerId → FragmentRequest
  save_ciphertext_request : ReverieMessage → FragmentRequest
  mark_respawn_complete_request : ReverieId → PeerId → ReverieNameWithNonce → FragmentRequest

-- An error that crosses the wire is the text of a `SendError`.
pub data FragmentResponse : Type 0 where
  get_fragment_response : Result String Bytes → FragmentResponse
  save_fragment_response : FragmentResponse
  providing_fragment_response : FragmentResponse
  save_ciphertext_response : FragmentResponse
  mark_respawn_complete_response : FragmentResponse
