-- ===== src/PeerManager/Invariant.antt =====
-- What holds of the peer manager at all times, and that every operation keeps it.
use reveries_network.Common.{
  ℕ, String, ◌≡◌, Option, none, some, arith, Option-cases, inl, inr, string_eq,
}
use reveries_network.Common.Map
use reveries_network.Common.Map.{HashMap, IsDistinct, insert-IsDistinct, remove-IsDistinct}
use reveries_network.Types.{
  PeerId, ReverieId, ReverieNameWithNonce, AgentVesselInfo, ReverieCapsulefrag, ReverieMessage,
}
use reveries_network.Heartbeat.Attestation.{TeeAttestation}
use reveries_network.PeerManager.HeartbeatData.{Now}
use reveries_network.PeerManager.Kfrags.{
  IsConsistent, new-IsConsistent, insert_kfrag_provider-IsConsistent,
  remove_kfrag_provider-IsConsistent,
}
use reveries_network.PeerManager.Vessels.{
  IsSound, insert_peer_info-IsSound, remove_peer_info-IsSound, remove_kfrag_provider-IsSound,
  insert_kfrag_provider-IsSound, update_peer_heartbeat-IsSound, set_peer_info_agent_vessel-IsSound,
}
use reveries_network.PeerManager.{
  PeerManager, PeerInfo, new, agent_name, set_vessel_of, set_agent_vessel, insert_peer_info,
  remove_peer_info, update_peer_heartbeat, set_peer_info_agent_vessel, insert_kfrag_provider,
  remove_kfrag_provider, insert_cfrags, insert_reverie_metadata, insert_reverie,
}

-- One entry for each peer, sound beliefs about agents, and two indices of fragments that agree.
pub record WellKept (m : PeerManager) : Type 0 where
  pub is_sound : IsSound m
  pub is_distinct : IsDistinct m.peer_info
  pub is_consistent : IsConsistent m

pub new-WellKept : (name : String) (me : PeerId) → WellKept (new name me)
unfolding new
new-WellKept name me = record {
  is_sound = record { sound = tt };
  is_distinct = tt;
  is_consistent = new-IsConsistent name me;
}

set_vessel_of-IsDistinct :
    (p : PeerId) (info : AgentVesselInfo) (m : HashMap PeerId PeerInfo)
    → IsDistinct m
    → IsDistinct (set_vessel_of p info m)
unfolding set_vessel_of
set_vessel_of-IsDistinct p info m d = elim (Option-cases (Map.get p m)) [
  | inl missing ↦ rw (missing, set_vessel_of) d
  | inr (i, found) ↦
      rw (found, set_vessel_of) (insert-IsDistinct p (record i { agent_vessel = some info }) m d)
]

module _ {m : PeerManager} (h : WellKept m) where
  pub insert_peer_info-WellKept : (p : PeerId) (now : Now) → WellKept (insert_peer_info p now m)
  unfolding insert_peer_info
  insert_peer_info-WellKept p now = record {
    is_sound = insert_peer_info-IsSound h.is_sound p now;
    is_distinct = insert-IsDistinct p _ m.peer_info h.is_distinct;
    is_consistent = record { agree = h.is_consistent.agree };
  }

  pub remove_peer_info-WellKept : (p : PeerId) → WellKept (remove_peer_info p m)
  unfolding remove_peer_info
  remove_peer_info-WellKept p = record {
    is_sound = remove_peer_info-IsSound h.is_sound p;
    is_distinct = remove-IsDistinct p m.peer_info h.is_distinct;
    is_consistent = record { agree = h.is_consistent.agree };
  }

  pub update_peer_heartbeat-WellKept :
      (p : PeerId) (t : TeeAttestation) (now : Now) → WellKept (update_peer_heartbeat p t now m)
  unfolding update_peer_heartbeat
  update_peer_heartbeat-WellKept p t now = record {
    is_sound = update_peer_heartbeat-IsSound h.is_sound p t now;
    is_distinct = insert-IsDistinct p _ m.peer_info h.is_distinct;
    is_consistent = record { agree = h.is_consistent.agree };
  }

  set_agent_vessel-WellKept :
      (info : AgentVesselInfo) (o : Option ReverieNameWithNonce)
      → IsSound (set_agent_vessel info m o)
      → WellKept (set_agent_vessel info m o)
  unfolding set_agent_vessel
  set_agent_vessel-WellKept info none s = h
  set_agent_vessel-WellKept info (some name) s = record {
    is_sound = s;
    is_distinct = set_vessel_of-IsDistinct _ info m.peer_info h.is_distinct;
    is_consistent = record { agree = h.is_consistent.agree };
  }

  pub set_peer_info_agent_vessel-WellKept :
      (info : AgentVesselInfo) → WellKept (set_peer_info_agent_vessel info m)
  unfolding set_peer_info_agent_vessel
  set_peer_info_agent_vessel-WellKept info =
      set_agent_vessel-WellKept info (agent_name info.reverie_type)
        (set_peer_info_agent_vessel-IsSound h.is_sound info)

  pub insert_kfrag_provider-WellKept :
      (p : PeerId) (r : ReverieId) (n : ℕ) → WellKept (insert_kfrag_provider p r n m)
  insert_kfrag_provider-WellKept p r n = record {
    is_sound = insert_kfrag_provider-IsSound h.is_sound p r n;
    is_distinct = unfold insert_kfrag_provider in h.is_distinct;
    is_consistent = (insert_kfrag_provider-IsConsistent p r n m h.is_consistent).0;
  }

  pub remove_kfrag_provider-peer_info :
      (p : PeerId) → (remove_kfrag_provider p m).peer_info ≡ m.peer_info
  unfolding remove_kfrag_provider
  remove_kfrag_provider-peer_info p = ground arith

  pub remove_kfrag_provider-WellKept : (p : PeerId) → WellKept (remove_kfrag_provider p m)
  remove_kfrag_provider-WellKept p = record {
    is_sound = remove_kfrag_provider-IsSound h.is_sound p;
    is_distinct = rw (remove_kfrag_provider-peer_info p) h.is_distinct;
    is_consistent = (remove_kfrag_provider-IsConsistent p m h.is_consistent).0;
  }

  pub insert_cfrags-WellKept :
      (r : ReverieId) (f : ReverieCapsulefrag) → WellKept (insert_cfrags r f m)
  unfolding insert_cfrags
  insert_cfrags-WellKept r f = record {
    is_sound = record { sound = h.is_sound.sound };
    is_distinct = h.is_distinct;
    is_consistent = record { agree = h.is_consistent.agree };
  }

  pub insert_reverie_metadata-WellKept :
      (r : ReverieId) (v : AgentVesselInfo) → WellKept (insert_reverie_metadata r v m)
  unfolding insert_reverie_metadata
  insert_reverie_metadata-WellKept r v = record {
    is_sound = record { sound = h.is_sound.sound };
    is_distinct = h.is_distinct;
    is_consistent = record { agree = h.is_consistent.agree };
  }

  pub insert_reverie-WellKept :
      (r : ReverieId) (v : ReverieMessage) → WellKept (insert_reverie r v m)
  unfolding insert_reverie
  insert_reverie-WellKept r v = record {
    is_sound = record { sound = h.is_sound.sound };
    is_distinct = h.is_distinct;
    is_consistent = record { agree = h.is_consistent.agree };
  }
