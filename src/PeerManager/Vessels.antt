-- ===== src/PeerManager/Vessels.antt =====
-- Which agent a node believes each of its peers to host.
use reveries_network.Common.{
  ◌≡◌, subst, sym, refl, Bool, true, ◌&&◌, Option, none, some, arith, ◌==◌, ==_iff, string_eq,
  if◌then◌else◌, is_some, All, ℕ, Option-cases, inl, inr,
}
use reveries_network.Common.Map
use reveries_network.Common.Map.{HashMap, get-insert, get-remove}
use reveries_network.Types.{ReverieNameWithNonce, PeerId, ReverieId, AgentVesselInfo}
use reveries_network.Heartbeat.Attestation.{TeeAttestation}
use reveries_network.PeerManager.HeartbeatData.{Now, update}
use reveries_network.PeerManager.{
  PeerManager, PeerInfo, new_peer_info, insert_peer_info, remove_peer_info, agent_name,
  entry_or_new, set_vessel_of, set_agent_vessel, set_peer_info_agent_vessel, update_peer_heartbeat,
  remove_kfrag_provider, insert_kfrag_provider,
}

abbrev vessel_in : Option PeerInfo → Option AgentVesselInfo
vessel_in none = none
vessel_in (some p) = p.agent_vessel

-- The agent that the node believes `p` to host.
abbrev pub vessel_of : PeerId → PeerManager → Option AgentVesselInfo
vessel_of p m = vessel_in (Map.get p m.peer_info)

abbrev pub knows : PeerId → PeerManager → Bool
knows p m = is_some (Map.get p m.peer_info)

abbrev pub is_agent : AgentVesselInfo → Bool
is_agent v = is_some (agent_name v.reverie_type)

module _ (p q : PeerId) (m : PeerManager) where
  -- A peer that is met again loses its agent: to insert a peer forgets what the node believed it to
  -- host, also where the peer was known, and no belief about another peer.
  vessel_of-insert_peer_info :
      (now : Now)
      → vessel_of q (insert_peer_info p now m) ≡ (if p == q then none else vessel_of q m)
  unfolding insert_peer_info new_peer_info
  vessel_of-insert_peer_info now =
      ground (arith, get-insert p q (new_peer_info p m.avg_window now) m.peer_info)

  pub vessel_of-remove_peer_info :
      vessel_of q (remove_peer_info p m) ≡ (if p == q then none else vessel_of q m)
  unfolding remove_peer_info
  vessel_of-remove_peer_info = ground (arith, get-remove p q m.peer_info)

  pub vessel_of-remove_kfrag_provider : vessel_of q (remove_kfrag_provider p m) ≡ vessel_of q m
  unfolding remove_kfrag_provider
  vessel_of-remove_kfrag_provider = ground arith

-- A heartbeat changes no belief about agents.
pub vessel_of-update_peer_heartbeat :
    (p q : PeerId) (t : TeeAttestation) (now : Now) (m : PeerManager)
    → vessel_of q (update_peer_heartbeat p t now m) ≡ vessel_of q m
unfolding update_peer_heartbeat new_peer_info
vessel_of-update_peer_heartbeat p q t now m =
    let e = entry_or_new p m.avg_window now (Map.get p m.peer_info) in
    ground (
      arith,
      get-insert p q (record e { heartbeat_data = update e.heartbeat_data t now }) m.peer_info,
      ==_iff p q,
    )

vessel_in-set_vessel_of :
    (c q : PeerId) (info : AgentVesselInfo) (m : HashMap PeerId PeerInfo)
    → vessel_in (Map.get q (set_vessel_of c info m))
      ≡ (if (c == q) && is_some (Map.get q m) then some info else vessel_in (Map.get q m))
unfolding set_vessel_of
vessel_in-set_vessel_of c q info m = elim (Option-cases (Map.get c m)) [
  | inl missing ↦ rw (missing, set_vessel_of) (ground (arith, ==_iff c q))
  | inr (p, found) ↦
      rw (found, set_vessel_of)
        (ground (arith, get-insert c q (record p { agent_vessel = some info }) m, ==_iff c q))
]

-- Only an agent is recorded, only at the peer that it names as its current vessel, and only if the
-- node knows that peer; what is recorded at every other peer stays.
vessel_of-set_peer_info_agent_vessel :
    (info : AgentVesselInfo) (q : PeerId) (m : PeerManager)
    → vessel_of q (set_peer_info_agent_vessel info m) ≡ (
        if is_agent info && (info.current_vessel_peer_id == q) && knows q m
        then some info
        else vessel_of q m)
unfolding set_peer_info_agent_vessel
vessel_of-set_peer_info_agent_vessel info q m =
    ground (arith, vessel_in-set_vessel_of info.current_vessel_peer_id q info m.peer_info)

-- A belief names an agent, and the peer at which it is kept.
abbrev pub SoundVessel : PeerId → Option AgentVesselInfo → Type 0
SoundVessel p none = Unit
SoundVessel p (some v) = (v.current_vessel_peer_id ≡ p) × (is_agent v ≡ true)

abbrev pub SoundEntry : PeerId × PeerInfo → Type 0
SoundEntry (p, info) = SoundVessel p info.agent_vessel

pub record IsSound (m : PeerManager) : Type 0 where
  pub sound : All SoundEntry m.peer_info

module _ {m : PeerManager} (h : IsSound m) where
  pub insert_peer_info-IsSound : (p : PeerId) (now : Now) → IsSound (insert_peer_info p now m)
  unfolding insert_peer_info new_peer_info
  insert_peer_info-IsSound p now = record {
    sound = Map.insert-All SoundEntry p _ m.peer_info (λ j e. tt) h.sound;
  }

  pub remove_peer_info-IsSound : (p : PeerId) → IsSound (remove_peer_info p m)
  unfolding remove_peer_info
  remove_peer_info-IsSound p = record { sound = Map.remove-All SoundEntry p m.peer_info h.sound }

  pub remove_kfrag_provider-IsSound : (p : PeerId) → IsSound (remove_kfrag_provider p m)
  unfolding remove_kfrag_provider
  remove_kfrag_provider-IsSound p =
      let same : (remove_kfrag_provider p m).peer_info ≡ m.peer_info = ground arith in
      record { sound = rw same h.sound }

  pub insert_kfrag_provider-IsSound :
      (p : PeerId) (r : ReverieId) (n : ℕ) → IsSound (insert_kfrag_provider p r n m)
  unfolding insert_kfrag_provider
  insert_kfrag_provider-IsSound p r n = record { sound = h.sound }

  pub update_peer_heartbeat-IsSound :
      (p : PeerId) (t : TeeAttestation) (now : Now) → IsSound (update_peer_heartbeat p t now m)
  unfolding update_peer_heartbeat
  update_peer_heartbeat-IsSound p t now = record {
    sound = elim (Option-cases (Map.get p m.peer_info)) [
      | inl missing ↦
          rw missing
            (Map.insert-All SoundEntry p _ m.peer_info (λ j e. unfold new_peer_info in tt) h.sound)
      | inr (i, found) ↦ rw found (
          Map.insert-All SoundEntry p _ m.peer_info
            (λ j e.
              subst (λ k. SoundVessel k i.agent_vessel) (sym e)
                (Map.get-All SoundEntry p i m.peer_info h.sound found))
            h.sound)
    ];
  }

  set_vessel_of-All :
      (info : AgentVesselInfo)
      → is_agent info ≡ true
      → All SoundEntry (set_vessel_of info.current_vessel_peer_id info m.peer_info)
  unfolding set_vessel_of
  set_vessel_of-All info agent =
      elim (Option-cases (Map.get info.current_vessel_peer_id m.peer_info)) [
        | inl missing ↦ rw (missing, set_vessel_of) h.sound
        | inr (i, found) ↦
            rw (found, set_vessel_of)
              (Map.insert-All SoundEntry info.current_vessel_peer_id
                (record i { agent_vessel = some info }) m.peer_info (λ j e. (sym e, agent)) h.sound)
      ]

  set_agent_vessel-IsSound :
      (info : AgentVesselInfo) (o : Option ReverieNameWithNonce)
      → is_some o ≡ is_agent info
      → IsSound (set_agent_vessel info m o)
  unfolding set_agent_vessel
  set_agent_vessel-IsSound info none e = h
  set_agent_vessel-IsSound info (some name) e = record { sound = set_vessel_of-All info (sym e) }

  pub set_peer_info_agent_vessel-IsSound :
      (info : AgentVesselInfo) → IsSound (set_peer_info_agent_vessel info m)
  unfolding set_peer_info_agent_vessel
  set_peer_info_agent_vessel-IsSound info =
      set_agent_vessel-IsSound info (agent_name info.reverie_type) refl
