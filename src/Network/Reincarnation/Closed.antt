-- ===== src/Network/Reincarnation/Closed.antt =====
-- A tick of the checker where the node client may have gone away.
use reveries_network.Common.{
  ℕ, ◌≡◌, refl, Bool, true, false, Option, none, some, List, [], ◌∷◌, ◌++◌, ◌==◌, string_eq, Result,
  ok, err, if◌then◌else◌, All, Bool-cases, Option-cases, inl, inr, ◌∙◌, ap, ◌>>=◌,
}
use reveries_network.Common.Map
use reveries_network.Common.Map.{IsDistinct}
use reveries_network.Types.{PeerId, AgentVesselInfo}
use reveries_network.PeerManager.Vessels.{SoundEntry, SoundVessel}
use reveries_network.PeerManager.{PeerInfo, agent_name, is_peer_offline}
use reveries_network.Network.{NetworkEvents}
use reveries_network.Network.Reincarnation.{
  Fault, channel_closed, respawn_agent, handle_offline, check_peer, check_peers,
}
use reveries_network.Network.Reincarnation.Ticks.{
  overdue, due, taken_over, check_peer_lem, Known-Did,
}

-- What becomes of a run that has requests to send: it fails where nobody listens.
abbrev pub heard :
    Bool → List AgentVesselInfo → Result Fault NetworkEvents → Result Fault NetworkEvents
heard true requests run = run
heard false [] run = run
heard false (v ∷ requests) run = err channel_closed

handle_offline-heard :
    (p : PeerId) (o : Option AgentVesselInfo) (n : NetworkEvents)
    → SoundVessel p o
    → handle_offline false p o n
      ≡ heard false (taken_over n.node_id.peer_id o) (handle_offline true p o n)
unfolding handle_offline respawn_agent
handle_offline-heard p none n s = refl
handle_offline-heard p (some v) n s = elim (Option-cases (agent_name v.reverie_type)) [
  | inl e ↦ cc
  | inr (name, e) ↦ elim (Bool-cases (n.node_id.peer_id == v.next_vessel_peer_id)) [
    | inl here ↦ rw (e, respawn_agent, here) refl
    | inr there ↦ rw (e, respawn_agent, there) refl
  ]
]

check_peer-heard :
    (allowed now : ℕ) (p : PeerId) (i : PeerInfo) (n : NetworkEvents)
    → SoundEntry (p, i)
    → Map.get p n.peer_manager.peer_info ≡ some i
    → check_peer false allowed now (p, i) n
      ≡ heard false
          (if overdue allowed now i then taken_over n.node_id.peer_id i.agent_vessel else [])
          (check_peer true allowed now (p, i) n)
unfolding check_peer is_peer_offline
check_peer-heard allowed now p i n s known = elim (Bool-cases (overdue allowed now i)) [
  | inl late ↦
      rw (known, check_peer, is_peer_offline, late) (handle_offline-heard p i.agent_vessel n s)
  | inr fresh ↦ rw (known, check_peer, is_peer_offline, fresh) refl
]

check_peers-heard :
    (allowed now : ℕ) (l : List (PeerId × PeerInfo)) (n : NetworkEvents)
    → All SoundEntry l
    → IsDistinct l
    → All (λ t. Map.get t.0 n.peer_manager.peer_info ≡ some t.1) l
    → check_peers false allowed now l n
      ≡ heard false (due n.node_id.peer_id allowed now l) (check_peers true allowed now l n)
unfolding check_peers
check_peers-heard allowed now [] n s d known = refl
check_peers-heard allowed now ((p, i) ∷ l) n s d known =
    let (n1, step, did) = check_peer_lem allowed now p i n s.0 known.0 in
    let later =
      check_peers-heard allowed now l n1 s.1 d.1 (Known-Did p _ _ n n1 did l d.0 known.1) in
    rw (check_peer-heard allowed now p i n s.0 known.0, step)
      (by_requests n1 did.same_node later
        (if overdue allowed now i then taken_over n.node_id.peer_id i.agent_vessel else []))
  where
    by_requests :
        (n1 : NetworkEvents)
        → n1.node_id ≡ n.node_id
        → check_peers false allowed now l n1
          ≡ heard false (due n1.node_id.peer_id allowed now l) (check_peers true allowed now l n1)
        → (taken : List AgentVesselInfo)
        → (heard false taken (ok n1) >>= check_peers false allowed now l)
          ≡ heard false
              (taken ++ due n.node_id.peer_id allowed now l)
              (check_peers true allowed now l n1)
    by_requests n1 same later [] =
        later
        ∙ ap (λ id. heard false (due id.peer_id allowed now l) (check_peers true allowed now l n1))
            same
    by_requests n1 same later (v ∷ taken) = refl

-- A tick fails exactly where it has a request to send and nobody listens.
pub check_peers-listening :
    (listening : Bool) (allowed now : ℕ) (l : List (PeerId × PeerInfo)) (n : NetworkEvents)
    → All SoundEntry l
    → IsDistinct l
    → All (λ t. Map.get t.0 n.peer_manager.peer_info ≡ some t.1) l
    → check_peers listening allowed now l n
      ≡ heard listening (due n.node_id.peer_id allowed now l) (check_peers true allowed now l n)
check_peers-listening true allowed now l n s d known = refl
check_peers-listening false allowed now l n s d known = check_peers-heard allowed now l n s d known
