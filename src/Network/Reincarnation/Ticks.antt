-- ===== src/Network/Reincarnation/Ticks.antt =====
-- What one tick of the heartbeat checker does, for every state of the node.
use reveries_network.Common.{
  ℕ, ◌≡◌, refl, sym, Bool, true, false, ◌&&◌, Option, none, some, List, [], ◌∷◌, ◌++◌, arith, ◌==◌,
  ==_iff, string_eq, ok, if◌then◌else◌, ltb, All, Bool-cases, Option-cases, inl, inr, append_assoc,
  append-nil, ◌∙◌,
}
use reveries_network.Common.Map
use reveries_network.Common.Map.{HashMap, get-remove, IsDistinct, remove-IsDistinct}
use reveries_network.Types.{PeerId, AgentVesselInfo, respawn_request}
use reveries_network.PeerManager.HeartbeatData.{duration_since_last_heartbeat}
use reveries_network.PeerManager.Vessels.{SoundEntry, SoundVessel}
use reveries_network.PeerManager.Invariant.{
  WellKept, remove_peer_info-WellKept, remove_kfrag_provider-WellKept,
}
use reveries_network.PeerManager.{
  PeerInfo, agent_name, is_peer_offline, remove_peer_info, remove_kfrag_provider,
}
use reveries_network.Network.{NetworkEvents, Output, emit, remove_peer, send_event}
use reveries_network.Network.Reincarnation.{
  pending_respawn, handle_offline, check_peer, check_peers,
}

-- The respawn requests among the outputs, in order.
abbrev pub requests : List Output → List AgentVesselInfo
requests [] = []
requests (send_event (respawn_request v) ∷ os) = v ∷ requests os
requests (_ ∷ os) = requests os

abbrev pub overdue : ℕ → ℕ → PeerInfo → Bool
overdue allowed now i = ltb allowed (duration_since_last_heartbeat i.heartbeat_data now)

abbrev pub mine : PeerId → Option AgentVesselInfo → Bool
mine me none = false
mine me (some v) = me == v.next_vessel_peer_id

abbrev pub agentless_or_mine : PeerId → Option AgentVesselInfo → Bool
agentless_or_mine me none = true
agentless_or_mine me (some v) = me == v.next_vessel_peer_id

abbrev pub taken_over : PeerId → Option AgentVesselInfo → List AgentVesselInfo
taken_over me none = []
taken_over me (some v) = if me == v.next_vessel_peer_id then v ∷ [] else []

-- The agents that this node has to take over: those of overdue peers that name it as next vessel.
abbrev pub due : PeerId → ℕ → ℕ → List (PeerId × PeerInfo) → List AgentVesselInfo
due me allowed now [] = []
due me allowed now ((p, i) ∷ rest) =
    (if overdue allowed now i then taken_over me i.agent_vessel else []) ++ due me allowed now rest

requests-append : (xs ys : List Output) → requests (xs ++ ys) ≡ requests xs ++ requests ys
requests-append [] ys = refl
requests-append (send_event (respawn_request v) ∷ os) ys = rw (requests-append os ys)
requests-append (_ ∷ os) ys = requests-append os ys

pub record WellFormed (n : NetworkEvents) : Type 0 where
  pub kept : WellKept n.peer_manager

pub remove_peer-WellFormed :
    (p : PeerId) (n : NetworkEvents) → WellFormed n → WellFormed (remove_peer p n)
unfolding remove_peer
remove_peer-WellFormed p n w = record {
  kept = remove_peer_info-WellKept (remove_kfrag_provider-WellKept w.kept p) p;
}

-- What a step of the loop did to the node.
pub record Did (p : PeerId) (gone : Bool) (taken : List AgentVesselInfo) (n n' : NetworkEvents)
    : Type 0 where
  pub same_node : n'.node_id ≡ n.node_id
  pub sent : requests n'.outbox ≡ requests n.outbox ++ taken
  pub keeps : WellFormed n → WellFormed n'
  pub fate :
      (q : PeerId)
      → Map.get q n'.peer_manager.peer_info
        ≡ (if (p == q) && gone then none else Map.get q n.peer_manager.peer_info)

pub remove_peer-get :
    (p q : PeerId) (n : NetworkEvents)
    → Map.get q (remove_peer p n).peer_manager.peer_info
      ≡ (if p == q then none else Map.get q n.peer_manager.peer_info)
unfolding remove_peer remove_peer_info remove_kfrag_provider
remove_peer-get p q n = ground (arith, get-remove p q n.peer_manager.peer_info)

remove_peer-Did : (p : PeerId) (n : NetworkEvents) → Did p true [] n (remove_peer p n)
unfolding remove_peer
remove_peer-Did p n = record {
  same_node = refl;
  sent = requests-append n.outbox _;
  keeps = unfold remove_peer in remove_peer-WellFormed p n;
  fate = λ q. ground (arith, remove_peer-get p q n);
}

handle_offline_lem :
    (p : PeerId) (o : Option AgentVesselInfo) (n : NetworkEvents)
    → SoundVessel p o
    → (n' : NetworkEvents) × (handle_offline true p o n ≡ ok n')
      × Did p (agentless_or_mine n.node_id.peer_id o) (taken_over n.node_id.peer_id o) n n'
unfolding handle_offline
handle_offline_lem p none n s = (remove_peer p n, refl, remove_peer-Did p n)
handle_offline_lem p (some v) n s = elim (Option-cases (agent_name v.reverie_type)) [
  | inl e ↦ cc
  | inr (name, e) ↦
      let n1 = pending_respawn v name n in
      elim (Bool-cases (n.node_id.peer_id == v.next_vessel_peer_id)) [
        | inl here ↦ (
          remove_peer p (emit (send_event (respawn_request v)) n1),
          ground arith,
          record {
            same_node = unfold remove_peer in refl;
            sent = unfold remove_peer in simp (requests-append, append-nil) (ground arith);
            keeps = λ w.
                unfold emit pending_respawn in
                remove_peer-WellFormed p (emit (send_event (respawn_request v)) n1)
                  (record { kept = w.kept });
            fate = λ q.
                unfold emit pending_respawn in
                rw here
                  (ground (arith, remove_peer-get p q (emit (send_event (respawn_request v)) n1)));
          },
        )
        | inr there ↦ (
          n1,
          ground arith,
          record {
            same_node = refl;
            sent = rw there (sym (append-nil _));
            keeps = λ w. record { kept = w.kept };
            fate = λ q. ground arith;
          },
        )
      ]
]

-- Whether a tick removes the peer with this entry.
abbrev pub lost : PeerId → ℕ → ℕ → Option PeerInfo → Bool
lost me allowed now none = false
lost me allowed now (some i) = overdue allowed now i && agentless_or_mine me i.agent_vessel

pub check_peer_lem :
    (allowed now : ℕ) (p : PeerId) (i : PeerInfo) (n : NetworkEvents)
    → SoundEntry (p, i)
    → Map.get p n.peer_manager.peer_info ≡ some i
    → (n' : NetworkEvents) × (check_peer true allowed now (p, i) n ≡ ok n')
      × Did p
          (lost n.node_id.peer_id allowed now (some i))
          (if overdue allowed now i then taken_over n.node_id.peer_id i.agent_vessel else [])
          n
          n'
unfolding check_peer is_peer_offline
check_peer_lem allowed now p i n s known = elim (Bool-cases (overdue allowed now i)) [
  | inl late ↦
      rw (known, check_peer, is_peer_offline, late) (handle_offline_lem p i.agent_vessel n s)
  | inr fresh ↦
      rw (known, check_peer, is_peer_offline, fresh)
        (
          n,
          refl,
          record {
            same_node = refl;
            sent = sym (append-nil _);
            keeps = λ w. w;
            fate = λ q. ground arith;
          },
        )
]

-- What the loop over `l` did to the node.
pub record Ticked (allowed now : ℕ) (l : List (PeerId × PeerInfo)) (n n' : NetworkEvents)
    : Type 0 where
  pub same_node : n'.node_id ≡ n.node_id
  pub sent : requests n'.outbox ≡ requests n.outbox ++ due n.node_id.peer_id allowed now l
  pub keeps : WellFormed n → WellFormed n'
  pub fate :
      (q : PeerId)
      → Map.get q n'.peer_manager.peer_info ≡ (
          if lost n.node_id.peer_id allowed now (Map.get q l)
          then none
          else Map.get q n.peer_manager.peer_info)

-- What is known of the peers after a step is what was known, save for the peer of the step.
pub Known-Did :
    (p : PeerId) (gone : Bool) (taken : List AgentVesselInfo) (n n' : NetworkEvents)
    → Did p gone taken n n'
    → (l : List (PeerId × PeerInfo)) → Map.get p l ≡ none
    → All (λ t. Map.get t.0 n.peer_manager.peer_info ≡ some t.1) l
    → All (λ t. Map.get t.0 n'.peer_manager.peer_info ≡ some t.1) l
unfolding Map.get
Known-Did p gone taken n n' d [] fresh a = tt
Known-Did p gone taken n n' d ((q, i) ∷ l) fresh a = (
  ground (arith, d.fate q, ==_iff p q, ==_iff q p),
  Known-Did p gone taken n n' d l (ground (arith, ==_iff p q, ==_iff q p)) a.1,
)

pub check_peers_lem :
    (allowed now : ℕ) (l : List (PeerId × PeerInfo)) (n : NetworkEvents)
    → All SoundEntry l
    → IsDistinct l
    → All (λ t. Map.get t.0 n.peer_manager.peer_info ≡ some t.1) l
    → (n' : NetworkEvents) × (check_peers true allowed now l n ≡ ok n') × Ticked allowed now l n n'
unfolding check_peers Map.get
check_peers_lem allowed now [] n s d known = (
  n,
  refl,
  record { same_node = refl; sent = sym (append-nil _); keeps = λ w. w; fate = λ q. refl },
)
check_peers_lem allowed now ((p, i) ∷ l) n s d known =
    let (n1, step, did) = check_peer_lem allowed now p i n s.0 known.0 in
    let (n2, rest, done) =
      check_peers_lem allowed now l n1 s.1 d.1 (Known-Did p _ _ n n1 did l d.0 known.1) in
    (
      n2,
      rw (step, rest) refl,
      record {
        same_node = done.same_node ∙ did.same_node;
        sent =
            rw (done.sent, did.same_node, did.sent)
              (append_assoc (requests n.outbox)
                (if overdue allowed now i then taken_over n.node_id.peer_id i.agent_vessel else [])
                (due n.node_id.peer_id allowed now l));
        keeps = λ w. done.keeps (did.keeps w);
        fate = λ q.
            rw (done.fate q, did.fate q, did.same_node) (ground (arith, ==_iff p q, ==_iff q p));
      },
    )
