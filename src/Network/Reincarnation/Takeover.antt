-- ===== src/Network/Reincarnation/Takeover.antt =====
-- Who takes over an agent whose vessel goes silent, and when a takeover is over.
use reveries_network.Common.{
  ℕ, ◌≡◌, refl, sym, ◌∙◌, Bool, true, false, Option, none, some, List, [], ◌∷◌, ◌++◌, arith, ◌==◌,
  ==_iff, string_eq, ok, if◌then◌else◌, All, All-append, Bool-cases, Option-cases, inl, inr,
  append-nil,
}
use reveries_network.Common.Map
use reveries_network.Common.Map.{HashMap, get-remove, IsDistinct, IsDistinct-get}
use reveries_network.Common.HashSet
use reveries_network.Common.HashSet.{contains-insert, contains-remove}
use reveries_network.Types.{PeerId, AgentVesselInfo, ReverieNameWithNonce, RespawnId, respawn_eq}
use reveries_network.PeerManager.{PeerInfo, remove_peer_info}
use reveries_network.Network.{NetworkEvents, emit, remove_peer}
use reveries_network.Network.Reincarnation.{
  pending_respawn, handle_peer_heartbeat_failure, mark_pending_respawn_complete,
}
use reveries_network.Network.Reincarnation.Closed.{heard, check_peers-listening}
use reveries_network.Network.Reincarnation.Ticks.{
  requests, due, lost, overdue, taken_over, WellFormed, check_peers_lem, remove_peer-get,
}

-- A tick on a well-formed node, whose client listens, never fails and leaves it well-formed. It asks the node client for
-- exactly the agents of overdue peers that name this node as next vessel, and it forgets exactly
-- the overdue peers that host no agent or such an agent: an overdue peer whose agent names
-- another node stays in the table.
pub handle_peer_heartbeat_failure_lem :
    (allowed now : ℕ) (n : NetworkEvents)
    → WellFormed n
    → (n' : NetworkEvents) × (handle_peer_heartbeat_failure true allowed now n ≡ ok n')
      × WellFormed n'
      × (n'.node_id ≡ n.node_id)
      × (requests n'.outbox
          ≡ requests n.outbox ++ due n.node_id.peer_id allowed now n.peer_manager.peer_info)
      × ((q : PeerId)
          → Map.get q n'.peer_manager.peer_info ≡ (
              if lost n.node_id.peer_id allowed now (Map.get q n.peer_manager.peer_info)
              then none
              else Map.get q n.peer_manager.peer_info))
unfolding handle_peer_heartbeat_failure
handle_peer_heartbeat_failure_lem allowed now n w =
    let m = n.peer_manager.peer_info in
    let (n', run, done) =
      check_peers_lem allowed now m n w.kept.is_sound.sound w.kept.is_distinct
        (IsDistinct-get m w.kept.is_distinct) in
    (n', run, done.keeps w, done.same_node, done.sent, done.fate)

-- A tick fails exactly where it has a request to send and nobody listens.
pub handle_peer_heartbeat_failure-listening :
    (listening : Bool) (allowed now : ℕ) (n : NetworkEvents)
    → WellFormed n
    → handle_peer_heartbeat_failure listening allowed now n
      ≡ heard listening
          (due n.node_id.peer_id allowed now n.peer_manager.peer_info)
          (handle_peer_heartbeat_failure true allowed now n)
unfolding handle_peer_heartbeat_failure
handle_peer_heartbeat_failure-listening listening allowed now n w =
    let m = n.peer_manager.peer_info in
    check_peers-listening listening allowed now m n w.kept.is_sound.sound w.kept.is_distinct
      (IsDistinct-get m w.kept.is_distinct)

-- what holds of the agent that a peer is believed to host
abbrev OfAgent : (AgentVesselInfo → Type 0) → Option AgentVesselInfo → Type 0
OfAgent P none = Unit
OfAgent P (some v) = P v

due-All :
    (P : AgentVesselInfo → Type 0) (me : PeerId) (allowed now : ℕ) (l : List (PeerId × PeerInfo))
    → All (λ t. OfAgent P t.1.agent_vessel) l
    → All (λ v. (v.next_vessel_peer_id ≡ me) × P v) (due me allowed now l)
due-All P me allowed now [] a = tt
due-All P me allowed now ((p, i) ∷ l) a =
    All-append _ (if overdue allowed now i then taken_over me i.agent_vessel else [])
      (due me allowed now l)
      (elim (Bool-cases (overdue allowed now i)) [
        | inr fresh ↦ rw fresh tt
        | inl late ↦ rw late (named i.agent_vessel a.0)
      ])
      (due-All P me allowed now l a.1)
  where
    named :
        (o : Option AgentVesselInfo)
        → OfAgent P o
        → All (λ v. (v.next_vessel_peer_id ≡ me) × P v) (taken_over me o)
    named none h = tt
    named (some v) h = elim (Bool-cases (me == v.next_vessel_peer_id)) [
      | inl same ↦ rw same ((sym ((==_iff me v.next_vessel_peer_id).0 same), h), tt)
      | inr other ↦ rw other tt
    ]

-- Nothing is due where every entry has been through a tick at the same time.
due-nil :
    (me : PeerId) (allowed now : ℕ) (l : List (PeerId × PeerInfo))
    → All (λ t. lost me allowed now (some t.1) ≡ false) l
    → due me allowed now l ≡ []
due-nil me allowed now [] a = refl
due-nil me allowed now ((p, i) ∷ l) a = elim (Option-cases i.agent_vessel) [
  | inl e ↦ rw e (ground (arith, due-nil me allowed now l a.1, a.0))
  | inr (v, e) ↦ rw e (ground (arith, due-nil me allowed now l a.1, a.0))
]

kept_fresh :
    (me : PeerId) (allowed now : ℕ) (before l after : HashMap PeerId PeerInfo)
    → ((q : PeerId)
        → Map.get q after
          ≡ (if lost me allowed now (Map.get q before) then none else Map.get q before))
    → All (λ t. Map.get t.0 after ≡ some t.1) l
    → All (λ t. lost me allowed now (some t.1) ≡ false) l
kept_fresh me allowed now before [] after fate a = tt
kept_fresh me allowed now before ((p, i) ∷ l) after fate a = (
  elim (Bool-cases (lost me allowed now (Map.get p before))) [
    | inl gone ↦ let is : Map.get p after ≡ none = rw (fate p, gone) refl in cc
    | inr here ↦ let is : Map.get p after ≡ Map.get p before = rw (fate p, here) refl in cc
  ],
  kept_fresh me allowed now before l after fate a.1,
)

-- A second tick at the same time asks for no agent again: on a well-formed node, the requests
-- after two ticks are those after one.
pub handle_peer_heartbeat_failure-twice :
    (allowed now : ℕ) (n : NetworkEvents)
    → WellFormed n
    → (n1 n2 : NetworkEvents) × (handle_peer_heartbeat_failure true allowed now n ≡ ok n1)
      × (handle_peer_heartbeat_failure true allowed now n1 ≡ ok n2)
      × (requests n2.outbox ≡ requests n1.outbox)
handle_peer_heartbeat_failure-twice allowed now n w =
    let me = n.node_id.peer_id in
    let (n1, run, w1, node, sent, fate) = handle_peer_heartbeat_failure_lem allowed now n w in
    let m1 = n1.peer_manager.peer_info in
    let (n2, run2, w2, node2, sent2, fate2) = handle_peer_heartbeat_failure_lem allowed now n1 w1 in
    let quiet : due me allowed now m1 ≡ [] = due-nil me allowed now m1 (
      kept_fresh me allowed now n.peer_manager.peer_info m1 m1 fate
        (IsDistinct-get m1 w1.kept.is_distinct)) in
    (n1, n2, run, run2, rw (sent2, node, quiet) (append-nil (requests n1.outbox)))

-- Two nodes believe the same of an agent: wherever both know of a vessel of one reverie, they know the
-- same next vessel.
abbrev SameNext : AgentVesselInfo → AgentVesselInfo → Type 0
SameNext v w = v.reverie_id ≡ w.reverie_id → v.next_vessel_peer_id ≡ w.next_vessel_peer_id

abbrev pub Agree : List (PeerId × PeerInfo) → List (PeerId × PeerInfo) → Type 0
Agree l k =
    All (λ t. OfAgent (λ v. All (λ s. OfAgent (SameNext v) s.1.agent_vessel) k) t.1.agent_vessel) l

module _ (me you : PeerId) (differ : ¬ (me ≡ you)) where
  apart :
      (v : AgentVesselInfo)
      → v.next_vessel_peer_id ≡ me
      → (ws : List AgentVesselInfo) → All (λ w. (w.next_vessel_peer_id ≡ you) × SameNext v w) ws
      → All (λ w. ¬ (v.reverie_id ≡ w.reverie_id)) ws
  apart v mine [] a = tt
  apart v mine (w ∷ ws) a = (λ same. differ (sym mine ∙ a.0.1 same ∙ a.0.0), apart v mine ws a.1)

  due-apart :
      (allowed later : ℕ) (k : List (PeerId × PeerInfo)) (vs : List AgentVesselInfo)
      → All
          (λ v. (v.next_vessel_peer_id ≡ me) × All (λ s. OfAgent (SameNext v) s.1.agent_vessel) k)
          vs
      → All (λ v. All (λ w. ¬ (v.reverie_id ≡ w.reverie_id)) (due you allowed later k)) vs
  due-apart allowed later k [] a = tt
  due-apart allowed later k (v ∷ vs) a = (
    apart v a.0.0 (due you allowed later k) (due-All (SameNext v) you allowed later k a.0.1),
    due-apart allowed later k vs a.1,
  )

-- No takeover starts twice: of two well-formed nodes with different ids that agree on the next vessel
-- of each reverie that both know of, no reverie that the tick of the one asks for is asked for by the
-- tick of the other, whenever they tick and whatever else they know.
pub handle_peer_heartbeat_failure-apart :
    (n m : NetworkEvents) (allowed now later : ℕ)
    → WellFormed n
    → WellFormed m
    → ¬ (n.node_id.peer_id ≡ m.node_id.peer_id)
    → Agree n.peer_manager.peer_info m.peer_manager.peer_info
    → (n' m' : NetworkEvents) × (vs ws : List AgentVesselInfo) × (handle_peer_heartbeat_failure true
          allowed now n
        ≡ ok n')
      × (handle_peer_heartbeat_failure true allowed later m ≡ ok m')
      × (requests n'.outbox ≡ requests n.outbox ++ vs)
      × (requests m'.outbox ≡ requests m.outbox ++ ws)
      × All (λ v. All (λ w. ¬ (v.reverie_id ≡ w.reverie_id)) ws) vs
handle_peer_heartbeat_failure-apart n m allowed now later wn wm differ agree =
    let me = n.node_id.peer_id in
    let you = m.node_id.peer_id in
    let l = n.peer_manager.peer_info in
    let k = m.peer_manager.peer_info in
    let vs = due me allowed now l in
    let ws = due you allowed later k in
    let (n', run, _, _, sent, _) = handle_peer_heartbeat_failure_lem allowed now n wn in
    let (m', run', _, _, sent', _) = handle_peer_heartbeat_failure_lem allowed later m wm in
    let mine = due-All _ me allowed now l agree in
    (n', m', vs, ws, run, run', sent, sent', due-apart me you differ allowed later k vs mine)

-- Completion undoes what the tick recorded: after the node has recorded the respawn of an agent
-- and then hears that it is complete, under the agent's name and its former vessel, the respawn
-- is no longer pending, every other pending respawn still is, and the former vessel is forgotten
-- while every other peer stays.
pub mark_pending_respawn_complete-pending_respawn :
    (v : AgentVesselInfo) (name : ReverieNameWithNonce) (n : NetworkEvents) (r : RespawnId)
    (q : PeerId)
    → let id : RespawnId = record {
      prev_agent = name;
      next_vessel_peer_id = v.current_vessel_peer_id;
    } in
      let n' =
        mark_pending_respawn_complete v.current_vessel_peer_id name (pending_respawn v name n) in
      (HashSet.contains r n'.respawns ≡ (if id == r then false else HashSet.contains r n.respawns))
      × (Map.get q n'.peer_manager.peer_info
          ≡ (if v.current_vessel_peer_id == q then none else Map.get q n.peer_manager.peer_info))
unfolding mark_pending_respawn_complete pending_respawn
mark_pending_respawn_complete-pending_respawn v name n r q =
    let p = v.current_vessel_peer_id in
    let id : RespawnId = record { prev_agent = name; next_vessel_peer_id = p } in
    let n0 : NetworkEvents = record n {
      respawns = HashSet.remove id (HashSet.insert id n.respawns);
    } in
    (
      unfold remove_peer emit in
          ground (
            arith,
            contains-remove id r (HashSet.insert id n.respawns),
            contains-insert id r n.respawns,
            respawn_eq.beq_iff id r,
          ),
      unfold remove_peer_info in
          ground (
            arith,
            get-remove p q (remove_peer p n0).peer_manager.peer_info,
            remove_peer-get p q n0,
          ),
    )
