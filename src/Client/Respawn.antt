-- ===== src/Client/Respawn.antt =====
-- When a client reports that an agent has been started anew.
use reveries_network.Common.{
  ℕ, suc, ◌≡◌, refl, String, List, [], ◌∷◌, ◌++◌, length, Option, none, some, Result, ok, err, true,
  false, Bool, get_elem?, Bool-cases, inl, inr, ap, ◌∙◌, ltb, Option-cases, arith,
}
use reveries_network.Types.{
  PeerId, ReverieId, AccessKey, Reverie, ReverieType, sovereign_agent, ReverieMessage,
  ReverieKeyfrag, ReverieNameWithNonce, NodeKeysWithVesselStatus, PublicKey, AccessCondition, Bytes,
}
use reveries_network.Network.{Channel}
use reveries_network.Network.Commands.{NodeCommand, mark_respawn_complete}
use reveries_network.Client.{NodeClient, ClientError, send_failed}
use reveries_network.Client.Run.{Run, ◌>>=◌, lift, send_or}
use reveries_network.Client.Vessels.{get_prospect_vessels, get_node_vessels}
use reveries_network.Client.Broadcast.{
  keyfrag_commands, keyfrag_command, reverie_commands, message_for, send_fragments,
  broadcast_reverie_keyfrags, create_reverie_keyfrags,
}
use reveries_network.Client.Cfrags.{fragment_requests, request_cfrags}
use reveries_network.Client.Spawn.{
  Answers, get_reverie, reconstruct_agent_secrets_cfrags, create_reverie, respawn,
  handle_respawn_request,
}

-- the reports among the commands that an agent's former vessel is to be forgotten
abbrev pub completions : List NodeCommand → List (ReverieId × PeerId × ReverieNameWithNonce)
completions [] = []
completions (mark_respawn_complete id peer name ∷ cs) = (id, peer, name) ∷ completions cs
completions (_ ∷ cs) = completions cs

pub completions-append :
    (xs ys : List NodeCommand) → completions (xs ++ ys) ≡ completions xs ++ completions ys
completions-append [] ys = refl
completions-append (mark_respawn_complete id peer name ∷ cs) ys = rw (completions-append cs ys)
completions-append (_ ∷ cs) ys = completions-append cs ys

record IsSilent {A : Type 0} (r : Run A) : Type 0 where
  silent : completions r.0 ≡ []

-- `es` where the result is a success, and nothing otherwise
abbrev pub reported :
    {A : Type 0}
    → List (ReverieId × PeerId × ReverieNameWithNonce)
    → Result ClientError A
    → List (ReverieId × PeerId × ReverieNameWithNonce)
reported es (ok a) = es
reported es (err e) = []

-- A run that succeeds reports `es`, and one that fails reports nothing.
pub record Reports {A : Type 0} (es : List (ReverieId × PeerId × ReverieNameWithNonce)) (r : Run A)
    : Type 0 where
  pub reports : completions r.0 ≡ reported es r.1

module _ {A : Type 0} {B : Type 0} where
  bind-IsSilent :
      (r : Run A) (f : A → Run B) → IsSilent r → ((a : A) → IsSilent (f a)) → IsSilent (r >>= f)
  bind-IsSilent (sent, ok a) f h k = record {
    silent = rw (completions-append sent (f a).0, h.silent) ((k a).silent);
  }
  bind-IsSilent (sent, err e) f h k = record { silent = h.silent }

  bind-Reports :
      (es : List (ReverieId × PeerId × ReverieNameWithNonce)) (r : Run A) (f : A → Run B)
      → IsSilent r
      → ((a : A) → Reports es (f a))
      → Reports es (r >>= f)
  bind-Reports es (sent, ok a) f h k = record {
    reports = rw (completions-append sent (f a).0, h.silent) ((k a).reports);
  }
  bind-Reports es (sent, err e) f h k = record { reports = h.silent }

lift-IsSilent : {A : Type 0} (r : Result ClientError A) → IsSilent (lift r)
lift-IsSilent r = record { silent = refl }

send_or-IsSilent :
    (e : ClientError) (receiver_open : Bool) (cs : List NodeCommand)
    → completions cs ≡ []
    → IsSilent (send_or e receiver_open cs)
send_or-IsSilent e true cs h = record { silent = h }
send_or-IsSilent e false cs h = record { silent = refl }

module _ (c : NodeClient) where
  fragment_requests-completions :
      (id : ReverieId) (key : AccessKey) (reply : Channel) (ps : List PeerId)
      → completions (fragment_requests id key reply ps) ≡ []
  unfolding fragment_requests
  fragment_requests-completions id key reply [] = refl
  fragment_requests-completions id key reply (p ∷ ps) =
      fragment_requests-completions id key (suc reply) ps

  request_cfrags-IsSilent :
      (reply : Channel) (id : ReverieId) (ps : List PeerId) (key : AccessKey)
      (answers : List (Result String Bytes))
      → IsSilent (request_cfrags c reply id ps key answers)
  unfolding request_cfrags
  request_cfrags-IsSilent reply id ps key answers = elim (Bool-cases c.receiver_open) [
    | inl opened ↦ record { silent = rw opened (fragment_requests-completions id key reply ps) }
    | inr closed ↦ record { silent = rw closed refl }
  ]

  get_reverie-IsSilent :
      (reply : Channel) (id : ReverieId) (type : ReverieType)
      (answer : Result ClientError ReverieMessage)
      → IsSilent (get_reverie c reply id type answer)
  unfolding get_reverie
  get_reverie-IsSilent reply id type answer =
      bind-IsSilent _ _ (send_or-IsSilent _ c.receiver_open _ refl) (λ u. lift-IsSilent answer)

  reconstruct-IsSilent :
      (reply : Channel) (a : Answers) (id : ReverieId) (type : ReverieType)
      → IsSilent (reconstruct_agent_secrets_cfrags c reply a id type)
  unfolding reconstruct_agent_secrets_cfrags
  reconstruct-IsSilent reply a id type =
      bind-IsSilent _ _ (get_reverie-IsSilent reply id type a.reverie) (λ m.
        bind-IsSilent _ _ (lift-IsSilent _) (λ capsule.
          bind-IsSilent _ _ (request_cfrags-IsSilent (suc reply) id m.keyfrag_providers _ a.cfrags)
            (λ raw. bind-IsSilent _ _ (lift-IsSilent _) (λ parsed. lift-IsSilent _))))

  get_prospect_vessels-IsSilent :
      (reply : Channel) (statuses : List NodeKeysWithVesselStatus)
      → IsSilent (get_prospect_vessels c reply statuses)
  unfolding get_prospect_vessels get_node_vessels
  get_prospect_vessels-IsSilent reply statuses =
      bind-IsSilent _ _
        (bind-IsSilent _ _ (send_or-IsSilent _ c.receiver_open _ refl) (λ u. lift-IsSilent _))
        (λ vs. lift-IsSilent _)

  keyfrag_commands-completions :
      (me target : PeerId) (ps : List NodeKeysWithVesselStatus) (i : ℕ) (fs : List ReverieKeyfrag)
      (cs : List NodeCommand)
      → keyfrag_commands me target ps i fs ≡ some cs
      → completions cs ≡ []
  unfolding keyfrag_commands keyfrag_command
  keyfrag_commands-completions me target ps i [] cs h = ground arith
  keyfrag_commands-completions me target ps i (f ∷ fs) cs h = elim (Option-cases (get_elem? ps i)) [
    | inl beyond ↦
        let fails : keyfrag_commands me target ps i (f ∷ fs) ≡ none =
          rw (beyond, keyfrag_commands) refl in
        cc
    | inr (p, at) ↦ elim (Option-cases (keyfrag_commands me target ps (suc i) fs)) [
      | inl beyond ↦
          let fails : keyfrag_commands me target ps i (f ∷ fs) ≡ none =
            rw (at, keyfrag_commands, beyond) refl in
          cc
      | inr (rest, e) ↦
          let is : keyfrag_commands me target ps i (f ∷ fs)
              ≡ some (keyfrag_command me target p.peer_id f ∷ rest) =
            rw (at, keyfrag_commands, e) refl in
          let same : cs ≡ keyfrag_command me target p.peer_id f ∷ rest = cc in
          ap completions same ∙ keyfrag_commands-completions me target ps (suc i) fs rest e
    ]
  ]

  reverie_commands-completions :
      (type : ReverieType) (holder : PeerId) (m : ReverieMessage)
      → completions (reverie_commands type holder m) ≡ []
  unfolding reverie_commands
  reverie_commands-completions (sovereign_agent name) holder m = refl
  reverie_commands-completions _ holder m = refl

  send_fragments-IsSilent :
      (r : Reverie) (target : PeerId) (ps : List NodeKeysWithVesselStatus)
      → IsSilent (send_fragments c r target ps)
  unfolding send_fragments
  send_fragments-IsSilent r target ps =
      let fs = create_reverie_keyfrags c r in
      elim (Option-cases (keyfrag_commands c.node_id.peer_id target ps 0 fs)) [
        | inl beyond ↦ rw (beyond, send_fragments) (record { silent = refl })
        | inr (cs, e) ↦
            let others = reverie_commands r.reverie_type target (message_for c r target ps) in
            let none_of : completions (cs ++ others) ≡ [] =
              completions-append cs others
              ∙ ap (λ l. l ++ completions others)
                  (keyfrag_commands-completions c.node_id.peer_id target ps 0 fs cs e)
              ∙ reverie_commands-completions r.reverie_type target _ in
            rw (e, send_fragments)
              (send_or-IsSilent send_failed c.receiver_open (cs ++ others) none_of)
      ]

  broadcast-IsSilent :
      (r : Reverie) (target : PeerId) (ps : List NodeKeysWithVesselStatus)
      → IsSilent (broadcast_reverie_keyfrags c r target ps)
  unfolding broadcast_reverie_keyfrags
  broadcast-IsSilent r target ps = elim (Bool-cases (ltb (length ps) r.total_frags)) [
    | inl few ↦ rw (few, broadcast_reverie_keyfrags) (lift-IsSilent (err _))
    | inr enough ↦ elim (Bool-cases (ltb r.total_frags (length ps))) [
      | inl more ↦
          rw (enough, broadcast_reverie_keyfrags, more) (send_fragments-IsSilent r target _)
      | inr equal ↦
          rw (enough, broadcast_reverie_keyfrags, equal) (send_fragments-IsSilent r target _)
    ]
  ]

  create_reverie-IsSilent :
      (id : ReverieId) (secrets : Option Bytes) (type : ReverieType) (threshold total_frags : ℕ)
      (target verifying : PublicKey) (condition : AccessCondition)
      → IsSilent (create_reverie c id secrets type threshold total_frags target verifying condition)
  unfolding create_reverie
  create_reverie-IsSilent id secrets type threshold total_frags target verifying condition =
      bind-IsSilent _ _ (lift-IsSilent _) (λ e. lift-IsSilent _)

  respawn-Reports :
      c.receiver_open ≡ true
      → (reply : Channel) (a : Answers) (next_id prev_id : ReverieId)
        (prev_agent : ReverieNameWithNonce) (threshold total_frags : ℕ) (prev_vessel : PeerId)
      → Reports
          ((prev_id, prev_vessel, prev_agent) ∷ [])
          (respawn c reply a next_id prev_id prev_agent threshold total_frags prev_vessel)
  unfolding respawn
  respawn-Reports opened reply a next_id prev_id prev_agent threshold total_frags prev_vessel =
      bind-Reports _ _ _ (reconstruct-IsSilent reply a prev_id (sovereign_agent prev_agent))
        (λ found. bind-Reports _ _ _ (get_prospect_vessels-IsSilent _ a.statuses) (λ chosen.
          bind-Reports _ _ _ (create_reverie-IsSilent next_id _ _ threshold total_frags _ _ _) (λ r.
            bind-Reports _ _ _ (broadcast-IsSilent r chosen.0.peer_id chosen.1)
              (λ u. record { reports = rw opened refl }))))

-- A client that is asked to start a sovereign agent anew reports the agent's former vessel exactly
-- when it succeeds, once and with the agent's former name: where the old fragments do not come
-- together, no vessel is free, encryption fails or the new fragments are not sent, nothing is
-- reported, and the respawn stays pending.
pub handle_respawn_request-completions :
    (c : NodeClient) (reply : Channel) (a : Answers) (next_id prev_id : ReverieId)
    (prev_agent : ReverieNameWithNonce) (threshold total_frags : ℕ) (prev_vessel : PeerId)
    → let run =
        handle_respawn_request c reply a next_id prev_id
          (sovereign_agent prev_agent)
          threshold
          total_frags
          prev_vessel in
      completions run.0 ≡ reported ((prev_id, prev_vessel, prev_agent) ∷ []) run.1
unfolding handle_respawn_request respawn reconstruct_agent_secrets_cfrags get_reverie
handle_respawn_request-completions c reply a next_id prev_id prev_agent threshold total_frags
      prev_vessel =
    elim (Bool-cases c.receiver_open) [
      | inl opened ↦
          (respawn-Reports c opened reply a next_id prev_id prev_agent threshold total_frags
            prev_vessel).reports
      | inr closed ↦ rw closed refl
    ]
