-- ===== src/Client/Vessels.antt =====
-- Which vessels a client chooses: `get_node_vessels` and `get_prospect_vessels` of mod.rs.
use reveries_network.Common.{
  ◌≡◌, ◌↔◌, refl, Bool, true, false, ◌&&◌, List, [], ◌∷◌, All, any, arith, subst, ◌==◌, ==_iff,
  string_eq, ◌≢◌, Result, ok, err, if◌then◌else◌, keep_if,
}
use reveries_network.Types.{
  NodeKeysWithVesselStatus, VesselStatus, never_vessel, empty_vessel, active_vessel,
  is_empty_vessel,
}
use reveries_network.Network.{Channel}
use reveries_network.Network.Commands.{get_node_vessel_statuses}
use reveries_network.Client.{NodeClient, ClientError, no_peers, target_is_provider, panicked}
use reveries_network.Client.Run.{Run, ◌>>=◌, lift, send_or}

-- The statuses that come back on the channel are the argument `answers`. The callers here ask for no
-- shuffle.
unfoldable pub get_node_vessels :
    NodeClient → Channel → List NodeKeysWithVesselStatus → Run (List NodeKeysWithVesselStatus)
get_node_vessels c reply answers = do
  _ ← send_or panicked c.receiver_open (get_node_vessel_statuses reply ∷ [])
  lift (ok answers)

abbrev status_beq : VesselStatus → VesselStatus → Bool
status_beq never_vessel never_vessel = true
status_beq empty_vessel empty_vessel = true
status_beq active_vessel active_vessel = true
status_beq _ _ = false

status_beq_iff : (a b : VesselStatus) → (status_beq a b ≡ true) ↔ (a ≡ b)
status_beq_iff never_vessel b = ground arith
status_beq_iff empty_vessel b = ground arith
status_beq_iff active_vessel b = ground arith

abbrev node_beq : NodeKeysWithVesselStatus → NodeKeysWithVesselStatus → Bool
node_beq a b =
    (a.peer_id == b.peer_id)
    && ((a.umbral_public_key == b.umbral_public_key)
        && ((a.umbral_verifying_public_key == b.umbral_verifying_public_key)
            && status_beq a.vessel_status b.vessel_status))

-- The first of the empty vessels is the target, the others are to keep the fragments.
unfoldable pub choose_vessels :
    List NodeKeysWithVesselStatus
    → Result ClientError (NodeKeysWithVesselStatus × List NodeKeysWithVesselStatus)
choose_vessels [] = err no_peers
choose_vessels (target ∷ providers) =
    if any (node_beq target) providers then err target_is_provider else ok (target, providers)

unfoldable pub get_prospect_vessels :
    NodeClient
    → Channel
    → List NodeKeysWithVesselStatus
    → Run (NodeKeysWithVesselStatus × List NodeKeysWithVesselStatus)
unfolding choose_vessels get_node_vessels
get_prospect_vessels c reply answers = do
  vessels ← get_node_vessels c reply answers
  lift (choose_vessels (keep_if (λ v. is_empty_vessel v.vessel_status) vessels))

abbrev pub IsEmptyVessel : NodeKeysWithVesselStatus → Type 0
IsEmptyVessel v = v.vessel_status ≡ empty_vessel

node_beq_iff : (a b : NodeKeysWithVesselStatus) → (node_beq a b ≡ true) ↔ (a ≡ b)
node_beq_iff a b = ground (
  arith,
  ==_iff a.peer_id b.peer_id,
  ==_iff a.umbral_public_key b.umbral_public_key,
  ==_iff a.umbral_verifying_public_key b.umbral_verifying_public_key,
  status_beq_iff a.vessel_status b.vessel_status,
)

any-node_beq :
    (t : NodeKeysWithVesselStatus) (ps : List NodeKeysWithVesselStatus)
    → (any (node_beq t) ps ≡ false) ↔ All (λ p. t ≢ p) ps
any-node_beq t [] = ground arith
any-node_beq t (p ∷ ps) = ground (arith, node_beq_iff t p, any-node_beq t ps)

keep_if-IsEmptyVessel :
    (vs : List NodeKeysWithVesselStatus)
    → All IsEmptyVessel (keep_if (λ v. is_empty_vessel v.vessel_status) vs)
keep_if-IsEmptyVessel [] = tt
keep_if-IsEmptyVessel (v ∷ vs) = kept_first _ v.vessel_status refl (keep_if-IsEmptyVessel vs)
  where
    kept_first :
        (rest : List NodeKeysWithVesselStatus) (s : VesselStatus)
        → v.vessel_status ≡ s
        → All IsEmptyVessel rest
        → All IsEmptyVessel (if is_empty_vessel s then v ∷ rest else rest)
    kept_first rest never_vessel e h = h
    kept_first rest empty_vessel e h = (e, h)
    kept_first rest active_vessel e h = h

choose_vessels-ok :
    (vs : List NodeKeysWithVesselStatus) (t : NodeKeysWithVesselStatus)
    (ps : List NodeKeysWithVesselStatus)
    → (choose_vessels vs ≡ ok (t, ps)) ↔ ((vs ≡ t ∷ ps) × All (λ p. t ≢ p) ps)
unfolding choose_vessels
choose_vessels-ok [] t ps = ground arith
choose_vessels-ok (v ∷ vs) t ps = ground (arith, any-node_beq v vs)

-- Where the event loop answers, a target and providers are found exactly when the empty vessels among
-- the answers are that target followed by those providers, and none of the providers is the target:
-- no vessel that hosts an agent is chosen, and none is left out.
pub get_prospect_vessels-ok :
    (c : NodeClient) (reply : Channel) (answers : List NodeKeysWithVesselStatus)
    (t : NodeKeysWithVesselStatus) (ps : List NodeKeysWithVesselStatus)
    → c.receiver_open ≡ true
    → ((get_prospect_vessels c reply answers).1 ≡ ok (t, ps)) ↔ (
        (keep_if (λ v. is_empty_vessel v.vessel_status) answers ≡ t ∷ ps)
        × All IsEmptyVessel (t ∷ ps)
        × All (λ p. t ≢ p) ps)
unfolding get_prospect_vessels get_node_vessels
get_prospect_vessels-ok c reply answers t ps opened =
    let kept = keep_if (λ v. is_empty_vessel v.vessel_status) answers in
    let iff = choose_vessels-ok kept t ps in
    rw opened (
      λ h.
          let (is, other) = iff.0 h in
          (is, subst (All IsEmptyVessel) is (keep_if-IsEmptyVessel answers), other),
      λ (is, empty, other). iff.1 (is, other),
    )
