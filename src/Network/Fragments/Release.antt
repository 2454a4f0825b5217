-- ===== src/Network/Fragments/Release.antt =====
-- When a node gives a fragment away.
use reveries_network.Common.{
  ℕ, String, ◌≡◌, ◌↔◌, refl, Bool, true, false, ◌==◌, ==_iff, ==_refl, string_eq, Option, none,
  some, arith, Option-cases, Bool-cases, inl, inr, ok, err, Result-cases, if◌then◌else◌,
}
use reveries_network.Common.Map.{get-insert}
use reveries_network.Types.{
  AgentVesselInfo, ReverieId, PublicKey, Bytes, AccessKey, ecdsa_signature, umbral_signature,
  ed25519_signature, near_contract_key, eth_contract_key, AccessCondition, umbral, ecdsa, ed25519,
  near_contract, eth_contract, ReverieCapsulefrag, ReverieKeyfragMessage, get_fragment_response,
}
use reveries_network.Types.Signatures.{
  Primitives, verify_access, umbral_opens, ecdsa_opens, recovers_to,
}
use reveries_network.PeerManager.{
  PeerManager, get_cfrags, insert_cfrags, set_peer_info_agent_vessel, insert_reverie_metadata,
}
use reveries_network.Network.{NetworkEvents, emit, send_response}
use reveries_network.Network.World.{World, Stop, no_cfrag, respond}
use reveries_network.Network.Fragments.{
  check_access, spend_verdict, signature_verdict, get_fragment, save_fragment, reencrypt_frag,
  capsulefrag, save_metadata, keyfrag_metadata,
}

-- What opens a reverie's fragment: a signature of the reverie's id by the key, or for the address,
-- that its condition names, or a contract that lets the named spender spend the named amount.
pub data Opens (w : World) (id : ReverieId) : AccessKey → AccessCondition → Type 0 where
  signed :
      (bytes s : Bytes) (expected : PublicKey)
      → w.primitives.umbral_signature_from_slice bytes ≡ some s
      → w.primitives.umbral_signature_verify s expected (w.primitives.keccak256 id) ≡ true
      → Opens w id (umbral_signature bytes) (umbral expected)
  recovered :
      (bytes s : Bytes) (address : String)
      → w.primitives.ecdsa_signature_try_from bytes ≡ some s
      → w.primitives.recover_address_from_prehash s (w.primitives.keccak256 id) ≡ some address
      → Opens w id (ecdsa_signature bytes) (ecdsa address)
  can_spend :
      (contract spender : String) (amount : ℕ) (condition : AccessCondition)
      → w.can_spend contract id spender amount ≡ some true
      → Opens w id (near_contract_key contract spender amount) condition

umbral_opens-true :
    (c : Primitives) (o : Option Bytes) (k : PublicKey) (id : ReverieId)
    → umbral_opens c o k id ≡ true
    → (s : Bytes) × (o ≡ some s) × (c.umbral_signature_verify s k (c.keccak256 id) ≡ true)
unfolding umbral_opens
umbral_opens-true c none k id h = cc
umbral_opens-true c (some s) k id h = (s, refl, h)

recovers_to-true : (o : Option String) (a : String) → recovers_to o a ≡ true → o ≡ some a
unfolding recovers_to
recovers_to-true none a h = cc
recovers_to-true (some b) a h = ground (arith, ==_iff b a)

ecdsa_opens-true :
    (c : Primitives) (o : Option Bytes) (a : String) (id : ReverieId)
    → ecdsa_opens c o a id ≡ true
    → (s : Bytes) × (o ≡ some s) × (c.recover_address_from_prehash s (c.keccak256 id) ≡ some a)
unfolding ecdsa_opens
ecdsa_opens-true c none a id h = cc
ecdsa_opens-true c (some s) a id h = (s, refl, recovers_to-true _ a h)

module _ (w : World) (id : ReverieId) where
  umbral-Opens :
      (bytes : Bytes) (c : AccessCondition)
      → verify_access w.primitives (umbral_signature bytes) c id ≡ some true
      → Opens w id (umbral_signature bytes) c
  unfolding verify_access
  umbral-Opens bytes (umbral expected) h =
      let (s, read, good) = umbral_opens-true w.primitives _ expected id (cc) in
      signed bytes s expected read good
  umbral-Opens bytes (ecdsa a) h = cc
  umbral-Opens bytes (ed25519 a) h = cc
  umbral-Opens bytes (near_contract a b k) h = cc
  umbral-Opens bytes (eth_contract a b k) h = cc

  ecdsa-Opens :
      (bytes : Bytes) (c : AccessCondition)
      → verify_access w.primitives (ecdsa_signature bytes) c id ≡ some true
      → Opens w id (ecdsa_signature bytes) c
  unfolding verify_access
  ecdsa-Opens bytes (ecdsa expected) h =
      let (s, read, good) = ecdsa_opens-true w.primitives _ expected id (cc) in
      recovered bytes s expected read good
  ecdsa-Opens bytes (umbral a) h = cc
  ecdsa-Opens bytes (ed25519 a) h = cc
  ecdsa-Opens bytes (near_contract a b k) h = cc
  ecdsa-Opens bytes (eth_contract a b k) h = cc

spend_verdict-ok : (o : Option Bool) → spend_verdict o ≡ ok tt → o ≡ some true
unfolding spend_verdict
spend_verdict-ok none h = cc
spend_verdict-ok (some true) h = refl
spend_verdict-ok (some false) h = cc

signature_verdict-ok : (o : Option Bool) → signature_verdict o ≡ ok tt → o ≡ some true
unfolding signature_verdict
signature_verdict-ok none h = cc
signature_verdict-ok (some true) h = refl
signature_verdict-ok (some false) h = cc

module _ (w : World) (id : ReverieId) where
  check_access_complete :
      (f : ReverieCapsulefrag) (key : AccessKey) (c : AccessCondition)
      → Opens w id key c
      → f.access_condition ≡ c
      → check_access w id key f ≡ ok tt
  unfolding check_access verify_access
  check_access_complete f _ _ (signed bytes s expected read good) at =
      rw (at, verify_access, read, good) refl
  check_access_complete f _ _ (recovered bytes s address read back) at =
      rw (at, verify_access, read, back, ==_refl address) refl
  check_access_complete f _ _ (can_spend contract spender amount c granted) at = rw granted refl

  check_access_sound :
      (f : ReverieCapsulefrag) (key : AccessKey)
      → check_access w id key f ≡ ok tt
      → Opens w id key f.access_condition
  unfolding check_access
  check_access_sound f (near_contract_key contract spender amount) h =
      can_spend contract spender amount f.access_condition (spend_verdict-ok _ h)
  check_access_sound f (umbral_signature s) h = umbral-Opens w id s _ (signature_verdict-ok _ h)
  check_access_sound f (ecdsa_signature s) h = ecdsa-Opens w id s _ (signature_verdict-ok _ h)
  check_access_sound f (ed25519_signature s) h = cc
  check_access_sound f (eth_contract_key c m a) h = cc

-- A key is accepted for a fragment exactly when it opens the fragment's condition: by a signature
-- of the reverie's id for the key or address that the condition names, or by a contract's consent.
-- The contract's consent opens every condition, since the contract that is asked is the one that
-- the requester names.
pub check_access-Opens :
    (w : World) (id : ReverieId) (key : AccessKey) (f : ReverieCapsulefrag)
    → (check_access w id key f ≡ ok tt) ↔ Opens w id key f.access_condition
check_access-Opens w id key f =
    (check_access_sound w id f key, λ o. check_access_complete w id f key f.access_condition o refl)

module _ (w : World) (id : ReverieId) (key : AccessKey) (n : NetworkEvents) where
  -- Where the node stores a fragment of the reverie whose condition the key opens, and the requester
  -- still waits, the fragment is sent to it, and nothing else about the node changes.
  get_fragment-Opens :
      (f : ReverieCapsulefrag)
      → get_cfrags id n.peer_manager ≡ some f
      → Opens w id key f.access_condition
      → w.channel_open ≡ true
      → get_fragment w id key n
        ≡ (emit (send_response (get_fragment_response (w.encode_cfrag f))) n, ok tt)
  unfolding get_fragment respond
  get_fragment-Opens f stored opens waits =
      rw
        (
          stored,
          get_fragment,
          check_access_complete w id f key f.access_condition opens refl,
          waits,
        )
        refl

  -- Where the node stores no fragment of the reverie, or one whose condition the key does not open,
  -- the request fails, the node sends nothing and stays as it is.
  get_fragment-refused :
      ((f : ReverieCapsulefrag)
        → get_cfrags id n.peer_manager ≡ some f
        → ¬ Opens w id key f.access_condition)
      → (stop : Stop) × (get_fragment w id key n ≡ (n, err stop))
  unfolding get_fragment
  get_fragment-refused closed = elim (Option-cases (get_cfrags id n.peer_manager)) [
    | inl missing ↦ (no_cfrag, rw (missing, get_fragment) refl)
    | inr (f, stored) ↦ elim (Result-cases (check_access w id key f)) [
      | inl (stop, refused) ↦ (stop, rw (stored, get_fragment, refused) refl)
      | inr (u, granted) ↦ absurd (closed f stored (check_access_sound w id f key granted))
    ]
  ]

get_cfrags-save_metadata :
    (v : AgentVesselInfo) (m : PeerManager) → (save_metadata v m).cfrags ≡ m.cfrags
unfolding save_metadata set_peer_info_agent_vessel insert_reverie_metadata
get_cfrags-save_metadata v m = ground arith

-- A kfrag that does not verify leaves the node as it is; one that does is re-encrypted and stored
-- under its reverie's id, with its keys, its number and its condition and this node as provider,
-- while the fragments of all other reveries stay.
get_cfrags-save_fragment :
    (w : World) (m : ReverieKeyfragMessage) (n : NetworkEvents) (q : ReverieId)
    → get_cfrags q (save_fragment w m n).0.peer_manager
      ≡ elim (reencrypt_frag w m.reverie_keyfrag) [
        | err stop ↦ get_cfrags q n.peer_manager
        | ok c ↦
            if m.reverie_keyfrag.id == q
            then some (capsulefrag n.node_id.peer_id m.reverie_keyfrag (w.cfrag_to_vec c))
            else get_cfrags q n.peer_manager
      ]
unfolding save_fragment respond get_cfrags insert_cfrags emit
get_cfrags-save_fragment w m n q = elim (Result-cases (reencrypt_frag w m.reverie_keyfrag)) [
  | inl (stop, e) ↦ rw (e, save_fragment) refl
  | inr (c, e) ↦
      let f = m.reverie_keyfrag in
      let v = keyfrag_metadata m in
      let stored = capsulefrag n.node_id.peer_id f (w.cfrag_to_vec c) in
      let at = get-insert f.id q stored (save_metadata v n.peer_manager).cfrags in
      rw (e, save_fragment)
        (elim (Bool-cases w.channel_open) [
          | inl waits ↦ rw (waits, at, get_cfrags-save_metadata v n.peer_manager) refl
          | inr gone ↦ rw (gone, at, get_cfrags-save_metadata v n.peer_manager) refl
        ])
]

-- A fragment that a node has taken in is given out again to the holder of a key that opens the
-- condition under which it was sent, with the re-encrypted capsule as its content.
pub get_fragment-save_fragment :
    (w : World) (m : ReverieKeyfragMessage) (n : NetworkEvents) (c : Bytes) (key : AccessKey)
    → reencrypt_frag w m.reverie_keyfrag ≡ ok c
    → Opens w m.reverie_keyfrag.id key m.reverie_keyfrag.access_condition
    → w.channel_open ≡ true
    → let n' = (save_fragment w m n).0 in
      let f = capsulefrag n.node_id.peer_id m.reverie_keyfrag (w.cfrag_to_vec c) in
      get_fragment w m.reverie_keyfrag.id key n'
      ≡ (emit (send_response (get_fragment_response (w.encode_cfrag f))) n', ok tt)
get_fragment-save_fragment w m n c key verified opens waits =
    let id = m.reverie_keyfrag.id in
    let n' = (save_fragment w m n).0 in
    let f = capsulefrag n.node_id.peer_id m.reverie_keyfrag (w.cfrag_to_vec c) in
    let stored : get_cfrags id n'.peer_manager ≡ some f =
      rw (get_cfrags-save_fragment w m n id, verified, ==_refl id) refl in
    get_fragment-Opens w id key n' f stored opens waits
