-- ===== src/Network/World.antt =====
-- What the handlers of network_events get from outside: the crates they call, the chain, and
-- whether the swarm takes what they hand it.
use reveries_network.Common.{ℕ, String, Bool, Option, Result, ok, err, if◌then◌else◌}
use reveries_network.Types.{ReverieId, PublicKey, Bytes, ReverieCapsulefrag, FragmentResponse}
use reveries_network.Types.Signatures.{Primitives}
use reveries_network.Network.{NetworkEvents, Output, emit, send_response}

pub record World : Type 0 where
  pub primitives : Primitives
  -- of umbral_pre and serde_json: a kfrag and a capsule as read from bytes, the check of a kfrag
  -- against the keys of its sender and its target, and re-encryption
  pub keyfrag_from_slice : Bytes → Option Bytes
  pub keyfrag_verify : Bytes → PublicKey → PublicKey → PublicKey → Option Bytes
  pub capsule_from_slice : Bytes → Option Bytes
  pub reencrypt : Bytes → Bytes → Bytes
  pub cfrag_to_vec : Bytes → Bytes
  pub encode_cfrag : ReverieCapsulefrag → Result String Bytes
  -- the answer of the contract, of this reverie, for this spender and amount
  pub can_spend : String → ReverieId → String → ℕ → Option Bool
  -- whether the requester still waits, and whether the local store takes a record
  pub channel_open : Bool
  pub put_record : Output → Bool
  -- the error of the swarm where it does not listen on an address
  pub listen_on : String → Option String

-- Why a handler stops: the errors that it returns, and its panics.
pub data Stop : Type 0 where
  no_cfrag access_denied invalid_signature not_implemented chain_error put_error send_error
        verify_error serde_error panicked :
      Stop

abbrev pub Verdict : Type 0
Verdict = Result {0, 0} Stop Unit

-- A handler changes the node's state also where it fails.
abbrev pub Outcome : Type 0
Outcome = NetworkEvents × Verdict

unfoldable pub respond : World → Stop → FragmentResponse → NetworkEvents → Outcome
unfolding emit
respond w stop response n =
    if w.channel_open then (emit (send_response response) n, ok tt) else (n, err stop)

unfoldable pub put : World → Stop → Output → NetworkEvents → Outcome
unfolding emit
put w stop o n = if w.put_record o then (emit o n, ok tt) else (n, err stop)

unfoldable pub and_then : Outcome → (NetworkEvents → Outcome) → Outcome
and_then (n, ok _) k = k n
and_then (n, err stop) k = (n, err stop)
