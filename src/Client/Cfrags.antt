-- ===== src/Client/Cfrags.antt =====
-- How a client asks for capsule fragments and reads them: `request_cfrags`, `parse_cfrags` and
-- `decrypt_cfrags` of mod.rs.
use reveries_network.Common.{
  ℕ, suc, String, List, [], ◌∷◌, map, length, Result, ok, err, ◌>>=◌, ok_or, Option, if◌then◌else◌,
  ltb, ◌≡◌, refl, ◌++◌, Result-cases, inl, inr,
}
use reveries_network.Types.{
  PeerId, ReverieId, PublicKey, Bytes, AccessKey, AccessCondition, ReverieCapsulefrag,
}
use reveries_network.Network.{Channel}
use reveries_network.Network.Commands.{NodeCommand, request_capsule_fragment}
use reveries_network.Client.{
  Codec, NodeClient, ClientError, remote, bad_json, bad_cfrag, no_cfrags, insufficient_cfrags,
  not_decryptable,
}
use reveries_network.Client.Run.{Run}

-- Each request waits on a channel of its own, numbered from `reply` on.
unfoldable pub fragment_requests : ReverieId → AccessKey → Channel → List PeerId → List NodeCommand
fragment_requests id key reply [] = []
fragment_requests id key reply (p ∷ ps) =
    request_capsule_fragment id p key reply ∷ fragment_requests id key (suc reply) ps

-- The answers on those channels are the argument `answers`. Where one request cannot be sent, none
-- counts.
unfoldable pub request_cfrags :
    NodeClient
    → Channel
    → ReverieId
    → List PeerId
    → AccessKey
    → List (Result String Bytes)
    → Run (List (Result String Bytes))
unfolding fragment_requests
request_cfrags c reply id providers key answers =
    if c.receiver_open then (fragment_requests id key reply providers, ok answers) else ([], ok [])

pub record ParsedCfrags : Type 0 where
  pub verified_cfrags : List Bytes
  pub source_pubkey : PublicKey
  pub target_verifying_pubkey : PublicKey
  pub access_condition : AccessCondition
  pub total_frags_received : ℕ

-- An error that came back from a provider ends the loop.
unfoldable pub answered : Result String Bytes → Result ClientError Bytes
answered (ok bytes) = ok bytes
answered (err e) = err (remote e)

-- One turn of the loop: an answer, read and verified.
unfoldable pub parse_cfrag :
    Codec → Bytes → Result String Bytes → Result ClientError (Bytes × ReverieCapsulefrag)
unfolding answered
parse_cfrag codec capsule answer = do
  bytes ← answered answer
  frag ← ok_or (codec.capsulefrag_from_slice bytes) bad_json
  cfrag ← ok_or (codec.cfrag_from_slice frag.umbral_capsule_frag) bad_json
  verified ←
      ok_or
        (codec.cfrag_verify cfrag capsule frag.source_verifying_pubkey frag.source_pubkey
          frag.target_pubkey)
        bad_cfrag
  ok (verified, frag)

unfoldable pub parse_all :
    Codec
    → Bytes
    → List (Result String Bytes)
    → Result ClientError (List (Bytes × ReverieCapsulefrag))
unfolding parse_cfrag
parse_all codec capsule [] = ok []
parse_all codec capsule (answer ∷ answers) = do
  x ← parse_cfrag codec capsule answer
  xs ← parse_all codec capsule answers
  ok (x ∷ xs)

-- Each fragment replaces the threshold: the last one's counts.
unfoldable pub required_threshold : ℕ → List (Bytes × ReverieCapsulefrag) → ℕ
required_threshold t [] = t
required_threshold t ((v, f) ∷ xs) = required_threshold f.threshold xs

unfoldable pub first_keys : List (Bytes × ReverieCapsulefrag) → Result ClientError ParsedCfrags
first_keys [] = err no_cfrags
first_keys ((v, f) ∷ xs) = ok (record {
  verified_cfrags = v ∷ map (λ x. x.0) xs;
  source_pubkey = f.source_pubkey;
  target_verifying_pubkey = f.target_verifying_pubkey;
  access_condition = f.access_condition;
  total_frags_received = suc (length xs);
})

-- Whether all fragments have the same keys is computed there and not used.
unfoldable pub parse_cfrags :
    Codec → Bytes → List (Result String Bytes) → Result ClientError ParsedCfrags
unfolding parse_all required_threshold first_keys
parse_cfrags codec capsule answers = do
  xs ← parse_all codec capsule answers
  if ltb (length xs) (required_threshold 0 xs) then err insufficient_cfrags else first_keys xs

-- `serde_json::Value` is read from the same bytes before, for the log.
-- `from_slice` reads the secrets of the caller's type.
unfoldable pub decrypt_cfrags :
    {T : Type 0}
    → NodeClient
    → (Bytes → Option T)
    → Bytes
    → Bytes
    → PublicKey
    → List Bytes
    → Result ClientError T
decrypt_cfrags c from_slice capsule ciphertext source verified = do
  plaintext ←
      ok_or (c.umbral_key.decrypt_reencrypted source capsule verified ciphertext) not_decryptable
  ok_or (from_slice plaintext) bad_json

parse_all-failed :
    (codec : Codec) (capsule : Bytes) (before : List (Result String Bytes)) (e : String)
    (after : List (Result String Bytes))
    → (x : ClientError) × (parse_all codec capsule (before ++ (err e ∷ after)) ≡ err x)
unfolding parse_all parse_cfrag answered
parse_all-failed codec capsule [] e after = (remote e, refl)
parse_all-failed codec capsule (b ∷ before) e after =
    let (x, fails) = parse_all-failed codec capsule before e after in
    elim (Result-cases (parse_cfrag codec capsule b)) [
      | inl (y, bad) ↦ (y, rw (bad, parse_all) refl)
      | inr (v, good) ↦ (x, rw (good, parse_all, fails) refl)
    ]

-- One provider that answers with an error is enough to lose the secret: wherever its answer stands
-- among the others, and however many of those would reach the threshold, the fragments are rejected.
pub parse_cfrags-failed :
    (codec : Codec) (capsule : Bytes) (before : List (Result String Bytes)) (e : String)
    (after : List (Result String Bytes))
    → (x : ClientError) × (parse_cfrags codec capsule (before ++ (err e ∷ after)) ≡ err x)
unfolding parse_cfrags
parse_cfrags-failed codec capsule before e after =
    let (x, fails) = parse_all-failed codec capsule before e after in
    (x, rw (fails, parse_cfrags) refl)
