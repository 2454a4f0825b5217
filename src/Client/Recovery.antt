-- ===== src/Client/Recovery.antt =====
-- From the fragments of a secret back to the secret.
pub mod Answering
pub mod Secrets
use reveries_network.Common.{
  ℕ, suc, ◌≤◌, ◌≡◌, refl, String, List, [], ◌∷◌, ◌++◌, map, length, length-map, All, some, Result,
  ok, err, true, false, ap, ◌∙◌, ltb, arith,
}
use reveries_network.Types.{
  ReverieId, Bytes, umbral, Reverie, sovereign_agent, ReverieNameWithNonce, ReverieMessage,
  ReverieKeyfragMessage, ReverieCapsulefrag, get_fragment_request, save_fragment_request,
  get_fragment_response,
}
use reveries_network.PeerManager.HeartbeatData.{Now}
use reveries_network.Network.{NetworkEvents, Output, Channel, emit, send_response}
use reveries_network.Network.World.{World, Outcome}
use reveries_network.Network.Fragments.{handle_request, reencrypt_frag, capsulefrag}
use reveries_network.Network.Fragments.Release.{Opens, signed, get_fragment-save_fragment}
use reveries_network.Client.{NodeClient, AgentSecretsJson}
use reveries_network.Client.Broadcast.{keyfrag_of}
use reveries_network.Client.Cfrags.{
  parse_cfrag, parse_all, answered, parse_cfrags, required_threshold, first_keys, decrypt_cfrags,
  request_cfrags, ParsedCfrags,
}
use reveries_network.Client.Spawn.{
  Answers, new_reverie, signed_key, get_reverie, reconstruct_agent_secrets_cfrags,
}

-- `xs` is `ys` with some elements left out.
pub data Sub {A : Type 0} : List A → List A → Type 0 where
  done : Sub [] []
  keep : (x : A) (xs ys : List A) → Sub xs ys → Sub (x ∷ xs) (x ∷ ys)
  skip : (y : A) (xs ys : List A) → Sub xs ys → Sub xs (y ∷ ys)

pub Sub-All : {A : Type 0} (P : A → Type 0) (xs ys : List A) → Sub xs ys → All P ys → All P xs
Sub-All P _ _ done a = tt
Sub-All P _ _ (keep x xs ys s) a = (a.0, Sub-All P xs ys s a.1)
Sub-All P _ _ (skip y xs ys s) a = Sub-All P xs ys s a.1

-- The last answer to a request for a fragment among what a node sends.
abbrev pub answer_from : Result String Bytes → List Output → Result String Bytes
answer_from last [] = last
answer_from last (send_response (get_fragment_response r) ∷ os) = answer_from r os
answer_from last (_ ∷ os) = answer_from last os

pub answer_from-response :
    (last r : Result String Bytes) (os : List Output)
    → answer_from last (os ++ (send_response (get_fragment_response r) ∷ [])) ≡ r
answer_from-response last r [] = refl
answer_from-response last r (send_response (get_fragment_response s) ∷ os) =
    answer_from-response s r os
answer_from-response last r (_ ∷ os) = answer_from-response last r os

abbrev pub Verifies : NodeClient → NodeClient → World → Bytes → Type 0
Verifies alice bob w b =
    w.keyfrag_verify b alice.umbral_key.verifying_public_key alice.umbral_key.public_key
      bob.umbral_key.public_key
    ≡ some b

abbrev pub Reverifies : NodeClient → NodeClient → World → Bytes → Bytes → Type 0
Reverifies alice bob w capsule b =
    bob.codec.cfrag_verify (w.reencrypt capsule b) capsule alice.umbral_key.verifying_public_key
      alice.umbral_key.public_key bob.umbral_key.public_key
    ≡ some (w.reencrypt capsule b)

-- What umbral_pre and serde_json promise for a source, a target and the nodes between: what is
-- written is read back, a signature verifies under its signer's key, the fragments that the source
-- generates verify under its keys, also once they are used to re-encrypt, and of fragments for a
-- threshold of at least one, any threshold many decrypt what the source encrypted.
pub record UmbralLaws (alice bob : NodeClient) (w : World) : Type 0 where
  pub kfrag_read : (b : Bytes) → w.keyfrag_from_slice (alice.codec.kfrag_to_vec b) ≡ some b
  pub capsule_read : (b : Bytes) → w.capsule_from_slice (alice.codec.capsule_to_vec b) ≡ some b
  pub capsule_read_back :
      (b : Bytes) → bob.codec.capsule_from_slice (alice.codec.capsule_to_vec b) ≡ some b
  pub cfrag_read : (b : Bytes) → bob.codec.cfrag_from_slice (w.cfrag_to_vec b) ≡ some b
  pub signature_read :
      (s : Bytes) → w.primitives.umbral_signature_from_slice (bob.codec.signature_to_vec s) ≡ some s
  pub signature_verifies :
      (d : Bytes)
      → w.primitives.umbral_signature_verify
          (bob.umbral_key.sign d)
          bob.umbral_key.verifying_public_key
          d
        ≡ true
  pub same_hash : (id : ReverieId) → bob.codec.keccak256 id ≡ w.primitives.keccak256 id
  pub kfrags_verify :
      (t n : ℕ)
      → All
          (Verifies alice bob w)
          (alice.umbral_key.generate_pre_keyfrags bob.umbral_key.public_key t n)
  pub cfrags_verify :
      (capsule : Bytes) (t n : ℕ)
      → All
          (Reverifies alice bob w capsule)
          (alice.umbral_key.generate_pre_keyfrags bob.umbral_key.public_key t n)
  pub decrypts :
      (plaintext capsule ciphertext : Bytes) (t n : ℕ) (bs : List Bytes)
      → alice.umbral_key.encrypt_bytes plaintext ≡ some (capsule, ciphertext)
      → Sub bs (alice.umbral_key.generate_pre_keyfrags bob.umbral_key.public_key t n)
      → 1 ≤ t
      → t ≤ length bs
      → bob.umbral_key.decrypt_reencrypted alice.umbral_key.public_key capsule
          (map (w.reencrypt capsule) bs)
          ciphertext
        ≡ some plaintext

-- A node that was handed fragment `number` of a reverie, generated as `kfrag`.
pub record Provider : Type 0 where
  pub node : NetworkEvents
  pub number : ℕ
  pub kfrag : Bytes
