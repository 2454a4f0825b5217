-- ===== src/Tests/Clients.antt =====
-- A client and its network at concrete inputs.
use reveries_network.Common.{
  ℕ, ◌≡◌, ◌↔◌, refl, sym, ap, String, true, none, some, Option, List, [], ◌∷◌, ◌++◌, All, ok, err,
  arith, length, get_elem?, map, nat_beq, if◌then◌else◌, keep_if, ◌≢◌,
}
use reveries_network.Types.{
  PeerId, Bytes, Reverie, sovereign_agent, ReverieNameWithNonce, ReverieMessage,
  ReverieKeyfragMessage, ReverieCapsulefrag, umbral, NodeKeysWithVesselStatus, VesselStatus,
  empty_vessel, active_vessel, is_empty_vessel,
}
use reveries_network.Network.Events.{new}
use reveries_network.Network.Fragments.{capsulefrag}
use reveries_network.Network.Commands.{get_reverie as get_reverie_command}
use reveries_network.Client.{NodeClient, UmbralKey, Codec, AgentSecretsJson, ClientError}
use reveries_network.Client.Vessels.{get_prospect_vessels, IsEmptyVessel, get_prospect_vessels-ok}
use reveries_network.Client.Broadcast.{keyfrag_of, broadcast_reverie_keyfrags}
use reveries_network.Client.Cfrags.{fragment_requests, parse_cfrags, parse_cfrags-failed}
use reveries_network.Client.Distribution.{run_commands, deliveries, delivery, kfrags}
use reveries_network.Client.Distribution.Delivered.{broadcast_reverie_keyfrags-run_commands}
use reveries_network.Client.Spawn.{
  Answers, new_reverie, signed_key, reconstruct_agent_secrets_cfrags,
}
use reveries_network.Client.Recovery.{done, keep, skip, UmbralLaws, Provider}
use reveries_network.Client.Recovery.Answering.{answer_of}
use reveries_network.Client.Recovery.Secrets.{reconstruct_agent_secrets_cfrags-spawned}
use reveries_network.Tests.Nodes.{me, early, world}

abbrev secrets : AgentSecretsJson
secrets = record {
  agent_name = "ava";
  agent_nonce = 1;
  corekey_secp256k1 = [];
  corekey_ed25519 = [];
  anthropic_api_key = some "key";
  openai_api_key = none;
  deepseek_api_key = none;
  social_accounts = "{}";
  context = "";
}

-- A key whose ciphertexts are the plaintexts, with three fragments.
abbrev key : String → UmbralKey
key name = record {
  public_key = name;
  verifying_public_key = name;
  generate_pre_keyfrags = λ target t n. (1 ∷ []) ∷ ((2 ∷ []) ∷ ((3 ∷ []) ∷ []));
  encrypt_bytes = λ plaintext. some (9 ∷ [], plaintext);
  decrypt_reencrypted = λ source capsule frags ciphertext. some ciphertext;
  sign = λ digest. digest;
}

abbrev codec : (Bytes → Option ReverieCapsulefrag) → Codec
codec read = record {
  kfrag_to_vec = λ b. b;
  capsule_to_vec = λ b. b;
  capsule_from_slice = λ b. some b;
  signature_to_vec = λ b. b;
  capsulefrag_from_slice = read;
  cfrag_from_slice = λ b. some b;
  cfrag_verify = λ b capsule v s t. some b;
  keccak256 = λ id. 7 ∷ [];
  secrets_to_vec = λ s. some (5 ∷ []);
  secrets_from_slice = λ b. some secrets;
  json_to_vec = λ j. some (5 ∷ []);
}

abbrev alice : NodeClient
alice = record {
  node_id = me;
  umbral_key = key "alice";
  codec = codec (λ b. none);
  receiver_open = true;
}

abbrev pub ava : ReverieNameWithNonce
ava = record { name = "ava"; nonce = 1 }

abbrev for_bob : Reverie
for_bob =
    new_reverie alice "reverie_1" "secrets description" (sovereign_agent ava) 2 3 "bob" "bob"
      (umbral "bob") (9 ∷ [], 5 ∷ [])

abbrev stored_as : PeerId → ℕ → Bytes → ReverieCapsulefrag
stored_as provider i b = capsulefrag provider (keyfrag_of alice for_bob i b) ((9 ∷ []) ++ b)

-- what the second byte tells of a fragment
abbrev read_frag : Bytes → Option ReverieCapsulefrag
read_frag (c ∷ (k ∷ [])) =
    if nat_beq k 1 then some (stored_as "a" 0 (k ∷ [])) else some (stored_as "c" 2 (k ∷ []))
read_frag _ = none

abbrev pub bob : NodeClient
bob = record {
  node_id = record me { peer_id = "b" };
  umbral_key = key "bob";
  codec = codec read_frag;
  receiver_open = true;
}

abbrev second : Option (Bytes × Bytes) → Option Bytes
second none = none
second (some (a, b)) = some b

laws : UmbralLaws alice bob world
laws = record {
  kfrag_read = λ b. refl;
  capsule_read = λ b. refl;
  capsule_read_back = λ b. refl;
  cfrag_read = λ b. refl;
  signature_read = λ s. refl;
  signature_verifies = λ d. refl;
  same_hash = λ id. refl;
  kfrags_verify = λ t n. (refl, (refl, (refl, tt)));
  cfrags_verify = λ capsule t n. (refl, (refl, (refl, tt)));
  decrypts = λ plaintext capsule ciphertext t n bs e sub some_needed enough. sym (ap second e);
}

-- Two of the three nodes that were handed a fragment.
abbrev first_provider : Provider
first_provider = record { node = new me; number = 0; kfrag = 1 ∷ [] }

abbrev last_provider : Provider
last_provider = record { node = new (record me { peer_id = "c" }); number = 2; kfrag = 3 ∷ [] }

abbrev pub message_of_bob : ReverieMessage
message_of_bob = record {
  reverie = for_bob;
  source_peer_id = "a";
  target_peer_id = "b";
  keyfrag_providers = "a" ∷ ("c" ∷ []);
}

abbrev vessel : PeerId → VesselStatus → NodeKeysWithVesselStatus
vessel p s = record {
  peer_id = p;
  umbral_public_key = p;
  umbral_verifying_public_key = p;
  vessel_status = s;
}

abbrev pub answers : Answers
answers = record {
  reverie = ok message_of_bob;
  cfrags =
      map (answer_of alice bob world early for_bob (9 ∷ []))
        (first_provider ∷ (last_provider ∷ []));
  statuses = vessel "d" empty_vessel ∷ [];
}

reconstruct_agent_secrets_cfrags-spawned_example :
    let run = reconstruct_agent_secrets_cfrags bob 0 answers "reverie_1" (sovereign_agent ava) in
    (run.1 ≡ ok secrets)
    × (run.0
        ≡ get_reverie_command "reverie_1" (sovereign_agent ava) 0
          ∷ fragment_requests "reverie_1" (signed_key bob "reverie_1") 1 ("a" ∷ "c" ∷ []))
unfolding new new_reverie keyfrag_of
reconstruct_agent_secrets_cfrags-spawned_example =
    reconstruct_agent_secrets_cfrags-spawned alice bob world early laws "reverie_1" ava 2 3 (5 ∷ [])
      (9 ∷ []) (5 ∷ []) secrets first_provider (last_provider ∷ []) 0 message_of_bob answers refl
      refl refl refl ((9 ∷ (1 ∷ []), refl, refl), ((9 ∷ (3 ∷ []), refl, refl), tt))
      (keep (1 ∷ []) ((3 ∷ []) ∷ []) _ (skip (2 ∷ []) ((3 ∷ []) ∷ []) _ (keep (3 ∷ []) [] [] done)))
      (omega arith) (omega arith) refl refl refl refl

abbrev four : List NodeKeysWithVesselStatus
four =
    vessel "p" empty_vessel
    ∷ (vessel "q" empty_vessel ∷ (vessel "r" empty_vessel ∷ (vessel "s" empty_vessel ∷ [])))

broadcast_reverie_keyfrags-run_commands_example :
    let sent = broadcast_reverie_keyfrags alice for_bob "b" four in
    (sent.1 ≡ ok tt)
    × (ds : List (PeerId × ReverieKeyfragMessage)) × (deliveries
          (run_commands world [] 0 sent.0 (new me)).outbox
        ≡ deliveries (new me).outbox ++ ds)
    × (length ds ≡ for_bob.total_frags)
    × ((j : ℕ) (b : Bytes) (p : NodeKeysWithVesselStatus)
        → get_elem? (kfrags alice for_bob) j ≡ some b
        → get_elem? four j ≡ some p
        → get_elem? ds j ≡ some (delivery alice.node_id.peer_id "b" alice for_bob j b p))
unfolding new_reverie
broadcast_reverie_keyfrags-run_commands_example =
    broadcast_reverie_keyfrags-run_commands world [] 0 (new me) alice for_bob "b" four refl refl
      (omega arith)

parse_cfrags-failed_example :
    (x : ClientError) × (parse_cfrags bob.codec
        (9 ∷ [])
        ((ok (9 ∷ (1 ∷ [])) ∷ (ok (9 ∷ (3 ∷ [])) ∷ [])) ++ (err "dial failure" ∷ []))
      ≡ err x)
parse_cfrags-failed_example =
    parse_cfrags-failed bob.codec (9 ∷ []) (ok (9 ∷ (1 ∷ [])) ∷ (ok (9 ∷ (3 ∷ [])) ∷ []))
      "dial failure" []

abbrev statuses : List NodeKeysWithVesselStatus
statuses = vessel "p" active_vessel ∷ (vessel "q" empty_vessel ∷ (vessel "r" empty_vessel ∷ []))

get_prospect_vessels-ok_example :
    ((get_prospect_vessels alice 0 statuses).1
      ≡ ok (vessel "q" empty_vessel, vessel "r" empty_vessel ∷ []))
    ↔ ((keep_if (λ v. is_empty_vessel v.vessel_status) statuses
          ≡ vessel "q" empty_vessel ∷ (vessel "r" empty_vessel ∷ []))
        × All IsEmptyVessel (vessel "q" empty_vessel ∷ (vessel "r" empty_vessel ∷ []))
        × All (λ p. vessel "q" empty_vessel ≢ p) (vessel "r" empty_vessel ∷ []))
get_prospect_vessels-ok_example =
    get_prospect_vessels-ok alice 0 statuses (vessel "q" empty_vessel)
      (vessel "r" empty_vessel ∷ []) refl
