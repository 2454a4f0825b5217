-- ===== src/Tests/Calls.antt =====
-- Calls of a node, and of its proxy by the node, at concrete inputs.
use reveries_network.Common.{
  ◌≡◌, refl, sym, ap, ◌==◌, ==_iff, string_eq, Bool-cases, inl, inr, if◌then◌else◌, Bool, true,
  none, some, [], ◌∷◌, ◌++◌, ok, arith, String,
}
use reveries_network.Common.Map
use reveries_network.Types.{
  Bytes, ReverieType, sovereign_agent, umbral_signature, AgentVesselInfo, respawn_request,
  name_to_string,
}
use reveries_network.Types.Text.{Hex}
use reveries_network.Types.Naming.{is_name_char, name_from, name_from-name_to_string}
use reveries_network.Proxy.Json.{Json, text, object, field, end}
use reveries_network.Proxy.ApiKeys.{ApiKeyPayload, ApiKeyStore, ApiWorld}
use reveries_network.Client.LlmProxy.{
  LlmProxyPublicKeyPayload, LlmProxyLink, Server, Registrar, register_llm_proxy_pubkey, ProxyCaller,
  init_client, add_proxy_api_key,
}
use reveries_network.Client.LlmProxy.Delivery.{
  proxy_server, ProxyLaws, add_proxy_api_key-serve, add_proxy_api_key-register_llm_proxy_pubkey,
}
use reveries_network.Client.Memories.{
  MemoryAnswers, delegated_payload, reconstruct_memory_reverie, delegate_api_key,
}
use reveries_network.Client.Memories.Delegated.{Origin, delegate_api_key-Origin}
use reveries_network.Client.Respawn.{completions}
use reveries_network.Client.Listener.{
  Heard, listen_to_network_events, all_respawned, listen_to_network_events-completions,
}
use reveries_network.Tests.ApiKeys.{payload, sixteen, world}
use reveries_network.Tests.Clients
use reveries_network.Tests.Clients.{bob, message_of_bob, ava}

abbrev caller : ProxyCaller
caller = record {
  build_client = λ cert. true;
  sign = λ s. some (sixteen ++ (sixteen ++ (sixteen ++ sixteen)));
  base64_encode = λ b. "sig";
  header_value = λ s. some s;
  payload_to_vec = λ p. some [];
  identifier_to_vec = λ id. some [];
}

caller-ProxyLaws : ProxyLaws caller world "key"
caller-ProxyLaws = record {
  decodes = λ s b e. e;
  base64_header = λ b. refl;
  number_header = λ n. refl;
  signs = λ s. (sixteen ++ (sixteen ++ (sixteen ++ sixteen)), refl);
  signed = λ s b e. (cc, refl);
}

abbrev linked : LlmProxyLink
linked = record {
  llm_proxy_public_key = some "key";
  llm_proxy_ca_cert = some "cert";
  proxy_http_client = none;
}

-- what the TLS of the HTTP client accepts
abbrev accepts : String → Bool
accepts root = root == "cert"

caller-init_client : init_client caller "cert" none ≡ some "cert"
unfolding init_client
caller-init_client = refl

add_proxy_api_key-serve_example :
    add_proxy_api_key
      (proxy_server accepts world "key" 1_700_000_030)
      caller
      world
      1_700_000_000
      payload
      linked
      []
    ≡ (
      record linked { proxy_http_client = some (some "cert") },
      Map.insert "reverie_1" payload [],
      ok tt,
    )
add_proxy_api_key-serve_example =
    add_proxy_api_key-serve caller world "key" 1_700_000_000 1_700_000_030 payload [] linked []
      "cert" "cert" accepts caller-ProxyLaws refl refl refl refl caller-init_client refl
      (omega arith) (omega arith) (omega arith) (omega arith)

abbrev registrar : Registrar
registrar = record {
  from_public_key_pem = λ s. some s;
  base64_decode = λ s. some [];
  signature_from_slice = λ b. some b;
  verify = λ key s b. true;
  certificate_from_pem = λ s. some s;
}

abbrev registration : LlmProxyPublicKeyPayload
registration = record { pubkey_pem = "key"; signature_b64 = ""; ca_cert_pem = "new" }

abbrev built : LlmProxyLink
built = record linked { proxy_http_client = some (some "cert") }

abbrev registered : LlmProxyLink
registered = (register_llm_proxy_pubkey registrar registration built).0

abbrev server : Server ApiKeyStore
server = proxy_server accepts world "key" 1_700_000_030

add_proxy_api_key-register_llm_proxy_pubkey_example :
    ((add_proxy_api_key server caller world 1_700_000_000 payload registered []).1
      ≡ (add_proxy_api_key server caller world 1_700_000_000 payload built []).1)
    × ((add_proxy_api_key server caller world 1_700_000_000 payload registered []).2
        ≡ (add_proxy_api_key server caller world 1_700_000_000 payload built []).2)
add_proxy_api_key-register_llm_proxy_pubkey_example =
    add_proxy_api_key-register_llm_proxy_pubkey server registrar registration caller world
      1_700_000_000 payload built [] "cert" (some "cert") refl refl

abbrev hex : Hex
hex = record {
  encode = λ b. "00";
  decode = λ s. some [];
  public_key_from_bytes = λ b. some "pk";
  address_from_str = λ s. some s;
}

abbrev memory : Json
memory = object (field "anthropic_api_key" (text "sk") end)

abbrev answers : MemoryAnswers
answers = record { reverie = ok message_of_bob; cfrags = ok (9 ∷ 1 ∷ []) ∷ ok (9 ∷ 3 ∷ []) ∷ [] }

abbrev memory_payload : String → ApiKeyPayload
memory_payload api_key = delegated_payload hex "reverie_1" (umbral_signature []) api_key

-- a caller and a proxy that agree on one payload
abbrev memory_caller : ProxyCaller
memory_caller = record caller { payload_to_vec = λ p. if p.api_key == "sk" then some [] else none }

abbrev memory_world : ApiWorld
memory_world = record world { json_payload = λ t b. ok (memory_payload "sk") }

memory_reads :
    (api_key : String) (b : Bytes)
    → memory_caller.payload_to_vec (memory_payload api_key) ≡ some b
    → memory_world.json_payload (some "application/json") b ≡ ok (memory_payload api_key)
unfolding delegated_payload
memory_reads api_key b h = elim (Bool-cases (api_key == "sk")) [
  | inl same ↦ ap (λ k. ok (memory_payload k)) (sym ((==_iff api_key "sk").0 same))
  | inr other ↦ ground arith
]

delegate_api_key-Origin_example :
    Origin memory_caller hex "reverie_1"
      (umbral_signature [])
      (reconstruct_memory_reverie bob
        (λ b. some memory)
        0
        answers
        "reverie_1"
        (sovereign_agent ava)
        (umbral_signature [])).1
      []
      (delegate_api_key
        (proxy_server accepts memory_world "key" 1_700_000_030)
        memory_caller
        memory_world
        hex
        bob
        (λ b. some memory)
        0
        answers
        1_700_000_000
        "reverie_1"
        (sovereign_agent ava)
        (umbral_signature [])
        linked
        []).1.1
delegate_api_key-Origin_example =
    delegate_api_key-Origin memory_caller memory_world hex "key" 1_700_000_000 1_700_000_030 accepts
      [] linked "reverie_1" (umbral_signature []) (omega arith) memory_reads bob (λ b. some memory)
      0 answers (sovereign_agent ava)

-- a respawn that succeeds, and one of what is no sovereign agent
abbrev vessel_of : ReverieType → AgentVesselInfo
vessel_of type = record {
  reverie_id = "reverie_1";
  reverie_type = type;
  threshold = 2;
  total_frags = 3;
  current_vessel_peer_id = "c";
  next_vessel_peer_id = "b";
}

abbrev heard : ReverieType → Heard
heard type = record {
  event = respawn_request (vessel_of type);
  reply = 0;
  answers = Clients.answers;
  next_id = "reverie_2";
}

listen_to_network_events-completions_example :
    completions
      (listen_to_network_events bob (heard ReverieType.memory ∷ heard (sovereign_agent ava) ∷ [])).0
    ≡ all_respawned bob (heard ReverieType.memory ∷ heard (sovereign_agent ava) ∷ [])
listen_to_network_events-completions_example =
    listen_to_network_events-completions bob
      (heard ReverieType.memory ∷ heard (sovereign_agent ava) ∷ [])

name_from-name_to_string_example :
    name_from (name_to_string (record { name = "ava-2"; nonce = 17 }))
    ≡ some (record { name = "ava-2"; nonce = 17 })
name_from-name_to_string_example =
    name_from-name_to_string (record { name = "ava-2"; nonce = 17 })
      (unfold is_name_char in (refl, (refl, (refl, (refl, (refl, tt)))))) (omega arith)
