-- ===== src/Client/Memories.antt =====
-- memories.rs: how a node uses a memory that it may open.
pub mod Delegated
use reveries_network.Common.{
  ℕ, suc, String, Bool, false, Option, none, some, List, Result, ok, err, ok_or,
}
use reveries_network.Types.{ReverieId, ReverieType, Bytes, AccessKey, get_type, ReverieMessage}
use reveries_network.Types.Text.{Hex, access_key_to_string}
use reveries_network.Network.{Channel}
use reveries_network.Network.Commands.{NodeCommand}
use reveries_network.Proxy.Json.{Json, get, then_str, value_or_null}
use reveries_network.Proxy.ApiKeys.{ApiKeyPayload, ApiWorld}
use reveries_network.Proxy.Parser.{TextOf}
use reveries_network.Client.{NodeClient, ClientError, bad_capsule}
use reveries_network.Client.Run.{Run, ◌>>=◌, lift}
use reveries_network.Client.Cfrags.{request_cfrags, parse_cfrags, decrypt_cfrags}
use reveries_network.Client.Spawn.{get_reverie}
use reveries_network.Client.LlmProxy.{
  LlmProxyLink, ProxyError, no_ca_certificate, ProxyCaller, Server, add_proxy_api_key,
}

-- What comes back to the node: the reverie that it asks for, and the fragments.
pub record MemoryAnswers : Type 0 where
  pub reverie : Result ClientError ReverieMessage
  pub cfrags : List (Result String Bytes)

-- `_reconstruct_memory_reverie`, for secrets that are a JSON value.
unfoldable pub reconstruct_memory_reverie :
    NodeClient
    → (Bytes → Option Json)
    → Channel
    → MemoryAnswers
    → ReverieId
    → ReverieType
    → AccessKey
    → Run (Json × AccessKey)
unfolding get_reverie request_cfrags parse_cfrags decrypt_cfrags
reconstruct_memory_reverie c from_slice reply answers id type key = do
  m ← get_reverie c reply id type answers.reverie
  capsule ← lift (ok_or (c.codec.capsule_from_slice m.reverie.umbral_capsule) bad_capsule)
  raw ← request_cfrags c (suc reply) id m.keyfrag_providers key answers.cfrags
  parsed ← lift (parse_cfrags c.codec capsule raw)
  secrets ← lift (
      decrypt_cfrags c from_slice capsule m.reverie.umbral_ciphertext parsed.source_pubkey
        parsed.verified_cfrags)
  lift (ok (secrets, key))

pub data DelegationError : Type 0 where
  not_reconstructed : ClientError → DelegationError
  no_api_key : DelegationError
  proxy_error : ProxyError → DelegationError

-- What the proxy is handed: the key of the memory, and who pays by the access key.
unfoldable pub delegated_payload : Hex → ReverieId → AccessKey → String → ApiKeyPayload
delegated_payload h id key api_key = record {
  reverie_id = id;
  api_key_type = "ANTHROPIC_API_KEY";
  api_key = api_key;
  spender = access_key_to_string h key;
  spender_type = get_type key;
}

abbrev pub Delegated : Type 0 → Type 0
Delegated S = LlmProxyLink × S × Result {0, 0} DelegationError Unit

unfoldable pub delegation_result :
    Result {0, 0} ProxyError Unit → Result {0, 0} DelegationError Unit
delegation_result (ok u) = ok u
delegation_result (err e) = err (proxy_error e)

module _ {S : Type 0} (server : Server S) (w : ProxyCaller) (api : ApiWorld) (h : Hex) where
  -- the payload is sent where the proxy has registered a certificate
  unfoldable pub delegate_with : ℕ → ApiKeyPayload → Option String → LlmProxyLink → S → Delegated S
  unfolding delegation_result
  delegate_with now payload none l s = (l, s, err (proxy_error no_ca_certificate))
  delegate_with now payload (some cert) l s =
      let called = add_proxy_api_key server w api now payload l s in
      (called.0, called.1, delegation_result called.2)

  unfoldable pub delegate_secrets :
      ℕ → ReverieId → AccessKey → Option String → LlmProxyLink → S → Delegated S
  unfolding delegate_with delegated_payload
  delegate_secrets now id key none l s = (l, s, err no_api_key)
  delegate_secrets now id key (some api_key) l s =
      delegate_with now (delegated_payload h id key api_key) l.llm_proxy_ca_cert l s

  unfoldable pub delegate_reconstructed :
      ℕ → ReverieId → Result ClientError (Json × AccessKey) → LlmProxyLink → S → Delegated S
  unfolding delegate_secrets
  delegate_reconstructed now id (err e) l s = (l, s, err (not_reconstructed e))
  delegate_reconstructed now id (ok (secrets, key)) l s =
      delegate_secrets now id key (then_str (get "anthropic_api_key" secrets)) l s

  -- `delegate_api_key`: the commands to the event loop, and what becomes of the node's link to its
  -- proxy, of the proxy, and of the call.
  unfoldable pub delegate_api_key :
      NodeClient
      → (Bytes → Option Json)
      → Channel
      → MemoryAnswers
      → ℕ
      → ReverieId
      → ReverieType
      → AccessKey
      → LlmProxyLink
      → S
      → List NodeCommand × Delegated S
  unfolding reconstruct_memory_reverie delegate_reconstructed
  delegate_api_key c from_slice reply answers now id type key l s =
      let found = reconstruct_memory_reverie c from_slice reply answers id type key in
      (found.0, delegate_reconstructed now id found.1 l s)

pub record AnthropicQuery : Type 0 where
  pub prompt : String
  pub tools : Option Json
  pub stream : Option Bool

abbrev or_false : Option Bool → Bool
or_false none = false
or_false (some b) = b

pub record ExecuteWithMemoryReverieResult : Type 0 where
  pub claude : Option Json
  pub deepseek : Option Json

-- `execute_with_memory_reverie`. `call` is `call_anthropic`: a prompt, a context, the tools and whether
-- to stream, to a result as JSON, or nothing where the call fails.
unfoldable pub execute_with_memory_reverie :
    NodeClient
    → (Bytes → Option Json)
    → TextOf
    → (String → String → Option Json → Bool → Option Json)
    → Channel
    → MemoryAnswers
    → ReverieId
    → ReverieType
    → AccessKey
    → AnthropicQuery
    → Run ExecuteWithMemoryReverieResult
unfolding reconstruct_memory_reverie
execute_with_memory_reverie c from_slice text_of call reply answers id type key query = do
  found ← reconstruct_memory_reverie c from_slice reply answers id type key
  let secret_context = text_of (value_or_null (get "memories" found.0))
  lift (
      ok (record {
        claude = call query.prompt secret_context query.tools (or_false query.stream);
        deepseek = none;
      }))
