-- ===== src/Rpc.antt =====
-- node/rpc/src/rpc_server.rs: the methods that a node answers over JSON-RPC. What jsonrpsee reads from
-- the parameters of a call, and the operations of the node client, are records.
pub mod Calls
use Prim.Native.String.{◌++◌}
use reveries_network.Common.{ℕ, String, Option, none, some, List, [], ◌∷◌, Result, ok, err}
use reveries_network.Types.{PeerId, ReverieId, ReverieType, AccessKey, AccessCondition}
use reveries_network.Proxy.Json.{Json, null, text, array, object, Items, nil, item, end, field}
use reveries_network.Usage.Verify.{SignedUsageReport}
use reveries_network.Client.{AgentSecretsJson}
use reveries_network.Client.LlmProxy.{LlmProxyPublicKeyPayload}
use reveries_network.Client.Memories.{AnthropicQuery}

-- `Params::parse` and `Params::one` at the types of the methods, or the text of their error.
pub record Params : Type 0 where
  pub agent : Result {0, 0} String (AgentSecretsJson × ℕ × ℕ)
  pub memory : Result {0, 0} String (Json × ℕ × ℕ × AccessCondition)
  pub key : Result {0, 0} String (ReverieId × ReverieType × AccessKey)
  pub query : Result {0, 0} String (ReverieId × ReverieType × AccessKey × AnthropicQuery)
  pub report : Result {0, 0} String SignedUsageReport
  pub one : Result {0, 0} String String
  pub proxy_key : Result {0, 0} String LlmProxyPublicKeyPayload
  pub docker : Result {0, 0} String (String × String)
  pub api_key : Result {0, 0} String (String × String × String × String × String)

-- How an operation of the client ends without a result: with the text of its error, or with a panic,
-- as where an `assert!` or an `expect` of the client's own fails.
pub data Failure : Type 0 where
  message : String → Failure
  panic : Failure

-- The operations of the client, on a state `S`, with a failure or the JSON of a result.
pub record NodeInterface (S : Type 0) : Type 0 where
  pub get_proxy_public_key : S → Result Failure (Option String × Option String)
  pub spawn_agent : AgentSecretsJson → ℕ → ℕ → S → S × Result Failure Json
  pub simulate_node_failure : S → S × Result Failure Json
  pub get_node_state : S → Result Failure Json
  pub spawn_memory_reverie : Json → ℕ → ℕ → AccessCondition → S → S × Result Failure Json
  pub delegate_api_key : ReverieId → ReverieType → AccessKey → S → S × Result Failure Json
  pub execute_with_memory_reverie :
      ReverieId → ReverieType → AccessKey → AnthropicQuery → S → S × Result Failure Json
  pub report_usage : SignedUsageReport → S → S × Result Failure Json
  pub read_usage_data_for_reverie : String → S → Result Failure Json
  pub get_connected_peers : S → Result Failure (List PeerId)
  pub register_llm_proxy_pubkey : LlmProxyPublicKeyPayload → S → S × Result Failure String
  pub start_docker_service : String → String → S → S × Result Failure (Unit {0})
  pub add_proxy_api_key : String → String → String → String → String → S → S × Result Failure Json
  pub remove_proxy_api_key : String → S → S × Result Failure Json

pub data Method : Type 0 where
  health get_proxy_public_key spawn_agent trigger_node_failure get_node_state spawn_memory_reverie
        delegate_api_key execute_with_memory_reverie report_usage read_usage_data_for_reverie
        get_connected_peers register_llm_proxy_key start_docker_service add_proxy_api_key
        remove_proxy_api_key :
      Method

-- `RpcError`, its text without the `Display` prefix
pub record RpcError : Type 0 where
  pub message : String

pub data ErrorCode : Type 0 where
  parse_error invalid_request method_not_found invalid_params internal_error : ErrorCode

pub record ErrorObject : Type 0 where
  pub code : ErrorCode
  pub message : String
  pub details : Option String

-- `Into<ErrorObjectOwned>`
unfoldable pub to_error_object : RpcError → ErrorObject
to_error_object e = record {
  code = internal_error;
  message = "RpcError: " ++ e.message;
  details = some "RpcError";
}

pub data Answer : Type 0 where
  answered : Json → Answer
  failed : ErrorObject → Answer
  panicked : Answer

unfoldable pub fail : String → Answer
unfolding to_error_object
fail e = failed (to_error_object (record { message = e }))

unfoldable pub answer : Result {0, 0} Failure Json → Answer
unfolding fail
answer (ok json) = answered json
answer (err (message e)) = fail e
answer (err panic) = panicked

abbrev or_null : Option String → Json
or_null none = null
or_null (some s) = text s

unfoldable pub keys_answer : Result {0, 0} Failure (Option String × Option String) → Answer
unfolding fail
keys_answer (ok keys) = answered (array (item (or_null keys.0) (item (or_null keys.1) nil)))
keys_answer (err (message e)) = fail e
keys_answer (err panic) = panicked

abbrev texts : List String → Items
texts [] = nil
texts (s ∷ rest) = item (text s) (texts rest)

unfoldable pub peers_answer : Result {0, 0} Failure (List PeerId) → Answer
unfolding fail
peers_answer (ok peers) =
    answered
      (object (field "status" (text "ok") (field "connected_peers" (array (texts peers)) end)))
peers_answer (err (message e)) = fail ("Failed to get connected peers: " ++ e)
peers_answer (err panic) = panicked

unfoldable pub registered_answer : Result {0, 0} Failure String → Answer
unfolding fail
registered_answer (ok key_info) = answered (
    object (
      field "status" (text "success") (
        field "message" (text "LLM Proxy public key registered.")
          (field "key_info" (text key_info) end))))
registered_answer (err (message e)) = fail ("Failed to process LLM Proxy key: " ++ e)
registered_answer (err panic) = panicked

unfoldable pub docker_answer : Result {0, 0} Failure (Unit {0}) → Answer
unfolding fail
docker_answer (ok u) = answered null
docker_answer (err (message e)) = fail ("Failed to execute start_docker_service: " ++ e)
docker_answer (err panic) = panicked

-- an operation with its answer, and a call whose parameters are read first
unfoldable pub finish :
    {S R : Type 0} → (Result Failure R → Answer) → S × Result Failure R → S × Answer
finish to_answer run = (run.0, to_answer run.1)

unfoldable pub with_params : {S P : Type 0} → Result String P → S → (P → S × Answer) → S × Answer
unfolding fail
with_params (ok p) s run = run p
with_params (err e) s run = (s, fail e)

-- `expect`
unfoldable pub expect_params : {S P : Type 0} → Result String P → S → (P → S × Answer) → S × Answer
expect_params (ok p) s run = run p
expect_params (err e) s run = (s, panicked)

unfoldable pub named_params :
    {S P : Type 0} → String → Result String P → S → (P → S × Answer) → S × Answer
unfolding fail
named_params context (ok p) s run = run p
named_params context (err e) s run = (s, fail (context ++ e))

module _ {S : Type 0} (c : NodeInterface S) where
  unfoldable pub call : Method → Params → S → S × Answer
  unfolding finish with_params expect_params named_params answer keys_answer peers_answer
      registered_answer docker_answer
  call health p s = (s, answered (object (field "status" (text "ok") end)))
  call get_proxy_public_key p s = (s, keys_answer (c.get_proxy_public_key s))
  call spawn_agent p s =
      with_params p.agent s
        (λ (secrets, threshold, total). finish answer (c.spawn_agent secrets threshold total s))
  call trigger_node_failure p s = finish answer (c.simulate_node_failure s)
  call get_node_state p s = (s, answer (c.get_node_state s))
  call spawn_memory_reverie p s = with_params p.memory s (λ (secrets, threshold, total, condition).
      finish answer (c.spawn_memory_reverie secrets threshold total condition s))
  call delegate_api_key p s =
      with_params p.key s (λ (id, type, key). finish answer (c.delegate_api_key id type key s))
  call execute_with_memory_reverie p s =
      expect_params p.query s (λ (id, type, key, query).
        finish answer (c.execute_with_memory_reverie id type key query s))
  call report_usage p s = with_params p.report s (λ r. finish answer (c.report_usage r s))
  call read_usage_data_for_reverie p s =
      with_params p.one s (λ id. (s, answer (c.read_usage_data_for_reverie id s)))
  call get_connected_peers p s = (s, peers_answer (c.get_connected_peers s))
  call register_llm_proxy_key p s =
      named_params "Invalid parameters for register_llm_proxy_key: " p.proxy_key s
        (λ payload. finish registered_answer (c.register_llm_proxy_pubkey payload s))
  call start_docker_service p s =
      with_params p.docker s
        (λ (url, compose). finish docker_answer (c.start_docker_service url compose s))
  call add_proxy_api_key p s = with_params p.api_key s (λ (id, name, key, spender, type).
      finish answer (c.add_proxy_api_key id name key spender type s))
  call remove_proxy_api_key p s =
      with_params p.one s (λ id. finish answer (c.remove_proxy_api_key id s))

  unfoldable pub serve_calls : List (Method × Params) → S → S × List Answer
  unfolding call
  serve_calls [] s = (s, [])
  serve_calls (m ∷ calls) s =
      let first = call m.0 m.1 s in
      let later = serve_calls calls first.0 in (later.0, first.1 ∷ later.1)
