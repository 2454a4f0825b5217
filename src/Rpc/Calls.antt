-- ===== src/Rpc/Calls.antt =====
-- What holds of every call, and of every sequence of calls.
use reveries_network.Common.{ℕ, String, List, [], ◌∷◌, Result, ok, err}
use reveries_network.Types.{ReverieId, ReverieType, AccessKey, AccessCondition}
use reveries_network.Proxy.Json.{Json}
use reveries_network.Usage.Verify.{SignedUsageReport}
use reveries_network.Client.{AgentSecretsJson}
use reveries_network.Client.LlmProxy.{LlmProxyPublicKeyPayload}
use reveries_network.Client.Memories.{AnthropicQuery}
use reveries_network.Rpc.{
  Params, NodeInterface, Method, health, get_proxy_public_key, spawn_agent, trigger_node_failure,
  get_node_state, spawn_memory_reverie, delegate_api_key, execute_with_memory_reverie, report_usage,
  read_usage_data_for_reverie, get_connected_peers, register_llm_proxy_key, start_docker_service,
  add_proxy_api_key, remove_proxy_api_key, Answer, finish, with_params, expect_params, named_params,
  call, serve_calls,
}

-- every operation of the client keeps `I`
pub record Keeps {S : Type 0} (c : NodeInterface S) (I : S → Type 0) : Type 0 where
  pub spawn_agent : (a : AgentSecretsJson) (t n : ℕ) (s : S) → I s → I (c.spawn_agent a t n s).0
  pub simulate_node_failure : (s : S) → I s → I (c.simulate_node_failure s).0
  pub spawn_memory_reverie :
      (m : Json) (t n : ℕ) (k : AccessCondition) (s : S)
      → I s
      → I (c.spawn_memory_reverie m t n k s).0
  pub delegate_api_key :
      (id : ReverieId) (type : ReverieType) (key : AccessKey) (s : S)
      → I s
      → I (c.delegate_api_key id type key s).0
  pub execute_with_memory_reverie :
      (id : ReverieId) (type : ReverieType) (key : AccessKey) (q : AnthropicQuery) (s : S)
      → I s
      → I (c.execute_with_memory_reverie id type key q s).0
  pub report_usage : (r : SignedUsageReport) (s : S) → I s → I (c.report_usage r s).0
  pub register_llm_proxy_pubkey :
      (p : LlmProxyPublicKeyPayload) (s : S) → I s → I (c.register_llm_proxy_pubkey p s).0
  pub start_docker_service : (u d : String) (s : S) → I s → I (c.start_docker_service u d s).0
  pub add_proxy_api_key :
      (id name key spender type : String) (s : S)
      → I s
      → I (c.add_proxy_api_key id name key spender type s).0
  pub remove_proxy_api_key : (id : String) (s : S) → I s → I (c.remove_proxy_api_key id s).0

module _ {S P : Type 0} (I : S → Type 0) where
  with_params-keeps :
      (r : Result String P) (s : S) (run : P → S × Answer)
      → I s
      → ((p : P) → I (run p).0)
      → I (with_params r s run).0
  unfolding with_params
  with_params-keeps (ok p) s run h keeps = keeps p
  with_params-keeps (err e) s run h keeps = h

  expect_params-keeps :
      (r : Result String P) (s : S) (run : P → S × Answer)
      → I s
      → ((p : P) → I (run p).0)
      → I (expect_params r s run).0
  unfolding expect_params
  expect_params-keeps (ok p) s run h keeps = keeps p
  expect_params-keeps (err e) s run h keeps = h

  named_params-keeps :
      (context : String) (r : Result String P) (s : S) (run : P → S × Answer)
      → I s
      → ((p : P) → I (run p).0)
      → I (named_params context r s run).0
  unfolding named_params
  named_params-keeps context (ok p) s run h keeps = keeps p
  named_params-keeps context (err e) s run h keeps = h

module _ {S : Type 0} (c : NodeInterface S) where
  call-Keeps :
      (I : S → Type 0) → Keeps c I → (m : Method) (p : Params) (s : S) → I s → I (call c m p s).0
  unfolding call finish
  call-Keeps I k health p s h = h
  call-Keeps I k get_proxy_public_key p s h = h
  call-Keeps I k spawn_agent p s h =
      with_params-keeps I p.agent s _ h (λ (a, t, n). k.spawn_agent a t n s h)
  call-Keeps I k trigger_node_failure p s h = k.simulate_node_failure s h
  call-Keeps I k get_node_state p s h = h
  call-Keeps I k spawn_memory_reverie p s h =
      with_params-keeps I p.memory s _ h (λ (m, t, n, a). k.spawn_memory_reverie m t n a s h)
  call-Keeps I k delegate_api_key p s h =
      with_params-keeps I p.key s _ h (λ (id, type, key). k.delegate_api_key id type key s h)
  call-Keeps I k execute_with_memory_reverie p s h =
      expect_params-keeps I p.query s _ h
        (λ (id, type, key, q). k.execute_with_memory_reverie id type key q s h)
  call-Keeps I k report_usage p s h = with_params-keeps I p.report s _ h (λ r. k.report_usage r s h)
  call-Keeps I k read_usage_data_for_reverie p s h = with_params-keeps I p.one s _ h (λ id. h)
  call-Keeps I k get_connected_peers p s h = h
  call-Keeps I k register_llm_proxy_key p s h =
      named_params-keeps I _ p.proxy_key s _ h (λ r. k.register_llm_proxy_pubkey r s h)
  call-Keeps I k start_docker_service p s h =
      with_params-keeps I p.docker s _ h (λ (u, d). k.start_docker_service u d s h)
  call-Keeps I k add_proxy_api_key p s h =
      with_params-keeps I p.api_key s _ h
        (λ (id, name, key, spender, type). k.add_proxy_api_key id name key spender type s h)
  call-Keeps I k remove_proxy_api_key p s h =
      with_params-keeps I p.one s _ h (λ id. k.remove_proxy_api_key id s h)

  -- What every operation of the client keeps, every sequence of calls keeps: the server adds no change
  -- of its own to the state, whatever the parameters are.
  pub serve_calls-Keeps :
      (I : S → Type 0)
      → Keeps c I
      → (calls : List (Method × Params)) (s : S) → I s
      → I (serve_calls c calls s).0
  unfolding serve_calls
  serve_calls-Keeps I k [] s h = h
  serve_calls-Keeps I k (m ∷ calls) s h =
      serve_calls-Keeps I k calls (call c m.0 m.1 s).0 (call-Keeps I k m.0 m.1 s h)
