-- ===== src/Client/LlmProxy.antt =====
-- llm_proxy_client.rs: what a node knows of its LLM proxy, and how it hands API keys to it.
pub mod Delivery
use reveries_network.Common.{
  ℕ, String, Bool, true, false, Option, none, some, Result, ok, err, ◌>>=◌, ok_or, decimal,
  if◌then◌else◌,
}
use reveries_network.Types.{ReverieId, PublicKey, Bytes}
use reveries_network.Proxy.ApiKeys.{
  ApiKeyPayload, ApiWorld, StatusCode, ok_200, NodeRequest, generate_digest_hash,
}

-- A certificate of a certificate authority, as its PEM text.
abbrev pub Certificate : Type 0
Certificate = String

-- `LlmProxyPublicKeyPayload` of llm-proxy/src/types.rs
pub record LlmProxyPublicKeyPayload : Type 0 where
  pub pubkey_pem : String
  pub signature_b64 : String
  pub ca_cert_pem : String

-- The fields of `NodeClient` that are about the proxy, and the HTTP client, which the process builds
-- once: nothing before the first call, then the certificate that it trusts, or nothing where it could
-- not be built.
pub record LlmProxyLink : Type 0 where
  pub llm_proxy_public_key : Option PublicKey
  pub llm_proxy_ca_cert : Option Certificate
  pub proxy_http_client : Option (Option Certificate)

pub data ProxyError : Type 0 where
  bad_pem bad_base64 bad_signature not_verified bad_certificate : ProxyError
  no_ca_certificate client_not_built bad_json not_signed bad_header not_sent : ProxyError
  refused : StatusCode → ProxyError

-- What registration takes of p256, base64 and reqwest.
pub record Registrar : Type 0 where
  pub from_public_key_pem : String → Option PublicKey
  pub base64_decode : String → Option Bytes
  pub signature_from_slice : Bytes → Option Bytes
  pub verify : PublicKey → String → Bytes → Bool
  pub certificate_from_pem : String → Option Certificate

-- The key of a payload, which must have signed its own PEM text.
unfoldable pub registered_key : Registrar → LlmProxyPublicKeyPayload → Result ProxyError PublicKey
registered_key r p = do
  llm_proxy_pubkey ← ok_or (r.from_public_key_pem p.pubkey_pem) bad_pem
  signature_bytes ← ok_or (r.base64_decode p.signature_b64) bad_base64
  signature ← ok_or (r.signature_from_slice signature_bytes) bad_signature
  if r.verify llm_proxy_pubkey p.pubkey_pem signature then ok llm_proxy_pubkey else err not_verified

-- The key is stored before the certificate is read.
unfoldable pub store_registration :
    Option Certificate
    → Result ProxyError PublicKey
    → LlmProxyLink
    → LlmProxyLink × Result {0, 0} ProxyError Unit
store_registration cert (err e) l = (l, err e)
store_registration none (ok key) l =
    (record l { llm_proxy_public_key = some key }, err bad_certificate)
store_registration (some cert) (ok key) l =
    (record l { llm_proxy_public_key = some key; llm_proxy_ca_cert = some cert }, ok tt)

-- `register_llm_proxy_pubkey`; the summary that it returns is left out.
unfoldable pub register_llm_proxy_pubkey :
    Registrar
    → LlmProxyPublicKeyPayload
    → LlmProxyLink
    → LlmProxyLink × Result {0, 0} ProxyError Unit
unfolding registered_key store_registration
register_llm_proxy_pubkey r p l =
    store_registration (r.certificate_from_pem p.ca_cert_pem) (registered_key r p) l

-- What the calls take of reqwest, serde_json, base64 and the node's key pair.
pub record ProxyCaller : Type 0 where
  pub build_client : Certificate → Bool
  pub sign : String → Option Bytes
  pub base64_encode : Bytes → String
  pub header_value : String → Option String
  pub payload_to_vec : ApiKeyPayload → Option Bytes
  pub identifier_to_vec : ReverieId → Option Bytes

-- `get_or_init`: the certificate is read by the first call only.
unfoldable pub init_client :
    ProxyCaller → Certificate → Option (Option Certificate) → Option Certificate
init_client w cert none = if w.build_client cert then some cert else none
init_client w cert (some client) = client

-- `create_request_signature_headers` on a POST, and the request that bears them; `now` is the clock.
unfoldable pub signed_request :
    ProxyCaller → ApiWorld → ℕ → String → Bytes → Result ProxyError NodeRequest
signed_request w api now path body = do
  signature_bytes ←
      ok_or (w.sign (generate_digest_hash api "POST" path (decimal now) body)) not_signed
  signature ← ok_or (w.header_value (w.base64_encode signature_bytes)) bad_header
  timestamp ← ok_or (w.header_value (decimal now)) bad_header
  ok (record {
    node_signature = some signature;
    node_timestamp = some timestamp;
    method = "POST";
    content_type = some "application/json";
    path = path;
    body = some body;
  })

-- The other side: its state after a request over TLS, and its answer, where there is one. The first
-- argument is the certificate that the client trusts.
abbrev pub Server : Type 0 → Type 0
Server S = Certificate → NodeRequest → S → S × Option StatusCode

unfoldable pub answer_of : Option StatusCode → Result {0, 0} ProxyError Unit
answer_of none = err not_sent
answer_of (some ok_200) = ok tt
answer_of (some status) = err (refused status)

module _ {S : Type 0} (server : Server S) where
  unfoldable pub send :
      Certificate → Result ProxyError NodeRequest → S → S × Result {0, 0} ProxyError Unit
  unfolding answer_of
  send trusted (err e) s = (s, err e)
  send trusted (ok request) s =
      let answered = server trusted request s in (answered.0, answer_of answered.1)

  unfoldable pub send_body :
      ProxyCaller
      → ApiWorld
      → ℕ
      → String
      → Option Bytes
      → Option Certificate
      → S
      → S × Result {0, 0} ProxyError Unit
  unfolding send signed_request
  send_body w api now path body none s = (s, err client_not_built)
  send_body w api now path none (some trusted) s = (s, err bad_json)
  send_body w api now path (some body) (some trusted) s =
      send trusted (signed_request w api now path body) s

  -- What `add_proxy_api_key` and `remove_proxy_api_key` do with the bytes of their JSON.
  unfoldable pub call_proxy :
      ProxyCaller
      → ApiWorld
      → ℕ
      → String
      → Option Bytes
      → Option Certificate
      → LlmProxyLink
      → S
      → LlmProxyLink × S × Result {0, 0} ProxyError Unit
  unfolding send_body init_client
  call_proxy w api now path body none l s = (l, s, err no_ca_certificate)
  call_proxy w api now path body (some cert) l s =
      let client = init_client w cert l.proxy_http_client in
      let sent = send_body w api now path body client s in
      (record l { proxy_http_client = some client }, sent.0, sent.1)

  unfoldable pub add_proxy_api_key :
      ProxyCaller
      → ApiWorld
      → ℕ
      → ApiKeyPayload
      → LlmProxyLink
      → S
      → LlmProxyLink × S × Result {0, 0} ProxyError Unit
  unfolding call_proxy
  add_proxy_api_key w api now payload l s =
      call_proxy w api now "/add_api_key" (w.payload_to_vec payload) l.llm_proxy_ca_cert l s

  unfoldable pub remove_proxy_api_key :
      ProxyCaller
      → ApiWorld
      → ℕ
      → ReverieId
      → LlmProxyLink
      → S
      → LlmProxyLink × S × Result {0, 0} ProxyError Unit
  unfolding call_proxy
  remove_proxy_api_key w api now id l s =
      call_proxy w api now "/remove_api_key" (w.identifier_to_vec id) l.llm_proxy_ca_cert l s
