-- ===== src/Client/LlmProxy/Delivery.antt =====
-- A node's calls and the proxy's API key server, put together.
use reveries_network.Common.{
  ℕ, ◌+◌, ◌≤◌, ◌<◌, ◌^◌, String, ◌≡◌, refl, ◌∙◌, Bool, true, Option, none, some, Result, ok, err,
  string_eq, length, arith, if◌then◌else◌, decimal,
}
use reveries_network.Common.Map
use reveries_network.Types.{PublicKey, Bytes}
use reveries_network.Proxy.Clock.{pos, parse_i64-decimal}
use reveries_network.Proxy.ApiKeys.{
  ApiKeyPayload, ApiKeyStore, ApiWorld, ok_200, NodeRequest, generate_digest_hash,
  verify_node_request, add_route, serve, serve_route, route_of, handle_route, behind_middleware,
  add_api_key,
}
use reveries_network.Proxy.ApiKeys.Signed.{verify_node_request-IsSigned}
use reveries_network.Client.LlmProxy.{
  Certificate, LlmProxyLink, ProxyError, ProxyCaller, Server, add_proxy_api_key, call_proxy,
  send_body, send, signed_request, init_client, register_llm_proxy_pubkey, registered_key,
  store_registration, Registrar, LlmProxyPublicKeyPayload, answer_of,
}

-- The proxy's server behind TLS. `accepts` is the verdict of the handshake: whether a client that was
-- built with this root certificate, beside the built-in ones, accepts what the proxy shows.
unfoldable pub proxy_server : (Certificate → Bool) → ApiWorld → PublicKey → ℕ → Server ApiKeyStore
proxy_server accepts api key now trusted request store =
    if accepts trusted
    then (let served = serve api key now request store in (served.0, some served.1))
    else (store, none)

-- What the node and its proxy rely on: that base64 and serde_json read what they wrote, that the
-- texts of a signature and of a number are header values, and that a signature of the node is 64
-- bytes which its public key verifies.
pub record ProxyLaws (w : ProxyCaller) (api : ApiWorld) (key : PublicKey) : Type 0 where
  pub decodes :
      (text : String) (b : Bytes)
      → w.sign text ≡ some b
      → api.base64_decode (w.base64_encode b) ≡ some b
  pub base64_header : (b : Bytes) → w.header_value (w.base64_encode b) ≡ some (w.base64_encode b)
  pub number_header : (n : ℕ) → w.header_value (decimal n) ≡ some (decimal n)
  pub signs : (text : String) → (b : Bytes) × (w.sign text ≡ some b)
  pub signed :
      (text : String) (b : Bytes)
      → w.sign text ≡ some b
      → (length b ≡ 64) × (api.verify key text b ≡ true)

module _ (w : ProxyCaller) (api : ApiWorld) (key : PublicKey) (laws : ProxyLaws w api key)
    (now there : ℕ) (path : String) (body : Bytes) where
  -- the request that the node sends
  abbrev the_request : Bytes → NodeRequest
  the_request b = record {
    node_signature = some (w.base64_encode b);
    node_timestamp = some (decimal now);
    content_type = some "application/json";
    method = "POST";
    path = path;
    body = some body;
  }

  -- A request that the node has signed gets through, where the two clocks are a minute apart at most.
  signed_request-IsSigned :
      now < 2 ^ 62
      → there < 2 ^ 62
      → now ≤ there + 60
      → there ≤ now + 60
      → (r : NodeRequest) × (signed_request w api now path body ≡ ok r)
        × (verify_node_request api key there r ≡ ok body)
        × (r.content_type ≡ some "application/json")
        × (r.method ≡ "POST")
        × (r.path ≡ path)
  unfolding signed_request
  signed_request-IsSigned early today behind ahead =
      let text = generate_digest_hash api "POST" path (decimal now) body in
      let (b, signs) = laws.signs text in
      let (long, verified) = laws.signed text b signs in
      let r = the_request b in
      (
        r,
        rw (signs, signed_request, laws.base64_header b, laws.number_header now) refl,
        (verify_node_request-IsSigned api key there r body today).1 (record {
          signature_b64 = w.base64_encode b;
          signature = b;
          timestamp_str = decimal now;
          timestamp = pos now;
          has_signature = refl;
          has_timestamp = refl;
          has_body = refl;
          parses = parse_i64-decimal now (omega arith);
          recent = (ahead, behind);
          decodes = laws.decodes text b signs;
          long = long;
          verified = verified;
        }),
        refl,
        refl,
        refl,
      )

-- A request to add a key is led to its handler, behind the middleware.
pub serve-add_route :
    (api : ApiWorld) (key : PublicKey) (now : ℕ) (r : NodeRequest) (store : ApiKeyStore)
    → r.method ≡ "POST"
    → r.path ≡ "/add_api_key"
    → serve api key now r store
      ≡ behind_middleware api add_route r.content_type (verify_node_request api key now r) store
unfolding serve serve_route
serve-add_route api key now r store post at = rw (routed r.method r.path post at) refl
  where
    routed : (m p : String) → m ≡ "POST" → p ≡ "/add_api_key" → route_of m p ≡ some add_route
    routed m p e f = rw (e, f) (unfold route_of in refl)

-- A node that has its proxy's certificate hands an API key over: where the HTTP client accepts what the
-- proxy shows, and the clocks of the two are a minute apart at most, the call
-- succeeds, the proxy's store holds the payload under its reverie, as before under every other, and of
-- the node only the HTTP client is set.
pub add_proxy_api_key-serve :
    (w : ProxyCaller) (api : ApiWorld) (key : PublicKey) (now there : ℕ) (p : ApiKeyPayload)
    (body : Bytes) (l : LlmProxyLink) (store : ApiKeyStore) (cert root : Certificate)
    (accepts : Certificate → Bool)
    → ProxyLaws w api key
    → w.payload_to_vec p ≡ some body
    → api.json_payload (some "application/json") body ≡ ok p
    → api.lock_sound ≡ true
    → l.llm_proxy_ca_cert ≡ some cert
    → init_client w cert l.proxy_http_client ≡ some root
    → accepts root ≡ true
    → now < 2 ^ 62
    → there < 2 ^ 62
    → now ≤ there + 60
    → there ≤ now + 60
    → add_proxy_api_key (proxy_server accepts api key there) w api now p l store
      ≡ (record l { proxy_http_client = some (some root) }, Map.insert p.reverie_id p store, ok tt)
unfolding add_proxy_api_key call_proxy send_body send answer_of proxy_server
add_proxy_api_key-serve w api key now there p body l store cert root accepts laws writes reads sound
      has built trusts early today behind ahead =
    let (r, signed, passes, json, post, at) =
      signed_request-IsSigned w api key laws now there "/add_api_key" body early today behind
        ahead in
    let served : serve api key there r store ≡ (Map.insert p.reverie_id p store, ok_200) =
      serve-add_route api key there r store post at
      ∙ unfold behind_middleware handle_route add_api_key in
        rw (passes, behind_middleware, json, reads, sound) refl in
    rw (has, call_proxy, built, writes, send_body, signed, send, trusts, served) refl

call_proxy-built :
    {S : Type 0} (server : Server S) (w : ProxyCaller) (api : ApiWorld) (now : ℕ) (path : String)
    (body : Option Bytes) (old new : Option Certificate) (before_cert after_cert : Certificate)
    (client : Option Certificate) (l m : LlmProxyLink) (s : S)
    → old ≡ some before_cert
    → new ≡ some after_cert
    → l.proxy_http_client ≡ some client
    → m.proxy_http_client ≡ some client
    → let before = call_proxy server w api now path body old l s in
      let after = call_proxy server w api now path body new m s in
      (after.1 ≡ before.1) × (after.2 ≡ before.2)
unfolding call_proxy init_client
call_proxy-built server w api now path body old new cert cert' client l m s has now_has built same =
    rw (has, now_has, call_proxy, built, same, init_client) (refl, refl)

-- What a registration leaves of the HTTP client and of a certificate that is there.
Registered : LlmProxyLink → LlmProxyLink → Type 0
Registered l m =
    (m.proxy_http_client ≡ l.proxy_http_client)
    × ((cert : Certificate)
        → l.llm_proxy_ca_cert ≡ some cert
        → (new : Certificate) × (m.llm_proxy_ca_cert ≡ some new))

store_registration-Registered :
    (cert : Option Certificate) (key : Result ProxyError PublicKey) (l : LlmProxyLink)
    → Registered l (store_registration cert key l).0
unfolding store_registration Registered
store_registration-Registered cert (err e) l = (refl, λ c has. (c, has))
store_registration-Registered none (ok key) l = (refl, λ c has. (c, has))
store_registration-Registered (some cert) (ok key) l = (refl, λ c has. (cert, refl))

-- The HTTP client is built once: when it has been, whatever a proxy registers afterwards makes no
-- difference to a node that had a certificate. Any server, whatever it makes of the requests of that
-- one client, ends in the same state, and the call gives the same result, as without the registration;
-- so a proxy that the first client does not accept is not reached with the new certificate either.
pub add_proxy_api_key-register_llm_proxy_pubkey :
    {S : Type 0} (server : Server S) (reg : Registrar) (payload : LlmProxyPublicKeyPayload)
    (w : ProxyCaller) (api : ApiWorld) (now : ℕ) (p : ApiKeyPayload) (l : LlmProxyLink) (s : S)
    (cert : Certificate) (client : Option Certificate)
    → l.llm_proxy_ca_cert ≡ some cert
    → l.proxy_http_client ≡ some client
    → let before = add_proxy_api_key server w api now p l s in
      let after =
        add_proxy_api_key server w api now p (register_llm_proxy_pubkey reg payload l).0 s in
      (after.1 ≡ before.1) × (after.2 ≡ before.2)
unfolding register_llm_proxy_pubkey add_proxy_api_key Registered
add_proxy_api_key-register_llm_proxy_pubkey server reg payload w api now p l s cert client has
      built =
    let read = reg.certificate_from_pem payload.ca_cert_pem in
    let key = registered_key reg payload in
    let m = (store_registration read key l).0 in
    let (kept, there_is) = store_registration-Registered read key l in
    let (new, now_has) = there_is cert has in
    call_proxy-built server w api now "/add_api_key" (w.payload_to_vec p) l.llm_proxy_ca_cert
      m.llm_proxy_ca_cert cert new client l m s has now_has built (kept ∙ built)
