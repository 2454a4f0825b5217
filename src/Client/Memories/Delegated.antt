-- ===== src/Client/Memories/Delegated.antt =====
-- Which API keys reach the proxy of a node that opens a memory.
use reveries_network.Common.{
  ℕ, ◌<◌, ◌^◌, arith, String, ◌≡◌, refl, sym, ◌∙◌, ◌⊎◌, inl, inr, Option, none, some, Result, ok,
  err, Bool, string_eq, Option-cases, Result-cases, Bool-cases, ok_or, suc,
}
use reveries_network.Common.Map
use reveries_network.Types.{ReverieId, ReverieType, PublicKey, Bytes, AccessKey}
use reveries_network.Types.Text.{Hex}
use reveries_network.Network.{Channel}
use reveries_network.Proxy.Json.{Json, get, then_str}
use reveries_network.Proxy.ApiKeys.{
  ApiKeyPayload, ApiKeyStore, ApiWorld, NodeRequest, verify_node_request, serve, behind_middleware,
  handle_route, add_api_key,
}
use reveries_network.Proxy.ApiKeys.Signed.{verify_node_request-IsSigned}
use reveries_network.Client.{NodeClient, ClientError, bad_capsule}
use reveries_network.Client.Cfrags.{request_cfrags, parse_cfrags, decrypt_cfrags}
use reveries_network.Client.Spawn.{get_reverie}
use reveries_network.Client.Run.{Run, ◌>>=◌, lift}
use reveries_network.Client.LlmProxy.{
  Certificate, LlmProxyLink, ProxyCaller, add_proxy_api_key, call_proxy, send_body, send,
  signed_request, init_client,
}
use reveries_network.Client.LlmProxy.Delivery.{proxy_server, serve-add_route}
use reveries_network.Client.Memories.{
  MemoryAnswers, reconstruct_memory_reverie, delegated_payload, delegate_with, delegate_secrets,
  delegate_reconstructed, delegate_api_key,
}

signed_request-body :
    (w : ProxyCaller) (api : ApiWorld) (now : ℕ) (path : String) (body : Bytes) (r : NodeRequest)
    → signed_request w api now path body ≡ ok r
    → (r.body ≡ some body)
      × (r.content_type ≡ some "application/json")
      × (r.method ≡ "POST")
      × (r.path ≡ path)
unfolding signed_request
signed_request-body w api now path body r h = ground arith

-- The store as it was, or with the payload under its reverie id.
abbrev pub AddsAtMost : ApiKeyPayload → ApiKeyStore → ApiKeyStore → Type 0
AddsAtMost p store after = (after ≡ store) ⊎ (after ≡ Map.insert p.reverie_id p store)

module _ (w : ProxyCaller) (api : ApiWorld) (key : PublicKey) (now there : ℕ) (p : ApiKeyPayload)
    (accepts : Certificate → Bool) (store : ApiKeyStore) (today : there < 2 ^ 62)
    (reads : (b : Bytes)
      → w.payload_to_vec p ≡ some b
      → api.json_payload (some "application/json") b ≡ ok p) where
  add_api_key-AddsAtMost : AddsAtMost p store (add_api_key api (ok p) store).0
  unfolding add_api_key
  add_api_key-AddsAtMost = elim (Bool-cases api.lock_sound) [
    | inl sound ↦ rw sound (inr refl)
    | inr poisoned ↦ rw poisoned (inl refl)
  ]

  serve-AddsAtMost :
      (body : Bytes) (r : NodeRequest)
      → w.payload_to_vec p ≡ some body
      → r.body ≡ some body
      → r.content_type ≡ some "application/json"
      → r.method ≡ "POST"
      → r.path ≡ "/add_api_key"
      → AddsAtMost p store (serve api key there r store).0
  unfolding behind_middleware handle_route
  serve-AddsAtMost body r writes has json post at =
      rw (serve-add_route api key there r store post at)
        (elim (Result-cases (verify_node_request api key there r)) [
          | inl (e, stopped) ↦ rw stopped (inl refl)
          | inr (b, passed) ↦
              let same : some b ≡ some body =
                sym ((verify_node_request-IsSigned api key there r b today).0 passed).has_body
                ∙ has in
              let b_reads : api.json_payload (some "application/json") b ≡ ok p =
                let bytes : b ≡ body = cc in rw bytes (reads body writes) in
              rw (passed, json, b_reads) add_api_key-AddsAtMost
        ])

  send-AddsAtMost :
      (body : Bytes) (trusted : Certificate)
      → w.payload_to_vec p ≡ some body
      → AddsAtMost p store
          (send
            (proxy_server accepts api key there)
            trusted
            (signed_request w api now "/add_api_key" body)
            store).0
  unfolding send proxy_server
  send-AddsAtMost body trusted writes =
      elim (Result-cases (signed_request w api now "/add_api_key" body)) [
        | inl (e, unsigned) ↦ rw (unsigned, send) (inl refl)
        | inr (r, signed) ↦ elim (Bool-cases (accepts trusted)) [
          | inl trusts ↦
              let (has, json, post, at) =
                signed_request-body w api now "/add_api_key" body r signed in
              rw (signed, send, trusts) (serve-AddsAtMost body r writes has json post at)
          | inr other ↦ rw (signed, send, other) (inl refl)
        ]
      ]

  send_body-AddsAtMost :
      (client : Option Certificate) (body : Option Bytes)
      → w.payload_to_vec p ≡ body
      → AddsAtMost p store
          (send_body
            (proxy_server accepts api key there)
            w
            api
            now
            "/add_api_key"
            body
            client
            store).0
  unfolding send_body
  send_body-AddsAtMost none body writes = inl refl
  send_body-AddsAtMost (some trusted) none writes = inl refl
  send_body-AddsAtMost (some trusted) (some body) writes = send-AddsAtMost body trusted writes

  call_proxy-AddsAtMost :
      (cert : Option Certificate) (l : LlmProxyLink)
      → AddsAtMost p store
          (call_proxy
            (proxy_server accepts api key there)
            w
            api
            now
            "/add_api_key"
            (w.payload_to_vec p)
            cert
            l
            store).1
  unfolding call_proxy
  call_proxy-AddsAtMost none l = inl refl
  call_proxy-AddsAtMost (some cert) l =
      send_body-AddsAtMost (init_client w cert l.proxy_http_client) (w.payload_to_vec p) refl

  delegate_with-AddsAtMost :
      (h : Hex) (cert : Option Certificate) (l : LlmProxyLink)
      → AddsAtMost p store
          (delegate_with (proxy_server accepts api key there) w api h now p cert l store).1
  unfolding delegate_with add_proxy_api_key
  delegate_with-AddsAtMost h none l = inl refl
  delegate_with-AddsAtMost h (some cert) l = call_proxy-AddsAtMost l.llm_proxy_ca_cert l

-- Where from a key of the proxy's store comes: the store is as it was before the delegation, or it
-- has in addition, under the id of the reverie, the key that the node decrypted from this reverie's
-- memory; its spender and their type are those of the access key with which the fragments were
-- asked for.
pub data Origin (w : ProxyCaller) (h : Hex) (id : ReverieId) (key : AccessKey)
    (found : Result ClientError (Json × AccessKey)) (store after : ApiKeyStore) : Type 0 where
  unchanged : after ≡ store → Origin w h id key found store after
  delegated :
      (secrets : Json) (api_key : String)
      → found ≡ ok (secrets, key)
      → then_str (get "anthropic_api_key" secrets) ≡ some api_key
      → after ≡ Map.insert id (delegated_payload h id key api_key) store
      → Origin w h id key found store after

-- the access key that a run returns with the secrets
record Gives (key : AccessKey) (r : Run (Json × AccessKey)) : Type 0 where
  gives : (x : Json × AccessKey) → r.1 ≡ ok x → x.1 ≡ key

bind-Gives :
    {A : Type 0} (key : AccessKey) (m : Run A) (f : A → Run (Json × AccessKey))
    → ((a : A) → Gives key (f a))
    → Gives key (m >>= f)
bind-Gives key (sent, ok a) f h = record { gives = λ x e. (h a).gives x e }
bind-Gives key (sent, err e) f h = record { gives = λ x e'. absurd (ground arith) }

lift-Gives : (key : AccessKey) (secrets : Json) → Gives key (lift (ok (secrets, key)))
lift-Gives key secrets = record { gives = λ x e. ground arith }

reconstruct_memory_reverie-Gives :
    (c : NodeClient) (from_slice : Bytes → Option Json) (reply : Channel) (answers : MemoryAnswers)
    (id : ReverieId) (type : ReverieType) (key : AccessKey)
    → Gives key (reconstruct_memory_reverie c from_slice reply answers id type key)
unfolding reconstruct_memory_reverie
reconstruct_memory_reverie-Gives c from_slice reply answers id type key =
    bind-Gives key (get_reverie c reply id type answers.reverie) _ λ m.
      bind-Gives key
        (lift (ok_or (c.codec.capsule_from_slice m.reverie.umbral_capsule) bad_capsule)) _
        λ capsule.
          bind-Gives key (request_cfrags c (suc reply) id m.keyfrag_providers key answers.cfrags) _
            λ raw. bind-Gives key (lift (parse_cfrags c.codec capsule raw)) _ λ parsed.
              bind-Gives key
                (lift (
                  decrypt_cfrags c from_slice capsule m.reverie.umbral_ciphertext
                    parsed.source_pubkey parsed.verified_cfrags))
                _ λ secrets. lift-Gives key secrets

module _ (w : ProxyCaller) (api : ApiWorld) (h : Hex) (key : PublicKey) (now there : ℕ)
    (accepts : Certificate → Bool) (store : ApiKeyStore) (l : LlmProxyLink) (id : ReverieId)
    (access : AccessKey) (today : there < 2 ^ 62)
    (reads : (api_key : String) (b : Bytes)
      → w.payload_to_vec (delegated_payload h id access api_key) ≡ some b
      → api.json_payload (some "application/json") b
        ≡ ok (delegated_payload h id access api_key)) where
  delegate_reconstructed-Origin :
      (found : Result ClientError (Json × AccessKey))
      → ((x : Json × AccessKey) → found ≡ ok x → x.1 ≡ access)
      → Origin w h id access found store
          (delegate_reconstructed
            (proxy_server accepts api key there)
            w
            api
            h
            now
            id
            found
            l
            store).1
  unfolding delegate_reconstructed delegate_secrets
  delegate_reconstructed-Origin (err e) same = unchanged refl
  delegate_reconstructed-Origin (ok (secrets, k)) same =
      elim (Option-cases (then_str (get "anthropic_api_key" secrets))) [
        | inl missing ↦ rw missing (unchanged refl)
        | inr (api_key, there_is) ↦
            let kept : k ≡ access = same (secrets, k) refl in
            rw (there_is, kept)
              (elim (delegate_with-AddsAtMost w api key now there
                (delegated_payload h id access api_key) accepts store today (reads api_key) h
                l.llm_proxy_ca_cert l) [
                  | inl before ↦ unchanged before
                  | inr added ↦ delegated secrets api_key refl there_is added
                ])
      ]

  -- Whatever a delegation does, and wherever it fails, the proxy's store has an origin: as it was, or
  -- with one payload more, put under the id of the reverie, with the key of that reverie's memory.
  pub delegate_api_key-Origin :
      (c : NodeClient) (from_slice : Bytes → Option Json) (reply : Channel)
      (answers : MemoryAnswers) (type : ReverieType)
      → let found = (reconstruct_memory_reverie c from_slice reply answers id type access).1 in
        let after =
          (delegate_api_key
            (proxy_server accepts api key there)
            w
            api
            h
            c
            from_slice
            reply
            answers
            now
            id
            type
            access
            l
            store).1 in
        Origin w h id access found store after.1
  unfolding delegate_api_key
  delegate_api_key-Origin c from_slice reply answers type =
      delegate_reconstructed-Origin
        (reconstruct_memory_reverie c from_slice reply answers id type access).1
        (reconstruct_memory_reverie-Gives c from_slice reply answers id type access).gives
