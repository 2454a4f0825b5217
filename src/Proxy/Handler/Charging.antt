-- ===== src/Proxy/Handler/Charging.antt =====
-- Who is charged for an answer.
use reveries_network.Common.{
  ℕ, String, ◌≡◌, ◌≢◌, refl, ◌∙◌, ap, Bool, true, ◌&&◌, Option, none, some, List, [], ◌∷◌, map, ◌⊎◌,
  inl, inr, All, All-append, keep_if, Result, ok, err, subst, bind-ok, Result-cases, Option-cases,
  Bool-cases, if◌then◌else◌, arith,
}
use reveries_network.Types.{Bytes}
use reveries_network.Proxy.Usage.{
  Request, UsageData, UsageReportPayload, SseChunk, SseTask, input_tokens_chunk,
  output_tokens_chunk, stop, text_chunk, tool_use_chunk, other_chunk, has_tokens,
  log_sse_response_task, start_task, handle_chunk, submit, add_chunk, fresh_usage, new,
}
use reveries_network.Proxy.ApiKeys.{ApiKeyPayload, ApiKeyStore}
use reveries_network.Proxy.Parser.Regular.{
  Codecs, ParseError, contains, receive, sent, report_body, process_and_log_regular_body,
  log_regular_response_task, found_payload, payload_for, decompress_body,
  parse_json_and_extract_usage,
}
use reveries_network.Proxy.Handler.{
  HttpRequest, HttpResponse, ProxyWorld, LlmProxyRequestContext, is_anthropic_delegation_request,
  is_anthropic_key, anthropic_keys, choose_key, or_kept, inject_selected, inject, forward, named,
  handle_request, handle_response, is_sse, context_or_new, request_of,
}

-- An element of a list
abbrev pub Among : {A : Type 0} → A → List A → Type 0
Among a [] = ⊥
Among a (x ∷ xs) = (a ≡ x) ⊎ Among a xs

Among-keep_if :
    {A : Type 0} (p : A → Bool) (a : A) (xs : List A)
    → Among a (keep_if p xs)
    → (p a ≡ true) × Among a xs
Among-keep_if p a [] h = absurd h
Among-keep_if p a (x ∷ xs) h = elim (Bool-cases (p x)) [
  | inl kept ↦ elim (subst (λ b. Among a (if b then x ∷ keep_if p xs else keep_if p xs)) kept h) [
    | inl first ↦ (ap p first ∙ kept, inl first)
    | inr later ↦ let rest = Among-keep_if p a xs later in (rest.0, inr rest.1)
  ]
  | inr dropped ↦
      let rest =
        Among-keep_if p a xs
          (subst (λ b. Among a (if b then x ∷ keep_if p xs else keep_if p xs)) dropped h) in
      (rest.0, inr rest.1)
]

-- The report is of the request and charged to its reverie.
abbrev Charges : Request → UsageReportPayload → Type 0
Charges r u = (u.usage.reverie_id ≡ r.reverie_id) × (u.request_id ≡ r.request_id)

found_payload-Charges :
    (r : Request) (now : ℕ) (found : Option UsageData) (u : UsageReportPayload)
    → found_payload r now found ≡ ok u
    → Charges r u
unfolding found_payload payload_for
found_payload-Charges r now none u h = cc
found_payload-Charges r now (some usage_data) u h = subst charged h (refl, refl)
  where
    charged : Result ParseError UsageReportPayload → Type 0
    charged (err e) = Unit
    charged (ok v) = Charges r v

process_and_log_regular_body-Charges :
    (c : Codecs) (encoding url : Option String) (r : Request) (now : ℕ) (log_buffer : Bytes)
    (u : UsageReportPayload)
    → process_and_log_regular_body c encoding url r now log_buffer ≡ ok u
    → Charges r u
unfolding process_and_log_regular_body
process_and_log_regular_body-Charges c encoding url r now log_buffer u h =
    let (bytes, decompressed, h1) = bind-ok (decompress_body c encoding log_buffer) _ u h in
    let (parsed, parses, h2) = bind-ok (parse_json_and_extract_usage c bytes url) _ u h1 in
    found_payload-Charges r now parsed.1 u h2

report_body-Charges :
    (c : Codecs) (encoding url : Option String) (r : Request) (now : ℕ) (received : Option Bytes)
    → All (Charges r) (report_body c encoding url r now received)
unfolding report_body sent
report_body-Charges c encoding url r now none = tt
report_body-Charges c encoding url r now (some []) = tt
report_body-Charges c encoding url r now (some (b ∷ bs)) =
    elim (Result-cases (process_and_log_regular_body c encoding url r now (b ∷ bs))) [
      | inl (e, refused) ↦ rw refused tt
      | inr (u, done) ↦
          rw done (process_and_log_regular_body-Charges c encoding url r now (b ∷ bs) u done, tt)
    ]

record ChargesAll (r : Request) (t : SseTask) : Type 0 where
  current : t.current_usage.reverie_id ≡ r.reverie_id
  reports : All (Charges r) t.submitted

add_chunk-reverie_id : (c : SseChunk) (u : UsageData) → (add_chunk c u).reverie_id ≡ u.reverie_id
unfolding add_chunk
add_chunk-reverie_id (input_tokens_chunk n) u = refl
add_chunk-reverie_id (output_tokens_chunk n) u = refl
add_chunk-reverie_id stop u = refl
add_chunk-reverie_id (text_chunk s) u = refl
add_chunk-reverie_id (tool_use_chunk id name input type) u = refl
add_chunk-reverie_id (other_chunk s) u = refl

handle_chunk-ChargesAll :
    (r : Request) (now : ℕ) (c : SseChunk) (t : SseTask)
    → ChargesAll r t
    → ChargesAll r (handle_chunk r now c t)
unfolding handle_chunk submit fresh_usage new
handle_chunk-ChargesAll r now stop t h = elim (Bool-cases (has_tokens t.current_usage)) [
  | inl positive ↦ rw positive (record {
    current = refl;
    reports = All-append (Charges r) t.submitted _ h.reports ((h.current, refl), tt);
  })
  | inr nothing ↦ rw nothing h
]
handle_chunk-ChargesAll r now (input_tokens_chunk n) t h =
    unfold add_chunk in record { current = h.current; reports = h.reports }
handle_chunk-ChargesAll r now (output_tokens_chunk n) t h =
    unfold add_chunk in record { current = h.current; reports = h.reports }
handle_chunk-ChargesAll r now (text_chunk s) t h =
    unfold add_chunk in record { current = h.current; reports = h.reports }
handle_chunk-ChargesAll r now (tool_use_chunk id name input type) t h =
    unfold add_chunk in record { current = h.current; reports = h.reports }
handle_chunk-ChargesAll r now (other_chunk s) t h =
    unfold add_chunk in record { current = h.current; reports = h.reports }

log_sse_response_task-ChargesAll :
    (r : Request) (cs : List (ℕ × SseChunk)) (t : SseTask)
    → ChargesAll r t
    → ChargesAll r (log_sse_response_task r cs t)
unfolding log_sse_response_task
log_sse_response_task-ChargesAll r [] t h = h
log_sse_response_task-ChargesAll r ((now, c) ∷ cs) t h =
    log_sse_response_task-ChargesAll r cs _ (handle_chunk-ChargesAll r now c t h)

handle_response-Charges :
    (w : ProxyWorld) (new_id : String) (now : ℕ) (c : LlmProxyRequestContext) (res : HttpResponse)
    → All (Charges (request_of c)) (handle_response w new_id now (some c) res)
unfolding handle_response context_or_new
handle_response-Charges w new_id now c res = elim (Bool-cases (is_sse res.content_type)) [
  | inl sse ↦
      rw sse
        (log_sse_response_task-ChargesAll (request_of c) (res.updates c.request_url)
          (start_task (request_of c))
          (unfold start_task fresh_usage new in record { current = refl; reports = tt })).reports
  | inr whole ↦ rw whole (
      unfold log_regular_response_task in
      report_body-Charges w.codecs res.content_encoding c.request_url (request_of c) now
        (receive res.chunks []))
]

-- The client asks a host with anthropic.com in its name, with the flag in place of a key.
pub record IsDelegated (r : HttpRequest) : Type 0 where
  pub host : String
  pub has_host : r.host ≡ some host
  pub is_anthropic : contains host "anthropic.com" ≡ true
  pub has_flag : is_anthropic_delegation_request r.x_api_key ≡ true

-- The payload whose key went into the header of the request
pub record IsInjected (w : ProxyWorld) (store : ApiKeyStore) (key : Option String)
    (p : ApiKeyPayload) : Type 0 where
  pub stored : Among p (map (λ e. e.1) store)
  pub is_anthropic : is_anthropic_key p ≡ true
  pub in_header : w.header_value p.api_key ≡ key

abbrev pub Choice : ProxyWorld → Type 0
Choice w = (ps : List ApiKeyPayload) (p : ApiKeyPayload) → w.choose ps ≡ some p → Among p ps

choose_key-Among :
    (w : ProxyWorld) (ps : List ApiKeyPayload) (p : ApiKeyPayload)
    → Choice w
    → choose_key w ps ≡ some p
    → Among p ps
unfolding choose_key
choose_key-Among w [] p choice h = cc
choose_key-Among w (q ∷ ps) p choice h = choice (q ∷ ps) p h

inject_selected-changed :
    (w : ProxyWorld) (key : Option String) (selected : Option ApiKeyPayload)
    → (inject_selected w key selected).0 ≢ key
    → (p : ApiKeyPayload) × (selected ≡ some p)
      × ((inject_selected w key selected).1 ≡ some p)
      × (w.header_value p.api_key ≡ (inject_selected w key selected).0)
unfolding inject_selected or_kept
inject_selected-changed w key none changed = absurd (changed refl)
inject_selected-changed w key (some p) changed = elim (Option-cases (w.header_value p.api_key)) [
  | inl refused ↦ absurd (changed (rw refused refl))
  | inr (v, made) ↦ (p, refl, refl, rw made refl)
]

record Injection (w : ProxyWorld) (store : ApiKeyStore) (r : HttpRequest) (p : ApiKeyPayload)
    : Type 0 where
  delegated : IsDelegated r
  chosen : choose_key w (anthropic_keys store) ≡ some p
  is_named : (inject w store r.host r.x_api_key).1 ≡ some p
  made : w.header_value p.api_key ≡ (inject w store r.host r.x_api_key).0

inject-changed :
    (w : ProxyWorld) (store : ApiKeyStore) (r : HttpRequest)
    → (inject w store r.host r.x_api_key).0 ≢ r.x_api_key
    → (p : ApiKeyPayload) × Injection w store r p
unfolding inject
inject-changed w store r changed = elim (Option-cases r.host) [
  | inl nowhere ↦ absurd (changed (rw nowhere refl))
  | inr (host, at) ↦
      elim (Bool-cases
        (contains host "anthropic.com" && is_anthropic_delegation_request r.x_api_key)) [
          | inr other ↦ absurd (changed (rw (at, other) refl))
          | inl delegates ↦
              let same : inject w store r.host r.x_api_key
                  ≡ inject_selected w r.x_api_key (choose_key w (anthropic_keys store)) =
                rw (at, delegates) refl in
              let (p, chosen, is_named, made) =
                inject_selected-changed w r.x_api_key (choose_key w (anthropic_keys store))
                  (subst (λ i. i.0 ≢ r.x_api_key) same changed) in
              (
                p,
                record {
                  delegated = record {
                    host = host;
                    has_host = at;
                    is_anthropic = ground arith;
                    has_flag = ground arith;
                  };
                  chosen = chosen;
                  is_named = rw same is_named;
                  made = rw same made;
                },
              )
        ]
]

Injection-IsInjected :
    (w : ProxyWorld) (store : ApiKeyStore) (r : HttpRequest) (p : ApiKeyPayload)
    → Choice w
    → Injection w store r p
    → IsInjected w store (inject w store r.host r.x_api_key).0 p
Injection-IsInjected w store r p choice i =
    let kept =
      Among-keep_if is_anthropic_key p (map (λ e. e.1) store)
        (unfold anthropic_keys in choose_key-Among w (anthropic_keys store) p choice i.chosen) in
    record { stored = kept.1; is_anthropic = kept.0; in_header = i.made }

forward-charged :
    (w : ProxyWorld) (store : ApiKeyStore) (request_id new_id : String) (now : ℕ) (r : HttpRequest)
    (res : HttpResponse) (body : Option Bytes)
    → Choice w
    → (forward w store request_id r body).request.x_api_key ≢ r.x_api_key
    → IsDelegated r
      × ((p : ApiKeyPayload) × IsInjected w store
            (forward w store request_id r body).request.x_api_key
            p
          × All
              (λ u. (u.usage.reverie_id ≡ some p.reverie_id) × (u.request_id ≡ request_id))
              (handle_response w new_id now (forward w store request_id r body).context res))
unfolding forward named
forward-charged w store request_id new_id now r res none choice changed = absurd (changed refl)
forward-charged w store request_id new_id now r res (some body) choice changed =
    let (p, i) = inject-changed w store r changed in
    (
      i.delegated,
      (
        p,
        Injection-IsInjected w store r p choice i,
        rw i.is_named (handle_response-Charges w new_id now _ res),
      ),
    )

-- Where the proxy sends another key than the client's, if `choose` answers with an element of its list:
-- the client asked a host with anthropic.com in its name, with the flag in place of a key; the key is
-- that of an Anthropic payload of the store; and every report of the answer, whole or streamed and
-- whatever it says, is charged to the reverie of that payload and bears the id of the request.
pub handle_request-handle_response :
    (w : ProxyWorld) (store : ApiKeyStore) (request_id new_id : String) (now : ℕ) (r : HttpRequest)
    (res : HttpResponse)
    → Choice w
    → (handle_request w store request_id r).request.x_api_key ≢ r.x_api_key
    → IsDelegated r
      × ((p : ApiKeyPayload) × IsInjected w store
            (handle_request w store request_id r).request.x_api_key
            p
          × All
              (λ u. (u.usage.reverie_id ≡ some p.reverie_id) × (u.request_id ≡ request_id))
              (handle_response w new_id now (handle_request w store request_id r).context res))
unfolding handle_request
handle_request-handle_response w store request_id new_id now r res choice changed =
    forward-charged w store request_id new_id now r res r.body choice changed
