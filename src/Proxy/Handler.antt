-- ===== src/Proxy/Handler.antt =====
-- main.rs: what the proxy does with a request and with the answer to it.
pub mod Charging
use text.Mathlib.Text.{starts_with}
use reveries_network.Common.{
  ℕ, String, Bool, true, false, ◌&&◌, Option, none, some, List, [], ◌∷◌, map, if◌then◌else◌, ◌==◌,
  string_eq, keep_if, eq_ignore_ascii_case,
}
use reveries_network.Types.{Bytes}
use reveries_network.Proxy.Usage.{
  Request, UsageReportPayload, SseChunk, log_sse_response_task, start_task,
}
use reveries_network.Proxy.ApiKeys.{ApiKeyPayload, ApiKeyStore}
use reveries_network.Proxy.Json.{
  Json, Items, nil, item, get, then_get, then_str, then_array, is_text,
}
use reveries_network.Proxy.Parser.Regular.{Codecs, contains, log_regular_response_task}

-- Of a request, what the handler reads and writes: it has no value where there is no such header, and
-- no body where the body cannot be read.
pub record HttpRequest : Type 0 where
  pub uri : String
  pub host : Option String
  pub x_api_key : Option String
  pub body : Option Bytes

pub record LlmProxyRequestContext : Type 0 where
  pub request_id : String
  pub request_url : Option String
  pub linked_tool_use_id : Option String
  pub reverie_id : Option String
  pub spender : Option String
  pub spender_type : Option String

-- What the code takes of serde_json, http and rand.
pub record ProxyWorld : Type 0 where
  pub codecs : Codecs
  pub header_value : String → Option String
  pub choose : List ApiKeyPayload → Option ApiKeyPayload

abbrev pub delegate_api_key_flag : String
delegate_api_key_flag = "sk-ant-delegated-api-key"

unfoldable pub is_anthropic_delegation_request : Option String → Bool
is_anthropic_delegation_request none = false
is_anthropic_delegation_request (some key) = key == delegate_api_key_flag

or_first : Option String → Option String → Option String
or_first (some id) later = some id
or_first none later = later

tool_result_id : Json → Option String
tool_result_id v =
    if is_text (then_str (get "type" v)) "tool_result" then then_str (get "tool_use_id" v) else none

-- the first id in the content
content_tool_use_id : Items → Option String
unfolding or_first tool_result_id
content_tool_use_id nil = none
content_tool_use_id (item v vs) = or_first (tool_result_id v) (content_tool_use_id vs)

array_tool_use_id : Option Items → Option String
unfolding content_tool_use_id
array_tool_use_id none = none
array_tool_use_id (some vs) = content_tool_use_id vs

message_tool_use_id : Json → Option String
unfolding array_tool_use_id
message_tool_use_id msg =
    if is_text (then_str (get "role" msg)) "user"
    then array_tool_use_id (then_array (get "content" msg))
    else none

messages_tool_use_id : Items → Option String
unfolding or_first message_tool_use_id
messages_tool_use_id nil = none
messages_tool_use_id (item msg msgs) =
    or_first (message_tool_use_id msg) (messages_tool_use_id msgs)

in_messages : Option Items → Option String
unfolding messages_tool_use_id
in_messages none = none
in_messages (some msgs) = messages_tool_use_id msgs

unfoldable pub find_tool_use_id_in_request_body : Option Json → Option String
unfolding in_messages
find_tool_use_id_in_request_body json = in_messages (then_array (then_get "messages" json))

unfoldable pub is_anthropic_key : ApiKeyPayload → Bool
is_anthropic_key p = eq_ignore_ascii_case p.api_key_type "ANTHROPIC_API_KEY"

-- the payloads of the store, in the order in which its map is traversed
unfoldable pub anthropic_keys : ApiKeyStore → List ApiKeyPayload
unfolding is_anthropic_key
anthropic_keys store = keep_if is_anthropic_key (map (λ e. e.1) store)

unfoldable pub choose_key : ProxyWorld → List ApiKeyPayload → Option ApiKeyPayload
choose_key w [] = none
choose_key w (p ∷ ps) = w.choose (p ∷ ps)

unfoldable pub or_kept : Option String → Option String → Option String
or_kept key none = key
or_kept key (some value) = some value

-- The header of the request that goes on, and the payload that the context names. Where the key makes
-- no header value, the header is kept and the context names the payload all the same.
unfoldable pub inject_selected :
    ProxyWorld → Option String → Option ApiKeyPayload → Option String × Option ApiKeyPayload
unfolding or_kept
inject_selected w key none = (key, none)
inject_selected w key (some p) = (or_kept key (w.header_value p.api_key), some p)

-- The injection of a key; that the lock of the store is not poisoned is taken for granted.
unfoldable pub inject :
    ProxyWorld → ApiKeyStore → Option String → Option String → Option String × Option ApiKeyPayload
unfolding inject_selected choose_key
inject w store none key = (key, none)
inject w store (some host) key =
    if contains host "anthropic.com" && is_anthropic_delegation_request key
    then inject_selected w key (choose_key w (anthropic_keys store))
    else (key, none)

-- What the proxy sends on, and the context that it sets; that it can be set is taken for granted.
pub record Forwarded : Type 0 where
  pub request : HttpRequest
  pub context : Option LlmProxyRequestContext

named : {A : Type 0} → (ApiKeyPayload → A) → Option ApiKeyPayload → Option A
named f none = none
named f (some p) = some (f p)

unfoldable pub forward : ProxyWorld → ApiKeyStore → String → HttpRequest → Option Bytes → Forwarded
unfolding inject named
forward w store request_id r none = record { request = record r { body = some [] }; context = none }
forward w store request_id r (some body) =
    let injected = inject w store r.host r.x_api_key in
    record {
      request = record r { x_api_key = injected.0 };
      context = some (record {
        request_id = request_id;
        request_url = some r.uri;
        linked_tool_use_id = find_tool_use_id_in_request_body (w.codecs.from_slice body);
        reverie_id = named (λ p. p.reverie_id) injected.1;
        spender = named (λ p. p.spender) injected.1;
        spender_type = named (λ p. p.spender_type) injected.1;
      });
    }

unfoldable pub handle_request : ProxyWorld → ApiKeyStore → String → HttpRequest → Forwarded
unfolding forward
handle_request w store request_id r = forward w store request_id r r.body

-- An answer: what the two tee bodies pass to the tasks, the one for whole answers and the one for
-- streams, which parses by the URL of the request.
pub record HttpResponse : Type 0 where
  pub content_type : Option String
  pub content_encoding : Option String
  pub chunks : List (Option Bytes)
  pub updates : Option String → List (ℕ × SseChunk)

is_sse : Option String → Bool
is_sse none = false
is_sse (some ct) = starts_with ct "text/event-stream"

context_or_new : String → Option LlmProxyRequestContext → LlmProxyRequestContext
context_or_new request_id none = record {
  request_id = request_id;
  request_url = none;
  linked_tool_use_id = none;
  reverie_id = none;
  spender = none;
  spender_type = none;
}
context_or_new request_id (some c) = c

abbrev pub request_of : LlmProxyRequestContext → Request
request_of c = record {
  linked_tool_use_id = c.linked_tool_use_id;
  reverie_id = c.reverie_id;
  request_id = c.request_id;
  spender = c.spender;
  spender_type = c.spender_type;
}

-- The reports that the logging task of the answer submits, at the time `now` if it is whole.
unfoldable pub handle_response :
    ProxyWorld → String → ℕ → Option LlmProxyRequestContext → HttpResponse → List UsageReportPayload
unfolding is_sse context_or_new
handle_response w new_id now context res =
    let c = context_or_new new_id context in
    if is_sse res.content_type
    then (log_sse_response_task (request_of c) (res.updates c.request_url)
        (start_task (request_of c))).submitted
    else log_regular_response_task w.codecs res.content_encoding c.request_url (request_of c) now
        res.chunks
