-- ===== src/Proxy/ApiKeys.antt =====
-- api_key_delegation_server/mod.rs: the API keys that the node hands to the proxy.
pub mod Signed
pub mod Refinement
use Prim.Native.String.{◌++◌}
use reveries_network.Common.{
  ℕ, String, Bool, true, false, not, Option, none, some, List, [], ◌∷◌, Result, ok, err, ◌>>=◌,
  ok_or, require, require-true, if◌then◌else◌, ◌==◌, ◌||◌, is_some, nat_beq, length, string_eq,
}
use reveries_network.Common.Map
use reveries_network.Common.Map.{HashMap}
use reveries_network.Types.{ReverieId, PublicKey, Bytes}
use reveries_network.Proxy.Clock.{ℤ, parse_i64, outside_window}

pub record ApiKeyPayload : Type 0 where
  pub reverie_id : ReverieId
  pub api_key_type : String
  pub api_key : String
  pub spender : String
  pub spender_type : String

abbrev pub ApiKeyStore : Type 0
ApiKeyStore = HashMap ReverieId ApiKeyPayload

pub data StatusCode : Type 0 where
  ok_200 bad_request_400 unauthorized_401 not_found_404 method_not_allowed_405
        unsupported_media_type_415 unprocessable_422 internal_error_500 :
      StatusCode

-- A request as the server gets it: the two headers, where they are there and are text, the content
-- type, and the body, where it can be read.
pub record NodeRequest : Type 0 where
  pub node_signature : Option String
  pub node_timestamp : Option String
  pub content_type : Option String
  pub method : String
  pub path : String
  pub body : Option Bytes

-- What the code takes of base64, sha2, ed25519_dalek and axum, and whether the lock of the store is
-- free of panics. `json_payload` and `json_identifier` are axum's extractor `Json` at the two types,
-- which reads a body under its content type or refuses it with a status of its own; `unrouted` is
-- the status with which axum answers a request that fits no route. The middleware's clock is an
-- argument below.
pub record ApiWorld : Type 0 where
  pub base64_decode : String → Option Bytes
  pub sha256_hex : Bytes → String
  pub verify : PublicKey → String → Bytes → Bool
  pub json_payload : Option String → Bytes → Result StatusCode ApiKeyPayload
  pub json_identifier : Option String → Bytes → Result StatusCode ReverieId
  pub lock_sound : Bool
  pub unrouted : NodeRequest → StatusCode

-- `generate_digest_hash`: the text that the node signs
unfoldable pub generate_digest_hash : ApiWorld → String → String → String → Bytes → String
generate_digest_hash w method path timestamp body =
    method ++ ("\n" ++ (path ++ ("\n" ++ (timestamp ++ ("\n" ++ w.sha256_hex body)))))

-- The middleware: the body that the handler gets, or the status of the refusal. That the request can
-- be put together again is taken for granted.
unfoldable pub verify_node_request :
    ApiWorld → PublicKey → ℕ → NodeRequest → Result StatusCode Bytes
unfolding generate_digest_hash
verify_node_request w key now r = do
  signature_b64 ← ok_or r.node_signature unauthorized_401
  timestamp_str ← ok_or r.node_timestamp unauthorized_401
  timestamp ← ok_or (parse_i64 timestamp_str) bad_request_400
  _ ← require (not (outside_window now timestamp)) unauthorized_401
  signature ← ok_or (w.base64_decode signature_b64) bad_request_400
  _ ← require (nat_beq (length signature) 64) bad_request_400
  body ← ok_or r.body internal_error_500
  _ ←
      require (w.verify key (generate_digest_hash w r.method r.path timestamp_str body) signature)
        unauthorized_401
  ok body

-- `add_api_key`; the handler is called where the extractor reads the payload.
unfoldable pub add_api_key :
    ApiWorld → Result StatusCode ApiKeyPayload → ApiKeyStore → ApiKeyStore × StatusCode
add_api_key w (err rejection) store = (store, rejection)
add_api_key w (ok payload) store =
    if w.lock_sound
    then (Map.insert payload.reverie_id payload store, ok_200)
    else (store, internal_error_500)

unfoldable pub remove_api_key :
    ApiWorld → Result StatusCode ReverieId → ApiKeyStore → ApiKeyStore × StatusCode
remove_api_key w (err rejection) store = (store, rejection)
remove_api_key w (ok id) store =
    if w.lock_sound
    then if is_some (Map.get id store)
      then (Map.remove id store, ok_200)
      else (Map.remove id store, not_found_404)
    else (store, internal_error_500)

-- The handlers that the router of `run_internal_api_server` leads to; only the health check is
-- reached without the middleware.
pub data Route : Type 0 where
  health_route add_route remove_route : Route

-- The router: the routes by path and method. A route of GET takes HEAD too.
unfoldable pub route_of : String → String → Option Route
route_of method path =
    if path == "/health"
    then if method == "GET" || method == "HEAD" then some health_route else none
    else if method == "POST"
    then if path == "/add_api_key"
      then some add_route
      else if path == "/remove_api_key"
      then some remove_route
      else none
    else none

unfoldable pub handle_route :
    ApiWorld → Route → Option String → Bytes → ApiKeyStore → ApiKeyStore × StatusCode
unfolding add_api_key remove_api_key
handle_route w health_route content_type body store = (store, ok_200)
handle_route w add_route content_type body store =
    add_api_key w (w.json_payload content_type body) store
handle_route w remove_route content_type body store =
    remove_api_key w (w.json_identifier content_type body) store

unfoldable pub behind_middleware :
    ApiWorld
    → Route
    → Option String
    → Result StatusCode Bytes
    → ApiKeyStore
    → ApiKeyStore × StatusCode
unfolding handle_route
behind_middleware w route content_type (ok body) store =
    handle_route w route content_type body store
behind_middleware w route content_type (err status) store = (store, status)

unfoldable pub serve_route :
    ApiWorld → PublicKey → ℕ → Option Route → NodeRequest → ApiKeyStore → ApiKeyStore × StatusCode
unfolding behind_middleware verify_node_request handle_route
serve_route w key now none r store = (store, w.unrouted r)
serve_route w key now (some health_route) r store =
    handle_route w health_route r.content_type [] store
serve_route w key now (some add_route) r store =
    behind_middleware w add_route r.content_type (verify_node_request w key now r) store
serve_route w key now (some remove_route) r store =
    behind_middleware w remove_route r.content_type (verify_node_request w key now r) store

unfoldable pub serve :
    ApiWorld → PublicKey → ℕ → NodeRequest → ApiKeyStore → ApiKeyStore × StatusCode
unfolding serve_route route_of
serve w key now r store = serve_route w key now (route_of r.method r.path) r store
