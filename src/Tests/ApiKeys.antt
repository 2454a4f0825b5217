-- ===== src/Tests/ApiKeys.antt =====
-- The API key server at concrete inputs.
use reveries_network.Common.{
  ◌≡◌, ◌↔◌, refl, true, false, none, some, List, [], ◌∷◌, ◌++◌, ok, arith, string_eq,
}
use reveries_network.Common.Map
use reveries_network.Types.{Bytes}
use reveries_network.Proxy.Clock.{pos, negsuc, parse_i64, outside_window}
use reveries_network.Proxy.ApiKeys.{
  ApiWorld, ApiKeyPayload, NodeRequest, verify_node_request, serve, ok_200, not_found_404,
  method_not_allowed_405, unauthorized_401,
}
use reveries_network.Proxy.ApiKeys.Signed.{IsSigned, verify_node_request-IsSigned}
use reveries_network.Proxy.ApiKeys.Refinement.{Keys, Call, serve_all}

parse_i64_values :
    (parse_i64 "1700000000" ≡ some (pos 1_700_000_000))
    × (parse_i64 "-5" ≡ some (negsuc 4))
    × (parse_i64 "" ≡ none)
    × (parse_i64 "12a" ≡ none)
    × (parse_i64 "9223372036854775808" ≡ none)
unfolding parse_i64
parse_i64_values = (refl, refl, refl, refl, refl)

outside_window_values :
    (outside_window 1_700_000_000 (pos 1_700_000_060) ≡ false)
    × (outside_window 1_700_000_000 (pos 1_700_000_061) ≡ true)
    × (outside_window 1_700_000_000 (negsuc 4) ≡ true)
unfolding outside_window
outside_window_values = (refl, refl, refl)

abbrev pub payload : ApiKeyPayload
payload = record {
  reverie_id = "reverie_1";
  api_key_type = "ANTHROPIC_API_KEY";
  api_key = "sk";
  spender = "alice";
  spender_type = "ecdsa";
}

abbrev pub sixteen : Bytes
sixteen =
    0 ∷ (0 ∷ (0 ∷ (0 ∷ (0 ∷ (0 ∷ (0 ∷ (0 ∷ (0 ∷ (0 ∷ (0 ∷ (0 ∷ (0 ∷ (0 ∷ (0 ∷ (0 ∷ [])))))))))))))))

abbrev pub world : ApiWorld
world = record {
  base64_decode = λ s. some (sixteen ++ (sixteen ++ (sixteen ++ sixteen)));
  sha256_hex = λ b. "00";
  verify = λ key text signature. true;
  json_payload = λ t b. ok payload;
  json_identifier = λ t b. ok "reverie_1";
  lock_sound = true;
  unrouted = λ r. method_not_allowed_405;
}

abbrev request : NodeRequest
request = record {
  node_signature = some "sig";
  node_timestamp = some "1700000000";
  content_type = some "application/json";
  method = "POST";
  path = "/add_api_key";
  body = some [];
}

verify_node_request-IsSigned_example :
    (verify_node_request world "key" 1_700_000_030 request ≡ ok [])
    ↔ IsSigned world "key" 1_700_000_030 request []
verify_node_request-IsSigned_example =
    verify_node_request-IsSigned world "key" 1_700_000_030 request [] (omega arith)

abbrev removal : NodeRequest
removal = record request { path = "/remove_api_key" }

abbrev calls : List Call
calls =
    (1_700_000_000, request)
    ∷ (1_700_000_001, removal)
    ∷ (1_700_000_002, removal)
    ∷ (1_700_000_003, record removal { method = "GET" })
    ∷ (1_700_000_100, request)
    ∷ []

serve_all-calls :
    (serve_all world "key" calls []).1
    ≡ ok_200 ∷ ok_200 ∷ not_found_404 ∷ method_not_allowed_405 ∷ unauthorized_401 ∷ []
unfolding serve_all serve verify_node_request parse_i64 outside_window Map.get Map.insert Map.remove
serve_all-calls = refl

abbrev no_keys : Keys
no_keys id = none
