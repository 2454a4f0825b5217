-- ===== src/Tests/Answers.antt =====
-- Answers of models at concrete inputs.
use reveries_network.Common.{
  ◌≡◌, ◌≢◌, refl, sym, ap, ◌∙◌, true, false, Option, none, some, List, [], ◌∷◌, ok, inl, All,
  eq_ignore_ascii_case,
}
use reveries_network.Proxy.Usage.{Request}
use reveries_network.Proxy.Json.{Json, u64, text, object, field, end, is_text}
use reveries_network.Proxy.Parser.Regular.{
  is_found, Codecs, get_parser_for_url, select_parser, contains, anthropic, deepseek,
}
use reveries_network.Proxy.ApiKeys.{ApiKeyPayload, ApiKeyStore}
use reveries_network.Proxy.Handler.{
  HttpRequest, HttpResponse, ProxyWorld, handle_request, handle_response, forward, inject,
  inject_selected, choose_key, anthropic_keys, is_anthropic_key, or_kept,
  is_anthropic_delegation_request,
}
use reveries_network.Proxy.Handler.Charging.{
  IsDelegated, IsInjected, Choice, handle_request-handle_response,
}

abbrev usage : Json
usage = object (field "input_tokens" (u64 12) (field "output_tokens" (u64 7) end))

abbrev pub answer : Json
answer = object (field "id" (text "msg_1") (field "usage" usage end))

abbrev pub codecs : Codecs
codecs = record {
  gunzip = λ b. none;
  inflate = λ b. none;
  from_slice = λ b. some answer;
  parse_url = λ u. some (record { host_str = some u; path = "/v1/messages" });
  text_of = λ v. "{}";
}

pub api_url-anthropic : get_parser_for_url codecs "api.anthropic.com" ≡ ok anthropic
unfolding get_parser_for_url select_parser contains
api_url-anthropic = refl

api_url-deepseek : get_parser_for_url codecs "api.deepseek.com" ≡ ok deepseek
unfolding get_parser_for_url select_parser contains
api_url-deepseek = refl

abbrev pub asked : Request
asked = record {
  linked_tool_use_id = none;
  reverie_id = some "reverie_1";
  request_id = "r1";
  spender = some "alice.near";
  spender_type = some "near";
}

abbrev delegated : HttpRequest
delegated = record {
  uri = "https://api.anthropic.com/v1/messages";
  host = some "api.anthropic.com";
  x_api_key = some "sk-ant-delegated-api-key";
  body = some (123 ∷ []);
}

abbrev first_key : List ApiKeyPayload → Option ApiKeyPayload
first_key [] = none
first_key (p ∷ ps) = some p

abbrev proxy : ProxyWorld
proxy = record { codecs = codecs; header_value = λ k. some k; choose = first_key }

first_key-Choice : Choice proxy
first_key-Choice [] p h = cc
first_key-Choice (q ∷ ps) p h = inl cc

abbrev alice : ApiKeyPayload
alice = record {
  reverie_id = "reverie_1";
  api_key_type = "anthropic_api_key";
  api_key = "sk-1";
  spender = "alice.near";
  spender_type = "near";
}

abbrev store : ApiKeyStore
store = ("reverie_1", alice) ∷ []

delegated-sent : (handle_request proxy store "request_1" delegated).request.x_api_key ≡ some "sk-1"
unfolding handle_request forward inject inject_selected choose_key anthropic_keys is_anthropic_key
    eq_ignore_ascii_case or_kept contains is_found is_anthropic_delegation_request
delegated-sent = refl

delegated-changed :
    (handle_request proxy store "request_1" delegated).request.x_api_key ≢ delegated.x_api_key
delegated-changed h =
    let same : true ≡ false = ap (λ k. is_text k "sk-1") (sym delegated-sent ∙ h) in cc

abbrev whole : HttpResponse
whole = record {
  content_type = some "application/json";
  content_encoding = none;
  chunks = some (123 ∷ []) ∷ [];
  updates = λ url. [];
}

handle_request-handle_response_example :
    IsDelegated delegated
    × ((p : ApiKeyPayload) × IsInjected proxy store
          (handle_request proxy store "request_1" delegated).request.x_api_key
          p
        × All
            (λ u. (u.usage.reverie_id ≡ some p.reverie_id) × (u.request_id ≡ "request_1"))
            (handle_response proxy "request_2" 5
              (handle_request proxy store "request_1" delegated).context
              whole))
handle_request-handle_response_example =
    handle_request-handle_response proxy store "request_1" "request_2" 5 delegated whole
      first_key-Choice delegated-changed
