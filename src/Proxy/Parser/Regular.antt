-- ===== src/Proxy/Parser/Regular.antt =====
-- usage.rs: the report of an answer that comes whole, and in parser/mod.rs the choice of the parser
-- by the URL of the request. What gzip, deflate, serde_json and url do is a record.
use reveries_network.Common.{
  ℕ, String, Bool, true, false, ◌||◌, Option, none, some, List, [], ◌∷◌, ◌++◌, Result, ok, err,
  ◌>>=◌, ok_or, if◌then◌else◌, ◌==◌, string_eq,
}
use text.Mathlib.Text.{find?}
use reveries_network.Types.{Bytes}
use reveries_network.Proxy.Usage.{UsageData, UsageReportPayload, Request}
use reveries_network.Proxy.Json.{Json}
use reveries_network.Proxy.Parser.{
  TextOf, extract_generic_usage, extract_deepseek_usage, extract_anthropic_usage,
}

pub record Url : Type 0 where
  pub host_str : Option String
  pub path : String

pub record Codecs : Type 0 where
  pub gunzip : Bytes → Option Bytes
  pub inflate : Bytes → Option Bytes
  pub from_slice : Bytes → Option Json
  pub parse_url : String → Option Url
  pub text_of : TextOf

-- `NoUsageData` is the message of `process_and_log_regular_body`
pub data ParseError : Type 0 where
  decompression json_parsing url_parsing unsupported_provider no_usage_data : ParseError

pub data UsageParser : Type 0 where
  anthropic deepseek : UsageParser

unfoldable pub is_found : Option ℕ → Bool
is_found none = false
is_found (some n) = true

unfoldable pub contains : String → String → Bool
unfolding is_found
contains s t = is_found (find? s t)

unfoldable pub select_parser : String → String → Result ParseError UsageParser
unfolding contains
select_parser host path =
    if contains host "anthropic.com" || contains path "/anthropic/"
    then ok anthropic
    else if contains host "deepseek.com" || contains path "/deepseek/"
    then ok deepseek
    else if contains host "openai.com" || contains path "/openai/"
    then ok anthropic
    else err unsupported_provider

unfoldable pub get_parser_for_url : Codecs → String → Result ParseError UsageParser
unfolding select_parser
get_parser_for_url c url = do
  u ← ok_or (c.parse_url url) url_parsing
  host ← ok_or u.host_str unsupported_provider
  select_parser host u.path

unfoldable pub extract_usage : Codecs → Result ParseError UsageParser → Json → Option UsageData
extract_usage c (ok anthropic) json = extract_anthropic_usage c.text_of json
extract_usage c (ok deepseek) json = extract_deepseek_usage json
extract_usage c (err e) json = extract_generic_usage json

unfoldable pub usage_for_url : Codecs → Option String → Json → Option UsageData
unfolding extract_usage
usage_for_url c none json = extract_generic_usage json
usage_for_url c (some url) json = extract_usage c (get_parser_for_url c url) json

unfoldable pub parse_json_and_extract_usage :
    Codecs → Bytes → Option String → Result ParseError (Json × Option UsageData)
unfolding usage_for_url
parse_json_and_extract_usage c bytes url = do
  json ← ok_or (c.from_slice bytes) json_parsing
  ok (json, usage_for_url c url json)

unfoldable pub decompress_body : Codecs → Option String → Bytes → Result ParseError Bytes
decompress_body c none bytes = ok bytes
decompress_body c (some encoding) bytes =
    if is_encoding "gzip"
    then ok_or (c.gunzip bytes) decompression
    else if is_encoding "deflate"
    then ok_or (c.inflate bytes) decompression
    else ok bytes
  where
    is_encoding : String → Bool
    is_encoding name = encoding == name

unfoldable pub payload_for : Request → ℕ → UsageData → UsageReportPayload
payload_for r now usage_data = record {
  usage = record usage_data {
    reverie_id = r.reverie_id;
    spender = r.spender;
    spender_type = r.spender_type;
  };
  timestamp = now;
  linked_tool_use_id = r.linked_tool_use_id;
  request_id = r.request_id;
}

unfoldable pub found_payload : Request → ℕ → Option UsageData → Result ParseError UsageReportPayload
unfolding payload_for
found_payload r now none = err no_usage_data
found_payload r now (some usage_data) = ok (payload_for r now usage_data)

-- The payload that is signed and sent; `now` is the clock. That serde_json writes it and that the
-- TEE attests it are taken for granted.
unfoldable pub process_and_log_regular_body :
    Codecs
    → Option String
    → Option String
    → Request
    → ℕ
    → Bytes
    → Result ParseError UsageReportPayload
unfolding parse_json_and_extract_usage decompress_body found_payload
process_and_log_regular_body c encoding url r now log_buffer = do
  bytes ← decompress_body c encoding log_buffer
  parsed ← parse_json_and_extract_usage c bytes url
  found_payload r now parsed.1

-- What the loop receives: the bytes so far, or nothing after an error of the channel.
unfoldable pub receive : List (Option Bytes) → Bytes → Option Bytes
receive [] log_buffer = some log_buffer
receive (none ∷ rest) log_buffer = none
receive (some chunk ∷ rest) log_buffer = receive rest (log_buffer ++ chunk)

unfoldable pub sent : Result ParseError UsageReportPayload → List UsageReportPayload
sent (ok p) = p ∷ []
sent (err e) = []

unfoldable pub report_body :
    Codecs → Option String → Option String → Request → ℕ → Option Bytes → List UsageReportPayload
unfolding sent process_and_log_regular_body
report_body c encoding url r now none = []
report_body c encoding url r now (some []) = []
report_body c encoding url r now (some (b ∷ bs)) =
    sent (process_and_log_regular_body c encoding url r now (b ∷ bs))

-- the reports that the task submits, one at most
unfoldable pub log_regular_response_task :
    Codecs
    → Option String
    → Option String
    → Request
    → ℕ
    → List (Option Bytes)
    → List UsageReportPayload
unfolding receive report_body
log_regular_response_task c encoding url r now chunks =
    report_body c encoding url r now (receive chunks [])
