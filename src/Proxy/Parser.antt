-- ===== src/Proxy/Parser.antt =====
-- parser: the usage in an answer, whole or streamed. mod.rs, anthropic.rs, deepseek.rs and
-- `parse_sse_data_line` of sse_parser.rs.
pub mod Regular
pub mod Effects
pub mod Events
use reveries_network.Common.{
  ℕ, String, Bool, true, false, ◌||◌, Option, none, some, List, [], ◌∷◌, ltb, if◌then◌else◌, ◌==◌,
  string_eq,
}
use reveries_network.Proxy.Usage.{
  UsageData, ToolUse, SseChunk, input_tokens_chunk, output_tokens_chunk, stop, text_chunk,
  tool_use_chunk, other_chunk,
}
use reveries_network.Proxy.Json.{
  Json, Items, nil, item, get, then_get, then_u64, then_str, then_object, then_array, or_else,
  or_unknown, or_zero, value_or_null, is_text,
}

usage_of_tokens : ℕ → ℕ → Option ℕ → Option ℕ → UsageData
usage_of_tokens input output cache_creation cache_read = record {
  reverie_id = none;
  spender = none;
  spender_type = none;
  input_tokens = input;
  output_tokens = output;
  cache_creation_input_tokens = cache_creation;
  cache_read_input_tokens = cache_read;
  tool_use = none;
}

-- only where there are tokens
unfoldable pub with_tokens : UsageData → Option UsageData
with_tokens u = if ltb 0 u.input_tokens || ltb 0 u.output_tokens then some u else none

generic_of : Option Json → Option UsageData
unfolding usage_of_tokens with_tokens
generic_of none = none
generic_of (some m) = with_tokens (
    usage_of_tokens (or_zero (then_u64 (or_else (get "input_tokens" m) (get "prompt_tokens" m))))
      (or_zero (then_u64 (or_else (get "output_tokens" m) (get "completion_tokens" m))))
      (then_u64 (get "cache_creation_input_tokens" m))
      (then_u64 (or_else (get "cache_read_input_tokens" m) (get "prompt_cache_hit_tokens" m))))

unfoldable pub extract_generic_usage : Json → Option UsageData
unfolding generic_of
extract_generic_usage json = generic_of (then_object (get "usage" json))

deepseek_of : Option Json → Option UsageData
unfolding usage_of_tokens with_tokens
deepseek_of none = none
deepseek_of (some m) = with_tokens (
    usage_of_tokens (or_zero (then_u64 (get "prompt_tokens" m)))
      (or_zero (then_u64 (get "completion_tokens" m))) (then_u64 (get "prompt_cache_miss_tokens" m))
      (then_u64 (get "prompt_cache_hit_tokens" m)))

-- `DeepseekParser::extract_usage`
unfoldable pub extract_deepseek_usage : Json → Option UsageData
unfolding deepseek_of
extract_deepseek_usage json = deepseek_of (then_object (get "usage" json))

-- How serde_json writes a value.
abbrev pub TextOf : Type 0
TextOf = Json → String

tool_use_of : TextOf → Json → ToolUse
tool_use_of text_of v = record {
  id = or_unknown (then_str (get "id" v));
  name = or_unknown (then_str (get "name" v));
  input = text_of (value_or_null (get "input" v));
  tool_type = "tool_use";
}

-- the first use of a tool among the blocks of the content
first_tool_use : TextOf → Items → Option ToolUse
unfolding tool_use_of
first_tool_use text_of nil = none
first_tool_use text_of (item v vs) =
    let later = first_tool_use text_of vs in
    if is_text (then_str (get "type" v)) "tool_use" then some (tool_use_of text_of v) else later

content_tool_use : TextOf → Option Items → Option ToolUse
unfolding first_tool_use
content_tool_use text_of none = none
content_tool_use text_of (some vs) = first_tool_use text_of vs

anthropic_of : Option Json → Option UsageData
unfolding usage_of_tokens with_tokens
anthropic_of none = none
anthropic_of (some m) = with_tokens (
    usage_of_tokens (or_zero (then_u64 (get "input_tokens" m)))
      (or_zero (then_u64 (get "output_tokens" m))) (then_u64 (get "cache_creation_input_tokens" m))
      (then_u64 (get "cache_read_input_tokens" m)))

with_tool_use : TextOf → Json → Option UsageData → Option UsageData
unfolding content_tool_use
with_tool_use text_of json none = none
with_tool_use text_of json (some u) =
    if is_text (then_str (get "stop_reason" json)) "tool_use"
    then some (record u { tool_use = content_tool_use text_of (then_array (get "content" json)) })
    else some u

-- `AnthropicParser::extract_usage`
unfoldable pub extract_anthropic_usage : TextOf → Json → Option UsageData
unfolding anthropic_of with_tool_use
extract_anthropic_usage text_of json =
    with_tool_use text_of json (anthropic_of (then_object (get "usage" json)))

tokens_or_other : (ℕ → SseChunk) → String → Option ℕ → List SseChunk
tokens_or_other chunk type (some n) = chunk n ∷ []
tokens_or_other chunk type none = other_chunk type ∷ []

text_or_other : String → Option String → List SseChunk
text_or_other type (some s) = text_chunk s ∷ []
text_or_other type none = other_chunk type ∷ []

block_start : TextOf → Json → Option ℕ → List SseChunk
block_start text_of json none = other_chunk "content_block_start" ∷ []
block_start text_of json (some index) =
    let block = value_or_null (get "content_block" json) in
    if is_text (then_str (then_get "type" (get "content_block" json))) "tool_use"
    then tool_use_chunk (or_unknown (then_str (get "id" block)))
        (or_unknown (then_str (get "name" block))) (text_of (value_or_null (get "input" block)))
        "tool_use"
      ∷ []
    else []

-- The match on the type of an event.
unfoldable pub event_chunks : TextOf → Json → String → List SseChunk
unfolding tokens_or_other text_or_other block_start
event_chunks text_of json type =
    if type == "message_start"
    then tokens_or_other input_tokens_chunk type
        (then_u64 (then_get "input_tokens" (then_get "usage" (get "message" json))))
    else if type == "content_block_delta"
    then text_or_other type (then_str (then_get "text" (get "delta" json)))
    else if type == "content_block_start"
    then block_start text_of json (then_u64 (get "index" json))
    else if type == "message_delta"
    then tokens_or_other output_tokens_chunk type
        (then_u64 (then_get "output_tokens" (get "usage" json)))
    else if type == "message_stop"
    then stop ∷ []
    else other_chunk type ∷ []

typed_chunks : TextOf → Json → Option String → List SseChunk
unfolding event_chunks
typed_chunks text_of json none = other_chunk "MissingType" ∷ []
typed_chunks text_of json (some type) = event_chunks text_of json type

-- `parse_sse_data_line`, of the value that serde_json reads from the line.
unfoldable pub parse_sse_data_line : TextOf → Option Json → List SseChunk
unfolding typed_chunks
parse_sse_data_line text_of none = other_chunk "ParseError" ∷ []
parse_sse_data_line text_of (some json) = typed_chunks text_of json (then_str (get "type" json))
