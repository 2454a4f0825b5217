-- ===== src/Proxy/TeeBody/Metered.antt =====
-- From the frames of a streamed answer of Anthropic to the report of its usage.
use reveries_network.Common.{ℕ, Option, none, some, List, String, string_eq}
use reveries_network.Common.Text.{Text}
use reveries_network.Types.{Bytes}
use reveries_network.Proxy.Usage.{SseChunk, ToolUse, UsageReportPayload, Request}
use reveries_network.Proxy.Usage
use reveries_network.Proxy.Json.{Json}
use reveries_network.Proxy.Sse.Lines.{Readers, parse_event}

-- the report of a message that told these numbers
abbrev pub report : Request → ℕ → ℕ → ℕ → Option ToolUse → UsageReportPayload
report r now input output tool = record {
  usage = record {
    reverie_id = r.reverie_id;
    spender = none;
    spender_type = none;
    input_tokens = input;
    output_tokens = output;
    cache_creation_input_tokens = none;
    cache_read_input_tokens = none;
    tool_use = tool;
  };
  timestamp = now;
  linked_tool_use_id = r.linked_tool_use_id;
  request_id = r.request_id;
}

module _ (r : Readers) (url : String) where
  abbrev pub parse : Bytes → List SseChunk
  parse = parse_event r (some url)
