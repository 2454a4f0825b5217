-- ===== src/Usage/Metrics.antt =====
-- runtime/src/llm/mcp_tool_usage.rs, and how usage_verification.rs fills it.
use reveries_network.Common.{
  ℕ, String, ◌+◌, ◌%◌, ◌^◌, Option, none, some, List, [], ◌∷◌, ◌++◌, ok, err, Result,
}
use reveries_network.Types.{ReverieId}
use reveries_network.Proxy.Usage.{UsageReportPayload}
use reveries_network.Usage.Store.{
  Sqlite, DbError, UsageTable, tool_field, read_usage_data_for_reverie,
}

pub record UsageRecord : Type 0 where
  pub request_id : String
  pub timestamp : ℕ
  pub input_tokens : ℕ
  pub output_tokens : ℕ
  pub cache_creation_tokens : Option ℕ
  pub cache_read_tokens : Option ℕ
  pub tool_name : Option String
  pub tool_type : Option String
  pub linked_tool_id : Option String
  pub reverie_id : Option String
  pub spender_address : Option String
  pub spender_type : Option String

pub record McpToolUsageMetrics : Type 0 where
  pub total_input_tokens : ℕ  -- u64
  pub total_output_tokens : ℕ  -- u64
  pub total_cache_creation_tokens : ℕ  -- u64
  pub total_cache_read_tokens : ℕ  -- u64
  pub usage_records : List UsageRecord

unfoldable pub default_metrics : McpToolUsageMetrics
default_metrics = record {
  total_input_tokens = 0;
  total_output_tokens = 0;
  total_cache_creation_tokens = 0;
  total_cache_read_tokens = 0;
  usage_records = [];
}

abbrev pub unwrap_or_zero : Option ℕ → ℕ
unwrap_or_zero none = 0
unwrap_or_zero (some n) = n

-- `+=` on u64, as it wraps in a release build
unfoldable pub add_u64 : ℕ → ℕ → ℕ
add_u64 a b = (a + b) % 2 ^ 64

unfoldable pub add_usage_record : UsageRecord → McpToolUsageMetrics → McpToolUsageMetrics
unfolding add_u64
add_usage_record r m = record {
  total_input_tokens = add_u64 m.total_input_tokens r.input_tokens;
  total_output_tokens = add_u64 m.total_output_tokens r.output_tokens;
  total_cache_creation_tokens =
      add_u64 m.total_cache_creation_tokens (unwrap_or_zero r.cache_creation_tokens);
  total_cache_read_tokens = add_u64 m.total_cache_read_tokens (unwrap_or_zero r.cache_read_tokens);
  usage_records = m.usage_records ++ (r ∷ []);
}

unfoldable pub clear_usage_data : McpToolUsageMetrics → McpToolUsageMetrics
clear_usage_data m = record {
  total_input_tokens = 0;
  total_output_tokens = 0;
  total_cache_creation_tokens = 0;
  total_cache_read_tokens = 0;
  usage_records = [];
}

-- the record that the node client makes of a stored payload
unfoldable pub usage_record : UsageReportPayload → UsageRecord
usage_record p = record {
  request_id = p.request_id;
  timestamp = p.timestamp;
  input_tokens = p.usage.input_tokens;
  output_tokens = p.usage.output_tokens;
  cache_creation_tokens = p.usage.cache_creation_input_tokens;
  cache_read_tokens = p.usage.cache_read_input_tokens;
  tool_name = tool_field (λ t. t.name) p.usage.tool_use;
  tool_type = tool_field (λ t. t.tool_type) p.usage.tool_use;
  linked_tool_id = p.linked_tool_use_id;
  reverie_id = p.usage.reverie_id;
  spender_address = p.usage.spender;
  spender_type = p.usage.spender_type;
}

unfoldable pub add_all : List UsageReportPayload → McpToolUsageMetrics → McpToolUsageMetrics
unfolding add_usage_record usage_record
add_all [] m = m
add_all (p ∷ ps) m = add_all ps (add_usage_record (usage_record p) m)

-- A read that fails is logged, and the metrics stay empty.
unfoldable pub metrics_of : Result DbError (List UsageReportPayload) → McpToolUsageMetrics
unfolding add_all default_metrics
metrics_of (ok ps) = add_all ps default_metrics
metrics_of (err e) = default_metrics

-- `NodeClient::read_usage_data_for_reverie`
unfoldable pub reverie_metrics : Sqlite → ReverieId → UsageTable → McpToolUsageMetrics
unfolding metrics_of
reverie_metrics db id t = metrics_of (read_usage_data_for_reverie db id t)
