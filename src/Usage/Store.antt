-- ===== src/Usage/Store.antt =====
-- usage_db.rs: the table of usage reports.
use reveries_network.Common.{
  ℕ, String, Bool, true, false, ◌&&◌, Option, none, some, List, [], ◌∷◌, ◌++◌, map, any, keep_if,
  Result, ok, err, if◌then◌else◌, ◌==◌, string_eq,
}
use reveries_network.Types.{ReverieId}
use reveries_network.Proxy.Usage.{ToolUse, UsageReportPayload}

-- The columns of `usage_reports`, less the time of receipt, which nothing reads.
pub record UsageRow : Type 0 where
  pub request_id : String
  pub timestamp : ℕ
  pub input_tokens : ℕ
  pub output_tokens : ℕ
  pub cache_creation_tokens : Option ℕ
  pub cache_read_tokens : Option ℕ
  pub tool_id : Option String
  pub tool_name : Option String
  pub tool_input : Option String
  pub tool_type : Option String
  pub linked_tool_id : Option String
  pub reverie_id : Option String
  pub spender_address : Option String
  pub spender_type : Option String

abbrev pub UsageTable : Type 0
UsageTable = List UsageRow

-- What the code takes of rusqlite and serde_json: whether the pool gives a connection, which
-- numbers can be bound to an INTEGER column, the order of `ORDER BY timestamp DESC`, and how a JSON
-- value is written and read.
pub record Sqlite : Type 0 where
  pub connected : Bool
  pub fits : ℕ → Bool
  pub order_by_timestamp : UsageTable → UsageTable
  pub json_to_string : String → Option String
  pub json_from_str : String → Option String

pub data DbError : Type 0 where
  no_connection not_an_integer duplicate_request_id : DbError

abbrev fits_all : Sqlite → Option ℕ → Bool
fits_all db none = true
fits_all db (some n) = db.fits n

unfoldable pub binds : Sqlite → UsageReportPayload → Bool
binds db p =
    db.fits p.timestamp
    && (db.fits p.usage.input_tokens
        && (db.fits p.usage.output_tokens
            && (fits_all db p.usage.cache_creation_input_tokens
                && fits_all db p.usage.cache_read_input_tokens)))

abbrev pub or_null : Option String → String
or_null none = "null"
or_null (some s) = s

abbrev pub tool_field : (ToolUse → String) → Option ToolUse → Option String
tool_field f none = none
tool_field f (some t) = some (f t)

-- the values of the INSERT
unfoldable pub row_of : Sqlite → UsageReportPayload → UsageRow
row_of db p = record {
  request_id = p.request_id;
  timestamp = p.timestamp;
  input_tokens = p.usage.input_tokens;
  output_tokens = p.usage.output_tokens;
  cache_creation_tokens = p.usage.cache_creation_input_tokens;
  cache_read_tokens = p.usage.cache_read_input_tokens;
  tool_id = tool_field (λ t. t.id) p.usage.tool_use;
  tool_name = tool_field (λ t. t.name) p.usage.tool_use;
  tool_input = tool_field (λ t. or_null (db.json_to_string t.input)) p.usage.tool_use;
  tool_type = tool_field (λ t. t.tool_type) p.usage.tool_use;
  linked_tool_id = p.linked_tool_use_id;
  reverie_id = p.usage.reverie_id;
  spender_address = p.usage.spender;
  spender_type = p.usage.spender_type;
}

abbrev pub is_request : String → UsageRow → Bool
is_request id r = r.request_id == id

-- `request_id` is the primary key: a second row with it is refused.
unfoldable pub store_usage_payload :
    Sqlite → UsageReportPayload → UsageTable → Result DbError UsageTable
unfolding row_of binds
store_usage_payload db p t =
    if db.connected
    then if binds db p
      then if any (is_request p.request_id) t
        then err duplicate_request_id
        else ok (t ++ (row_of db p ∷ []))
      else err not_an_integer
    else err no_connection

-- the use of a tool, where all its four columns are there
unfoldable pub tool_of :
    Sqlite → Option String → Option String → Option String → Option String → Option ToolUse
tool_of db (some id) (some name) (some input) (some type) =
    some
      (record { id = id; name = name; input = or_null (db.json_from_str input); tool_type = type })
tool_of db _ _ _ _ = none

unfoldable pub payload_of : Sqlite → UsageRow → UsageReportPayload
unfolding tool_of
payload_of db r = record {
  usage = record {
    reverie_id = r.reverie_id;
    spender = r.spender_address;
    spender_type = r.spender_type;
    input_tokens = r.input_tokens;
    output_tokens = r.output_tokens;
    cache_creation_input_tokens = r.cache_creation_tokens;
    cache_read_input_tokens = r.cache_read_tokens;
    tool_use = tool_of db r.tool_id r.tool_name r.tool_input r.tool_type;
  };
  timestamp = r.timestamp;
  linked_tool_use_id = r.linked_tool_id;
  request_id = r.request_id;
}

-- `WHERE reverie_id = ?`, which no NULL fulfils
abbrev pub is_of : ReverieId → Option String → Bool
is_of id none = false
is_of id (some r) = r == id

unfoldable pub read_usage_data_for_reverie :
    Sqlite → ReverieId → UsageTable → Result DbError (List UsageReportPayload)
unfolding payload_of
read_usage_data_for_reverie db id t =
    if db.connected
    then ok (map (payload_of db) (db.order_by_timestamp (keep_if (λ r. is_of id r.reverie_id) t)))
    else err no_connection
