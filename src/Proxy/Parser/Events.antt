-- ===== src/Proxy/Parser/Events.antt =====
-- The JSON of one `data:` line of an event, read by the parser of the provider: `parse_sse_data` of
-- deepseek.rs and anthropic.rs, and the choice in `parse_sse_event_string` of sse_parser.rs.
use reveries_network.Common.{
  ◌≡◌, refl, String, Option, none, some, List, [], ◌∷◌, ◌++◌, Result, ok, err,
}
use reveries_network.Proxy.Usage.{
  SseChunk, input_tokens_chunk, output_tokens_chunk, text_chunk, other_chunk,
}
use reveries_network.Proxy.Json.{Json, get, then_get, then_u64, then_str}
use reveries_network.Proxy.Parser.{TextOf, parse_sse_data_line}
use reveries_network.Proxy.Parser.Regular.{
  Codecs, ParseError, UsageParser, anthropic, deepseek, get_parser_for_url,
}

chunk_of_some : {A : Type 0} → (A → SseChunk) → Option A → List SseChunk
chunk_of_some chunk none = []
chunk_of_some chunk (some a) = chunk a ∷ []

deepseek_updates : Json → Option String → List SseChunk
unfolding chunk_of_some
deepseek_updates json none = []
deepseek_updates json (some event_type) =
    let usage = get "usage" json in
    other_chunk event_type
    ∷ (chunk_of_some input_tokens_chunk (then_u64 (then_get "prompt_tokens" usage))
        ++ (chunk_of_some output_tokens_chunk (then_u64 (then_get "completion_tokens" usage))
            ++ chunk_of_some text_chunk (then_str (then_get "content" (get "delta" json)))))

-- the default parser where there are no updates
or_default : TextOf → Option Json → List SseChunk → List SseChunk
or_default text_of line [] = parse_sse_data_line text_of line
or_default text_of line (u ∷ updates) = u ∷ updates

parse_deepseek_sse_data : TextOf → Option Json → List SseChunk
unfolding deepseek_updates or_default
parse_deepseek_sse_data text_of none = or_default text_of none []
parse_deepseek_sse_data text_of (some json) =
    or_default text_of (some json) (deepseek_updates json (then_str (get "type" json)))

parse_by : TextOf → Result ParseError UsageParser → Option Json → List SseChunk
unfolding parse_deepseek_sse_data
parse_by text_of (ok deepseek) line = parse_deepseek_sse_data text_of line
parse_by text_of (ok anthropic) line = parse_sse_data_line text_of line
parse_by text_of (err e) line = parse_sse_data_line text_of line

-- The value is nothing where serde_json refuses the line.
unfoldable pub parse_data_part : Codecs → Option String → Option Json → List SseChunk
unfolding parse_by
parse_data_part c none line = parse_sse_data_line c.text_of line
parse_data_part c (some url) line = parse_by c.text_of (get_parser_for_url c url) line

pub parse_data_part-anthropic :
    (c : Codecs) (url : String) (line : Option Json)
    → get_parser_for_url c url ≡ ok anthropic
    → parse_data_part c (some url) line ≡ parse_sse_data_line c.text_of line
unfolding parse_data_part
parse_data_part-anthropic c url line parser = rw (parser, parse_by) refl
