-- ===== src/Proxy/Usage.antt =====
-- usage.rs: the usage that the proxy reports for a streamed answer.
use reveries_network.Common.{
  ℕ, ◌≡◌, refl, Bool, true, false, ◌||◌, String, Option, none, some, List, [], ◌∷◌, ◌++◌, ltb,
  if◌then◌else◌, All, All-append,
}

-- `SSEChunk` of sse_parser.rs; a JSON value is its text.
pub data SseChunk : Type 0 where
  input_tokens_chunk output_tokens_chunk : ℕ → SseChunk
  stop : SseChunk
  text_chunk : String → SseChunk
  tool_use_chunk : String → String → String → String → SseChunk
  other_chunk : String → SseChunk

pub record ToolUse : Type 0 where
  pub id : String
  pub name : String
  pub input : String
  pub tool_type : String

pub record UsageData : Type 0 where
  pub reverie_id : Option String
  pub spender : Option String
  pub spender_type : Option String
  pub input_tokens : ℕ  -- u64
  pub output_tokens : ℕ  -- u64
  pub cache_creation_input_tokens : Option ℕ
  pub cache_read_input_tokens : Option ℕ
  pub tool_use : Option ToolUse

unfoldable pub new : UsageData
new = record {
  reverie_id = none;
  spender = none;
  spender_type = none;
  input_tokens = 0;
  output_tokens = 0;
  cache_creation_input_tokens = none;
  cache_read_input_tokens = none;
  tool_use = none;
}

pub record UsageReportPayload : Type 0 where
  pub usage : UsageData
  pub timestamp : ℕ
  pub linked_tool_use_id : Option String
  pub request_id : String

-- The arguments of the task that do not change: what the request was for and who pays.
pub record Request : Type 0 where
  pub linked_tool_use_id : Option String
  pub reverie_id : Option String
  pub request_id : String
  pub spender : Option String
  pub spender_type : Option String

pub record SseTask : Type 0 where
  pub current_usage : UsageData
  pub final_usage_to_submit : UsageData
  pub submitted : List UsageReportPayload

unfoldable pub fresh_usage : Request → UsageData
unfolding new
fresh_usage r = record new { reverie_id = r.reverie_id }

unfoldable pub start_task : Request → SseTask
unfolding fresh_usage new
start_task r = record {
  current_usage = fresh_usage r;
  final_usage_to_submit = record new {
    reverie_id = r.reverie_id;
    spender = r.spender;
    spender_type = r.spender_type;
  };
  submitted = [];
}

abbrev pub has_tokens : UsageData → Bool
has_tokens u = ltb 0 u.input_tokens || ltb 0 u.output_tokens

-- The report is signed and sent; `now` is the clock. That serde_json writes the payload and that the
-- TEE attests it are taken for granted.
unfoldable pub submit : Request → ℕ → SseTask → SseTask
unfolding fresh_usage
submit r now t =
    let payload : UsageReportPayload = record {
      usage = t.current_usage;
      timestamp = now;
      linked_tool_use_id = r.linked_tool_use_id;
      request_id = r.request_id;
    } in
    record {
      current_usage = fresh_usage r;
      final_usage_to_submit = t.current_usage;
      submitted = t.submitted ++ (payload ∷ []);
    }

-- what a chunk other than the end of a message does to the usage so far
unfoldable pub add_chunk : SseChunk → UsageData → UsageData
add_chunk (input_tokens_chunk n) u = record u { input_tokens = n }
add_chunk (output_tokens_chunk n) u = record u { output_tokens = n }
add_chunk (tool_use_chunk id name input type) u = record u {
  tool_use = some (record { id = id; name = name; input = input; tool_type = type });
}
add_chunk _ u = u

unfoldable pub handle_chunk : Request → ℕ → SseChunk → SseTask → SseTask
unfolding submit add_chunk
handle_chunk r now stop t = if has_tokens t.current_usage then submit r now t else t
handle_chunk r now c t = record t { current_usage = add_chunk c t.current_usage }

-- The loop over the chunks, each with the time at which it is handled.
unfoldable pub log_sse_response_task : Request → List (ℕ × SseChunk) → SseTask → SseTask
unfolding handle_chunk
log_sse_response_task r [] t = t
log_sse_response_task r ((now, c) ∷ cs) t = log_sse_response_task r cs (handle_chunk r now c t)

record Anonymous (t : SseTask) : Type 0 where
  spender : t.current_usage.spender ≡ none
  spender_type : t.current_usage.spender_type ≡ none
  reports : All (λ p. (p.usage.spender ≡ none) × (p.usage.spender_type ≡ none)) t.submitted

handle_chunk-Anonymous :
    (r : Request) (now : ℕ) (c : SseChunk) (t : SseTask)
    → Anonymous t
    → Anonymous (handle_chunk r now c t)
unfolding handle_chunk
handle_chunk-Anonymous r now (input_tokens_chunk n) t h =
    unfold add_chunk in
    record { spender = h.spender; spender_type = h.spender_type; reports = h.reports }
handle_chunk-Anonymous r now (output_tokens_chunk n) t h =
    unfold add_chunk in
    record { spender = h.spender; spender_type = h.spender_type; reports = h.reports }
handle_chunk-Anonymous r now (text_chunk s) t h =
    unfold add_chunk in
    record { spender = h.spender; spender_type = h.spender_type; reports = h.reports }
handle_chunk-Anonymous r now (tool_use_chunk id name input type) t h =
    unfold add_chunk in
    record { spender = h.spender; spender_type = h.spender_type; reports = h.reports }
handle_chunk-Anonymous r now (other_chunk s) t h =
    unfold add_chunk in
    record { spender = h.spender; spender_type = h.spender_type; reports = h.reports }
handle_chunk-Anonymous r now stop t h = on_tokens (has_tokens t.current_usage)
  where
    on_tokens : (b : Bool) → Anonymous (if b then submit r now t else t)
    on_tokens false = h
    on_tokens true =
        unfold submit fresh_usage new in
        record {
          spender = refl;
          spender_type = refl;
          reports = All-append _ t.submitted _ h.reports ((h.spender, h.spender_type), tt);
        }

log_sse_response_task-Anonymous :
    (r : Request) (cs : List (ℕ × SseChunk)) (t : SseTask)
    → Anonymous t
    → Anonymous (log_sse_response_task r cs t)
unfolding log_sse_response_task
log_sse_response_task-Anonymous r [] t h = h
log_sse_response_task-Anonymous r ((now, c) ∷ cs) t h =
    log_sse_response_task-Anonymous r cs _ (handle_chunk-Anonymous r now c t h)

-- No report of a streamed answer names a spender, whoever the request names and whatever the
-- chunks are: the usage that is submitted is the running one, which never gets the spender.
pub log_sse_response_task-spender :
    (r : Request) (cs : List (ℕ × SseChunk))
    → All
        (λ p. (p.usage.spender ≡ none) × (p.usage.spender_type ≡ none))
        (log_sse_response_task r cs (start_task r)).submitted
log_sse_response_task-spender r cs =
    (log_sse_response_task-Anonymous r cs (start_task r) (
      unfold start_task fresh_usage new in
      record { spender = refl; spender_type = refl; reports = tt })).reports

abbrev pub NotStop : ℕ × SseChunk → Type 0
NotStop (now, stop) = ⊥
NotStop (now, _) = Unit

-- The usage that the chunks of one message add up to: the last number of each kind of tokens, and
-- the last use of a tool.
unfoldable pub usage_of : List (ℕ × SseChunk) → UsageData → UsageData
unfolding add_chunk
usage_of [] u = u
usage_of ((now, c) ∷ cs) u = usage_of cs (add_chunk c u)

message_step :
    (r : Request) (now : ℕ) (c : SseChunk) (t : SseTask)
    → NotStop (now, c)
    → handle_chunk r now c t ≡ record t { current_usage = add_chunk c t.current_usage }
unfolding handle_chunk
message_step r now stop t h = absurd h
message_step r now (input_tokens_chunk n) t h = refl
message_step r now (output_tokens_chunk n) t h = refl
message_step r now (text_chunk s) t h = refl
message_step r now (tool_use_chunk id name input type) t h = refl
message_step r now (other_chunk s) t h = refl

-- One message, then the rest of the stream: a message with tokens is reported once, with the usage
-- that its chunks add up to, the time of its end and the ids of the request, and the rest is handled
-- as from a fresh usage; a message without tokens is not reported and its usage is carried over.
pub log_sse_response_task-message :
    (r : Request) (message : List (ℕ × SseChunk)) (now : ℕ) (rest : List (ℕ × SseChunk))
    (t : SseTask)
    → All NotStop message
    → let u = usage_of message t.current_usage in
      log_sse_response_task r (message ++ ((now, stop) ∷ rest)) t
      ≡ log_sse_response_task r rest (
          if has_tokens u
          then record {
            current_usage = fresh_usage r;
            final_usage_to_submit = u;
            submitted =
                t.submitted
                ++ (record {
                  usage = u;
                  timestamp = now;
                  linked_tool_use_id = r.linked_tool_use_id;
                  request_id = r.request_id;
                }
                    ∷ []);
          }
          else record t { current_usage = u })
unfolding log_sse_response_task usage_of
log_sse_response_task-message r [] now rest t h = unfold handle_chunk submit in refl
log_sse_response_task-message r ((at, c) ∷ message) now rest t h =
    rw (log_sse_response_task, message_step r at c t h.0)
      (log_sse_response_task-message r message now rest
        (record t { current_usage = add_chunk c t.current_usage }) h.1)
