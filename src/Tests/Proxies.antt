-- ===== src/Tests/Proxies.antt =====
-- The proxy's bodies and the calls to it at concrete inputs.
use reveries_network.Common.{
  ◌≡◌, refl, none, some, List, [], ◌∷◌, ◌++◌, map, All, arith, String, ℕ, nat_beq, if◌then◌else◌,
}
use reveries_network.Common.Text
use reveries_network.Common.Text.{Text}
use reveries_network.Types.{Bytes}
use reveries_network.Proxy.Usage.{SseChunk, text_chunk}
use reveries_network.Proxy.Json.{
  Json, Fields, object, field, end, text, u64, then_str, get, then_u64, then_get,
}
use reveries_network.Proxy.Parser.Effects.{input_told, output_told, last_told}
use reveries_network.Proxy.Parser.Regular.{log_regular_response_task, report_body}
use reveries_network.Proxy.Sse.Lines.{Readers}
use reveries_network.Proxy.Sse.RoundTrip.{
  event_of, IsDataLine, ReadsAscii, updates_of, process_chunks, process_chunks-events_of,
}
use reveries_network.Proxy.TeeBody.{
  data_frame, error, ended, Tee, Act, poll, recv, run, new, on_data, on_sse_data, same_error,
  io_error,
}
use reveries_network.Proxy.TeeBody.Complete.{run-log_regular_response_task}
use reveries_network.Proxy.TeeBody.Metered.{parse}
use reveries_network.Tests.Answers.{codecs, asked}

-- one update for each event
abbrev lengths : Bytes → List SseChunk
lengths e = text_chunk "" ∷ []

abbrev broken_off : List (Act String)
broken_off = poll (data_frame (123 ∷ [])) ∷ recv ∷ poll (error "reset") ∷ []

broken_off-queue : (run same_error on_data broken_off (new (record {}))).queue ≡ []
unfolding run new on_data
broken_off-queue = refl

run-log_regular_response_task_example :
    log_regular_response_task codecs none
      (some "api.anthropic.com")
      asked
      5
      (run same_error on_data broken_off (new (record {}))).received
    ≡ report_body codecs none (some "api.anthropic.com") asked 5 (some (123 ∷ []))
run-log_regular_response_task_example =
    run-log_regular_response_task codecs none (some "api.anthropic.com") asked 5 broken_off
      (tt, (tt, (tt, tt))) (omega arith) broken_off-queue

-- a digit for each event
abbrev lines : List Text
lines = (49 ∷ []) ∷ (50 ∷ []) ∷ (51 ∷ []) ∷ (52 ∷ []) ∷ []

abbrev typed : String → Fields → Json
typed type fields = object (field "type" (text type) fields)

abbrev message_start : Json
message_start = typed "message_start" (
    field "message"
      (object (
        field "id" (text "msg_1") (field "usage" (object (field "input_tokens" (u64 12) end)) end)))
      end)

abbrev message_delta : Json
message_delta =
    typed "message_delta" (field "usage" (object (field "output_tokens" (u64 7) end)) end)

abbrev numbered : ℕ → Json
numbered n =
    if nat_beq n 49
    then message_start
    else if nat_beq n 50
    then typed "ping" end
    else if nat_beq n 51
    then message_delta
    else typed "message_stop" end

abbrev event_named : Text → Json
event_named [] = typed "ping" end
event_named (n ∷ s) = numbered n

abbrev readers : Readers
readers = record { codecs = codecs; from_utf8 = λ s. some s; from_str = λ s. some (event_named s) }

readers-ReadsAscii : ReadsAscii readers
readers-ReadsAscii s h = refl

lines-IsDataLine : All IsDataLine lines
unfolding Text.is_whitespace Text.trim_end Text.trimmed_before
lines-IsDataLine = (
  (((omega arith, refl, refl), tt), refl, refl),
  (
    (((omega arith, refl, refl), tt), refl, refl),
    (
      (((omega arith, refl, refl), tt), refl, refl),
      ((((omega arith, refl, refl), tt), refl, refl), tt),
    ),
  ),
)

abbrev framed : List Bytes
framed =
    (event_of (49 ∷ []) ++ (100 ∷ 97 ∷ []))
    ∷ (116 ∷ 97 ∷ 58 ∷ 32 ∷ 50 ∷ 10 ∷ [])
    ∷ (10 ∷ (event_of (51 ∷ []) ++ event_of (52 ∷ [])))
    ∷ []

process_chunks-events_of_example :
    process_chunks readers (some "api.anthropic.com") framed []
    ≡ (updates_of readers (some "api.anthropic.com") lines, [])
process_chunks-events_of_example =
    process_chunks-events_of readers (some "api.anthropic.com") readers-ReadsAscii lines framed
      lines-IsDataLine refl

abbrev streaming : List (Act String)
streaming =
    map (λ b. poll (data_frame b)) framed
    ++ (poll ended ∷ recv ∷ recv ∷ recv ∷ recv ∷ recv ∷ recv ∷ [])

abbrev body_run : Tee String Bytes SseChunk
body_run =
    run (io_error (λ e. e) (λ e. e)) (on_sse_data (parse readers "api.anthropic.com")) streaming
      (new [])

streamed_tokens :
    (last_told input_told (message_start ∷ typed "ping" end ∷ message_delta ∷ []) 0 ≡ 12)
    × (last_told output_told (message_start ∷ typed "ping" end ∷ message_delta ∷ []) 0 ≡ 7)
unfolding then_str get then_u64 then_get
streamed_tokens = (refl, refl)
