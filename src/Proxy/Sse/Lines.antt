-- ===== src/Proxy/Sse/Lines.antt =====
-- parser/sse_parser.rs: the lines of one event, `parse_sse_event_string`.
use reveries_network.Common.{
  ℕ, Bool, false, ◌&&◌, Option, none, some, String, List, [], ◌∷◌, ◌++◌, nat_beq, if◌then◌else◌,
}
use reveries_network.Common.Text.{Text, trim, strip_prefix}
use reveries_network.Types.{Bytes}
use reveries_network.Proxy.Usage.{SseChunk}
use reveries_network.Proxy.Json.{Json}
use reveries_network.Proxy.Parser.Regular.{Codecs}
use reveries_network.Proxy.Parser.Events.{parse_data_part}

-- What `String::from_utf8` and serde_json make of bytes and of a text.
pub record Readers : Type 0 where
  pub codecs : Codecs
  pub from_utf8 : Bytes → Option Text
  pub from_str : Text → Option Json

unfoldable pub on_first_line : ℕ → List Text → List Text
on_first_line c [] = (c ∷ []) ∷ []
on_first_line c (line ∷ rest) = (c ∷ line) ∷ rest

unfoldable pub is_newline_first : Text → Bool
is_newline_first [] = false
is_newline_first (c ∷ s) = nat_beq c 10

-- `lines()`: a line ends with a newline, or a carriage return and a newline, or the text.
unfoldable pub lines : Text → List Text
unfolding on_first_line is_newline_first
lines [] = []
lines (c ∷ s) =
    let rest = lines s in
    if nat_beq c 10
    then [] ∷ rest
    else if nat_beq c 13 && is_newline_first s
    then rest
    else on_first_line c rest

-- `data:`
abbrev pub data_prefix : Text
data_prefix = 100 ∷ 97 ∷ 116 ∷ 97 ∷ 58 ∷ []

unfoldable pub data_updates : Readers → Option String → Text → List SseChunk
data_updates r url [] = []
data_updates r url (c ∷ s) = parse_data_part r.codecs url (r.from_str (c ∷ s))

unfoldable pub line_updates : Readers → Option String → Option Text → List SseChunk
unfolding data_updates trim
line_updates r url none = []
line_updates r url (some rest) = data_updates r url (trim rest)

unfoldable pub lines_updates : Readers → Option String → List Text → List SseChunk
unfolding line_updates strip_prefix
lines_updates r url [] = []
lines_updates r url (line ∷ rest) =
    line_updates r url (strip_prefix data_prefix line) ++ lines_updates r url rest

unfoldable pub parse_sse_event_string : Readers → Option String → Text → List SseChunk
unfolding lines_updates lines
parse_sse_event_string r url event = lines_updates r url (lines event)

unfoldable pub event_updates : Readers → Option String → Option Text → List SseChunk
unfolding parse_sse_event_string
event_updates r url none = []
event_updates r url (some event) = parse_sse_event_string r url event

-- The loop's body in `process_chunk`: what is not UTF-8 is left out.
unfoldable pub parse_event : Readers → Option String → Bytes → List SseChunk
unfolding event_updates
parse_event r url event_data = event_updates r url (r.from_utf8 event_data)
