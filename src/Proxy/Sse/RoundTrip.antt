-- ===== src/Proxy/Sse/RoundTrip.antt =====
-- What the parser makes of a stream of events, however it is cut into chunks.
use reveries_network.Common.{
  ℕ, ◌<◌, ◌≡◌, refl, sym, ap, ◌∙◌, false, Option, none, some, List, [], ◌∷◌, ◌++◌, append_assoc,
  append-nil, arith, length, nat_beq, All, All-append, String,
}
use reveries_network.Common.Text.{Text, trim, trim_start, trim_end, strip_prefix, is_whitespace}
use reveries_network.Types.{Bytes}
use reveries_network.Proxy.Usage.{SseChunk}
use reveries_network.Proxy.Parser.Events.{parse_data_part}
use reveries_network.Proxy.Sse.{
  take_event, process_chunk, process_chunk-none, drain_all-append, drain_events, drain_all,
  drain_all-some, drain_all-none, first_event, starts_with_newline,
}
use reveries_network.Proxy.Sse.Lines.{
  Readers, on_first_line, is_newline_first, lines, data_prefix, data_updates, line_updates,
  lines_updates, parse_sse_event_string, event_updates, parse_event,
}

-- the bytes of the chunks in one piece
abbrev pub joined : List Bytes → Bytes
joined [] = []
joined (b ∷ bs) = b ++ joined bs

-- The event of one line of data.
abbrev pub event_of : Text → Text
event_of text = data_prefix ++ ((32 ∷ text) ++ (10 ∷ 10 ∷ []))

abbrev pub events_of : List Text → Text
events_of [] = []
events_of (text ∷ texts) = event_of text ++ events_of texts

abbrev pub IsInLine : ℕ → Type 0
IsInLine c = (c < 128) × (nat_beq c 10 ≡ false) × (nat_beq c 13 ≡ false)

-- ASCII on one line, not empty, and with no white space at its ends
abbrev pub IsDataLine : Text → Type 0
IsDataLine [] = ⊥
IsDataLine (c ∷ s) = All IsInLine (c ∷ s) × (is_whitespace c ≡ false) × (trim_end (c ∷ s) ≡ c ∷ s)

-- UTF-8 reads ASCII as it is.
abbrev pub ReadsAscii : Readers → Type 0
ReadsAscii r = (s : Bytes) → All (λ c. c < 128) s → r.from_utf8 s ≡ some s

prefix-IsInLine : (text : Text) → All IsInLine text → All IsInLine (data_prefix ++ (32 ∷ text))
prefix-IsInLine text h =
    All-append IsInLine data_prefix (32 ∷ text)
      (
        (omega arith, refl, refl),
        (
          (omega arith, refl, refl),
          ((omega arith, refl, refl), ((omega arith, refl, refl), ((omega arith, refl, refl), tt))),
        ),
      )
      ((omega arith, refl, refl), h)

take_event-blank :
    (s rest : Bytes)
    → All IsInLine s
    → take_event (s ++ (10 ∷ 10 ∷ rest)) ≡ some (s ++ (10 ∷ 10 ∷ []), rest)
unfolding take_event first_event starts_with_newline
take_event-blank [] rest h = refl
take_event-blank (c ∷ s) rest h = rw (h.0.1, take_event-blank s rest h.1) refl

take_event-event_of :
    (text rest : Bytes)
    → IsDataLine text
    → take_event (event_of text ++ rest) ≡ some (event_of text, rest)
take_event-event_of [] rest h = absurd h
take_event-event_of (c ∷ s) rest h =
    ap take_event (append_assoc (data_prefix ++ (32 ∷ c ∷ s)) (10 ∷ 10 ∷ []) rest)
    ∙ take_event-blank (data_prefix ++ (32 ∷ c ∷ s)) rest (prefix-IsInLine (c ∷ s) h.0)

lines-blank :
    (c : ℕ) (s : Text)
    → All IsInLine (c ∷ s)
    → lines (c ∷ (s ++ (10 ∷ 10 ∷ []))) ≡ (c ∷ s) ∷ [] ∷ []
unfolding lines on_first_line is_newline_first
lines-blank c [] h = rw (h.0.1, h.0.2) refl
lines-blank c (d ∷ s) h = rw (h.0.1, h.0.2, lines-blank d s h.1) refl

in_line-ascii : (s : Text) → All IsInLine s → All (λ c. c < 128) (s ++ (10 ∷ 10 ∷ []))
in_line-ascii [] h = (omega arith, (omega arith, tt))
in_line-ascii (c ∷ s) h = (h.0.0, in_line-ascii s h.1)

module _ (r : Readers) (url : Option String) where
  data_updates-trim :
      (text : Text)
      → IsDataLine text
      → line_updates r url (some (32 ∷ text)) ≡ parse_data_part r.codecs url (r.from_str text)
  unfolding line_updates trim trim_end trim_start data_updates is_whitespace
  data_updates-trim [] h = absurd h
  data_updates-trim (c ∷ s) h = rw (h.2, h.1) refl

  parse_event-event_of :
      ReadsAscii r
      → (text : Text) → IsDataLine text
      → parse_event r url (event_of text) ≡ parse_data_part r.codecs url (r.from_str text)
  unfolding parse_event event_updates parse_sse_event_string lines_updates strip_prefix
  parse_event-event_of reads [] h = absurd h
  parse_event-event_of reads (c ∷ s) h =
      let inside = prefix-IsInLine (c ∷ s) h.0 in
      rw
        (
          reads (event_of (c ∷ s)) (in_line-ascii (data_prefix ++ (32 ∷ c ∷ s)) inside),
          lines-blank 100 (97 ∷ 116 ∷ 97 ∷ 58 ∷ 32 ∷ c ∷ s) inside,
          data_updates-trim (c ∷ s) h,
        )
        (append-nil (parse_data_part r.codecs url (r.from_str (c ∷ s))))

  -- the updates of the lines, in order
  unfoldable pub updates_of : List Text → List SseChunk
  updates_of [] = []
  updates_of (text ∷ texts) = parse_data_part r.codecs url (r.from_str text) ++ updates_of texts

  unfoldable pub process_chunks : List Bytes → Bytes → List SseChunk × Bytes
  unfolding process_chunk
  process_chunks [] buffer = ([], buffer)
  process_chunks (chunk ∷ chunks) buffer =
      let first = process_chunk (parse_event r url) chunk buffer in
      let later = process_chunks chunks first.1 in (first.0 ++ later.0, later.1)

  drain_all-events_of :
      ReadsAscii r
      → (texts : List Text) → All IsDataLine texts
      → drain_all (parse_event r url) (events_of texts) ≡ (updates_of texts, [])
  unfolding drain_events updates_of
  drain_all-events_of reads [] h = refl
  drain_all-events_of reads (text ∷ texts) h =
      rw
        (
          drain_all-some (parse_event r url) (events_of (text ∷ texts)) (event_of text)
              (events_of texts) (take_event-event_of text (events_of texts) h.0),
          parse_event-event_of reads text h.0,
          drain_all-events_of reads texts h.1,
        )
        refl

  process_chunks-joined :
      (chunks : List Bytes) (buffer : Bytes)
      → take_event buffer ≡ none
      → process_chunks chunks buffer ≡ drain_all (parse_event r url) (buffer ++ joined chunks)
  unfolding process_chunks process_chunk
  process_chunks-joined [] buffer quiet =
      rw (append-nil buffer) (sym (drain_all-none (parse_event r url) buffer quiet))
  process_chunks-joined (chunk ∷ chunks) buffer quiet =
      let first = process_chunk (parse_event r url) chunk buffer in
      rw
        (
          process_chunks-joined chunks first.1
              (process_chunk-none (parse_event r url) buffer chunk),
          ← append_assoc buffer chunk (joined chunks),
          drain_all-append (parse_event r url) (length (buffer ++ chunk)) (buffer ++ chunk)
              (joined chunks) (omega arith),
        )
        refl

  -- A stream of events of one line of data each, however it is cut into chunks, yields what the parser
  -- of the provider makes of the lines, in order, and leaves nothing in the buffer. The lines are ASCII,
  -- not empty, with no line break in them and no white space at their ends.
  pub process_chunks-events_of :
      ReadsAscii r
      → (texts : List Text) (chunks : List Bytes) → All IsDataLine texts
      → joined chunks ≡ events_of texts
      → process_chunks chunks [] ≡ (updates_of texts, [])
  unfolding take_event
  process_chunks-events_of reads texts chunks h cut =
      process_chunks-joined chunks [] refl
      ∙ ap (drain_all (parse_event r url)) cut
      ∙ drain_all-events_of reads texts h
