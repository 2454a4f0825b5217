-- ===== src/Proxy/Parser/Effects.antt =====
-- What the events of a streamed answer of Anthropic tell of its usage, and what the parser's updates
-- make of them.
use reveries_network.Common.{
  ℕ, ◌≡◌, refl, sym, subst, ap, ◌∙◌, Bool, true, false, String, Option, none, some, List, [], ◌∷◌,
  ◌++◌, append_assoc, map, All, All-append, if◌then◌else◌, ◌==◌, ==_iff, string_eq, Bool-cases,
  Option-cases, inl, inr, is_some, ◌&&◌,
}
use reveries_network.Proxy.Usage.{SseChunk, ToolUse, UsageData, NotStop, usage_of, add_chunk}
use reveries_network.Proxy.Json.{
  Json, get, then_u64, then_str, then_get, is_text, value_or_null, or_unknown,
}
use reveries_network.Proxy.Parser.{
  TextOf, event_chunks, tokens_or_other, text_or_other, block_start, typed_chunks,
  parse_sse_data_line,
}

abbrev pub has_type : String → Json → Bool
has_type type e = is_text (then_str (get "type" e)) type

abbrev or_before : Option ℕ → ℕ → ℕ
or_before none before = before
or_before (some n) before = n

-- the number of input tokens after an event: the start of a message tells it
abbrev pub input_told : Json → ℕ → ℕ
input_told e before =
    if has_type "message_start" e
    then or_before (then_u64 (then_get "input_tokens" (then_get "usage" (get "message" e)))) before
    else before

-- the number of output tokens after an event: the delta of a message tells it
abbrev pub output_told : Json → ℕ → ℕ
output_told e before =
    if has_type "message_delta" e
    then or_before (then_u64 (then_get "output_tokens" (get "usage" e))) before
    else before

-- the use of a tool in an event that starts a block, where there is one
abbrev block_told : TextOf → Json → Option ToolUse → Option ToolUse
block_told text_of e before =
    let block = value_or_null (get "content_block" e) in
    if is_some (then_u64 (get "index" e))
      && is_text (then_str (then_get "type" (get "content_block" e))) "tool_use"
    then some (record {
      id = or_unknown (then_str (get "id" block));
      name = or_unknown (then_str (get "name" block));
      input = text_of (value_or_null (get "input" block));
      tool_type = "tool_use";
    })
    else before

-- the use of a tool after an event: the start of a block of the content tells it
abbrev pub tool_told : TextOf → Json → Option ToolUse → Option ToolUse
tool_told text_of e before =
    if has_type "content_block_start" e then block_told text_of e before else before

abbrev pub last_told : {A : Type 0} → (Json → A → A) → List Json → A → A
last_told told [] before = before
last_told told (e ∷ es) before = last_told told es (told e before)

-- the updates of an event, each handled at the time `now`
abbrev pub at : ℕ → List SseChunk → List (ℕ × SseChunk)
at now cs = map (λ c. (now, c)) cs

-- The updates end no message, and leave a usage with these numbers and this use of a tool.
pub record Leaves (cs : List (ℕ × SseChunk)) (u : UsageData) (input output : ℕ)
    (tool : Option ToolUse) : Type 0 where
  pub goes_on : All NotStop cs
  pub leaves :
      usage_of cs u ≡ record u { input_tokens = input; output_tokens = output; tool_use = tool }

module _ (text_of : TextOf) (e : Json) (now : ℕ) (u : UsageData) where
  abbrev Typed : String → Type 0
  Typed type =
      Leaves (at now (event_chunks text_of e type)) u
        (if type == "message_start"
          then or_before (then_u64 (then_get "input_tokens" (then_get "usage" (get "message" e))))
              u.input_tokens
          else u.input_tokens)
        (if type == "message_delta"
          then or_before (then_u64 (then_get "output_tokens" (get "usage" e))) u.output_tokens
          else u.output_tokens)
        (if type == "content_block_start" then block_told text_of e u.tool_use else u.tool_use)

  start : Typed "message_start"
  unfolding event_chunks tokens_or_other usage_of add_chunk
  start =
      elim (Option-cases
        (then_u64 (then_get "input_tokens" (then_get "usage" (get "message" e))))) [
          | inl no_number ↦ rw no_number (record { goes_on = (tt, tt); leaves = refl })
          | inr (n, number) ↦ rw number (record { goes_on = (tt, tt); leaves = refl })
        ]

  delta : Typed "message_delta"
  unfolding event_chunks tokens_or_other usage_of add_chunk
  delta = elim (Option-cases (then_u64 (then_get "output_tokens" (get "usage" e)))) [
    | inl no_number ↦ rw no_number (record { goes_on = (tt, tt); leaves = refl })
    | inr (n, number) ↦ rw number (record { goes_on = (tt, tt); leaves = refl })
  ]

  text_delta : Typed "content_block_delta"
  unfolding event_chunks text_or_other usage_of add_chunk
  text_delta = elim (Option-cases (then_str (then_get "text" (get "delta" e)))) [
    | inl no_text ↦ rw no_text (record { goes_on = (tt, tt); leaves = refl })
    | inr (s, is) ↦ rw is (record { goes_on = (tt, tt); leaves = refl })
  ]

  block : Typed "content_block_start"
  unfolding event_chunks block_start usage_of add_chunk
  block = elim (Option-cases (then_u64 (get "index" e))) [
    | inl no_index ↦ rw no_index (record { goes_on = (tt, tt); leaves = refl })
    | inr (i, index) ↦
        elim (Bool-cases
          (is_text (then_str (then_get "type" (get "content_block" e))) "tool_use")) [
            | inl uses ↦
                rw (index, block_start, uses) (record { goes_on = (tt, tt); leaves = refl })
            | inr other ↦ rw (index, block_start, other) (record { goes_on = tt; leaves = refl })
          ]
  ]

  event_chunks-Leaves : (type : String) → (type == "message_stop") ≡ false → Typed type
  event_chunks-Leaves type goes_on = elim (Bool-cases (type == "message_start")) [
    | inl is ↦ subst Typed (sym ((==_iff type "message_start").0 is)) start
    | inr no_start ↦ elim (Bool-cases (type == "content_block_delta")) [
      | inl is ↦ subst Typed (sym ((==_iff type "content_block_delta").0 is)) text_delta
      | inr no_text ↦ elim (Bool-cases (type == "content_block_start")) [
        | inl is ↦ subst Typed (sym ((==_iff type "content_block_start").0 is)) block
        | inr no_block ↦ elim (Bool-cases (type == "message_delta")) [
          | inl is ↦ subst Typed (sym ((==_iff type "message_delta").0 is)) delta
          | inr no_delta ↦
              unfold event_chunks usage_of add_chunk in
              rw (no_start, no_text, no_block, no_delta, goes_on)
                (record { goes_on = (tt, tt); leaves = refl })
        ]
      ]
    ]
  ]

  pub parse_sse_data_line-Leaves :
      has_type "message_stop" e ≡ false
      → Leaves
          (at now (parse_sse_data_line text_of (some e)))
          u
          (input_told e u.input_tokens)
          (output_told e u.output_tokens)
          (tool_told text_of e u.tool_use)
  unfolding parse_sse_data_line typed_chunks
  parse_sse_data_line-Leaves goes_on = elim (Option-cases (then_str (get "type" e))) [
    | inl no_type ↦
        rw (no_type, typed_chunks)
          (unfold usage_of add_chunk in record { goes_on = (tt, tt); leaves = refl })
    | inr (type, is) ↦
        let on : is_text (some type) "message_stop" ≡ false =
          sym (ap (λ o. is_text o "message_stop") is) ∙ goes_on in
        rw (is, typed_chunks) (event_chunks-Leaves type on)
  ]

-- the updates of the events of one message
abbrev pub updates : TextOf → ℕ → List Json → List (ℕ × SseChunk)
updates text_of now [] = []
updates text_of now (e ∷ es) =
    at now (parse_sse_data_line text_of (some e)) ++ updates text_of now es

usage_of-append :
    (xs ys : List (ℕ × SseChunk)) (u : UsageData)
    → usage_of (xs ++ ys) u ≡ usage_of ys (usage_of xs u)
unfolding usage_of
usage_of-append [] ys u = refl
usage_of-append (x ∷ xs) ys u = usage_of-append xs ys (add_chunk x.1 u)

pub updates-Leaves :
    (text_of : TextOf) (now : ℕ) (es : List Json) (u : UsageData)
    → All (λ e. has_type "message_stop" e ≡ false) es
    → Leaves
        (updates text_of now es)
        u
        (last_told input_told es u.input_tokens)
        (last_told output_told es u.output_tokens)
        (last_told (tool_told text_of) es u.tool_use)
updates-Leaves text_of now [] u goes_on = record { goes_on = tt; leaves = unfold usage_of in refl }
updates-Leaves text_of now (e ∷ es) u goes_on =
    let one = parse_sse_data_line-Leaves text_of e now u goes_on.0 in
    let after : UsageData = record u {
      input_tokens = input_told e u.input_tokens;
      output_tokens = output_told e u.output_tokens;
      tool_use = tool_told text_of e u.tool_use;
    } in
    let rest = updates-Leaves text_of now es after goes_on.1 in
    let first = at now (parse_sse_data_line text_of (some e)) in
    record {
      goes_on = All-append NotStop first (updates text_of now es) one.goes_on rest.goes_on;
      leaves =
          usage_of-append first (updates text_of now es) u
          ∙ ap (usage_of (updates text_of now es)) one.leaves
          ∙ rest.leaves;
    }

pub stop_chunks :
    (text_of : TextOf) (e : Json)
    → has_type "message_stop" e ≡ true
    → parse_sse_data_line text_of (some e) ≡ SseChunk.stop ∷ []
unfolding parse_sse_data_line typed_chunks event_chunks
stop_chunks text_of e h = elim (Option-cases (then_str (get "type" e))) [
  | inl no_type ↦
      let never : false ≡ true = sym (ap (λ o. is_text o "message_stop") no_type) ∙ h in cc
  | inr (type, is) ↦
      let ends : (type == "message_stop") ≡ true =
        sym (ap (λ o. is_text o "message_stop") is) ∙ h in
      rw (is, typed_chunks)
        (subst (λ t. event_chunks text_of e t ≡ SseChunk.stop ∷ [])
          (sym ((==_iff type "message_stop").0 ends)) refl)
]

pub updates-stop :
    (text_of : TextOf) (now : ℕ) (es : List Json) (last : Json)
    → has_type "message_stop" last ≡ true
    → updates text_of now (es ++ (last ∷ []))
      ≡ updates text_of now es ++ ((now, SseChunk.stop) ∷ [])
updates-stop text_of now [] last h = rw (stop_chunks text_of last h) refl
updates-stop text_of now (e ∷ es) last h =
    ap (λ cs. at now (parse_sse_data_line text_of (some e)) ++ cs)
      (updates-stop text_of now es last h)
    ∙ sym (
        append_assoc (at now (parse_sse_data_line text_of (some e))) (updates text_of now es)
          ((now, SseChunk.stop) ∷ []))
