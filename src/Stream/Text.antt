-- ===== src/Stream/Text.antt =====
-- The text in what the pump of server/internal/relay/stream.go sends, step by step.
use hhrouter.Base.{
  Bool, true, false, ◌&&◌, not, Option, none, some, List, [], ◌∷◌, ◌++◌, if◌then◌else◌, ◌≡◌, refl,
  sym, ap, ◌∙◌, ◌⊎◌, inl, inr, arith, Bool-cases, append-nil, append_assoc,
}
use hhrouter.Base.Int.{ℤ, pos, ltb_ℤ}
use hhrouter.Base.Text.{Bytes, bytes_eq, bytes_eq→eq}
use hhrouter.Adapter.{ToolCallDelta, StreamChunk, is_some}
use hhrouter.Stream.Events.{
  AnthropicEvent, message_start, text_block_start, tool_block_start, text_delta, input_json_delta,
  content_block_stop, message_delta, message_stop, OpenAiChoice, OpenAiChunk, openai_usage_of,
  WireEvent, anthropic, openai_chunk, openai_done, bedrock, verbatim, BedrockEvent,
  bedrock_message_start, bedrock_block_start, bedrock_block_delta, bedrock_block_stop,
  bedrock_message_stop, bedrock_metadata, given, has_content, openai_choice,
  build_openai_stream_chunk, build_bedrock_stream_event,
}
use hhrouter.Stream.Pump.{
  Pump, write, write_anthropic, emit_anthropic_prelude, open_text_block, open_anthropic_text,
  close_anth_tool_block, close_text_block, tool_block_index, start_tool_block, open_tool_block,
  write_arguments, write_text, emit_anthropic_parts, emit_bedrock_prelude, write_openai,
  write_bedrock,
}

abbrev pub anthropic_text : AnthropicEvent → Bytes
anthropic_text (text_delta i s) = s
anthropic_text (message_start model) = []
anthropic_text (text_block_start i) = []
anthropic_text (tool_block_start i id name) = []
anthropic_text (input_json_delta i s) = []
anthropic_text (content_block_stop i) = []
anthropic_text (message_delta reason usage) = []
anthropic_text message_stop = []

abbrev pub content_of : Option Bytes → Bytes
content_of none = []
content_of (some s) = s

abbrev pub choices_text : List OpenAiChoice → Bytes
choices_text [] = []
choices_text (c ∷ cs) = content_of c.content ++ choices_text cs

abbrev pub bedrock_text : BedrockEvent → Bytes
bedrock_text (bedrock_block_delta s) = s
bedrock_text bedrock_message_start = []
bedrock_text bedrock_block_start = []
bedrock_text bedrock_block_stop = []
bedrock_text (bedrock_message_stop reason) = []
bedrock_text (bedrock_metadata usage) = []

abbrev pub event_text : WireEvent → Bytes
event_text (anthropic e) = anthropic_text e
event_text (openai_chunk c) = choices_text c.choices
event_text openai_done = []
event_text (bedrock e) = bedrock_text e
event_text (verbatim name payload) = []

-- The text that a client puts together from what it is sent.
unfoldable pub sent_text : List WireEvent → Bytes
sent_text [] = []
sent_text (e ∷ es) = event_text e ++ sent_text es

sent_text_last :
    (es : List WireEvent) (e : WireEvent)
    → sent_text (es ++ (e ∷ [])) ≡ sent_text es ++ event_text e
unfolding sent_text
sent_text_last [] e = append-nil (event_text e)
sent_text_last (d ∷ es) e =
    rw (sent_text_last es e) (sym (append_assoc (event_text d) (sent_text es) (event_text e)))

-- One step sends this text, and the one that is kept stays.
abbrev pub Says : Pump → Bytes → Pump → Type 0
Says st s st' = (sent_text st'.out ≡ sent_text st.out ++ s) × (st'.completion ≡ st.completion)

abbrev pub Quiet : Pump → Pump → Type 0
Quiet st st' = (sent_text st'.out ≡ sent_text st.out) × (st'.completion ≡ st.completion)

write-Says : (e : WireEvent) (st : Pump) → Says st (event_text e) (write e st)
write-Says e st = (sent_text_last st.out e, refl)

pub write-Quiet : (e : WireEvent) (st : Pump) → event_text e ≡ [] → Quiet st (write e st)
write-Quiet e st h = (sent_text_last st.out e ∙ rw h (append-nil (sent_text st.out)), refl)

pub then-Quiet : (st st₁ st₂ : Pump) → Quiet st st₁ → Quiet st₁ st₂ → Quiet st st₂
then-Quiet st st₁ st₂ h k = (k.0 ∙ h.0, k.1 ∙ h.1)

then-Says : (st st₁ st₂ : Pump) (s : Bytes) → Quiet st st₁ → Says st₁ s st₂ → Says st s st₂
then-Says st st₁ st₂ s h k = (k.0 ∙ rw h.0 refl, k.1 ∙ h.1)

pub then_write :
    (e : WireEvent) (st st₁ : Pump) → event_text e ≡ [] → Quiet st st₁ → Quiet st (write e st₁)
then_write e st st₁ h k = then-Quiet st st₁ (write e st₁) k (write-Quiet e st₁ h)

Quiet-if :
    (b : Bool) (st st₁ st₂ : Pump) → Quiet st st₁ → Quiet st st₂ → Quiet st (if b then st₁ else st₂)
Quiet-if true st st₁ st₂ h k = h
Quiet-if false st st₁ st₂ h k = k

same : (st : Pump) → Quiet st st
same st = (refl, refl)

pub emit_anthropic_prelude-Quiet :
    (model : Bytes) (st : Pump) → Quiet st (emit_anthropic_prelude model st)
unfolding emit_anthropic_prelude
emit_anthropic_prelude-Quiet model st =
    Quiet-if st.anth_opened st _ _ (same st)
      (write-Quiet (anthropic (message_start model)) (record st { anth_opened = true }) refl)

open_text_block-Quiet : (st : Pump) → Quiet st (open_text_block st)
unfolding open_text_block
open_text_block-Quiet st =
    Quiet-if st.anth_text_open st _ _ (same st) (
      write-Quiet (anthropic (text_block_start (pos 0))) (record st { anth_text_open = true }) refl)

close_text_block-Quiet : (st : Pump) → Quiet st (close_text_block st)
unfolding close_text_block
close_text_block-Quiet st =
    Quiet-if st.anth_text_open st _ _
      (write-Quiet (anthropic (content_block_stop (pos 0))) (record st { anth_text_open = false })
        refl)
      (same st)

close_anth_tool_block-Quiet : (st : Pump) → Quiet st (close_anth_tool_block st)
unfolding close_anth_tool_block
close_anth_tool_block-Quiet st =
    Quiet-if (ltb_ℤ (pos 0) st.anth_tool_idx) st _ _
      (write-Quiet (anthropic (content_block_stop st.anth_tool_idx))
        (record st { anth_tool_idx = pos 0 }) refl)
      (same st)

pub close_blocks-Quiet : (st : Pump) → Quiet st (close_text_block (close_anth_tool_block st))
close_blocks-Quiet st =
    let closed : Pump = close_anth_tool_block st in
    then-Quiet st closed (close_text_block closed) (close_anth_tool_block-Quiet st)
      (close_text_block-Quiet closed)

start_tool_block-Quiet : (tc : ToolCallDelta) (st : Pump) → Quiet st (start_tool_block tc st)
unfolding start_tool_block
start_tool_block-Quiet tc st =
    let index : ℤ = tool_block_index tc.index in
    write-Quiet (anthropic (tool_block_start index tc.id tc.name))
      (record st { anth_tool_idx = index }) refl

open_tool_block-Quiet : (tc : ToolCallDelta) (st : Pump) → Quiet st (open_tool_block tc st)
unfolding open_tool_block
open_tool_block-Quiet tc st =
    let ready : Pump = close_text_block (close_anth_tool_block st) in
    Quiet-if (bytes_eq tc.name []) st st (start_tool_block tc ready) (same st) (
      then-Quiet st ready (start_tool_block tc ready) (close_blocks-Quiet st)
        (start_tool_block-Quiet tc ready))

write_arguments-Quiet : (tc : ToolCallDelta) (st : Pump) → Quiet st (write_arguments tc st)
unfolding write_arguments
write_arguments-Quiet tc st =
    Quiet-if (not (bytes_eq tc.args_fragment []) && ltb_ℤ (pos 0) st.anth_tool_idx) st _ _
      (write-Quiet (anthropic (input_json_delta st.anth_tool_idx tc.args_fragment)) st refl)
      (same st)

Quiet→Says : (st st' : Pump) (s : Bytes) → s ≡ [] → Quiet st st' → Says st s st'
Quiet→Says st st' s e h = (h.0 ∙ rw e (sym (append-nil (sent_text st.out))), h.1)

pub emit_bedrock_prelude-Quiet : (st : Pump) → Quiet st (emit_bedrock_prelude st)
unfolding emit_bedrock_prelude
emit_bedrock_prelude-Quiet st =
    let on : Pump = record st { bedrock_opened = true } in
    let greeted : Pump = write (bedrock bedrock_message_start) on in
    Quiet-if st.bedrock_opened st st (write (bedrock bedrock_block_start) greeted) (same st) (
      then-Quiet st greeted (write (bedrock bedrock_block_start) greeted)
        (write-Quiet (bedrock bedrock_message_start) on refl)
        (write-Quiet (bedrock bedrock_block_start) greeted refl))

empty : (s : Bytes) → bytes_eq s [] ≡ true → s ≡ []
empty s h = bytes_eq→eq s [] h

nothing : (s : Bytes) (st : Pump) → s ≡ [] → Says st s st
nothing s st h = rw h (sym (append-nil (sent_text st.out)), refl)

pub write_text-Says : (model delta : Bytes) (st : Pump) → Says st delta (write_text model delta st)
unfolding write_text open_anthropic_text
write_text-Says model delta st = elim (Bool-cases (bytes_eq delta [])) [
  | inl e ↦ rw e (nothing delta st (empty delta e))
  | inr e ↦
      let started : Pump = emit_anthropic_prelude model st in
      let ready : Pump = open_text_block started in
      rw e (
        then-Says st ready (write_anthropic (text_delta (pos 0) delta) ready) delta
          (then-Quiet st started ready (emit_anthropic_prelude-Quiet model st)
            (open_text_block-Quiet started))
          (write-Says (anthropic (text_delta (pos 0) delta)) ready))
]

pub emit_anthropic_parts-Says :
    (model : Bytes) (tc : Option ToolCallDelta) (delta : Bytes) (st : Pump)
    → (tc ≡ none) ⊎ (delta ≡ [])
    → Says st delta (emit_anthropic_parts model tc delta st)
emit_anthropic_parts-Says model none delta st h = write_text-Says model delta st
emit_anthropic_parts-Says model (some tc) delta st (inl h) = cc
emit_anthropic_parts-Says model (some tc) delta st (inr h) =
    let started : Pump = emit_anthropic_prelude model st in
    let ready : Pump = open_tool_block tc started in
    Quiet→Says st (write_arguments tc ready) delta h (
      then-Quiet st ready (write_arguments tc ready)
        (then-Quiet st started ready (emit_anthropic_prelude-Quiet model st)
          (open_tool_block-Quiet tc started))
        (write_arguments-Quiet tc ready))

content_of-given : (s : Bytes) → content_of (given s) ≡ s
unfolding given bytes_eq
content_of-given [] = refl
content_of-given (c ∷ s) = refl

no_content : (c : StreamChunk) → has_content c ≡ false → c.delta ≡ []
unfolding has_content
no_content c h = empty c.delta (ground arith)

write_openai-Quiet :
    (o : Option OpenAiChunk) (st : Pump)
    → ((c : OpenAiChunk) → o ≡ some c → choices_text c.choices ≡ [])
    → Quiet st (write_openai o st)
write_openai-Quiet none st h = same st
write_openai-Quiet (some c) st h = write-Quiet (openai_chunk c) st (h c refl)

openai_chunk_full :
    (model : Bytes) (c : StreamChunk)
    → has_content c ≡ true
    → build_openai_stream_chunk model c
      ≡ some (record {
        model = model;
        choices = openai_choice c ∷ [];
        usage = openai_usage_of c.usage;
      })
unfolding build_openai_stream_chunk
openai_chunk_full model c full = elim (Bool-cases c.done) [
  | inl e ↦ rw (full, e) refl
  | inr e ↦ rw (full, e) refl
]

chunk_text : Option OpenAiChunk → Bytes
chunk_text none = []
chunk_text (some c) = choices_text c.choices

openai_chunk_bare :
    (model : Bytes) (c : StreamChunk)
    → has_content c ≡ false
    → (built : OpenAiChunk) → build_openai_stream_chunk model c ≡ some built
    → choices_text built.choices ≡ []
unfolding build_openai_stream_chunk chunk_text
openai_chunk_bare model c bare built h =
    elim (Bool-cases (c.done && not (has_content c) && not (is_some c.usage))) [
      | inl e ↦ cc (rw e at h)
      | inr e ↦ some_bare (rw (e, bare) at h)
    ]
  where
    some_bare :
        some (record { model = model; choices = []; usage = openai_usage_of c.usage }) ≡ some built
        → choices_text built.choices ≡ []
    some_bare eq = sym (ap chunk_text eq)

openai_choice_text : (c : StreamChunk) → choices_text (openai_choice c ∷ []) ≡ c.delta
unfolding openai_choice
openai_choice_text c = append-nil (content_of (given c.delta)) ∙ content_of-given c.delta

pub write_openai-Says :
    (model : Bytes) (c : StreamChunk) (st : Pump)
    → Says st c.delta (write_openai (build_openai_stream_chunk model c) st)
write_openai-Says model c st = elim (Bool-cases (has_content c)) [
  | inl full ↦
      let (sent, kept) =
        write-Says
          (openai_chunk (record {
            model = model;
            choices = openai_choice c ∷ [];
            usage = openai_usage_of c.usage;
          }))
          st in
      rw (openai_chunk_full model c full) (sent ∙ rw (openai_choice_text c) refl, kept)
  | inr bare ↦
      Quiet→Says st (write_openai (build_openai_stream_chunk model c) st) c.delta
        (no_content c bare)
        (write_openai-Quiet (build_openai_stream_chunk model c) st (openai_chunk_bare model c bare))
]

pub write_bedrock-Says :
    (c : StreamChunk) (st : Pump)
    → Says st c.delta (write_bedrock (build_bedrock_stream_event c) st)
unfolding build_bedrock_stream_event
write_bedrock-Says c st = elim (Bool-cases (bytes_eq c.delta [])) [
  | inl e ↦ rw e (nothing c.delta st (empty c.delta e))
  | inr e ↦
      let ready : Pump = emit_bedrock_prelude st in
      rw e (
        then-Says st ready (write (bedrock (bedrock_block_delta c.delta)) ready) c.delta
          (emit_bedrock_prelude-Quiet st)
          (write-Says (bedrock (bedrock_block_delta c.delta)) ready))
]
