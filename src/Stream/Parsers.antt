-- ===== src/Stream/Parsers.antt =====
-- What the parsers of the adapters (server/internal/adapter) owe to the pump of
-- server/internal/relay/stream.go.
use hhrouter.Base.{
  Bool, true, false, ◌&&◌, not, Option, none, some, List, [], if◌then◌else◌, ◌≡◌, ◌≢◌, refl, ◌⊎◌,
  inl, inr, Bool-cases,
}
use hhrouter.Base.Int.{ℤ, pos}
use hhrouter.Base.Text.{Bytes, bytes_eq, codes, trim_space, bytes_eq→eq}
use hhrouter.Adapter.{StreamChunk, no_chunk, ParsedChunk}
use hhrouter.Adapter.Tokens.{BedrockCounts, usage_from_openai}
use hhrouter.Adapter.Anthropic
use hhrouter.Adapter.OpenAi
use hhrouter.Adapter.Bedrock
use hhrouter.Stream.Events.{OutputFormat, out_openai, out_anthropic, out_bedrock}
use hhrouter.Wire.EventStream.{StreamEvent}
use hhrouter.Stream.Pump.{FeedEnd, pump_stream}
use hhrouter.Stream.Text.{sent_text}
use hhrouter.Stream.Delivery.{Carries, Delivers, pump_stream_text}

Delivers-if :
    (format : OutputFormat) (b : Bool) (x y : ParsedChunk)
    → Delivers format x
    → Delivers format y
    → Delivers format (if b then x else y)
Delivers-if format true x y h k = h
Delivers-if format false x y h k = k

textless :
    (format : OutputFormat) (c : StreamChunk) (meaningful : Bool)
    → c.delta ≡ []
    → Carries format c meaningful
textless out_openai c m e = inl e
textless out_anthropic c m e = inl e
textless out_bedrock c m e = inl e

text_alone :
    (format : OutputFormat) (c : StreamChunk) → c.tool_call_delta ≡ none → Carries format c true
text_alone out_openai c e = inr refl
text_alone out_anthropic c e = inr (refl, e)
text_alone out_bedrock c e = inr refl

module _ (format : OutputFormat) where
  content_delta-Delivers :
      (index : ℤ) (d : Option Anthropic.EventDelta)
      → Delivers format (Anthropic.content_delta index d)
  unfolding Anthropic.content_delta
  content_delta-Delivers index none = textless format no_chunk false refl
  content_delta-Delivers index (some d) =
      Delivers-if format (bytes_eq d.kind (codes "text_delta") && not (bytes_eq d.text [])) _ _
        (text_alone format (record no_chunk { delta = d.text }) refl)
        (Delivers-if format
          (bytes_eq d.kind (codes "input_json_delta") && not (bytes_eq d.partial_json [])) _ _
          (textless format _ true refl) (textless format no_chunk false refl))

  tool_start-Delivers :
      (index : ℤ) (b : Option Anthropic.EventBlock) → Delivers format (Anthropic.tool_start index b)
  unfolding Anthropic.tool_start
  tool_start-Delivers index none = textless format no_chunk false refl
  tool_start-Delivers index (some b) =
      Delivers-if format (bytes_eq b.kind (codes "tool_use")) _ _ (textless format _ true refl)
        (textless format no_chunk false refl)

  anthropic_event-Delivers :
      (ev : Anthropic.StreamEventBody) → Delivers format (Anthropic.parse_event ev)
  unfolding Anthropic.parse_event Anthropic.closing_delta Anthropic.stream_error
  anthropic_event-Delivers ev =
      Delivers-if format (bytes_eq ev.kind (codes "message_start")) _ _ (textless format _ _ refl) (
        Delivers-if format (bytes_eq ev.kind (codes "content_block_start")) _ _
          (tool_start-Delivers ev.index ev.content_block)
          (Delivers-if format (bytes_eq ev.kind (codes "content_block_delta")) _ _
            (content_delta-Delivers ev.index ev.delta)
            (Delivers-if format (bytes_eq ev.kind (codes "message_delta")) _ _
              (textless format _ _ refl)
              (Delivers-if format (bytes_eq ev.kind (codes "message_stop")) _ _
                (textless format _ true refl)
                (Delivers-if format (bytes_eq ev.kind (codes "error")) _ _
                  (textless format _ true refl) (textless format no_chunk false refl))))))

  anthropic-Delivers :
      (decode : Bytes → Option Anthropic.StreamEventBody) (t p : Bytes)
      → Delivers format (Anthropic.parse_stream_chunk decode t p)
  unfolding Anthropic.parse_stream_chunk
  anthropic-Delivers decode t p =
      Delivers-if format (bytes_eq (trim_space p) []) _ _ (textless format no_chunk false refl)
        (decoded (decode (trim_space p)))
    where
      decoded :
          (ev : Option Anthropic.StreamEventBody) → Delivers format (Anthropic.parse_decoded ev)
      decoded none = tt
      decoded (some ev) = anthropic_event-Delivers ev

  delta_chunk-Delivers :
      (index : ℤ) (text : Bytes) (input : Option Bytes)
      → Delivers format (Bedrock.delta_chunk index text input)
  unfolding Bedrock.delta_chunk
  delta_chunk-Delivers index text (some input) = textless format _ true refl
  delta_chunk-Delivers index text none = elim (Bool-cases (bytes_eq text [])) [
    | inl e ↦ textless format _ _ (bytes_eq→eq text [] e)
    | inr e ↦ rw e (text_alone format (record no_chunk { delta = text }) refl)
  ]

  take_start-Delivers : (s : Option Bedrock.BlockStart) → Delivers format (Bedrock.take_start s)
  take_start-Delivers none = textless format no_chunk false refl
  take_start-Delivers (some s) = started (Bedrock.tool_start s)
    where
      started :
          (t : Option Bedrock.ToolSpec)
          → Delivers format (Bedrock.start_chunk s.content_block_index t)
      started none = textless format no_chunk false refl
      started (some t) = textless format _ true refl

  take_delta-Delivers : (d : Option Bedrock.BlockDelta) → Delivers format (Bedrock.take_delta d)
  take_delta-Delivers none = tt
  take_delta-Delivers (some d) =
      delta_chunk-Delivers d.content_block_index (Bedrock.delta_text d) (Bedrock.tool_input d)

  take_stop-Delivers : (r : Option Bytes) → Delivers format (Bedrock.take_stop r)
  take_stop-Delivers none = tt
  take_stop-Delivers (some r) = textless format _ true refl

  take_metadata-Delivers :
      (u : Option (Option BedrockCounts)) → Delivers format (Bedrock.take_metadata u)
  take_metadata-Delivers none = tt
  take_metadata-Delivers (some u) = textless format _ true refl

  wrapped_event-Delivers :
      (text stop : Option Bytes) (meta : Option (Option BedrockCounts))
      → Delivers format (Bedrock.wrapped_event text stop meta)
  wrapped_event-Delivers (some text) stop meta = delta_chunk-Delivers (pos 0) text none
  wrapped_event-Delivers none (some r) meta = textless format _ true refl
  wrapped_event-Delivers none none none = textless format no_chunk false refl
  wrapped_event-Delivers none none (some none) = textless format no_chunk false refl
  wrapped_event-Delivers none none (some (some u)) = textless format _ true refl

  take_wrapped-Delivers :
      (ev : Option Bedrock.WrappedEvent) → Delivers format (Bedrock.take_wrapped ev)
  take_wrapped-Delivers none = tt
  take_wrapped-Delivers (some ev) =
      wrapped_event-Delivers ev.content_block_delta ev.message_stop ev.metadata

  bedrock-Delivers :
      (json : Bedrock.BedrockJson) (t p : Bytes)
      → Delivers format (Bedrock.parse_stream_chunk json t p)
  unfolding Bedrock.parse_stream_chunk Bedrock.parse_event Bedrock.exception_chunk
  bedrock-Delivers json t p =
      let s : Bytes = trim_space p in
      Delivers-if format (bytes_eq s []) _ _ (textless format no_chunk false refl) (
        Delivers-if format (bytes_eq t []) _ _ (take_wrapped-Delivers (json.wrapped s)) (
          Delivers-if format (Bedrock.is_bedrock_exception_event t) _ _
            (textless format _ true refl)
            (Delivers-if format (bytes_eq t (codes "contentBlockStart")) _ _
              (take_start-Delivers (json.block_start s))
              (Delivers-if format (bytes_eq t (codes "contentBlockDelta")) _ _
                (take_delta-Delivers (json.block_delta s))
                (Delivers-if format (bytes_eq t (codes "messageStop")) _ _
                  (take_stop-Delivers (json.message_stop s))
                  (Delivers-if format (bytes_eq t (codes "metadata")) _ _
                    (take_metadata-Delivers (json.metadata s))
                    (textless format no_chunk false refl)))))))

-- A chunk of OpenAI's may have a tool call beside its text.
openai_body-Delivers :
    (format : OutputFormat)
    → format ≢ out_anthropic
    → (b : Option OpenAi.ChunkBody) → Delivers format (OpenAi.parse_body b)
unfolding OpenAi.is_meaningful
openai_body-Delivers format ne none = tt
openai_body-Delivers format ne (some b) =
    carried format (OpenAi.choice_chunk (OpenAi.first b.choices) (usage_from_openai b.usage)) ne
  where
    meaningful : (c : StreamChunk) → (c.delta ≡ []) ⊎ (OpenAi.is_meaningful c ≡ true)
    meaningful c = elim (Bool-cases (bytes_eq c.delta [])) [
      | inl e ↦ inl (bytes_eq→eq c.delta [] e)
      | inr e ↦ inr (rw e refl)
    ]

    carried :
        (format : OutputFormat) (c : StreamChunk)
        → format ≢ out_anthropic
        → Carries format c (OpenAi.is_meaningful c)
    carried out_openai c ne = meaningful c
    carried out_bedrock c ne = meaningful c
    carried out_anthropic c ne = absurd (ne refl)

openai-Delivers :
    (format : OutputFormat)
    → format ≢ out_anthropic
    → (decode : Bytes → Option OpenAi.ChunkBody) (t p : Bytes)
    → Delivers format (OpenAi.parse_stream_chunk decode t p)
unfolding OpenAi.parse_stream_chunk
openai-Delivers format ne decode t p =
    Delivers-if format (bytes_eq (trim_space p) []) _ _ (textless format no_chunk false refl) (
      Delivers-if format (bytes_eq (trim_space p) (codes "[DONE]")) _ _
        (textless format _ true refl) (openai_body-Delivers format ne (decode (trim_space p))))

-- A client of any dialect gets the text of an Anthropic or a Bedrock upstream as the relay keeps it,
-- whatever the upstream sends and however its stream ends: the pump, on the adapters' own parsers,
-- and whatever JSON decoding makes of the payloads.
pub anthropic_bedrock_text :
    (decode : Bytes → Option Anthropic.StreamEventBody) (json : Bedrock.BedrockJson)
    (format : OutputFormat) (model : Bytes) (events : List StreamEvent) (end : FeedEnd)
    → (sent_text (pump_stream (Anthropic.parse_stream_chunk decode) format model events end).out
        ≡ (pump_stream (Anthropic.parse_stream_chunk decode) format model events end).completion)
      × (sent_text (pump_stream (Bedrock.parse_stream_chunk json) format model events end).out
          ≡ (pump_stream (Bedrock.parse_stream_chunk json) format model events end).completion)
anthropic_bedrock_text decode json format model events end = (
  pump_stream_text (Anthropic.parse_stream_chunk decode) format model
      (anthropic-Delivers format decode) events end,
  pump_stream_text (Bedrock.parse_stream_chunk json) format model (bedrock-Delivers format json)
      events end,
)

-- The same of an OpenAI upstream, for clients of OpenAI's and Bedrock's dialects.
pub openai_text :
    (format : OutputFormat)
    → format ≢ out_anthropic
    → (decode : Bytes → Option OpenAi.ChunkBody) (model : Bytes) (events : List StreamEvent)
      (end : FeedEnd)
    → sent_text (pump_stream (OpenAi.parse_stream_chunk decode) format model events end).out
      ≡ (pump_stream (OpenAi.parse_stream_chunk decode) format model events end).completion
openai_text format ne decode model events end =
    pump_stream_text (OpenAi.parse_stream_chunk decode) format model
      (openai-Delivers format ne decode) events end
