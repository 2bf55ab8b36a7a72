-- ===== src/Stream/Events.antt =====
-- The events that the streaming relay writes (server/internal/relay/stream.go), and their builders of
-- server/internal/adapter/transform.go. A JSON object with fixed keys is a constructor or a record, an
-- optional key an Option; ids that are drawn at random are left out.
use hhrouter.Base.{Bool, ◌&&◌, ◌||◌, not, Option, none, some, List, [], ◌∷◌, if◌then◌else◌}
use hhrouter.Base.Int.{ℤ, pos, ltb_ℤ}
use hhrouter.Base.Text.{Bytes, bytes_eq}
use hhrouter.Billing.{Usage}
use hhrouter.Adapter.{is_known, ToolCallDelta, StreamChunk, is_some}
use hhrouter.Adapter.Stops.{stop_to_openai_finish}

pub data OutputFormat : Type 0 where
  out_openai out_anthropic out_bedrock : OutputFormat

-- A count that is written only when it is positive.
unfoldable pub positive_count : ℤ → Option ℤ
positive_count n = if ltb_ℤ (pos 0) n then some n else none

-- The usage objects of the three dialects.
pub record AnthropicUsage : Type 0 where
  pub output_tokens : ℤ
  pub input_tokens : Option ℤ
  pub cache_read_input_tokens : Option ℤ
  pub cache_creation_input_tokens : Option ℤ

unfoldable pub anthropic_stream_delta_usage : Usage → AnthropicUsage
unfolding positive_count
anthropic_stream_delta_usage u = record {
  output_tokens = u.completion_tokens;
  input_tokens = positive_count u.prompt_tokens;
  cache_read_input_tokens = positive_count u.cache_read_tokens;
  cache_creation_input_tokens = positive_count u.cache_write_tokens;
}

pub record PromptDetails : Type 0 where
  pub cached_tokens : Option ℤ
  pub cache_creation_tokens : Option ℤ

pub record OpenAiUsage : Type 0 where
  pub prompt_tokens : ℤ
  pub completion_tokens : ℤ
  pub total_tokens : ℤ
  pub prompt_tokens_details : Option PromptDetails

-- addCacheUsageOpenAI
unfoldable pub prompt_details : Usage → Option PromptDetails
unfolding positive_count
prompt_details u =
    let read = positive_count u.cache_read_tokens in
    let written = positive_count u.cache_write_tokens in
    if is_some read || is_some written
    then some (record { cached_tokens = read; cache_creation_tokens = written })
    else none

unfoldable pub openai_usage : Usage → OpenAiUsage
unfolding prompt_details
openai_usage u = record {
  prompt_tokens = u.prompt_tokens;
  completion_tokens = u.completion_tokens;
  total_tokens = u.total_tokens;
  prompt_tokens_details = prompt_details u;
}

pub record BedrockUsage : Type 0 where
  pub input_tokens : ℤ
  pub output_tokens : ℤ
  pub total_tokens : ℤ
  pub cache_read_input_tokens : Option ℤ
  pub cache_write_input_tokens : Option ℤ

-- BedrockMetadataPayload with addCacheUsageBedrock
unfoldable pub bedrock_usage : Usage → BedrockUsage
unfolding positive_count
bedrock_usage u = record {
  input_tokens = u.prompt_tokens;
  output_tokens = u.completion_tokens;
  total_tokens = u.total_tokens;
  cache_read_input_tokens = positive_count u.cache_read_tokens;
  cache_write_input_tokens = positive_count u.cache_write_tokens;
}

pub data AnthropicEvent : Type 0 where
  message_start : Bytes → AnthropicEvent
  text_block_start : ℤ → AnthropicEvent
  tool_block_start : ℤ → Bytes → Bytes → AnthropicEvent
  text_delta input_json_delta : ℤ → Bytes → AnthropicEvent
  content_block_stop : ℤ → AnthropicEvent
  message_delta : Bytes → Option AnthropicUsage → AnthropicEvent
  message_stop : AnthropicEvent

pub record OpenAiToolCall : Type 0 where
  pub index : ℤ
  pub id : Option Bytes
  pub name : Option Bytes
  pub arguments : Bytes

pub record OpenAiChoice : Type 0 where
  pub content : Option Bytes
  pub tool_calls : Option OpenAiToolCall
  pub finish_reason : Option Bytes

-- A chat.completion.chunk
pub record OpenAiChunk : Type 0 where
  pub model : Bytes
  pub choices : List OpenAiChoice
  pub usage : Option OpenAiUsage

pub data BedrockEvent : Type 0 where
  bedrock_message_start bedrock_block_start : BedrockEvent
  bedrock_block_delta : Bytes → BedrockEvent
  bedrock_block_stop : BedrockEvent
  bedrock_message_stop : Bytes → BedrockEvent
  bedrock_metadata : BedrockUsage → BedrockEvent

-- What is sent to the client: an event of a dialect, the line that ends a stream of OpenAI's, or the
-- bytes of an upstream under the name of their event.
pub data WireEvent : Type 0 where
  anthropic : AnthropicEvent → WireEvent
  openai_chunk : OpenAiChunk → WireEvent
  openai_done : WireEvent
  bedrock : BedrockEvent → WireEvent
  verbatim : Bytes → Bytes → WireEvent

unfoldable pub given : Bytes → Option Bytes
unfolding bytes_eq
given s = if bytes_eq s [] then none else some s

abbrev pub openai_usage_of : Option Usage → Option OpenAiUsage
openai_usage_of none = none
openai_usage_of (some u) = some (openai_usage u)

abbrev pub openai_tool_call : Option ToolCallDelta → Option OpenAiToolCall
openai_tool_call none = none
openai_tool_call (some tc) = some (record {
  index = tc.index;
  id = given tc.id;
  name = given tc.name;
  arguments = tc.args_fragment;
})

unfoldable pub has_content : StreamChunk → Bool
unfolding bytes_eq is_known
has_content c = not (bytes_eq c.delta []) || is_some c.tool_call_delta || is_known c.stop_reason

unfoldable pub openai_choice : StreamChunk → OpenAiChoice
unfolding given is_known stop_to_openai_finish
openai_choice c = record {
  content = given c.delta;
  tool_calls = openai_tool_call c.tool_call_delta;
  finish_reason =
      if is_known c.stop_reason then some (stop_to_openai_finish c.stop_reason) else none;
}

-- BuildOpenAIStreamChunk; `none` is nil
unfoldable pub build_openai_stream_chunk : Bytes → StreamChunk → Option OpenAiChunk
unfolding has_content openai_choice openai_usage
build_openai_stream_chunk model c =
    let usage = openai_usage_of c.usage in
    let chunk : List OpenAiChoice → OpenAiChunk =
      λ choices. record { model = model; choices = choices; usage = usage } in
    if c.done && not (has_content c) && not (is_some c.usage)
    then none
    else some (chunk (if has_content c then openai_choice c ∷ [] else []))

-- BuildBedrockStreamEvent; `none` is ok = false
unfoldable pub build_bedrock_stream_event : StreamChunk → Option BedrockEvent
unfolding bytes_eq
build_bedrock_stream_event c =
    if bytes_eq c.delta [] then none else some (bedrock_block_delta c.delta)

abbrev pub anthropic_usage_of : Option Usage → Option AnthropicUsage
anthropic_usage_of none = none
anthropic_usage_of (some u) = some (anthropic_stream_delta_usage u)
