-- ===== src/Adapter/Bedrock.antt =====
-- The stream of a Bedrock upstream: `ParseStreamChunk` of server/internal/adapter/bedrock_adapter.go,
-- of what encoding/json decodes.
use hhrouter.Base.{Bool, true, false, ◌||◌, not, Option, none, some, [], if◌then◌else◌, reverse}
use hhrouter.Base.Int.{ℤ, pos}
use hhrouter.Base.Text.{Bytes, bytes_eq, codes, trim_space, has_prefix}
use hhrouter.Adapter.{UpstreamError, ToolCallDelta, no_chunk, ParsedChunk}
use hhrouter.Adapter.Stops.{bedrock_stop_to_unified}
use hhrouter.Adapter.Tokens.{BedrockCounts, usage_from_bedrock}

-- bedrockContentBlockDelta, in its two shapes; an input is there when toolUse is.
pub record BlockDelta : Type 0 where
  pub content_block_index : ℤ
  pub nested_text : Bytes
  pub nested_input : Option Bytes
  pub top_text : Bytes
  pub top_input : Option Bytes

pub record ToolSpec : Type 0 where
  pub tool_use_id : Bytes
  pub name : Bytes

-- bedrockContentBlockStart
pub record BlockStart : Type 0 where
  pub content_block_index : ℤ
  pub nested_tool : Option ToolSpec
  pub top_tool : Option ToolSpec

-- bedrockStreamEvent; `metadata` is the usage in it, where it has one
pub record WrappedEvent : Type 0 where
  pub content_block_delta : Option Bytes
  pub message_stop : Option Bytes
  pub metadata : Option (Option BedrockCounts)

-- json.Unmarshal at the types that the adapter decodes; `none` is its error. Of an exception's body,
-- what decoding leaves in the message.
pub record BedrockJson : Type 0 where
  pub block_start : Bytes → Option BlockStart
  pub block_delta : Bytes → Option BlockDelta
  pub message_stop : Bytes → Option Bytes
  pub metadata : Bytes → Option (Option BedrockCounts)
  pub wrapped : Bytes → Option WrappedEvent
  pub exception_message : Bytes → Bytes

-- strings.HasSuffix(eventType, "Exception")
unfoldable pub is_bedrock_exception_event : Bytes → Bool
unfolding has_prefix
is_bedrock_exception_event event_type =
    has_prefix (reverse event_type) (reverse (codes "Exception"))

unfoldable pub bedrock_exception_status : Bytes → ℤ
unfolding bytes_eq
bedrock_exception_status event_type =
    if bytes_eq event_type (codes "throttlingException")
    then pos 429
    else if bytes_eq event_type (codes "modelStreamErrorException")
        || bytes_eq event_type (codes "serviceUnavailableException")
        || bytes_eq event_type (codes "modelTimeoutException")
    then pos 503
    else if bytes_eq event_type (codes "validationException")
    then pos 400
    else pos 500

abbrev pub nothing : ParsedChunk
nothing = some (no_chunk, false)

unfoldable pub exception_chunk : Bytes → Bytes → ParsedChunk
unfolding bedrock_exception_status bytes_eq
exception_chunk event_type message =
    let failure : UpstreamError = record {
      provider = codes "bedrock";
      status_code = bedrock_exception_status event_type;
      message = if bytes_eq message [] then event_type else message;
      body = [];
    } in
    some (record no_chunk { done = true; upstream_err = some failure }, true)

abbrev pub tool_start : BlockStart → Option ToolSpec
tool_start s = go s.nested_tool
  where
    go : Option ToolSpec → Option ToolSpec
    go none = s.top_tool
    go (some t) = some t

abbrev pub delta_text : BlockDelta → Bytes
unfolding bytes_eq
delta_text d = if not (bytes_eq d.nested_text []) then d.nested_text else d.top_text

abbrev pub tool_input : BlockDelta → Option Bytes
tool_input d = go d.nested_input
  where
    go : Option Bytes → Option Bytes
    go none = d.top_input
    go (some s) = some s

abbrev pub start_chunk : ℤ → Option ToolSpec → ParsedChunk
start_chunk index none = nothing
start_chunk index (some t) =
    let call : ToolCallDelta = record {
      index = index;
      id = t.tool_use_id;
      name = t.name;
      args_fragment = [];
    } in
    some (record no_chunk { tool_call_delta = some call }, true)

abbrev pub take_start : Option BlockStart → ParsedChunk
take_start none = nothing
take_start (some s) = start_chunk s.content_block_index (tool_start s)

unfoldable pub delta_chunk : ℤ → Bytes → Option Bytes → ParsedChunk
unfolding bytes_eq
delta_chunk index text none = some (record no_chunk { delta = text }, not (bytes_eq text []))
delta_chunk index text (some input) =
    let call : ToolCallDelta = record {
      index = index;
      id = [];
      name = [];
      args_fragment = input;
    } in
    some (record no_chunk { tool_call_delta = some call }, true)

abbrev pub take_delta : Option BlockDelta → ParsedChunk
take_delta none = none
take_delta (some d) = delta_chunk d.content_block_index (delta_text d) (tool_input d)

abbrev pub take_stop : Option Bytes → ParsedChunk
take_stop none = none
take_stop (some reason) =
    some (record no_chunk { stop_reason = bedrock_stop_to_unified reason; done = true }, true)

abbrev pub take_metadata : Option (Option BedrockCounts) → ParsedChunk
take_metadata none = none
take_metadata (some u) = some (record no_chunk { usage = usage_from_bedrock u; done = true }, true)

abbrev pub wrapped_metadata : Option (Option BedrockCounts) → ParsedChunk
wrapped_metadata none = nothing
wrapped_metadata (some none) = nothing
wrapped_metadata (some (some u)) = take_metadata (some (some u))

abbrev pub wrapped_event : Option Bytes → Option Bytes → Option (Option BedrockCounts) → ParsedChunk
wrapped_event (some text) stop meta = delta_chunk (pos 0) text none
wrapped_event none (some reason) meta = take_stop (some reason)
wrapped_event none none meta = wrapped_metadata meta

abbrev pub take_wrapped : Option WrappedEvent → ParsedChunk
take_wrapped none = none
take_wrapped (some ev) = wrapped_event ev.content_block_delta ev.message_stop ev.metadata

module _ (json : BedrockJson) where
  unfoldable pub parse_event : Bytes → Bytes → ParsedChunk
  unfolding bytes_eq is_bedrock_exception_event exception_chunk delta_chunk bedrock_stop_to_unified
      usage_from_bedrock
  parse_event event_type trimmed =
      if bytes_eq event_type []
      then take_wrapped (json.wrapped trimmed)
      else if is_bedrock_exception_event event_type
      then exception_chunk event_type (json.exception_message trimmed)
      else if bytes_eq event_type (codes "contentBlockStart")
      then take_start (json.block_start trimmed)
      else if bytes_eq event_type (codes "contentBlockDelta")
      then take_delta (json.block_delta trimmed)
      else if bytes_eq event_type (codes "messageStop")
      then take_stop (json.message_stop trimmed)
      else if bytes_eq event_type (codes "metadata")
      then take_metadata (json.metadata trimmed)
      else nothing

  -- ParseStreamChunk; `none` is its error
  unfoldable pub parse_stream_chunk : Bytes → Bytes → ParsedChunk
  unfolding trim_space bytes_eq parse_event
  parse_stream_chunk event_type payload =
      let trimmed = trim_space payload in
      if bytes_eq trimmed [] then nothing else parse_event event_type trimmed
