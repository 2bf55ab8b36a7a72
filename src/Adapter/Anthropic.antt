-- ===== src/Adapter/Anthropic.antt =====
-- The stream of an Anthropic upstream: `ParseStreamChunk` of
-- server/internal/adapter/anthropic_adapter.go, of what encoding/json decodes.
use hhrouter.Base.{true, false, ◌&&◌, ◌||◌, not, Option, none, some, [], if◌then◌else◌}
use hhrouter.Base.Int.{ℤ, pos}
use hhrouter.Base.Text.{Bytes, bytes_eq, codes, trim_space}
use hhrouter.Billing.{Usage}
use hhrouter.Adapter.{
  UpstreamError, StopReason, is_known, ToolCallDelta, no_chunk, ParsedChunk, is_some,
}
use hhrouter.Adapter.Stops.{anthropic_stop_to_unified}
use hhrouter.Adapter.Tokens.{AnthropicCounts}

pub record EventDelta : Type 0 where
  pub kind : Bytes
  pub text : Bytes
  pub partial_json : Bytes
  pub stop_reason : Bytes

pub record EventBlock : Type 0 where
  pub kind : Bytes
  pub id : Bytes
  pub name : Bytes

pub record EventError : Type 0 where
  pub kind : Bytes
  pub message : Bytes

-- anthropicStreamEvent; `message` is the usage in it, where it has one
pub record StreamEventBody : Type 0 where
  pub kind : Bytes
  pub index : ℤ
  pub message : Option (Option AnthropicCounts)
  pub content_block : Option EventBlock
  pub delta : Option EventDelta
  pub usage : Option AnthropicCounts
  pub error : Option EventError

unfoldable pub anthropic_stream_error_status : Option EventError → ℤ
unfolding bytes_eq
anthropic_stream_error_status none = pos 502
anthropic_stream_error_status (some e) =
    if bytes_eq e.kind (codes "invalid_request_error")
    then pos 400
    else if bytes_eq e.kind (codes "authentication_error")
    then pos 401
    else if bytes_eq e.kind (codes "permission_error")
    then pos 403
    else if bytes_eq e.kind (codes "not_found_error")
    then pos 404
    else if bytes_eq e.kind (codes "rate_limit_error")
    then pos 429
    else if bytes_eq e.kind (codes "overloaded_error")
    then pos 503
    else pos 502

abbrev nothing : ParsedChunk
nothing = some (no_chunk, false)

unfoldable pub start_usage : Option (Option AnthropicCounts) → Option Usage
start_usage none = none
start_usage (some none) = none
start_usage (some (some u)) = some (record {
  prompt_tokens = u.input_tokens;
  completion_tokens = pos 0;
  total_tokens = pos 0;
  cache_read_tokens = u.cache_read_input_tokens;
  cache_write_tokens = u.cache_creation_input_tokens;
})

unfoldable pub delta_usage : Option AnthropicCounts → Option Usage
delta_usage none = none
delta_usage (some u) = some (record {
  prompt_tokens = pos 0;
  completion_tokens = u.output_tokens;
  total_tokens = pos 0;
  cache_read_tokens = pos 0;
  cache_write_tokens = pos 0;
})

unfoldable pub tool_start : ℤ → Option EventBlock → ParsedChunk
unfolding bytes_eq
tool_start index none = nothing
tool_start index (some b) =
    let call : ToolCallDelta = record {
      index = index;
      id = b.id;
      name = b.name;
      args_fragment = [];
    } in
    if bytes_eq b.kind (codes "tool_use")
    then some (record no_chunk { tool_call_delta = some call }, true)
    else nothing

unfoldable pub content_delta : ℤ → Option EventDelta → ParsedChunk
unfolding bytes_eq
content_delta index none = nothing
content_delta index (some d) =
    let call : ToolCallDelta = record {
      index = index;
      id = [];
      name = [];
      args_fragment = d.partial_json;
    } in
    if bytes_eq d.kind (codes "text_delta") && not (bytes_eq d.text [])
    then some (record no_chunk { delta = d.text }, true)
    else if bytes_eq d.kind (codes "input_json_delta") && not (bytes_eq d.partial_json [])
    then some (record no_chunk { tool_call_delta = some call }, true)
    else nothing

-- The empty stop reason maps to the unknown one.
abbrev pub stop_of : Option EventDelta → StopReason
stop_of none = no_chunk.stop_reason
stop_of (some d) = anthropic_stop_to_unified d.stop_reason

unfoldable pub closing_delta : Option EventDelta → Option AnthropicCounts → ParsedChunk
unfolding is_known delta_usage anthropic_stop_to_unified
closing_delta d u =
    let usage = delta_usage u in
    some (
      record no_chunk { stop_reason = stop_of d; usage = usage },
      is_known (stop_of d) || is_some usage,
    )

abbrev pub error_message : Option EventError → Bytes
unfolding bytes_eq
error_message none = codes "anthropic upstream stream error"
error_message (some e) =
    if bytes_eq e.message [] then codes "anthropic upstream stream error" else e.message

unfoldable pub stream_error : Option EventError → ParsedChunk
unfolding anthropic_stream_error_status
stream_error e =
    let failure : UpstreamError = record {
      provider = codes "anthropic";
      status_code = anthropic_stream_error_status e;
      message = error_message e;
      body = [];
    } in
    some (record no_chunk { upstream_err = some failure }, true)

unfoldable pub parse_event : StreamEventBody → ParsedChunk
unfolding bytes_eq start_usage tool_start content_delta closing_delta stream_error
parse_event ev =
    if bytes_eq ev.kind (codes "message_start")
    then some (record no_chunk { usage = start_usage ev.message }, is_some (start_usage ev.message))
    else if bytes_eq ev.kind (codes "content_block_start")
    then tool_start ev.index ev.content_block
    else if bytes_eq ev.kind (codes "content_block_delta")
    then content_delta ev.index ev.delta
    else if bytes_eq ev.kind (codes "message_delta")
    then closing_delta ev.delta ev.usage
    else if bytes_eq ev.kind (codes "message_stop")
    then some (record no_chunk { done = true }, true)
    else if bytes_eq ev.kind (codes "error")
    then stream_error ev.error
    else nothing

abbrev pub parse_decoded : Option StreamEventBody → ParsedChunk
parse_decoded none = none
parse_decoded (some ev) = parse_event ev

-- ParseStreamChunk, with json.Unmarshal; `none` is its error
unfoldable pub parse_stream_chunk : (Bytes → Option StreamEventBody) → Bytes → Bytes → ParsedChunk
unfolding trim_space bytes_eq parse_event
parse_stream_chunk decode event_type payload =
    let trimmed = trim_space payload in
    if bytes_eq trimmed [] then nothing else parse_decoded (decode trimmed)
