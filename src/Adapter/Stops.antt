-- ===== src/Adapter/Stops.antt =====
-- Stop reasons: the maps between the dialects' words and the adapters' own values
-- (server/internal/adapter/transform.go).
use hhrouter.Base.{[], if◌then◌else◌, ◌≡◌, refl, ◌||◌}
use hhrouter.Base.Text.{Bytes, bytes_eq, codes}
use hhrouter.Adapter.{
  StopReason, stop_end_turn, stop_max_tokens, stop_stop_sequence, stop_tool_use,
  stop_content_filter, stop_unknown,
}

unfoldable pub openai_finish_to_stop : Bytes → StopReason
unfolding bytes_eq
openai_finish_to_stop s =
    if bytes_eq s (codes "stop")
    then stop_end_turn
    else if bytes_eq s (codes "length")
    then stop_max_tokens
    else if bytes_eq s (codes "tool_calls") || bytes_eq s (codes "function_call")
    then stop_tool_use
    else if bytes_eq s (codes "content_filter")
    then stop_content_filter
    else if bytes_eq s []
    then stop_unknown
    else stop_end_turn

unfoldable pub stop_to_openai_finish : StopReason → Bytes
stop_to_openai_finish stop_end_turn = codes "stop"
stop_to_openai_finish stop_stop_sequence = codes "stop"
stop_to_openai_finish stop_max_tokens = codes "length"
stop_to_openai_finish stop_tool_use = codes "tool_calls"
stop_to_openai_finish stop_content_filter = codes "content_filter"
stop_to_openai_finish stop_unknown = codes "stop"

unfoldable pub anthropic_stop_to_unified : Bytes → StopReason
unfolding bytes_eq
anthropic_stop_to_unified s =
    if bytes_eq s (codes "end_turn")
    then stop_end_turn
    else if bytes_eq s (codes "max_tokens")
    then stop_max_tokens
    else if bytes_eq s (codes "stop_sequence")
    then stop_stop_sequence
    else if bytes_eq s (codes "tool_use")
    then stop_tool_use
    else if bytes_eq s []
    then stop_unknown
    else stop_end_turn

-- StopToAnthropicWire too
unfoldable pub stop_to_anthropic : StopReason → Bytes
stop_to_anthropic stop_end_turn = codes "end_turn"
stop_to_anthropic stop_max_tokens = codes "max_tokens"
stop_to_anthropic stop_stop_sequence = codes "stop_sequence"
stop_to_anthropic stop_tool_use = codes "tool_use"
stop_to_anthropic stop_content_filter = codes "end_turn"
stop_to_anthropic stop_unknown = codes "end_turn"

unfoldable pub bedrock_stop_to_unified : Bytes → StopReason
unfolding bytes_eq
bedrock_stop_to_unified s =
    if bytes_eq s (codes "end_turn")
    then stop_end_turn
    else if bytes_eq s (codes "max_tokens")
    then stop_max_tokens
    else if bytes_eq s (codes "stop_sequence")
    then stop_stop_sequence
    else if bytes_eq s (codes "tool_use")
    then stop_tool_use
    else if bytes_eq s (codes "content_filtered") || bytes_eq s (codes "guardrail_intervened")
    then stop_content_filter
    else if bytes_eq s []
    then stop_unknown
    else stop_end_turn

unfoldable pub stop_to_bedrock : StopReason → Bytes
stop_to_bedrock stop_end_turn = codes "end_turn"
stop_to_bedrock stop_max_tokens = codes "max_tokens"
stop_to_bedrock stop_stop_sequence = codes "stop_sequence"
stop_to_bedrock stop_tool_use = codes "tool_use"
stop_to_bedrock stop_content_filter = codes "content_filtered"
stop_to_bedrock stop_unknown = codes "end_turn"

-- An ended turn stands for what a dialect has no word of its own for.
abbrev pub in_openai : StopReason → StopReason
in_openai stop_stop_sequence = stop_end_turn
in_openai stop_unknown = stop_end_turn
in_openai stop_end_turn = stop_end_turn
in_openai stop_max_tokens = stop_max_tokens
in_openai stop_tool_use = stop_tool_use
in_openai stop_content_filter = stop_content_filter

abbrev pub in_anthropic : StopReason → StopReason
in_anthropic stop_content_filter = stop_end_turn
in_anthropic stop_unknown = stop_end_turn
in_anthropic stop_end_turn = stop_end_turn
in_anthropic stop_max_tokens = stop_max_tokens
in_anthropic stop_stop_sequence = stop_stop_sequence
in_anthropic stop_tool_use = stop_tool_use

abbrev pub in_bedrock : StopReason → StopReason
in_bedrock stop_unknown = stop_end_turn
in_bedrock stop_end_turn = stop_end_turn
in_bedrock stop_max_tokens = stop_max_tokens
in_bedrock stop_stop_sequence = stop_stop_sequence
in_bedrock stop_tool_use = stop_tool_use
in_bedrock stop_content_filter = stop_content_filter

-- A stop reason comes back from each dialect as it went out, but for what the dialect has no word for,
-- which comes back as an ended turn: a stop sequence in OpenAI's, a content filter in Anthropic's, and
-- an unknown reason in any of them. Tool use and an exhausted token limit are never lost.
pub stop_reasons_roundtrip :
    (s : StopReason)
    → (openai_finish_to_stop (stop_to_openai_finish s) ≡ in_openai s)
      × (anthropic_stop_to_unified (stop_to_anthropic s) ≡ in_anthropic s)
      × (bedrock_stop_to_unified (stop_to_bedrock s) ≡ in_bedrock s)
unfolding openai_finish_to_stop stop_to_openai_finish anthropic_stop_to_unified stop_to_anthropic
    bedrock_stop_to_unified stop_to_bedrock
stop_reasons_roundtrip stop_end_turn = (refl, refl, refl)
stop_reasons_roundtrip stop_max_tokens = (refl, refl, refl)
stop_reasons_roundtrip stop_stop_sequence = (refl, refl, refl)
stop_reasons_roundtrip stop_tool_use = (refl, refl, refl)
stop_reasons_roundtrip stop_content_filter = (refl, refl, refl)
stop_reasons_roundtrip stop_unknown = (refl, refl, refl)
