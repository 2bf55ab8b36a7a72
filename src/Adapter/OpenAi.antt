-- ===== src/Adapter/OpenAi.antt =====
-- The stream of an OpenAI upstream: `ParseStreamChunk` of server/internal/adapter/openai_adapter.go, of
-- what encoding/json decodes.
use hhrouter.Base.{Bool, true, false, ◌||◌, not, Option, none, some, List, [], ◌∷◌, if◌then◌else◌}
use hhrouter.Base.Text.{Bytes, bytes_eq, codes, trim_space}
use hhrouter.Billing.{Usage}
use hhrouter.Adapter.{
  StopReason, stop_unknown, is_known, ToolCallDelta, StreamChunk, no_chunk, ParsedChunk, is_some,
}
use hhrouter.Adapter.Stops.{openai_finish_to_stop}
use hhrouter.Adapter.Tokens.{OpenAiCounts, usage_from_openai}

pub record ChunkChoice : Type 0 where
  pub content : Bytes
  pub tool_calls : List ToolCallDelta
  pub finish_reason : Option Bytes

-- openAIStreamChunk
pub record ChunkBody : Type 0 where
  pub choices : List ChunkChoice
  pub usage : Option OpenAiCounts

abbrev pub first : {A : Type 0} → List A → Option A
first [] = none
first (a ∷ l) = some a

-- An absent reason and an empty one are both unknown.
abbrev pub finish_of : Option Bytes → StopReason
finish_of none = stop_unknown
finish_of (some s) = openai_finish_to_stop s

abbrev pub choice_chunk : Option ChunkChoice → Option Usage → StreamChunk
choice_chunk none u = record no_chunk { usage = u }
choice_chunk (some c) u = record no_chunk {
  delta = c.content;
  stop_reason = finish_of c.finish_reason;
  usage = u;
  tool_call_delta = first c.tool_calls;
}

unfoldable pub is_meaningful : StreamChunk → Bool
unfolding bytes_eq is_known
is_meaningful c =
    not (bytes_eq c.delta [])
    || is_known c.stop_reason
    || is_some c.usage
    || is_some c.tool_call_delta

abbrev pub parse_body : Option ChunkBody → ParsedChunk
parse_body none = none
parse_body (some b) =
    let chunk : StreamChunk = choice_chunk (first b.choices) (usage_from_openai b.usage) in
    some (chunk, is_meaningful chunk)

-- ParseStreamChunk, with json.Unmarshal; `none` is its error
unfoldable pub parse_stream_chunk : (Bytes → Option ChunkBody) → Bytes → Bytes → ParsedChunk
unfolding trim_space bytes_eq usage_from_openai openai_finish_to_stop is_meaningful
parse_stream_chunk decode event_type payload =
    let trimmed = trim_space payload in
    if bytes_eq trimmed []
    then some (no_chunk, false)
    else if bytes_eq trimmed (codes "[DONE]")
    then some (record no_chunk { done = true }, true)
    else parse_body (decode trimmed)
