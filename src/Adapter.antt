-- ===== src/Adapter.antt =====
-- What the relay takes from an adapter (server/internal/adapter): the errors of upstreams, and the
-- chunks of a stream. The name of the model in a chunk, which the relay does not read, is left out.
pub mod Stops
pub mod Tokens
pub mod Anthropic
pub mod OpenAi
pub mod Bedrock
pub mod Profile
pub mod Response
mod Examples
use hhrouter.Base.{ℕ, Bool, true, false, ◌&&◌, ◌||◌, Option, none, some, []}
use hhrouter.Base.Int.{ℤ, pos, leb_ℤ, eqb_ℤ}
use hhrouter.Base.Text.{Bytes}
use hhrouter.Billing.{Usage}

-- adapter.UpstreamError
pub record UpstreamError : Type 0 where
  pub provider : Bytes
  pub status_code : ℤ
  pub message : Bytes
  pub body : Bytes

unfoldable pub retryable : UpstreamError → Bool
retryable e =
    eqb_ℤ e.status_code (pos 429)
    || (leb_ℤ (pos 500) e.status_code && leb_ℤ e.status_code (pos 599))

pub data StopReason : Type 0 where
  stop_end_turn stop_max_tokens stop_stop_sequence stop_tool_use : StopReason
  stop_content_filter stop_unknown : StopReason

-- reason != StopUnknown
unfoldable pub is_known : StopReason → Bool
is_known stop_unknown = false
is_known stop_end_turn = true
is_known stop_max_tokens = true
is_known stop_stop_sequence = true
is_known stop_tool_use = true
is_known stop_content_filter = true

pub record ToolCallDelta : Type 0 where
  pub index : ℤ
  pub id : Bytes
  pub name : Bytes
  pub args_fragment : Bytes

pub record StreamChunk : Type 0 where
  pub delta : Bytes
  pub stop_reason : StopReason
  pub usage : Option Usage
  pub done : Bool
  pub upstream_err : Option UpstreamError
  pub tool_call_delta : Option ToolCallDelta

-- StreamChunk{}
abbrev pub no_chunk : StreamChunk
no_chunk = record {
  delta = [];
  stop_reason = stop_unknown;
  usage = none;
  done = false;
  upstream_err = none;
  tool_call_delta = none;
}

-- What ParseStreamChunk returns: the chunk and whether it is meaningful; `none` is its error.
abbrev pub ParsedChunk : Type 0
ParsedChunk = Option (StreamChunk × Bool)

abbrev pub is_some : {A : Type 0} → Option A → Bool
is_some none = false
is_some (some a) = true
