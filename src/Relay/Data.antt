-- ===== src/Relay/Data.antt =====
-- What the relays of server/internal/relay/relay.go and server/internal/relay/stream.go hand around:
-- upstream errors, replies to the client, rows of the request log, and the state. Error texts are kept
-- as the parts that they are composed of.
use hhrouter.Base.{ℕ, Option, List}
use hhrouter.Base.Int.{ℤ}
use hhrouter.Base.Text.{Bytes}
use hhrouter.Adapter.{UpstreamError}
use hhrouter.Stream.Events.{WireEvent}
use hhrouter.Stream.Pump.{StreamFailure}
use hhrouter.Model.{Channel}
use hhrouter.Billing.{ModelPrice, Usage, TokenCounts}
use hhrouter.Quota.Service.{QuotaError, Service}
use hhrouter.Router.Outcome.{RouteError}

-- What one exchange with an upstream comes to: BuildRequest, httpDo and ParseResponse.
pub data Exchange : Type 0 where
  build_failed network_failed unparseable : Bytes → Exchange
  refused : UpstreamError → Exchange
  responded : Bytes → Usage → Exchange

pub data LastError : Type 0 where
  no_adapter : Bytes → LastError
  failed_with : Bytes → LastError
  upstream_error : UpstreamError → LastError

pub data Message : Type 0 where
  no_message : Message
  denial : Bytes → Message
  price_unknown quota_unknown : Message
  price_lookup : Bytes → Message
  quota_check : QuotaError → Message
  insufficient_balance : ℤ → ℤ → Message
  upstream_message : Bytes → Message
  upstream_text : UpstreamError → Message
  stream_message : StreamFailure → Message
  empty_stream_warning : Message
  all_candidates_failed : Option LastError → Message
  routing_failed : Bytes → RouteError → Message

pub data Reply : Type 0 where
  answered : Channel → Bytes → Reply
  streamed : Channel → List WireEvent → Reply
  errored : ℤ → Message → Reply

pub data LogStatus : Type 0 where
  log_success log_error : LogStatus

pub record LogEntry : Type 0 where
  pub user_id : ℕ
  pub token_id : ℕ
  pub channel_id : ℕ
  pub rule_id : Option ℕ
  pub model : Bytes
  pub upstream : Bytes
  pub tokens : TokenCounts
  pub cache_read : Option ℤ
  pub cache_write : Option ℤ
  pub cost_micro_usd : Option ℤ
  pub status : LogStatus
  pub http_status : ℤ
  pub error_message : Message

pub record Request : Type 0 where
  pub token_id : ℕ
  pub user_id : ℕ
  pub model : Bytes
  pub est_prompt : ℤ

pub record Attempt : Type 0 where
  pub channel : Channel
  pub upstream : Bytes

pub record Billed : Type 0 where
  pub price : Option ModelPrice
  pub usage : Usage

-- The quota service and what was written: the replies to the client, and the rows that were handed to
-- the log (a failed insert is ignored).
pub record Relay (S : Type 0) : Type 0 where
  pub quota : Service S
  pub log : List LogEntry
  pub replies : List Reply
