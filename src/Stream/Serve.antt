-- ===== src/Stream/Serve.antt =====
-- `serveStream` of server/internal/relay/stream.go: the failover loop up to a connected upstream, the
-- pump, and what is logged and billed. Connecting and JSON decoding are parameters; times are left out.
use hhrouter.Base.{
  ℕ, Bool, true, false, ◌&&◌, ◌||◌, Option, none, some, List, [], ◌∷◌, if◌then◌else◌, ◌⊎◌, leb,
  length, take, map,
}
use hhrouter.Base.Int.{ℤ, pos, ltb_ℤ, eqb_ℤ, wrap64, ◌+ℤ◌}
use hhrouter.Base.Text.{Bytes, bytes_eq, codes}
use hhrouter.Model.{Channel, RoutingRule}
use hhrouter.Billing.{ModelPrice, Usage, TokenCounts, usage_tokens}
use hhrouter.Wire.Reader.{Source, read_failed, Reading, read, panicked, out_of_fuel}
use hhrouter.Wire.EventStream.{StreamEvent, StreamError, read_error, Events, read_event_stream}
use hhrouter.Wire.Sse.{read_sse}
use hhrouter.Adapter.{UpstreamError, retryable, ParsedChunk}
use hhrouter.Adapter.Tokens.{estimate_tokens}
use hhrouter.Adapter.Anthropic
use hhrouter.Adapter.OpenAi
use hhrouter.Adapter.Bedrock
use hhrouter.Router.Outcome.{RouteError}
use hhrouter.Router.Selection.{Selection}
use hhrouter.Relay.Data.{
  failed_with, upstream_error, Message, no_message, stream_message, empty_stream_warning, streamed,
  log_success, log_error, Request, Attempt, Billed, Relay,
}
use hhrouter.Relay.{Upstreams, write_reply, Turn, ended, again, finish, fail_upstream, serve}
use hhrouter.Stream.Events.{OutputFormat, out_openai, out_anthropic, out_bedrock}
use hhrouter.Stream.Pump.{
  StreamFailure, upstream_failed, read_broken, Pump, FeedEnd, closed, client_gone, pump_stream,
}
use hhrouter.Stream.Passthrough.{PassthroughEvent, pump_passthrough}

-- What connecting to a channel comes to. A connection is the upstream's body, and the number of events
-- behind which the client leaves, if it does.
pub data Connection : Type 0 where
  unbuilt unreachable : Bytes → Connection
  rejected_by : UpstreamError → Connection
  connected : Source → Option ℕ → Connection

pub record Decoders : Type 0 where
  pub openai : Bytes → Option OpenAi.ChunkBody
  pub anthropic : Bytes → Option Anthropic.StreamEventBody
  pub bedrock : Bedrock.BedrockJson
  pub sniff : Bytes → PassthroughEvent

-- The adapter of a channel's kind
unfoldable pub parser : Decoders → Bytes → Bytes → Bytes → ParsedChunk
unfolding bytes_eq Bedrock.parse_stream_chunk Anthropic.parse_stream_chunk OpenAi.parse_stream_chunk
parser json kind event_type payload =
    if bytes_eq kind (codes "bedrock")
    then Bedrock.parse_stream_chunk json.bedrock event_type payload
    else if bytes_eq kind (codes "anthropic")
    then Anthropic.parse_stream_chunk json.anthropic event_type payload
    else OpenAi.parse_stream_chunk json.openai event_type payload

abbrev sse_error : Option Bytes → Option StreamError
sse_error none = none
sse_error (some e) = some (read_error (read_failed e))

-- The reader neither panics nor runs out of fuel.
abbrev frames : Reading Events → Events
frames panicked = ([], none)
frames out_of_fuel = ([], none)
frames (read events) = events

unfoldable pub upstream_events : Bytes → Source → Events
unfolding bytes_eq read_event_stream read_sse
upstream_events provider body =
    let (payloads, e) = read_sse body in
    if bytes_eq provider (codes "bedrock")
    then frames (read_event_stream body)
    else (map (λ p. record { event_type = []; payload = p }) payloads, sse_error e)

-- What is drained of the channel, when the client leaves.
abbrev pub feed : Option ℕ → Events → List StreamEvent × FeedEnd
feed none (events, e) = (events, closed e)
feed (some n) (events, e) =
    if leb n (length events) then (take n events, client_gone) else (events, closed e)

unfoldable pub upstream_http_status : StreamFailure → ℤ
upstream_http_status (upstream_failed u) =
    if ltb_ℤ u.status_code (pos 400) || ltb_ℤ (pos 599) u.status_code
    then pos 502
    else u.status_code
upstream_http_status (read_broken e) = pos 0

unfoldable pub finalize_usage : Option Usage → Bytes → ℤ → TokenCounts
unfolding usage_tokens estimate_tokens
finalize_usage (some u) text est_prompt = usage_tokens u est_prompt
finalize_usage none text est_prompt =
    let completion = pos (estimate_tokens text) in
    record {
      prompt = est_prompt;
      completion = completion;
      total = wrap64 (est_prompt +ℤ completion);
    }

abbrev cache_of : (Usage → ℤ) → Option Usage → ℤ
cache_of f none = pos 0
cache_of f (some u) = f u

-- A bill for a price that is known
unfoldable pub stream_bill : Option ModelPrice → TokenCounts → Option Usage → Option Billed
stream_bill none tokens usage = none
stream_bill (some p) tokens usage = some (record {
  price = some p;
  usage = record {
    prompt_tokens = tokens.prompt;
    completion_tokens = tokens.completion;
    total_tokens = tokens.total;
    cache_read_tokens = cache_of (λ u. u.cache_read_tokens) usage;
    cache_write_tokens = cache_of (λ u. u.cache_write_tokens) usage;
  };
})

abbrev pub clean_message : Bytes → Option Usage → Message
clean_message [] none = empty_stream_warning
clean_message [] (some u) = no_message
clean_message (c ∷ text) usage = no_message

-- The status of a failure in the log: the client's is 200 already.
abbrev pub failure_status : StreamFailure → ℤ
failure_status f = let s = upstream_http_status f in if eqb_ℤ s (pos 0) then pos 200 else s

abbrev pub is_anthropic : OutputFormat → Bool
is_anthropic out_anthropic = true
is_anthropic out_openai = false
is_anthropic out_bedrock = false

module _ {S : Type 0} (env : Upstreams S) (json : Decoders)
    (connect : Channel → Bytes → S → Connection × S) (format : OutputFormat) (rq : Request) where
  unfoldable pub pump : Channel → Source → Option ℕ → Pump
  unfolding bytes_eq pump_passthrough pump_stream parser upstream_events
  pump ch body gone =
      let (events, end) = feed gone (upstream_events ch.kind body) in
      let transformed = pump_stream (parser json ch.kind) format rq.model events end in
      if bytes_eq ch.kind (codes "anthropic") && is_anthropic format
      then pump_passthrough json.sniff events end
      else transformed

  -- The log and the bill, behind the pump
  unfoldable pub settle_stream :
      Attempt
      → Option ModelPrice
      → Option RoutingRule
      → Pump
      → Option StreamFailure
      → Relay S
      → Relay S
  unfolding finalize_usage finish stream_bill
  settle_stream att p rule pumped (some f) st =
      finish env rq (some att) rule log_error (failure_status f) (stream_message f)
        (finalize_usage pumped.final_usage pumped.completion rq.est_prompt) none st
  settle_stream att p rule pumped none st =
      let tokens = finalize_usage pumped.final_usage pumped.completion rq.est_prompt in
      finish env rq (some att) rule log_success (pos 200)
        (clean_message pumped.completion pumped.final_usage) tokens
        (stream_bill p tokens pumped.final_usage) st

  unfoldable pub stream_phase :
      Attempt → Option ModelPrice → Option RoutingRule → Pump → Relay S → Relay S
  unfolding settle_stream
  stream_phase att p rule pumped st =
      settle_stream att p rule pumped pumped.fatal_err
        (write_reply (streamed att.channel pumped.out) st)

  unfoldable pub take_connection :
      Attempt → Option ModelPrice → Option RoutingRule → Connection → Relay S → Turn S
  unfolding retryable fail_upstream stream_phase pump
  take_connection att p rule (unbuilt e) st = again (failed_with e) (some att) st
  take_connection att p rule (unreachable e) st = again (failed_with e) (some att) st
  take_connection att p rule (rejected_by u) st =
      if retryable u
      then again (upstream_error u) (some att) st
      else ended (fail_upstream env rq u att rule st)
  take_connection att p rule (connected body gone) st =
      ended (stream_phase att p rule (pump att.channel body gone) st)

  unfoldable pub stream_once : Attempt → Option ModelPrice → Option RoutingRule → Relay S → Turn S
  unfolding take_connection
  stream_once att p rule st =
      let (c, store') = connect att.channel att.upstream st.quota.store in
      take_connection att p rule c (record st { quota = record st.quota { store = store' } })

  unfoldable pub serve_stream : RouteError ⊎ Selection → Relay S → Option (Relay S)
  unfolding serve stream_once
  serve_stream = serve env rq stream_once
