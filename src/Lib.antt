-- ===== src/Lib.antt =====
-- The relay of an LLM gateway: which upstream channel serves a request, whether the quotas of the
-- key and its owner allow it, and what is answered, logged and charged.
--
-- A request comes to the relay (server/internal/relay/relay.go), which asks the routing engine
-- (server/internal/router/engine.go) for a selection: the first enabled rule whose predicate and whose
-- expression (server/internal/router/expr/expr.go) hold of it, the channels that rule allows, and an
-- order of them by priority and random weight. The relay tries them in that order. For each it looks
-- up a price (server/internal/service/pricing_service.go) and asks the quota service
-- (server/internal/service/quota_service.go) whether the estimate fits; a failure that may pass leads
-- to the next channel. A streamed request (server/internal/relay/stream.go) takes the same way up to a
-- connected upstream; then the upstream's events are read off the wire, parsed by the channel's adapter
-- (server/internal/adapter) and written in the client's dialect by a pump, and the stream is logged and
-- charged at its end.
--
-- Base      shared names: tests, lists, Go's strings as bytes, Go's int and int64 as integers with
--           the wrap-around to 64 bits written out
-- Expr      expr.go: Ast (trees and their evaluation), Lexer, Parser (with `compile`), and what is
--           proved of them
-- Model     the rows of server/internal/model/channel.go and routing_rule.go that routing reads
-- Router    engine.go: Glob (wildcardMatch), Rules (ruleMatches, matchRuleExpr), Candidates
--           (candidateChannels), Balance (loadBalanceOrder, weightedShuffle), Selection (Next),
--           Select (SelectChannelCtx) and Prompt (RenderProbePrompt)
-- Quota     quota_service.go: Store (PostgreSQL and Redis as an interface), Service (the operations,
--           in a state and error monad), Reliable (the laws that the stores meet where they answer)
-- Billing   Lookup and Cost of pricing_service.go, usageTokens of server/internal/relay/usage.go
-- Wire      frames and lines on the wire: EventStream (server/internal/adapter/bedrock_eventstream.go,
--           and readEventStream of server/internal/relay/stream.go) and Sse (readSSE and the writers)
-- Adapter   chunks, stop reasons, token usage, and the stream parsers of the three adapters
--           (server/internal/adapter: Stops, Tokens, Anthropic, OpenAi, Bedrock, Profile), and the content
--           of whole responses in two dialects (Response)
-- Relay     gateModelPrice, the failover loop, serveNonStream and finish of relay.go
-- Stream    stream.go: Events (what goes to the client), Pump (pumpStream), Passthrough
--           (pumpAnthropicPassthrough), Serve (serveStream), and what is proved of them
-- Gateway   relay_auth.go and quota.go of server/internal/middleware, the body checks and handle of
--           relay.go: from a request to one of the two relays
-- Admin     Create and Update of server/internal/service/rule_service.go, up to the row they store;
--           Tokens (token_service.go, but its listing of groups)
--
-- Parameters: the answers of the database and of Redis, the JSON decoder, the random generator, the
-- probe, and the exchange with an upstream (adapter and HTTP client), or, of a streaming one, the
-- connection: the bytes that it gives and how it ends, and when the client leaves. Laws are asked of the stores
-- only: in Quota.Reliable, where a store of functions meets them, and in Admin.Tokens.Owned and Issued,
-- where a table of one row does, which fills a column with its default.
--
-- Fuel: the lexer has one unit for each byte of the source, the parser eight for each token and six
-- more, the reader of frames one for each byte and the scan of a frame's headers likewise, and the
-- failover loop one more than there are candidates; the theorems below show that none of
-- them runs out.
--
-- Not modelled: the conversions of requests between the dialects, OpenAI's whole responses, the text of error messages, latencies
-- and the bodies that are logged; the services for users, channels and logs, and the queries of the rule service; controllers, the other middleware, encryption and set-up. A log insert that fails is ignored by the
-- source, so the log is the rows handed to it.
pub mod Base
pub mod Expr
pub mod Model
pub mod Router
pub mod Quota
pub mod Billing
pub mod Wire
pub mod Adapter
pub mod Stream
pub mod Relay
pub mod Gateway
pub mod Admin
