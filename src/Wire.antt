-- ===== src/Wire.antt =====
-- The framings of a streamed response: the AWS event-stream frames of
-- server/internal/adapter/bedrock_eventstream.go and server/internal/relay/stream.go, and the SSE lines
-- of server/internal/relay/stream.go.
pub mod Reader
pub mod EventStream
pub mod Sse
mod Examples
