-- ===== src/Stream.antt =====
-- The streaming relay of server/internal/relay/stream.go: what goes out (Events), the pump that makes
-- it (Pump), and what is proved of them.
pub mod Events
pub mod Pump
pub mod Protocol
pub mod Blocks
pub mod Framing
pub mod Text
pub mod Delivery
pub mod Parsers
pub mod Passthrough
pub mod Serve
pub mod Accounts
pub mod Commuting
pub mod Failing
pub mod Examples
