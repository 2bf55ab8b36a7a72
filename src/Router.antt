-- ===== src/Router.antt =====
-- The routing engine (server/internal/router/engine.go).
pub mod Outcome
pub mod Glob
pub mod Rules
pub mod Balance
pub mod Candidates
pub mod Selection
pub mod Select
pub mod Prompt
mod Examples
