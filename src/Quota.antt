-- ===== src/Quota.antt =====
-- Two-level quotas (server/internal/service/quota_service.go): the service over a database and a
-- Redis server, and below it what is proved of it.
pub mod Store
pub mod Service
pub mod Reliable
pub mod Headroom
pub mod Admission
pub mod Charge
pub mod Flush
mod Examples
