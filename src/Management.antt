-- ===== src/Management.antt =====
-- The control plane of apps/api/app/api/management.py: pairing, sessions, rate limits and idempotent
-- requests.
pub mod Tables
pub mod RateLimits
pub mod Access
pub mod Replay
pub mod Pairing
pub mod Secrets
pub mod Revocation
pub mod Windows
pub mod Idempotency
