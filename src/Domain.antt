-- ===== src/Domain.antt =====
-- apps/api/app/instagram/contracts.py: the statuses that are safe to store, and the reason codes.
pub mod Statuses
pub mod Reasons
pub mod Transitions
pub mod Paths
