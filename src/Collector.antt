-- ===== src/Collector.antt =====
-- apps/api/app/instagram/collector: the engine that fills a run from a feed.
pub mod Canonical
pub mod Limits
pub mod Ports
pub mod Calls
pub mod Transition
pub mod Source
pub mod Turn
pub mod Collect
pub mod Ledger
pub mod Guarantees
