-- ===== src/Work.antt =====
-- One job of InstagramNormalizerWorker, from its claim to the end of `run_once`.
pub mod Ports
pub mod Process
pub mod Order
