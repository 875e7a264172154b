-- ===== src/Pipeline.antt =====
-- The media pipeline over the database: the tables and their constraints, the Collector's
-- transactions, the normalizer's transactions, and what all of them keep.
pub mod Schema
pub mod Transaction
pub mod After
pub mod Persistence
pub mod Normalizer
pub mod Invariant
pub mod System
pub mod Claiming
pub mod RunStatus
pub mod Counters
pub mod Accounts
