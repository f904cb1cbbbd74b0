-- ===== src/Tests.antt =====
-- Runs at concrete inputs: each theorem that has conditions, applied where they hold.
pub mod Bytes
pub mod Records
pub mod Entries
pub mod Overflows
pub mod Streams
pub mod Tables
pub mod Workers
pub mod Releases
pub mod Bridges
pub mod Sessions
pub mod Pulls
pub mod Arrivals
pub mod Drains
pub mod Choices
