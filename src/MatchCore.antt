-- ===== src/MatchCore.antt =====
-- The matching plane, crates/openmatch-matchcore: each child is one source file.
pub mod PriceLevel
pub mod OrderBook
pub mod Clearing
pub mod Determinism
pub mod Matcher
mod Tests
