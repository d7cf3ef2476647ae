-- ===== src/Settlement.antt =====
-- The finality plane, crates/openmatch-settlement: each child is one source file.
pub mod Idempotency
pub mod SupplyConservation
pub mod WithdrawLock
pub mod Tier1
mod Tests
