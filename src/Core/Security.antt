-- ===== src/Core/Security.antt =====
-- crates/openmatch-core/src/security.rs: the guards around the ledger, a child for each.
pub mod NonceTracker
pub mod RateLimiter
pub mod PriceSanity
pub mod SupplyAudit
pub mod WithdrawLock
pub mod Secured
