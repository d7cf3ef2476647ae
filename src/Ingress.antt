-- ===== src/Ingress.antt =====
-- The security envelope, crates/openmatch-ingress: each child is one source file. Its
-- src/balance_manager.rs is the module `Accounts`.
pub mod Escrow
pub mod RiskKernel
pub mod PendingBuffer
pub mod BatchSealer
mod Tests
