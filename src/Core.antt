-- ===== src/Core.antt =====
-- The first version of the exchange, crates/openmatch-core, which the workspace keeps for reference
-- and does not build: each child is one source file. Where its sources use the names `batch_id` and
-- `BatchId`, which crates/openmatch-types has renamed since, the model uses `epoch_id` and `EpochId`.
pub mod BalanceManager
mod Tests
mod BatchTests
pub mod Security
pub mod PriceLevel
pub mod OrderBook
pub mod PendingBuffer
pub mod Clearing
pub mod BatchMatcher
