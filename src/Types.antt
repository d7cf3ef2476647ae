-- ===== src/Types.antt =====
-- The data of crates/openmatch-types: identifiers, orders, trades, spend rights, epochs, balances and
-- errors. Each child is one source file; Risk and Config are used by their own names.
mod Ids
mod States
mod Orders
mod Trades
mod SpendRights
mod Epochs
mod Balances
mod Errors
mod Constants
mod Receipts
pub mod Risk
pub mod Times
pub mod Config
unfoldable pub use Ids.*
unfoldable pub use States.*
unfoldable pub use Orders.*
unfoldable pub use Trades.*
unfoldable pub use SpendRights.*
unfoldable pub use Epochs.*
unfoldable pub use Balances.*
unfoldable pub use Errors.*
unfoldable pub use Constants.*
unfoldable pub use Receipts.*
