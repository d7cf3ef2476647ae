-- ===== src/Exchange.antt =====
-- How the planes join: the trades that crates/openmatch-matchcore/src/matcher.rs makes of a sealed
-- batch, settled by crates/openmatch-settlement/src/tier1.rs from the funds that the orders reserve.
pub mod Reserve
pub mod Orders
pub mod Settles
pub mod Agreement
pub mod Escrowed
mod Tests
