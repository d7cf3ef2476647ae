-- ===== src/Lib.antt =====
-- A model of OpenMatch, an exchange that matches orders in batches, in three planes that each work
-- on the result of the one before:
--   * the security envelope (crates/openmatch-ingress) freezes funds against spend rights, checks
--     orders, buffers them for an epoch and seals the batch: `Ingress`, one child per source file
--     (Escrow, RiskKernel, PendingBuffer, BatchSealer);
--   * the matching plane (crates/openmatch-matchcore) turns a sealed batch into trades at one price:
--     `MatchCore` (PriceLevel, OrderBook, Clearing, Determinism, Matcher);
--   * the finality plane (crates/openmatch-settlement) moves the balances of each trade once:
--     `Settlement` (Idempotency, SupplyConservation, WithdrawLock, Tier1).
-- `Core` is crates/openmatch-core, the first version of the exchange, which the workspace keeps for
-- reference and does not build: its ledger (BalanceManager), the guards around it (Security, a child
-- for each), the buffer, the price and the matcher of a batch (PendingBuffer, Clearing,
-- BatchMatcher). It has the names of an older openmatch-types, `batch_id` for `epoch_id`; its
-- price_level.rs and orderbook.rs are, outside of their tests, those of openmatch-matchcore.
-- `Pairing` is the inner loop that the matchers of both share, one bid against the asks, and the
-- relation of single fills that specifies it. `Exchange` joins the planes: two nodes
-- that seal and match the same orders, and the trades of a sealed batch in the settlement, from the
-- funds that its orders reserve, as the spend rights of an escrow manager do.
-- `Types` is crates/openmatch-types, a child per source file. `Accounts` is the map of balances that
-- crates/openmatch-ingress/src/balance_manager.rs and crates/openmatch-settlement/src/tier1.rs each
-- keep. `Decimal`, `Map` and `Sort` stand for what the code takes from outside: `rust_decimal`,
-- `HashMap`, and the sorts of slices; a `BTreeMap` is a list of entries in the order of
-- the keys. `Base` holds helpers.
-- A method on `&mut self` is a function from the old state to the result and the new state, a
-- method on `&self` a function of the state, under the source's names. A `HashMap` is an association
-- list. `Call`, `apply` and `run` of a module are its calls and sequences of them, failed calls
-- included.
-- Bounds: identifiers are numbers without bound, a `u64` that wraps is taken modulo 2 ^ 64, and
-- decimals are an interface whose laws speak of exact results. The sum of the best bid and the best
-- ask, which panics where a market buy, at `Decimal::MAX`, meets an ask of one or more, is followed:
-- `compute_clearing_price`, `mid_price`, `match_book` and `match_sealed_batch` then return nothing.
-- Every other overflow of `rust_decimal`, of a product or of a sum of quantities or balances, also
-- panics and is outside the model: the theorems on what returns are about amounts without it.
-- The other panics that are followed, as functions into an `Option`, are the division by a zero
-- multiplier in the price checker of `Core` and the `unwrap` of the batch hash. The inner loop of the
-- matcher runs on fuel, one turn more than there are asks left: each turn passes an ask or uses up
-- the bid.
-- Not modelled: most displays, logging and serialization; the clock and the generator of
-- identifiers, whose values are arguments; SHA-256, which is a parameter.
pub mod Base
pub mod Map
pub mod Sort
pub mod Pairing
pub mod Decimal
pub mod Exchange
pub mod Types
pub mod Accounts
pub mod Settlement
pub mod Ingress
pub mod MatchCore
pub mod Core
