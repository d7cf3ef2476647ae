-- ===== src/Core/OrderBook.antt =====
-- crates/openmatch-core/src/orderbook.rs. Outside of its tests it has the code of the file of
-- crates/openmatch-matchcore, and so each name here is that of `MatchCore.OrderBook`. An `Order` of the
-- older openmatch-types has other fields for its funds and its batch, which the book does not read.
use openmatch.Base.{ℕ, Bool, List, Option, Result}
use openmatch.Decimal.{Decimal}
use openmatch.Types.{Order, OrderId, MarketPair, OpenmatchError}
use openmatch.Core.PriceLevel.{PriceLevel}
use openmatch.MatchCore.OrderBook as Book

abbrev pub OrderBook : Type 0 → Type 0
OrderBook D = Book.OrderBook D

abbrev pub new_book : {D : Type 0} → MarketPair → OrderBook D
new_book market = Book.new_book market

module _ {D : Type 0} ⦃d : Decimal D⦄ where
  abbrev pub insert_order :
      Order D → OrderBook D → Result (OpenmatchError D) (Unit {0}) × OrderBook D
  insert_order o b = Book.insert_order o b

  abbrev pub insert_batch :
      List (Order D) → OrderBook D → Result (OpenmatchError D) (Unit {0}) × OrderBook D
  insert_batch os b = Book.insert_batch os b

  abbrev pub cancel_order :
      OrderId → OrderBook D → Result (OpenmatchError D) (Order D) × OrderBook D
  cancel_order i b = Book.cancel_order i b

  abbrev pub best_bid : OrderBook D → Option D
  best_bid b = Book.best_bid b

  abbrev pub best_ask : OrderBook D → Option D
  best_ask b = Book.best_ask b

  abbrev pub spread : OrderBook D → Option D
  spread b = Book.spread b

  abbrev pub mid_price : OrderBook D → Option (Option D)
  mid_price b = Book.mid_price b

  abbrev pub order_count : OrderBook D → ℕ
  order_count b = Book.order_count b

  abbrev pub bid_depth : OrderBook D → ℕ
  bid_depth b = Book.bid_depth b

  abbrev pub ask_depth : OrderBook D → ℕ
  ask_depth b = Book.ask_depth b

  abbrev pub book_is_empty : OrderBook D → Bool
  book_is_empty b = Book.book_is_empty b

  abbrev pub contains_order : OrderId → OrderBook D → Bool
  contains_order i b = Book.contains_order i b

  abbrev pub bid_levels : OrderBook D → List (PriceLevel D)
  bid_levels b = Book.bid_levels b

  abbrev pub ask_levels : OrderBook D → List (PriceLevel D)
  ask_levels b = Book.ask_levels b

  abbrev pub bid_levels_mut : (PriceLevel D → PriceLevel D) → OrderBook D → OrderBook D
  bid_levels_mut f b = Book.bid_levels_mut f b

  abbrev pub ask_levels_mut : (PriceLevel D → PriceLevel D) → OrderBook D → OrderBook D
  ask_levels_mut f b = Book.ask_levels_mut f b

  abbrev pub drain_all : OrderBook D → List (Order D) × OrderBook D
  drain_all b = Book.drain_all b
