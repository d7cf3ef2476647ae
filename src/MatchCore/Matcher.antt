-- ===== src/MatchCore/Matcher.antt =====
-- crates/openmatch-matchcore/src/matcher.rs: a sealed batch to trades. The inner loop, over the asks
-- for one bid, is `Pairing.fill_bid`.
pub mod Steps
pub mod Trades
pub mod Conservation
pub mod Book
pub mod Totals
pub mod Bundles
pub mod Overfill
pub mod Booked
pub mod Kept
pub mod Accounted
pub mod Untimed
pub mod Limits
pub mod Returned
use openmatch.Base.{
  ℕ, zero, suc, ◌+◌, ◌%◌, ◌^◌, List, [], ◌∷◌, ◌++◌, Option, none, some, Bool, true, false, ◌==◌,
  ◌||◌, ◌&&◌, not, any, ltb, length, if◌then◌else◌, Eq, nat_eq,
}
use openmatch.Base
use openmatch.Decimal.{Decimal, lt, le, is_zero, min}
use openmatch.Sort.{sort_by}
use openmatch.Pairing.{Fills, fill_qty, fill_bid, enough_fuel, start_fills}
use openmatch.Types.{
  Order, OrderSide, Trade, TradeBundle, SealedBatch, EpochId, deterministic, is_cancel,
}
use openmatch.MatchCore.OrderBook.{OrderBook, Levels, new_book, insert_order, drain_all}
use openmatch.MatchCore.Clearing.{compute_clearing_price}
use openmatch.MatchCore.Determinism.{compute_trade_root}

-- No ask ends the inner loop.
abbrev pub never_stops : {D : Type 0} → Order D → Bool
never_stops ask = false

-- What the loops read: the epoch, the price, the hash function, and the clock at the n-th trade.
pub record Auction (D : Type 0) : Type 0 where
  pub epoch_id : EpochId
  pub price : D
  pub sha256 : List ℕ → List ℕ
  pub clock : ℕ → ℕ

module _ {D : Type 0} ⦃d : Decimal D⦄ where
  abbrev pub trade_of : Auction D → ℕ → Order D → Order D → Trade D
  trade_of a n bid ask = record {
    id = deterministic a.sha256 a.epoch_id n;
    epoch_id = a.epoch_id;
    market = bid.market;
    taker_order_id = bid.id;
    taker_user_id = bid.user_id;
    maker_order_id = ask.id;
    maker_user_id = ask.user_id;
    price = a.price;
    quantity = fill_qty bid ask;
    quote_amount = d.mul a.price (fill_qty bid ask);
    taker_side = OrderSide.buy;
    matcher_node = Base.replicate 32 0;
    executed_at = a.clock n;
  }

  -- The outer loop, after the bids `done`.
  unfoldable pub fill_bids :
      Auction D → List (Order D) → List (Order D) → Fills D → Option (List (Order D) × Fills D)
  fill_bids a done [] f = some (done, f)
  fill_bids a done (bid ∷ bids) f = elim (fill_bid (trade_of a) never_stops (enough_fuel f) bid f) [
    | none ↦ none
    | some (bid', f') ↦ fill_bids a (done ++ bid' ∷ []) bids f'
  ]

  -- The orders of the levels that pass a test of their price, oldest sequence first.
  abbrev pub orders_where : (D → Bool) → Levels D → List (Order D)
  orders_where crosses [] = []
  orders_where crosses ((p, l) ∷ m) =
      (if crosses l.price then l.orders else []) ++ orders_where crosses m

  abbrev pub earlier : Order D → Order D → Bool
  earlier a b = ltb a.sequence b.sequence

  abbrev pub crossing_bids : D → OrderBook D → List (Order D)
  crossing_bids price b = sort_by earlier (orders_where (λ p. le price p) b.bids)

  abbrev pub crossing_asks : D → OrderBook D → List (Order D)
  crossing_asks price b = sort_by earlier (orders_where (λ p. le p price) b.asks)

  -- Step 1: cancellations are skipped, and errors of the insertion are ignored.
  unfoldable pub fill_book : List (Order D) → OrderBook D → OrderBook D
  fill_book [] b = b
  fill_book (o ∷ os) b = fill_book os (if is_cancel o.order_type then b else (insert_order o b).1)

  abbrev pub with_quantity : List (Order D) → List (Order D)
  with_quantity [] = []
  with_quantity (o ∷ os) =
      let later = with_quantity os in if lt d.zero o.remaining_qty then o ∷ later else later

  abbrev pub is_traded : Order D → List (Trade D) → Bool
  is_traded o trades = any (λ t. t.taker_order_id == o.id || t.maker_order_id == o.id) trades

  -- The last loop of step 5, over the drained book.
  unfoldable pub add_unmatched : List (Trade D) → List (Order D) → List (Order D) → List (Order D)
  add_unmatched trades remaining [] = remaining
  add_unmatched trades remaining (o ∷ os) =
      add_unmatched trades
        (if not (any (λ r. r.id == o.id) remaining) && not (is_traded o trades)
          then remaining ++ o ∷ []
          else remaining)
        os

  abbrev pub no_trades : (List ℕ → List ℕ) → SealedBatch D → List (Order D) → TradeBundle D
  no_trades sha256 batch remaining = record {
    epoch_id = batch.epoch_id;
    trades = [];
    trade_root = compute_trade_root {D = D} sha256 [];
    input_hash = batch.batch_hash;
    clearing_price = none;
    remaining_orders = remaining;
  }

  -- Steps 4 to 6.
  unfoldable pub bundle :
      Auction D → SealedBatch D → OrderBook D → List (Order D) → Fills D → TradeBundle D
  bundle a batch book bids f = record {
    epoch_id = batch.epoch_id;
    trades = f.trades;
    trade_root = compute_trade_root a.sha256 f.trades;
    input_hash = batch.batch_hash;
    clearing_price = some a.price;
    remaining_orders =
        add_unmatched f.trades (with_quantity (bids ++ (f.passed ++ f.rest))) (drain_all book).0;
  }

  -- Steps 3 to 6, at the clearing price.
  unfoldable pub run_auction : Auction D → SealedBatch D → OrderBook D → Option (TradeBundle D)
  run_auction a batch book =
      elim (fill_bids a [] (crossing_bids a.price book)
        (start_fills (crossing_asks a.price book))) [
          | none ↦ none
          | some (bids, f) ↦ some (bundle a batch book bids f)
        ]

  -- Step 2 after the clearing price, and the rest.
  unfoldable pub match_at :
      Option D → (List ℕ → List ℕ) → (ℕ → ℕ) → SealedBatch D → OrderBook D → Option (TradeBundle D)
  match_at none sha256 clock batch book = some (no_trades sha256 batch (drain_all book).0)
  match_at (some price) sha256 clock batch book =
      run_auction
        (record { epoch_id = batch.epoch_id; price = price; sha256 = sha256; clock = clock }) batch
        book

  -- Nothing where the clearing price panics.
  unfoldable pub match_book :
      (List ℕ → List ℕ) → (ℕ → ℕ) → SealedBatch D → OrderBook D → Option (TradeBundle D)
  match_book sha256 clock batch book = elim (compute_clearing_price book) [
    | none ↦ none
    | some clearing ↦ match_at clearing.clearing_price sha256 clock batch book
  ]

  unfoldable pub match_sealed_batch :
      (List ℕ → List ℕ) → (ℕ → ℕ) → SealedBatch D → Option (TradeBundle D)
  match_sealed_batch sha256 clock batch = elim batch.orders [
    | [] ↦ some (no_trades sha256 batch [])
    | first ∷ others ↦
        match_book sha256 clock batch (fill_book batch.orders (new_book first.market))
  ]
