-- ===== src/MatchCore/Tests.antt =====
-- The matcher on small batches.
use openmatch.Base.{
  none, ok, err, Returns, true, ℕ, ◌≡◌, refl, List, [], ◌∷◌, ◌++◌, some, All, ℤ, pos, ◌+ℤ◌, ◌-ℤ◌,
  ◌≤ℤ◌, ◌<ℤ◌, arith, nat_eq, map,
}
use openmatch.Decimal.{le}
use openmatch.Decimal.Whole.{whole_decimal}
use openmatch.Map
use openmatch.Types.{
  duplicate_order, order_not_found, Order, OrderId, OrderSide, OrderType, OrderStatus, SealedBatch,
  Trade, effective_price,
}
use openmatch.MatchCore.PriceLevel.{total_quantity}
use openmatch.MatchCore.OrderBook.Index.{insert_order_once, cancel_order_once}
use openmatch.MatchCore.OrderBook.{
  cancel_order, level_orders, OrderBook, new_book, insert_order, push_at, put_level, level_at,
  best_bid, best_ask,
}
use openmatch.MatchCore.Clearing.{compute_clearing_price}
use openmatch.MatchCore.Clearing.Prices.{clearing_price_exists, HasVolume}
use openmatch.MatchCore.Matcher.Returned.{IsModest, match_book-panics}
use openmatch.MatchCore.Matcher.{
  Auction, trade_of, fill_book, fill_bids, match_book, match_sealed_batch,
}
use openmatch.Pairing.{Fills, fill_bid, turn, start_fills}
use openmatch.Pairing.Steps.{Reaches, standing}
use openmatch.Base.{sum_of}
use openmatch.Pairing.Volume.{left_for, taken_by, made_by}
use openmatch.MatchCore.Matcher.Steps.{TwoUsers, fill_bids-Returns}
use openmatch.MatchCore.Matcher.Conservation.{fill_bids_conserves}
use openmatch.MatchCore.Matcher.Book.{fill_book_best}
use openmatch.MatchCore.OrderBook.RoundTrip.{insert-cancel_order, insert_order-IsIndexed}
use openmatch.MatchCore.Matcher.Overfill.{DoesNotOverfill, match_sealed_batch-DoesNotOverfill}
use openmatch.MatchCore.Matcher.Accounted.{AccountsFor, match_sealed_batch-accounts}
use openmatch.MatchCore.Matcher.Limits.{IsLegal, match_sealed_batch-IsLegal}

-- The order `i` of a user, for a quantity at a limit price; ids are also sequence numbers.
abbrev order : ℕ → ℕ → OrderSide → ℕ → ℕ → Order ℤ
order i user side price quantity = record {
  id = i;
  user_id = user;
  market = record { base = "BTC"; quote = "USDT" };
  side = side;
  order_type = OrderType.limit;
  status = OrderStatus.active;
  price = some (pos price);
  quantity = pos quantity;
  remaining_qty = pos quantity;
  sr_id = 0;
  epoch_id = some 1;
  origin_node = [];
  sequence = i;
  created_at = 0;
  updated_at = 0;
}

abbrev bids : List (Order ℤ)
bids = order 1 10 OrderSide.buy 12 5 ∷ order 2 20 OrderSide.buy 11 4 ∷ []

abbrev asks : List (Order ℤ)
asks = order 3 30 OrderSide.sell 8 6 ∷ order 4 40 OrderSide.sell 10 7 ∷ []

abbrev batch : SealedBatch ℤ
batch = record {
  epoch_id = 1;
  orders = bids ++ asks;
  batch_hash = [];
  sealed_at = 0;
  sealer_node = [];
}

abbrev same : List ℕ → List ℕ
same bs = bs

abbrev noon : ℕ → ℕ
noon n = 0

abbrev auction : Auction ℤ
auction = record { epoch_id = 1; price = pos 10; sha256 = same; clock = noon }

abbrev book : OrderBook ℤ
book = record {
  market = record { base = "BTC"; quote = "USDT" };
  bids = (pos 12, record { price = pos 12; orders = order 1 10 OrderSide.buy 12 5 ∷ [] }) ∷ [];
  asks = (pos 8, record { price = pos 8; orders = order 3 30 OrderSide.sell 8 6 ∷ [] }) ∷ [];
  index = (1, (OrderSide.buy, pos 12)) ∷ (3, (OrderSide.sell, pos 8)) ∷ [];
}

book-built :
    fill_book
      (order 1 10 OrderSide.buy 12 5 ∷ order 3 30 OrderSide.sell 8 6 ∷ [])
      (new_book book.market)
    ≡ book
unfolding fill_book insert_order push_at put_level level_at effective_price Map.insert
book-built = refl

book-HasVolume : HasVolume book.bids × HasVolume book.asks
unfolding total_quantity ◌+ℤ◌
book-HasVolume = (((refl, omega arith), tt), ((refl, omega arith), tt))

clearing_price_exists_example :
    Returns
      (λ r. r.clearing_price ≡ some (whole_decimal.div (pos 12 +ℤ pos 8) (pos 2)))
      (compute_clearing_price book)
unfolding ◌+ℤ◌
clearing_price_exists_example =
    clearing_price_exists book (pos 12) (pos 8) refl refl refl book-HasVolume.0 book-HasVolume.1
      (omega arith) (omega arith)

-- A market buy of 5 and an ask of 6 at 50000.
abbrev market_buy : Order ℤ
market_buy = record (order 1 10 OrderSide.buy 0 5) { order_type = OrderType.market; price = none }

abbrev market_book : OrderBook ℤ
market_book = record {
  market = record { base = "BTC"; quote = "USDT" };
  bids = (whole_decimal.max, record { price = whole_decimal.max; orders = market_buy ∷ [] }) ∷ [];
  asks =
      (pos 50_000, record { price = pos 50_000; orders = order 3 30 OrderSide.sell 50_000 6 ∷ [] })
      ∷ [];
  index = (1, (OrderSide.buy, whole_decimal.max)) ∷ (3, (OrderSide.sell, pos 50_000)) ∷ [];
}

market_book-built :
    fill_book (market_buy ∷ order 3 30 OrderSide.sell 50_000 6 ∷ []) (new_book market_book.market)
    ≡ market_book
unfolding fill_book insert_order push_at put_level level_at effective_price Map.insert
market_book-built = refl

market_book-HasVolume : HasVolume market_book.bids × HasVolume market_book.asks
unfolding total_quantity ◌+ℤ◌
market_book-HasVolume = (((refl, omega arith), tt), ((refl, omega arith), tt))

match_book-panics_example :
    (compute_clearing_price market_book ≡ none) × (match_book same noon batch market_book ≡ none)
unfolding ◌+ℤ◌
match_book-panics_example =
    match_book-panics market_book whole_decimal.max (pos 50_000) same noon batch refl refl refl
      market_book-HasVolume.0 market_book-HasVolume.1 (omega arith)

batch-IsModest : All (λ o. IsModest (effective_price o)) batch.orders
unfolding effective_price ◌+ℤ◌
batch-IsModest = (
  (omega arith, omega arith),
  ((omega arith, omega arith), ((omega arith, omega arith), ((omega arith, omega arith), tt))),
)

-- Taker, maker and quantity of a trade.
abbrev summary : Trade ℤ → ℕ × ℕ × ℤ
summary t = (t.taker_order_id, t.maker_order_id, t.quantity)

auction-fills :
    Returns
      (λ (r : List (Order ℤ) × Fills ℤ).
        map summary r.1.trades ≡ (1, 3, pos 5) ∷ (2, 3, pos 1) ∷ (2, 4, pos 3) ∷ [])
      (fill_bids auction [] bids (start_fills asks))
unfolding fill_bids fill_bid turn ◌-ℤ◌
auction-fills = refl

-- A bid that meets an ask of its own user moves the cursor for the bids after it too: the ask of
-- user 10, which order 2 could take, trades with nobody.
abbrev own_ask : List (Order ℤ)
own_ask = order 3 10 OrderSide.sell 8 6 ∷ []

own_ask_lost :
    Returns
      (λ (r : List (Order ℤ) × Fills ℤ). r.1.trades ≡ [])
      (fill_bids auction [] bids (start_fills own_ask))
unfolding fill_bids fill_bid turn ◌-ℤ◌
own_ask_lost = refl

fill_bids_conserves_example :
    Returns
      (λ (r : List (Order ℤ) × Fills ℤ).
        let (bids', f) = r in
        ((i : OrderId)
          → (sum_of (left_for i) bids' +ℤ sum_of (taken_by i) f.trades ≡ sum_of (left_for i) bids)
            × (sum_of (left_for i) (f.passed ++ f.rest) +ℤ sum_of (made_by i) f.trades
                ≡ sum_of (left_for i) asks))
        × All (λ o. pos 0 ≤ℤ o.remaining_qty) bids'
        × All (λ o. pos 0 ≤ℤ o.remaining_qty) (f.passed ++ f.rest)
        × All (λ t. pos 0 <ℤ t.quantity) f.trades)
      (fill_bids auction [] bids (start_fills asks))
fill_bids_conserves_example =
    fill_bids_conserves auction bids asks (omega arith, (omega arith, tt))
      (omega arith, (omega arith, tt))

match_sealed_batch-IsLegal_example :
    Returns (λ r. All (IsLegal batch r) r.trades) (match_sealed_batch same noon batch)
match_sealed_batch-IsLegal_example = match_sealed_batch-IsLegal same noon batch batch-IsModest

fill_book_best_example :
    let b = fill_book (bids ++ asks) (new_book book.market) in
    ((bid : ℤ)
      → best_bid b ≡ some bid
      → All (λ o. le (effective_price o) bid ≡ true) (level_orders b.bids))
    × ((ask : ℤ)
        → best_ask b ≡ some ask
        → All (λ o. le ask (effective_price o) ≡ true) (level_orders b.asks))
fill_book_best_example = fill_book_best (bids ++ asks) book.market

fill_bids-Returns_example :
    Returns
      (λ (r : List (Order ℤ) × Fills ℤ).
        Reaches (trade_of auction) TwoUsers (standing bids (start_fills asks)) (standing r.0 r.1))
      (fill_bids auction [] bids (start_fills asks))
fill_bids-Returns_example = fill_bids-Returns auction [] bids (start_fills asks)

second_insertion :
    let b' = (insert_order (order 1 10 OrderSide.buy 12 5) (new_book book.market)).1 in
    insert_order (order 1 20 OrderSide.sell 3 3) b' ≡ (err (duplicate_order 1), b')
second_insertion =
    insert_order_once (order 1 10 OrderSide.buy 12 5) (order 1 20 OrderSide.sell 3 3)
      (new_book book.market) refl

cancel_order_once_example :
    let b' = (cancel_order 1 book).1 in cancel_order 1 b' ≡ (err (order_not_found 1), b')
cancel_order_once_example = cancel_order_once 1 book

abbrev small_book : OrderBook ℤ
small_book = (insert_order (order 1 10 OrderSide.buy 12 5) (new_book book.market)).1

insert-cancel_order_example :
    cancel_order 2 (insert_order (order 2 20 OrderSide.buy 12 4) small_book).1
    ≡ (ok (order 2 20 OrderSide.buy 12 4), small_book)
unfolding insert_order Map.insert
insert-cancel_order_example =
    insert-cancel_order (order 2 20 OrderSide.buy 12 4) small_book
      (insert_order-IsIndexed (order 1 10 OrderSide.buy 12 5) (new_book book.market)
        λ i h. (tt, tt))
      refl

match_sealed_batch-DoesNotOverfill_example :
    Returns (λ r. DoesNotOverfill batch.orders r.trades) (match_sealed_batch same noon batch)
match_sealed_batch-DoesNotOverfill_example =
    match_sealed_batch-DoesNotOverfill same noon batch
      (omega arith, (omega arith, (omega arith, (omega arith, tt)))) batch-IsModest

match_sealed_batch-accounts_example :
    Returns
      (AccountsFor batch.orders (fill_book batch.orders (new_book book.market)))
      (match_sealed_batch same noon batch)
match_sealed_batch-accounts_example =
    match_sealed_batch-accounts same noon batch (order 1 10 OrderSide.buy 12 5)
      (order 2 20 OrderSide.buy 11 4 ∷ asks)
      (omega arith, (omega arith, (omega arith, (omega arith, tt)))) batch-IsModest
