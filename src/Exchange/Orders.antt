-- ===== src/Exchange/Orders.antt =====
-- The orders of a batch that can pay for their fills, in the book of
-- crates/openmatch-matchcore/src/matcher.rs.
use openmatch.Base.{
  ◌≡◌, subst, true, false, ℤ, pos, ◌+ℤ◌, ◌≤ℤ◌, int_laws, parts, ◌=?◌, arith, nat_eq, string_eq,
  pair_eq, All, All-imp, sum_of,
}
use openmatch.Decimal.{Decimal, le}
use openmatch.Decimal.Products.{HasExactProducts}
use openmatch.Sort.Laws.{sort_by-All}
use openmatch.Types.{Order, OrderSide, MarketPair, effective_price}
use openmatch.Map.{contains_key}
use openmatch.Accounts.{Key, Accounts}
use openmatch.Accounts.Frozen.{due-nonneg}
use openmatch.MatchCore.OrderBook.{OrderBook, level_orders}
use openmatch.MatchCore.OrderBook.Placed.{ArePlaced, AreInLevel-All}
use openmatch.MatchCore.Matcher.{crossing_bids, crossing_asks, orders_where, earlier}
use openmatch.MatchCore.Matcher.Limits.{orders_where-All}
use openmatch.Exchange.Reserve.{bid_reserve, ask_reserve, IsBid, IsAsk}
use openmatch.MatchCore.Matcher.Totals.{sum_of-sort_by, sum_of-orders_where, by_side, book_sum}

-- The account that an order takes from: of the quote asset for a buy, of the base asset for a sell.
abbrev pub account_on : {D : Type 0} → OrderSide → Order D → Key
account_on OrderSide.buy o = (o.user_id, o.market.quote)
account_on OrderSide.sell o = (o.user_id, o.market.base)

module _ {D : Type 0} ⦃d : Decimal D⦄ where
  -- What an order may take from the account `j`.
  abbrev pub reserve : Key → Order D → ℤ
  reserve j o = by_side (bid_reserve j) (ask_reserve j) o.side o

  -- An order of the market, of no negative price or quantity left, whose account exists.
  pub record IsFundable (market : MarketPair) (m : Accounts D) (o : Order D) : Type 0 where
    pub of_market : o.market ≡ market
    pub left_nonneg : pos 0 ≤ℤ d.units o.remaining_qty
    pub price_nonneg : pos 0 ≤ℤ d.units (effective_price o)
    pub account : contains_key (account_on o.side o) m ≡ true

module _ {D : Type 0} ⦃d : Decimal D⦄ (laws : HasExactProducts D) (market : MarketPair)
    (m : Accounts D) (apart : (market.base =? market.quote) ≡ false) where
  bid_reserve-nonneg : (j : Key) (o : Order D) → IsFundable market m o → pos 0 ≤ℤ bid_reserve j o
  bid_reserve-nonneg j o f =
      due-nonneg j (o.user_id, o.market.quote) (d.mul (effective_price o) o.remaining_qty)
        (laws.mul-nonneg (effective_price o) o.remaining_qty f.price_nonneg f.left_nonneg)

  ask_reserve-nonneg : (j : Key) (o : Order D) → IsFundable market m o → pos 0 ≤ℤ ask_reserve j o
  ask_reserve-nonneg j o f = due-nonneg j (o.user_id, o.market.base) o.remaining_qty f.left_nonneg

  pub reserve-nonneg :
      (j : Key) (o : Order D) (s : OrderSide)
      → IsFundable market m o
      → pos 0 ≤ℤ by_side (bid_reserve j) (ask_reserve j) s o
  reserve-nonneg j o OrderSide.buy f = bid_reserve-nonneg j o f
  reserve-nonneg j o OrderSide.sell f = ask_reserve-nonneg j o f

  abbrev AreFundable : OrderBook D → Type 0
  AreFundable b = ArePlaced (IsFundable market m) b

  pub crossing_bids-IsBid :
      (price : D) (b : OrderBook D)
      → AreFundable b
      → All (IsBid price market m) (crossing_bids price b)
  crossing_bids-IsBid price b h = sort_by-All earlier (IsBid price market m) _ (
      All-imp (λ (o : Order D) k. as_bid o k.0 k.1.0 k.1.1) _
        (orders_where-All (λ o. (o.side ≡ OrderSide.buy) × IsFundable market m o) (λ p. le price p)
          (λ p q e on. rw e at on) b.bids h.0))
    where
      as_bid :
          (o : Order D)
          → le price (effective_price o) ≡ true
          → o.side ≡ OrderSide.buy
          → IsFundable market m o
          → IsBid price market m o
      as_bid o crosses side f = record {
        of_market = f.of_market;
        left_nonneg = f.left_nonneg;
        within = ground arith;
        price_nonneg = f.price_nonneg;
        account = subst (λ s. contains_key (account_on s o) m ≡ true) side (f.account);
      }

  pub crossing_asks-IsAsk :
      (price : D) (b : OrderBook D)
      → AreFundable b
      → All (IsAsk price market m) (crossing_asks price b)
  crossing_asks-IsAsk price b h = sort_by-All earlier (IsAsk price market m) _ (
      All-imp (λ (o : Order D) k. as_ask o k.0 k.1.0 k.1.1) _
        (orders_where-All (λ o. (o.side ≡ OrderSide.sell) × IsFundable market m o) (λ p. le p price)
          (λ p q e on. rw e at on) b.asks h.1))
    where
      as_ask :
          (o : Order D)
          → le (effective_price o) price ≡ true
          → o.side ≡ OrderSide.sell
          → IsFundable market m o
          → IsAsk price market m o
      as_ask o crosses side f = record {
        of_market = f.of_market;
        left_nonneg = f.left_nonneg;
        within = ground arith;
        price_nonneg = f.price_nonneg;
        account = subst (λ s. contains_key (account_on s o) m ≡ true) side (f.account);
      }

  pub crossing_sum :
      (j : Key) (price : D) (b : OrderBook D)
      → AreFundable b
      → sum_of (bid_reserve j) (crossing_bids price b)
          +ℤ sum_of (ask_reserve j) (crossing_asks price b)
        ≤ℤ book_sum (bid_reserve j) (ask_reserve j) b
  crossing_sum j price b (hb, ha) =
      let bids =
        All-imp (λ (o : Order D) k. bid_reserve-nonneg j o k.1) (level_orders b.bids)
          (AreInLevel-All (λ o. (o.side ≡ OrderSide.buy) × IsFundable market m o) b.bids hb) in
      let asks =
        All-imp (λ (o : Order D) k. ask_reserve-nonneg j o k.1) (level_orders b.asks)
          (AreInLevel-All (λ o. (o.side ≡ OrderSide.sell) × IsFundable market m o) b.asks ha) in
      omega (
        int_laws,
        parts (sum_of-sort_by earlier (bid_reserve j) (orders_where (λ p. le price p) b.bids)),
        parts (sum_of-sort_by earlier (ask_reserve j) (orders_where (λ p. le p price) b.asks)),
        sum_of-orders_where (bid_reserve j) (λ p. le price p) b.bids bids,
        sum_of-orders_where (ask_reserve j) (λ p. le p price) b.asks asks,
      )
