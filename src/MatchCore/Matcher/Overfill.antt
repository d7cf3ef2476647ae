-- ===== src/MatchCore/Matcher/Overfill.antt =====
-- How much the trades of crates/openmatch-matchcore/src/matcher.rs take from each order of a batch.
use openmatch.Base.{
  All-any, Returns, Allows-Returns, ℕ, ◌≡◌, List, [], ◌++◌, ℤ, pos, ◌≤ℤ◌, ◌<ℤ◌, int_laws, parts,
  All, All-imp, sum_of, sum_of-nonneg, ◌==◌, Bool-cases, inl, inr, arith, nat_eq,
}
use openmatch.Decimal.{Decimal, le}
use openmatch.Sort.Laws.{sort_by-All}
use openmatch.Types.{Order, OrderId, OrderSide, Trade, SealedBatch, effective_price}
use openmatch.Pairing.Volume.{left_for, taken_by, made_by, Reaches-volume, Reaches-Filled}
use openmatch.MatchCore.OrderBook.{OrderBook, new_book, level_orders}
use openmatch.MatchCore.OrderBook.Placed.{ArePlaced, AreInLevel-All}
use openmatch.MatchCore.Matcher.{
  fill_book, crossing_bids, crossing_asks, orders_where, earlier, match_sealed_batch, bundle,
}
use openmatch.MatchCore.Matcher.Bundles.{HoldsFrom, match_sealed_batch-bundle}
use openmatch.MatchCore.Matcher.Conservation.{trade_of-IsOfFill}
use openmatch.MatchCore.Matcher.Limits.{orders_where-All}
use openmatch.MatchCore.Matcher.Returned.{IsModest, match_sealed_batch-Returns}
use openmatch.MatchCore.Matcher.Book.{fill_book-ArePlaced}
use openmatch.MatchCore.Matcher.Totals.{
  sum_of-sort_by, sum_of-orders_where, by_side, book_sum, fill_book_sum,
}

module _ {D : Type 0} ⦃d : Decimal D⦄ where
  abbrev pub HasLeft : Order D → Type 0
  HasLeft o = pos 0 ≤ℤ d.units o.remaining_qty

  -- What the buys of the id `i` have left, and the sells.
  abbrev left_of_buys : OrderId → List (Order D) → ℤ
  left_of_buys i os = sum_of (λ o. by_side (left_for i) (λ x. pos 0) o.side o) os

  abbrev left_of_sells : OrderId → List (Order D) → ℤ
  left_of_sells i os = sum_of (λ o. by_side (λ x. pos 0) (left_for i) o.side o) os

  pub left_for-nonneg : (i : OrderId) (o : Order D) → HasLeft o → pos 0 ≤ℤ left_for i o
  left_for-nonneg i o h = elim (Bool-cases (o.id == i)) [
    | inl same ↦ rw same h
    | inr other ↦ rw other (omega arith)
  ]

  pub crossing-HasLeft :
      (price : D) (b : OrderBook D)
      → ArePlaced HasLeft b
      → All HasLeft (crossing_bids price b) × All HasLeft (crossing_asks price b)
  crossing-HasLeft price b (hb, ha) = (
    sort_by-All earlier HasLeft _ (
        All-imp (λ (o : Order D) k. k.1.1) _
          (orders_where-All (λ o. (o.side ≡ OrderSide.buy) × HasLeft o) (λ p. le price p)
            (λ p q e on. rw e at on) b.bids hb)),
    sort_by-All earlier HasLeft _ (
        All-imp (λ (o : Order D) k. k.1.1) _
          (orders_where-All (λ o. (o.side ≡ OrderSide.sell) × HasLeft o) (λ p. le p price)
            (λ p q e on. rw e at on) b.asks ha)),
  )

  -- No order is filled for more than it has left.
  abbrev pub DoesNotOverfill : List (Order D) → List (Trade D) → Type 0
  DoesNotOverfill orders trades =
      All (λ t. pos 0 <ℤ d.units t.quantity) trades
      × ((i : OrderId)
          → (sum_of (taken_by i) trades ≤ℤ left_of_buys i orders)
            × (sum_of (made_by i) trades ≤ℤ left_of_sells i orders))

  crossing_bids_left :
      (i : OrderId) (price : D) (b : OrderBook D)
      → ArePlaced HasLeft b
      → sum_of (left_for i) (crossing_bids price b) ≤ℤ book_sum (left_for i) (λ x. pos 0) b
  crossing_bids_left i price b h =
      let left =
        All-imp (λ (o : Order D) k. left_for-nonneg i o k.1) (level_orders b.bids)
          (AreInLevel-All (λ o. (o.side ≡ OrderSide.buy) × HasLeft o) b.bids h.0) in
      omega (
        int_laws,
        parts (sum_of-sort_by earlier (left_for i) (orders_where (λ p. le price p) b.bids)),
        sum_of-orders_where (left_for i) (λ p. le price p) b.bids left,
        sum_of-nonneg (λ (o : Order D). pos 0) (level_orders b.asks)
            (All-any (λ (o : Order D). pos 0 ≤ℤ pos 0) (λ o. omega arith) (level_orders b.asks)),
      )

  crossing_asks_left :
      (i : OrderId) (price : D) (b : OrderBook D)
      → ArePlaced HasLeft b
      → sum_of (left_for i) (crossing_asks price b) ≤ℤ book_sum (λ x. pos 0) (left_for i) b
  crossing_asks_left i price b h =
      let left =
        All-imp (λ (o : Order D) k. left_for-nonneg i o k.1) (level_orders b.asks)
          (AreInLevel-All (λ o. (o.side ≡ OrderSide.sell) × HasLeft o) b.asks h.1) in
      omega (
        int_laws,
        parts (sum_of-sort_by earlier (left_for i) (orders_where (λ p. le p price) b.asks)),
        sum_of-orders_where (left_for i) (λ p. le p price) b.asks left,
        sum_of-nonneg (λ (o : Order D). pos 0) (level_orders b.bids)
            (All-any (λ (o : Order D). pos 0 ≤ℤ pos 0) (λ o. omega arith) (level_orders b.bids)),
      )

  fills-DoesNotOverfill :
      (sha256 : List ℕ → List ℕ) (batch : SealedBatch D) (book : OrderBook D)
      → ArePlaced HasLeft book
      → ((i : OrderId)
          → (book_sum (left_for i) (λ x. pos 0) book ≤ℤ left_of_buys i batch.orders)
            × (book_sum (λ x. pos 0) (left_for i) book ≤ℤ left_of_sells i batch.orders))
      → HoldsFrom sha256 batch (λ r. DoesNotOverfill batch.orders r.trades) book
  unfolding bundle
  fills-DoesNotOverfill sha256 batch book h within a bids f same k =
      let (hb, ha) = crossing-HasLeft a.price book h in
      let (left_b, left_a, positive) = Reaches-Filled (trade_of-IsOfFill a) k (hb, ha, tt) in
      let nonneg = λ (i : OrderId) (os : List (Order D)) (hs : All HasLeft os).
        sum_of-nonneg (left_for i) os (All-imp (λ (o : Order D) x. left_for-nonneg i o x) os hs) in
      (
        positive,
        λ i.
            let (b, c) = Reaches-volume i (trade_of-IsOfFill a) k in
            (
              omega (
                int_laws,
                parts b,
                nonneg i bids left_b,
                crossing_bids_left i a.price book h,
                (within i).0,
              ),
              omega (
                int_laws,
                parts c,
                nonneg i (f.passed ++ f.rest) left_a,
                crossing_asks_left i a.price book h,
                (within i).1,
              ),
            ),
      )

  sides-nonneg :
      (i : OrderId) (s : OrderSide) (o : Order D)
      → HasLeft o
      → (pos 0 ≤ℤ by_side (left_for i) (λ x. pos 0) s o)
        × (pos 0 ≤ℤ by_side (λ x. pos 0) (left_for i) s o)
  sides-nonneg i OrderSide.buy o h = (left_for-nonneg i o h, omega arith)
  sides-nonneg i OrderSide.sell o h = (omega arith, left_for-nonneg i o h)

  -- Other overflows than that of the sum of two prices aside, if no order of a sealed batch has a
  -- negative quantity left, nor an effective price that is negative or above half the greatest
  -- decimal, the matcher returns a bundle whose trades are all of positive quantity, and for every
  -- order id: the trades in which it buys add up to no more than the buys of the batch of that id
  -- have left, and those in which it sells to no more than the sells of that id have left.
  pub match_sealed_batch-DoesNotOverfill :
      (sha256 : List ℕ → List ℕ) (clock : ℕ → ℕ) (batch : SealedBatch D)
      → All (λ o. pos 0 ≤ℤ d.units o.remaining_qty) batch.orders
      → All (λ o. IsModest (effective_price o)) batch.orders
      → Returns (λ r. DoesNotOverfill batch.orders r.trades) (match_sealed_batch sha256 clock batch)
  match_sealed_batch-DoesNotOverfill sha256 clock batch h modest =
      let buys = λ (i : OrderId).
        All-imp (λ (o : Order D) k. (sides-nonneg i o.side o k).0) batch.orders h in
      let sells = λ (i : OrderId).
        All-imp (λ (o : Order D) k. (sides-nonneg i o.side o k).1) batch.orders h in
      let nothing : DoesNotOverfill batch.orders [] = (
        tt,
        λ i. (
          sum_of-nonneg (λ (o : Order D). by_side (left_for i) (λ x. pos 0) o.side o) batch.orders
              (buys i),
          sum_of-nonneg (λ (o : Order D). by_side (λ x. pos 0) (left_for i) o.side o) batch.orders
              (sells i),
        ),
      ) in
      Allows-Returns (λ r. DoesNotOverfill batch.orders r.trades)
        (match_sealed_batch sha256 clock batch)
        (match_sealed_batch-bundle sha256 batch (λ r. DoesNotOverfill batch.orders r.trades) clock
          (λ e. nothing) (λ market. nothing)
          λ market.
            fills-DoesNotOverfill sha256 batch (fill_book batch.orders (new_book market))
              (fill_book-ArePlaced HasLeft batch.orders (new_book market) h (tt, tt))
              (λ i. (
                omega (
                  int_laws,
                  fill_book_sum (left_for i) (λ x. pos 0) batch.orders (new_book market) (buys i),
                ),
                omega (
                  int_laws,
                  fill_book_sum (λ x. pos 0) (left_for i) batch.orders (new_book market) (sells i),
                ),
              )))
        (match_sealed_batch-Returns sha256 clock batch modest)
