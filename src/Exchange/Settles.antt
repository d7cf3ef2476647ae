-- ===== src/Exchange/Settles.antt =====
-- The trades of a sealed batch (crates/openmatch-matchcore/src/matcher.rs) in the settlement
-- (crates/openmatch-settlement/src/tier1.rs).
use openmatch.Base.{
  ℕ, ◌≡◌, subst, List, [], some, false, ◌+ℤ◌, ◌≤ℤ◌, int_laws, parts, ◌=?◌, nat_eq, string_eq,
  pair_eq, All, All-imp, sum_of, sum_of-nonneg, Allows,
}
use openmatch.Decimal.{Decimal}
use openmatch.Decimal.Products.{HasExactProducts}
use openmatch.Types.{Order, TradeBundle, SealedBatch, MarketPair}
use openmatch.Accounts.{Key, Accounts}
use openmatch.Accounts.Frozen.{frozen}
use openmatch.Pairing.{start_fills}
use openmatch.Pairing.Steps.{Standing, standing}
use openmatch.MatchCore.OrderBook.{OrderBook, new_book, drain_all}
use openmatch.MatchCore.OrderBook.Placed.{ArePlaced}
use openmatch.MatchCore.Matcher.{
  fill_book, crossing_bids, crossing_asks, match_sealed_batch, bundle, no_trades,
}
use openmatch.MatchCore.Matcher.Bundles.{HoldsFrom, match_sealed_batch-bundle}
use openmatch.MatchCore.Matcher.Book.{fill_book-ArePlaced}
use openmatch.Settlement.Tier1.{Tier1Settler, run}
use openmatch.Settlement.Tier1.Funded.{owed, IsSound, AreNew, AllSettle, settlements, settle_each}
use openmatch.Exchange.Reserve.{bid_reserve, ask_reserve, Fits, Reaches-held, held_covers}
use openmatch.Exchange.Orders.{
  reserve, reserve-nonneg, IsFundable, crossing_bids-IsBid, crossing_asks-IsAsk, crossing_sum,
}
use openmatch.MatchCore.Matcher.Totals.{book_sum, fill_book_sum}

module _ {D : Type 0} ⦃d : Decimal D⦄ (laws : HasExactProducts D) (market : MarketPair)
    (m : Accounts D) (apart : (market.base =? market.quote) ≡ false) where
  -- What the trades take is within what the orders reserve.
  abbrev Affords : List (Order D) → TradeBundle D → Type 0
  Affords orders r =
      All (IsSound m) r.trades × ((j : Key) → sum_of (owed j) r.trades ≤ℤ sum_of (reserve j) orders)

  fills-Affords :
      (sha256 : List ℕ → List ℕ) (batch : SealedBatch D) (book : OrderBook D)
      → ArePlaced (IsFundable market m) book
      → ((j : Key)
          → book_sum (bid_reserve j) (ask_reserve j) book ≤ℤ sum_of (reserve j) batch.orders)
      → HoldsFrom sha256 batch (Affords batch.orders) book
  unfolding bundle
  fills-Affords sha256 batch book h within a bids f same k =
      let start : Standing D =
        standing (crossing_bids a.price book) (start_fills (crossing_asks a.price book)) in
      let fits : Fits laws a market m apart start = (
        crossing_bids-IsBid laws market m apart a.price book h,
        crossing_asks-IsAsk laws market m apart a.price book h,
        tt,
      ) in
      let left = λ (j : Key). Reaches-held laws a market m apart j k fits in
      (
        (left (0, market.base)).0.2,
        λ j. omega (
          int_laws,
          held_covers laws a market m apart j (standing bids f) (left j).0,
          (left j).1,
          crossing_sum laws market m apart j a.price book h,
          within j,
        ),
      )

  no_trades-Affords :
      (sha256 : List ℕ → List ℕ) (batch : SealedBatch D) (os : List (Order D))
      → All (IsFundable market m) batch.orders
      → Affords batch.orders (no_trades sha256 batch os)
  no_trades-Affords sha256 batch os h = (
    tt,
    λ j. sum_of-nonneg (reserve j) batch.orders (
        All-imp (λ (o : Order D) f. reserve-nonneg laws market m apart j o o.side f) batch.orders
          h),
  )

  -- The trades of the bundle that the matcher returns take no more from any account than the orders of the
  -- batch reserve.
  match_sealed_batch-Affords :
      (sha256 : List ℕ → List ℕ) (clock : ℕ → ℕ) (batch : SealedBatch D)
      → All (IsFundable market m) batch.orders
      → Allows (Affords batch.orders) (match_sealed_batch sha256 clock batch)
  match_sealed_batch-Affords sha256 clock batch fs =
      match_sealed_batch-bundle sha256 batch (Affords batch.orders) clock
        (λ e. no_trades-Affords sha256 batch [] fs)
        (λ x. no_trades-Affords sha256 batch (drain_all (fill_book batch.orders (new_book x))).0 fs)
        λ x.
          let empty = new_book {D = D} x in
          fills-Affords sha256 batch (fill_book batch.orders empty)
            (fill_book-ArePlaced (IsFundable market m) batch.orders empty fs (tt, tt))
            (λ j. omega (
              int_laws,
              fill_book_sum (bid_reserve j) (ask_reserve j) batch.orders empty (
                  All-imp (λ (o : Order D) f. reserve-nonneg laws market m apart j o o.side f)
                    batch.orders fs),
            ))

module _ {D : Type 0} ⦃d : Decimal D⦄ where
  -- If every order of a sealed batch is in one market of two assets, has no negative price or quantity
  -- left, and its account at the settler exists; if what every account has frozen covers what all the
  -- orders of the batch may take from it, the quantity left for a sell, and for a buy that quantity at
  -- its effective price; if products are exact; and if no trade of the bundle has the id of a settled
  -- trade or of another: then every trade of the bundle settles, one after the other, and together they
  -- take no more from an account than the orders may.
  pub match_sealed_batch-settles :
      (sha256 : List ℕ → List ℕ) (clock : ℕ → ℕ) (batch : SealedBatch D) (s : Tier1Settler D)
      (market : MarketPair) (r : TradeBundle D)
      → HasExactProducts D
      → (market.base =? market.quote) ≡ false
      → All (IsFundable market s.balances) batch.orders
      → ((j : Key) → sum_of (reserve j) batch.orders ≤ℤ frozen j s.balances)
      → match_sealed_batch sha256 clock batch ≡ some r
      → AreNew s.idempotency.settled r.trades
      → AllSettle r.trades s
        × ((j : Key)
            → frozen j s.balances
              ≤ℤ frozen j (run (settlements r.trades) s).balances
                +ℤ sum_of (reserve j) batch.orders)
  match_sealed_batch-settles sha256 clock batch s market r laws apart fs covered matched new =
      let (sound, within) =
        subst (Allows (Affords laws market s.balances apart batch.orders)) matched
          (match_sealed_batch-Affords laws market s.balances apart sha256 clock batch fs) in
      let (done, taken) =
        settle_each r.trades s sound new (λ j. omega (int_laws, within j, covered j)) in
      (done, λ j. omega (int_laws, within j, parts (taken j)))
