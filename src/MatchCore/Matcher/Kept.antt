-- ===== src/MatchCore/Matcher/Kept.antt =====
-- What the orders that cross in the book of crates/openmatch-matchcore/src/matcher.rs have left, in the
-- trades of the bundle and the orders that remain.
use openmatch.Base.{
  sum_of, sum_of-append, ℤ, pos, ◌+ℤ◌, ◌≤ℤ◌, int_laws, parts, false, All-append, ◌≡◌, List, [], ◌∷◌,
  ◌++◌, not, any, ◌&&◌, ◌==◌, All, All-imp, if◌then◌else◌, Bool-cases, inl, inr, arith, nat_eq,
}
use openmatch.Decimal.{Decimal, lt, zero_parts}
use openmatch.Types.{Order, OrderId, OrderSide, Trade, TradeBundle, SealedBatch}
use openmatch.MatchCore.OrderBook.{OrderBook, drain_all, level_orders}
use openmatch.MatchCore.Matcher.{
  Auction, trade_of, bundle, crossing_bids, crossing_asks, with_quantity, add_unmatched, is_traded,
}
use openmatch.MatchCore.Matcher.Conservation.{trade_of-IsOfFill}
use openmatch.MatchCore.Matcher.Overfill.{HasLeft, left_for-nonneg, crossing-HasLeft}
use openmatch.MatchCore.OrderBook.Placed.{ArePlaced, AreInLevel-All}
use openmatch.MatchCore.Matcher.Steps.{TwoUsers}
use openmatch.Pairing.{Fills, start_fills}
use openmatch.Pairing.Steps.{Reaches, standing}
use openmatch.Pairing.Volume.{left_for, taken_by, made_by, Reaches-volume, Reaches-Filled}

module _ {D : Type 0} ⦃d : Decimal D⦄ where
  -- The body of the last loop.
  abbrev pub add_one : List (Trade D) → List (Order D) → Order D → List (Order D)
  add_one trades remaining o =
      if not (any (λ r. r.id == o.id) remaining) && not (is_traded o trades)
      then remaining ++ o ∷ []
      else remaining

  add_one-grows :
      (i : OrderId) (trades : List (Trade D)) (remaining : List (Order D)) (o : Order D)
      → HasLeft o
      → sum_of (left_for i) remaining ≤ℤ sum_of (left_for i) (add_one trades remaining o)
  add_one-grows i trades remaining o h =
      elim (Bool-cases (not (any (λ r. r.id == o.id) remaining) && not (is_traded o trades))) [
        | inl added ↦ rw added (
            omega (
              int_laws,
              parts (sum_of-append (left_for i) remaining (o ∷ [])),
              left_for-nonneg i o h,
            ))
        | inr left ↦ rw left (omega arith)
      ]

  nothing_left :
      (i : OrderId) (o : Order D)
      → HasLeft o
      → lt d.zero o.remaining_qty ≡ false
      → left_for i o ≤ℤ pos 0
  nothing_left i o h none_left = elim (Bool-cases (o.id == i)) [
    | inl same ↦ rw same (ground (arith, zero_parts D))
    | inr other ↦ rw other (omega arith)
  ]

  add_unmatched-grows :
      (i : OrderId) (trades : List (Trade D)) (remaining os : List (Order D))
      → All HasLeft os
      → sum_of (left_for i) remaining ≤ℤ sum_of (left_for i) (add_unmatched trades remaining os)
  unfolding add_unmatched
  add_unmatched-grows i trades remaining [] h = omega arith
  add_unmatched-grows i trades remaining (o ∷ os) (here, later) = omega (
    arith,
    add_one-grows i trades remaining o here,
    add_unmatched-grows i trades (add_one trades remaining o) os later,
  )

  -- Only orders with nothing left go.
  with_quantity-keeps :
      (i : OrderId) (os : List (Order D))
      → All HasLeft os
      → sum_of (left_for i) os ≤ℤ sum_of (left_for i) (with_quantity os)
  with_quantity-keeps i [] h = omega arith
  with_quantity-keeps i (o ∷ os) (here, later) = elim (Bool-cases (lt d.zero o.remaining_qty)) [
    | inl some_left ↦ rw some_left (omega (int_laws, with_quantity-keeps i os later))
    | inr none_left ↦
        rw none_left
          (omega (int_laws, with_quantity-keeps i os later, nothing_left i o here none_left))
  ]

  -- What the orders of the id `i` that cross at the price have left.
  abbrev pub crossing_left : OrderId → D → OrderBook D → ℤ
  crossing_left i price b =
      sum_of (left_for i) (crossing_bids price b) +ℤ sum_of (left_for i) (crossing_asks price b)

  -- In a bundle, what the orders of the id `i` have left, and what its trades take from them.
  abbrev pub kept : OrderId → TradeBundle D → ℤ
  kept i r =
      sum_of (left_for i) r.remaining_orders
      +ℤ (sum_of (taken_by i) r.trades +ℤ sum_of (made_by i) r.trades)

  drain_all-HasLeft : (book : OrderBook D) → ArePlaced HasLeft book → All HasLeft (drain_all book).0
  unfolding drain_all
  drain_all-HasLeft book (hb, ha) =
      All-append HasLeft (level_orders book.bids) (level_orders book.asks)
        (All-imp (λ (o : Order D) k. k.1) (level_orders book.bids)
          (AreInLevel-All (λ o. (o.side ≡ OrderSide.buy) × HasLeft o) book.bids hb))
        (All-imp (λ (o : Order D) k. k.1) (level_orders book.asks)
          (AreInLevel-All (λ o. (o.side ≡ OrderSide.sell) × HasLeft o) book.asks ha))

  pub fills_kept :
      (a : Auction D) (batch : SealedBatch D) (book : OrderBook D) (bids : List (Order D))
      (f : Fills D) (i : OrderId)
      → ArePlaced HasLeft book
      → Reaches
          (trade_of a)
          TwoUsers
          (standing (crossing_bids a.price book) (start_fills (crossing_asks a.price book)))
          (standing bids f)
      → crossing_left i a.price book ≤ℤ kept i (bundle a batch book bids f)
  unfolding bundle
  fills_kept a batch book bids f i h k =
      let (hb, ha) = crossing-HasLeft a.price book h in
      let (left_b, left_a, positive) = Reaches-Filled (trade_of-IsOfFill a) k (hb, ha, tt) in
      let (b, c) = Reaches-volume i (trade_of-IsOfFill a) k in
      let asks = f.passed ++ f.rest in
      let left = with_quantity (bids ++ asks) in
      omega (
        int_laws,
        parts b,
        parts c,
        parts (sum_of-append (left_for i) bids asks),
        with_quantity-keeps i (bids ++ asks) (All-append HasLeft bids asks left_b left_a),
        add_unmatched-grows i f.trades left (drain_all book).0 (drain_all-HasLeft book h),
      )
