-- ===== src/MatchCore/Matcher/Conservation.antt =====
-- Quantities over the loops of crates/openmatch-matchcore/src/matcher.rs, order by order.
use openmatch.Base.{
  Returns, Returns-imp, ◌≡◌, refl, List, [], ◌++◌, All, ◌+ℤ◌, pos, ◌≤ℤ◌, ◌<ℤ◌, int_laws, parts,
}
use openmatch.Decimal.{Decimal}
use openmatch.Types.{Order, OrderId}
use openmatch.Pairing.{Fills, start_fills}
use openmatch.Base.{sum_of}
use openmatch.Pairing.Volume.{left_for, taken_by, made_by, IsOfFill, Reaches-volume, Reaches-Filled}
use openmatch.MatchCore.Matcher.{Auction, trade_of, fill_bids}
use openmatch.MatchCore.Matcher.Steps.{fill_bids-Returns}

module _ {D : Type 0} ⦃d : Decimal D⦄ where
  pub trade_of-IsOfFill : (a : Auction D) → IsOfFill (trade_of a)
  trade_of-IsOfFill a = record {
    of_bid = λ n bid ask. refl;
    of_ask = λ n bid ask. refl;
    for_quantity = λ n bid ask. refl;
  }

  -- If no order has a negative quantity, the loops of the matcher end, on any bids and asks, and for
  -- every order id: what the bids of that id have left, with what the trades take for it, is what
  -- they had; so for the asks and what the trades make; no order has a negative quantity left, and
  -- every trade has a positive quantity.
  pub fill_bids_conserves :
      (a : Auction D) (bids asks : List (Order D))
      → All (λ o. pos 0 ≤ℤ d.units o.remaining_qty) bids
      → All (λ o. pos 0 ≤ℤ d.units o.remaining_qty) asks
      → Returns
          (λ (r : List (Order D) × Fills D).
            let (bids', f) = r in
            ((i : OrderId)
              → (sum_of (left_for i) bids' +ℤ sum_of (taken_by i) f.trades
                  ≡ sum_of (left_for i) bids)
                × (sum_of (left_for i) (f.passed ++ f.rest) +ℤ sum_of (made_by i) f.trades
                    ≡ sum_of (left_for i) asks))
            × All (λ o. pos 0 ≤ℤ d.units o.remaining_qty) bids'
            × All (λ o. pos 0 ≤ℤ d.units o.remaining_qty) (f.passed ++ f.rest)
            × All (λ t. pos 0 <ℤ d.units t.quantity) f.trades)
          (fill_bids a [] bids (start_fills asks))
  fill_bids_conserves a bids asks hb ha =
      Returns-imp
        (λ (r : List (Order D) × Fills D) k.
          let (hb', ha', ht) = Reaches-Filled (trade_of-IsOfFill a) k (hb, ha, tt) in
          (
            λ i.
                let (b, c) = Reaches-volume i (trade_of-IsOfFill a) k in
                (omega (int_laws, parts b), omega (int_laws, parts c)),
            hb',
            ha',
            ht,
          ))
        (fill_bids a [] bids (start_fills asks)) (fill_bids-Returns a [] bids (start_fills asks))
