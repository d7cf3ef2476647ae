-- ===== src/MatchCore/Matcher/Steps.antt =====
-- The loops of crates/openmatch-matchcore/src/matcher.rs and the single fills that specify them.
use openmatch.Base.{Returns, Returns-imp, Returns-bind, ◌≢◌, List, [], ◌∷◌, ◌++◌, arith, sym}
use mathlib.Core.List.{append-nil}
use openmatch.Decimal.{Decimal}
use openmatch.Types.{Order}
use openmatch.Pairing.{Fills, fill_bid, enough_fuel}
use openmatch.Pairing.Steps.{
  Reaches, stop, standing, Reaches-trans, fill_bid-Returns, left_of_le, pass,
}
use openmatch.MatchCore.Matcher.{Auction, trade_of, never_stops, fill_bids}

abbrev pub TwoUsers : {D : Type 0} → Order D → Order D → Type 0
TwoUsers bid ask = bid.user_id ≢ ask.user_id

module _ {D : Type 0} ⦃d : Decimal D⦄ where
  -- The loops of the matcher end, from any fills so far, and get from the orders and trades at their
  -- start to those at their end by steps that each pair any bid with any ask of another user, both
  -- with something left, for the smaller of the two quantities.
  pub fill_bids-Returns :
      (a : Auction D) (done bids : List (Order D)) (f : Fills D)
      → Returns
          (λ (r : List (Order D) × Fills D).
            Reaches (trade_of a) TwoUsers (standing (done ++ bids) f) (standing r.0 r.1))
          (fill_bids a done bids f)
  unfolding fill_bids
  fill_bids-Returns a done [] f = rw (append-nil done) (stop _)
  fill_bids-Returns a done (bid ∷ bids) f =
      Returns-bind _ (fill_bid (trade_of a) never_stops (enough_fuel f) bid f)
        (λ (r : Order D × Fills D). fill_bids a (done ++ r.0 ∷ []) bids r.1)
        (fill_bid-Returns (trade_of a) never_stops TwoUsers (enough_fuel f) bid f.passed f.rest
          f.trades f.fill_seq done bids (λ o x h. h) (λ ask ne s. ne) (omega arith)
          (omega (arith, left_of_le bid)))
        (λ (r : Order D × Fills D) h.
          Returns-imp
            (λ (q : List (Order D) × Fills D) k. Reaches-trans h (rw (sym (pass done bids r.0)) k))
            (fill_bids a (done ++ r.0 ∷ []) bids r.1)
            (fill_bids-Returns a (done ++ r.0 ∷ []) bids r.1))
