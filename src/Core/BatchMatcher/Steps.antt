-- ===== src/Core/BatchMatcher/Steps.antt =====
-- The loops of crates/openmatch-core/src/batch_matcher.rs and the single fills that specify them.
use openmatch.Base.{
  Returns, Returns-imp, Returns-bind, ◌≡◌, ◌≢◌, List, [], ◌∷◌, ◌++◌, false, arith, sym, Bool-cases,
  inl, inr,
}
use mathlib.Core.List.{append-nil}
use openmatch.Decimal.{Decimal, lt, is_zero}
use openmatch.Types.{Order, effective_price}
use openmatch.Pairing.{Fills, fill_bid, enough_fuel}
use openmatch.Pairing.Steps.{
  Reaches, stop, standing, Reaches-trans, fill_bid-Returns, left_of_le, pass, Allows, GoesOn,
}
use openmatch.Core.BatchMatcher.{Round, trade_of, above_price, fill_buys}

module _ {D : Type 0} ⦃d : Decimal D⦄ (r : Round D) where
  -- Two users, of which the buyer pays at least the price and the seller takes at most the price.
  abbrev pub May : Order D → Order D → Type 0
  May buy sell =
      (buy.user_id ≢ sell.user_id)
      × (lt (effective_price buy) r.price ≡ false)
      × (above_price r sell ≡ false)

  eligible-Allows :
      (buy : Order D)
      → lt (effective_price buy) r.price ≡ false
      → Allows (trade_of r) (above_price r) May buy
  eligible-Allows buy pays sell ne takes = (ne, pays, takes)

  May-GoesOn : GoesOn (trade_of r) (above_price r) May
  unfolding effective_price
  May-GoesOn buy x allows sell ne takes = allows sell ne takes

  fill_buy-Returns :
      (done : List (Order D)) (buy : Order D) (buys : List (Order D)) (f : Fills D)
      → lt (effective_price buy) r.price ≡ false
      → Returns
          (λ (q : Order D × Fills D).
            Reaches
              (trade_of r)
              May
              (standing (done ++ buy ∷ buys) f)
              (standing (done ++ q.0 ∷ buys) q.1))
          (fill_bid (trade_of r) (above_price r) (enough_fuel f) buy f)
  fill_buy-Returns done buy buys f pays =
      fill_bid-Returns (trade_of r) (above_price r) May (enough_fuel f) buy f.passed f.rest f.trades
        f.fill_seq done buys May-GoesOn (eligible-Allows buy pays) (omega arith)
        (omega (arith, left_of_le buy))

  -- The loops end, from any fills so far, by steps that each pair a buy and a sell that may trade,
  -- both with something left.
  pub fill_buys-Returns :
      (done buys : List (Order D)) (f : Fills D)
      → Returns
          (λ (q : List (Order D) × Fills D).
            Reaches (trade_of r) May (standing (done ++ buys) f) (standing q.0 q.1))
          (fill_buys r done buys f)
  unfolding fill_buys
  fill_buys-Returns done [] f = rw (append-nil done) (stop _)
  fill_buys-Returns done (buy ∷ buys) f = elim (Bool-cases (is_zero buy.remaining_qty)) [
    | inl gone ↦
        rw (gone, fill_buys, sym (pass done buys buy)) (fill_buys-Returns (done ++ buy ∷ []) buys f)
    | inr left ↦ elim (Bool-cases (lt (effective_price buy) r.price)) [
      | inl low ↦ rw (left, low, fill_buys) (stop _)
      | inr pays ↦
          rw (left, pays, fill_buys)
            (Returns-bind _ (fill_bid (trade_of r) (above_price r) (enough_fuel f) buy f)
              (λ (q : Order D × Fills D). fill_buys r (done ++ q.0 ∷ []) buys q.1)
              (fill_buy-Returns done buy buys f pays)
              (λ (q : Order D × Fills D) h.
                Returns-imp
                  (λ (p : List (Order D) × Fills D) k.
                    Reaches-trans h (rw (sym (pass done buys q.0)) k))
                  (fill_buys r (done ++ q.0 ∷ []) buys q.1)
                  (fill_buys-Returns (done ++ q.0 ∷ []) buys q.1)))
    ]
  ]
